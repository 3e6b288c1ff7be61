-- ===== src/Service/Blackboard.antt =====
-- The builder of blackboard services: crates/entangle/src/service/blackboard.rs.
use Prim.Native.String.{String}
use entangle.Prelude.{ℕ, Result, none}
use entangle.Errors.{IpcError}
use entangle.Port.Blackboard.{BlackboardShared}
use entangle.Service.Config
use entangle.Service.Config.{StaticConfig, blackboard}
use entangle.Service.Registry.{Codec, Files, Answers}
use entangle.Service.Lifecycle
use entangle.Service.Payload.{Payload, serve}

pub record BlackboardBuilder : Type 0 where
  pub service_name : String
  pub node_id : ℕ

pub record BlackboardService : Type 0 where
  pub service_name : String
  pub node_id : ℕ
  pub shared : BlackboardShared

abbrev pub static_config : Payload → BlackboardBuilder → StaticConfig
static_config payload b =
    Config.new blackboard b.service_name payload.type_name payload.size payload.align

abbrev pub service : BlackboardBuilder → BlackboardService
service b = record {
  service_name = b.service_name;
  node_id = b.node_id;
  shared = record { writer = none };
}

unfoldable pub open_or_create :
    Codec
    → Payload
    → Answers
    → BlackboardBuilder
    → Files
    → Result IpcError BlackboardService × Files
open_or_create codec payload os b files =
    serve (service b) (Lifecycle.open_or_create codec (static_config payload b) os files)
