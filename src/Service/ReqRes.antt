-- ===== src/Service/ReqRes.antt =====
-- The builder of request-response services: crates/entangle/src/service/reqres.rs.
use Prim.Native.String.{String, ◌++◌}
use entangle.Prelude.{ℕ, Result, none, max}
use entangle.Errors.{IpcError}
use entangle.Qos.{ReqResQos}
use entangle.Port.ReqRes.{ReqResShared}
use entangle.Service.Config
use entangle.Service.Config.{StaticConfig, reqres}
use entangle.Service.Registry.{Codec, Files, Answers}
use entangle.Service.Lifecycle
use entangle.Service.Payload.{Payload, serve}

pub record ReqResBuilder : Type 0 where
  pub service_name : String
  pub node_id : ℕ
  pub qos : ReqResQos

unfoldable pub new : String → ℕ → ReqResBuilder
new service_name node_id = record {
  service_name = service_name;
  node_id = node_id;
  qos = record { max_clients = 8; max_servers = 1; max_pending_requests = 16 };
}

unfoldable pub max_clients : ℕ → ReqResBuilder → ReqResBuilder
max_clients n b = record b { qos = record (b.qos) { max_clients = n } }

unfoldable pub max_servers : ℕ → ReqResBuilder → ReqResBuilder
max_servers n b = record b { qos = record (b.qos) { max_servers = n } }

unfoldable pub max_pending_requests : ℕ → ReqResBuilder → ReqResBuilder
max_pending_requests n b = record b { qos = record (b.qos) { max_pending_requests = n } }

pub record ReqResService : Type 0 where
  pub service_name : String
  pub node_id : ℕ
  pub qos : ReqResQos
  pub shared : ReqResShared

-- The larger of the two types counts.
abbrev pub static_config : Payload → Payload → ReqResBuilder → StaticConfig
static_config request response b =
    Config.new reqres b.service_name (request.type_name ++ ":" ++ response.type_name)
      (max request.size response.size) (max request.align response.align)

abbrev pub service : ReqResBuilder → ReqResService
service b = record {
  service_name = b.service_name;
  node_id = b.node_id;
  qos = b.qos;
  shared = record { service_name = b.service_name; server = none };
}

unfoldable pub open_or_create :
    Codec
    → Payload
    → Payload
    → Answers
    → ReqResBuilder
    → Files
    → Result IpcError ReqResService × Files
open_or_create codec request response os b files =
    serve (service b) (Lifecycle.open_or_create codec (static_config request response b) os files)
