-- ===== src/Service/Event.antt =====
-- The builder of event services: crates/entangle/src/service/event.rs.
use Prim.Native.String.{String}
use entangle.Prelude.{ℕ, Result}
use entangle.Errors.{IpcError}
use entangle.Qos.{EventQos}
use entangle.Service.Config
use entangle.Service.Config.{StaticConfig, event}
use entangle.Service.Registry.{Codec, Files, Answers}
use entangle.Service.Lifecycle
use entangle.Service.Payload.{serve}

pub record EventBuilder : Type 0 where
  pub service_name : String
  pub node_id : ℕ
  pub qos : EventQos

unfoldable pub new : EventQos → String → ℕ → EventBuilder
new default_qos service_name node_id = record {
  service_name = service_name;
  node_id = node_id;
  qos = default_qos;
}

unfoldable pub max_notifiers : ℕ → EventBuilder → EventBuilder
max_notifiers n b = record b { qos = record (b.qos) { max_notifiers = n } }

unfoldable pub max_listeners : ℕ → EventBuilder → EventBuilder
max_listeners n b = record b { qos = record (b.qos) { max_listeners = n } }

pub record EventService : Type 0 where
  pub service_name : String
  pub node_id : ℕ
  pub qos : EventQos

-- An event has no payload.
abbrev pub static_config : EventBuilder → StaticConfig
static_config b = Config.new event b.service_name "event" 0 1

abbrev pub service : EventBuilder → EventService
service b = record { service_name = b.service_name; node_id = b.node_id; qos = b.qos }

unfoldable pub open_or_create :
    Codec → Answers → EventBuilder → Files → Result IpcError EventService × Files
open_or_create codec os b files =
    serve (service b) (Lifecycle.open_or_create codec (static_config b) os files)
