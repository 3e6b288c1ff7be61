-- ===== src/Service/PubSub.antt =====
-- The builder of publish-subscribe services: crates/entangle/src/service/pubsub.rs. Each service that
-- is opened has a wiring of its own.
use Prim.Native.String.{String}
use entangle.Prelude.{ℕ, Result, []}
use entangle.Errors.{IpcError}
use entangle.Qos.{PubSubQos, OverflowStrategy}
use entangle.Port.Publisher.{PubSubShared}
use entangle.Service.Config
use entangle.Service.Config.{StaticConfig, pubsub}
use entangle.Service.Registry.{Codec, Files, Answers}
use entangle.Service.Lifecycle
use entangle.Service.Payload.{Payload, serve}

pub record PubSubBuilder : Type 0 where
  pub service_name : String
  pub node_id : ℕ
  pub qos : PubSubQos

-- With the defaults of the node's configuration.
unfoldable pub new : PubSubQos → String → ℕ → PubSubBuilder
new default_qos service_name node_id = record {
  service_name = service_name;
  node_id = node_id;
  qos = default_qos;
}

unfoldable pub history_size : ℕ → PubSubBuilder → PubSubBuilder
history_size size b = record b { qos = record (b.qos) { history_size = size } }

unfoldable pub max_publishers : ℕ → PubSubBuilder → PubSubBuilder
max_publishers n b = record b { qos = record (b.qos) { max_publishers = n } }

unfoldable pub max_subscribers : ℕ → PubSubBuilder → PubSubBuilder
max_subscribers n b = record b { qos = record (b.qos) { max_subscribers = n } }

unfoldable pub subscriber_overflow : OverflowStrategy → PubSubBuilder → PubSubBuilder
subscriber_overflow strategy b = record b {
  qos = record (b.qos) { subscriber_overflow = strategy };
}

unfoldable pub max_loaned_samples : ℕ → PubSubBuilder → PubSubBuilder
max_loaned_samples n b = record b { qos = record (b.qos) { max_loaned_samples = n } }

pub record PubSubService : Type 0 where
  pub service_name : String
  pub node_id : ℕ
  pub qos : PubSubQos
  pub shared : PubSubShared

-- The configuration that the three operations begin with, and the service that they end with.
abbrev pub static_config : Payload → PubSubBuilder → StaticConfig
static_config payload b =
    Config.new pubsub b.service_name payload.type_name payload.size payload.align

abbrev pub service : PubSubBuilder → PubSubService
service b = record {
  service_name = b.service_name;
  node_id = b.node_id;
  qos = b.qos;
  shared = record {
    publishers = [];
    service_name = b.service_name;
    qos = b.qos;
    publisher_counter = 0;
  };
}

unfoldable pub open_or_create :
    Codec → Payload → Answers → PubSubBuilder → Files → Result IpcError PubSubService × Files
open_or_create codec payload os b files =
    serve (service b) (Lifecycle.open_or_create codec (static_config payload b) os files)

unfoldable pub create :
    Codec → Payload → Answers → PubSubBuilder → Files → Result IpcError PubSubService × Files
create codec payload os b files =
    serve (service b) (Lifecycle.create codec (static_config payload b) os files)

-- `open`.
unfoldable pub open_existing :
    Codec → Payload → PubSubBuilder → Files → Result IpcError PubSubService × Files
open_existing codec payload b files =
    serve (service b) (Lifecycle.open_existing codec (static_config payload b) files, files)
