-- ===== src/Config.antt =====
-- `EntangleConfig` of crates/entangle/src/config.rs.
use Prim.Native.String.{String}
use entangle.Prelude.{Option, none, some}
use entangle.Qos.{PubSubQos, EventQos, default_pubsub_qos, default_event_qos}

pub record EntangleConfig : Type 0 where
  pub shm_root : String
  pub node_name : Option String
  pub default_pubsub_qos : PubSubQos
  pub default_event_qos : EventQos

abbrev pub default_config : EntangleConfig
default_config = record {
  shm_root = "/tmp/entangle/";
  node_name = none;
  default_pubsub_qos = default_pubsub_qos;
  default_event_qos = default_event_qos;
}

abbrev decoded : Option EntangleConfig → EntangleConfig
decoded (some config) = config
decoded none = default_config

-- `load`: what the file holds, if it can be read, and the decoder of RON are arguments.
unfoldable pub load : (String → Option EntangleConfig) → Option String → EntangleConfig
load from_str (some content) = decoded (from_str content)
load from_str none = default_config
