-- ===== src/Node.antt =====
-- `Node` of crates/entangle/src/node.rs: a process with an identifier, a lock file that shows that it
-- lives, and the builders of services.
mod Tests
use Prim.Native.String.{String}
use entangle.Prelude.{ℕ, Bool, Option, none, some, Result, ok, err}
use entangle.Platform.Errors.{PlatformError}
use entangle.Platform.FileLock
use entangle.Platform.ProcessMonitor
use entangle.Platform.ProcessMonitor.{Names, ProcessMonitor}
use entangle.Platform.Signal
use entangle.Config.{EntangleConfig, default_config, load}
use entangle.Errors.{IpcError, platform}
use entangle.Service.PubSub
use entangle.Service.PubSub.{PubSubBuilder}
use entangle.Service.Event
use entangle.Service.Event.{EventBuilder}
use entangle.Service.ReqRes
use entangle.Service.ReqRes.{ReqResBuilder}
use entangle.Service.Blackboard.{BlackboardBuilder}

pub record Node : Type 0 where
  pub id : ℕ
  pub config : EntangleConfig
  pub monitor : ProcessMonitor

pub record NodeBuilder : Type 0 where
  pub config : EntangleConfig
  pub name : Option String

unfoldable pub builder : NodeBuilder
builder = record { config = default_config; name = none }

unfoldable pub with_name : String → NodeBuilder → NodeBuilder
with_name name b = record b { name = some name }

unfoldable pub config_file :
    (String → Option EntangleConfig) → Option String → NodeBuilder → NodeBuilder
config_file from_str content b = record b { config = load from_str content }

unfoldable pub with_config : EntangleConfig → NodeBuilder → NodeBuilder
with_config config b = record b { config = config }

-- The name of the builder goes before that of the configuration.
abbrev pub named : Option String → EntangleConfig → EntangleConfig
named (some name) config = record config { node_name = some name }
named none config = config

abbrev installed :
    ℕ → EntangleConfig → ProcessMonitor → Result PlatformError (Unit {0}) → Result IpcError Node
installed id config monitor (ok done) = ok (record { id = id; config = config; monitor = monitor })
installed id config monitor (err e) = err (platform e)

abbrev monitored :
    ℕ
    → EntangleConfig
    → Result PlatformError (Unit {0})
    → Result PlatformError ProcessMonitor
    → Result IpcError Node
monitored id config handlers (ok monitor) = installed id config monitor handlers
monitored id config handlers (err e) = err (platform e)

-- `create`, with the identifier that was generated and the answers to the registration and to the two
-- calls of signal(2).
unfoldable pub create :
    Names → ℕ → Bool → FileLock.Answers → Bool → Bool → NodeBuilder → Result IpcError Node
create names id create_dir os term_installed int_installed b =
    monitored id (named b.name (b.config)) (Signal.install term_installed int_installed)
      (ProcessMonitor.register names id create_dir os)

abbrev pub node_name : Node → Option String
node_name n = n.config.node_name

pub record ServiceSelector : Type 0 where
  pub service_name : String
  pub config : EntangleConfig
  pub node_id : ℕ

unfoldable pub service : String → Node → ServiceSelector
service name n = record { service_name = name; config = n.config; node_id = n.id }

unfoldable pub publish_subscribe : ServiceSelector → PubSubBuilder
publish_subscribe s = PubSub.new s.config.default_pubsub_qos s.service_name s.node_id

unfoldable pub event : ServiceSelector → EventBuilder
event s = Event.new s.config.default_event_qos s.service_name s.node_id

unfoldable pub request_response : ServiceSelector → ReqResBuilder
request_response s = ReqRes.new s.service_name s.node_id

unfoldable pub blackboard : ServiceSelector → BlackboardBuilder
blackboard s = record { service_name = s.service_name; node_id = s.node_id }
