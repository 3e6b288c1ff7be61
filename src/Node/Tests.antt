-- ===== src/Node/Tests.antt =====
-- A node of a configured name, and the builders that it gives.
use entangle.Prelude.{◌≡◌, refl, true, none, some, ok}
use entangle.Platform.FileLock.{FileLock}
use entangle.Platform.FileLock
use entangle.Platform.ProcessMonitor
use entangle.Platform.ProcessMonitor.{Names}
use entangle.Platform.Signal
use entangle.Config.{default_config, load}
use entangle.Qos.{default_pubsub_qos}
use entangle.Service.PubSub
use entangle.Node.{Node, builder, with_name, config_file, create, service, publish_subscribe}

abbrev names : Names
names = record { render = λ id. "2a"; parse = λ text. some 42 }

abbrev lock : FileLock
lock = record { path = "2a"; is_locked = true }

abbrev made : Node
made = record {
  id = 42;
  config = record default_config { node_name = some "radar" };
  monitor = record { lock = lock; node_id = 42 };
}

node_made :
    create names 42 true
      (record { create_dir = true; opens = true; flock = true })
      true
      true
      (with_name "radar" builder)
    ≡ ok made
unfolding create with_name builder Signal.install ProcessMonitor.register FileLock.acquire
node_made = refl

unreadable : config_file (λ content. none) none builder ≡ builder
unfolding config_file load builder
unreadable = refl

speeds :
    publish_subscribe (service "speed" made)
    ≡ record { service_name = "speed"; node_id = 42; qos = default_pubsub_qos }
unfolding publish_subscribe service PubSub.new
speeds = refl
