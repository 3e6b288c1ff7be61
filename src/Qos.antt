-- ===== src/Qos.antt =====
-- The quality-of-service records of crates/entangle/src/contracts.rs, and their defaults in
-- crates/entangle/src/config.rs.
use entangle.Prelude.{ℕ}

pub data OverflowStrategy : Type 0 where
  overwrite drop_newest block : OverflowStrategy

pub record PubSubQos : Type 0 where
  pub history_size : ℕ
  pub max_publishers : ℕ
  pub max_subscribers : ℕ
  pub subscriber_overflow : OverflowStrategy
  pub max_loaned_samples : ℕ
  pub buffer_size : ℕ

pub record EventQos : Type 0 where
  pub max_notifiers : ℕ
  pub max_listeners : ℕ

pub record ReqResQos : Type 0 where
  pub max_clients : ℕ
  pub max_servers : ℕ
  pub max_pending_requests : ℕ

abbrev pub default_pubsub_qos : PubSubQos
default_pubsub_qos = record {
  history_size = 1;
  max_publishers = 8;
  max_subscribers = 16;
  subscriber_overflow = overwrite;
  max_loaned_samples = 4;
  buffer_size = 64;
}

abbrev pub default_event_qos : EventQos
default_event_qos = record { max_notifiers = 8; max_listeners = 16 }
