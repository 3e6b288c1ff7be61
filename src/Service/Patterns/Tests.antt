-- ===== src/Service/Patterns/Tests.antt =====
-- Services of the same path, opened by the builders of every pattern.
use Prim.Native.String.{String}
use entangle.Prelude.{◌≡◌, refl, none, some, [], ok, err}
use entangle.Errors.{incompatible_qos, service}
use entangle.Qos.{default_pubsub_qos, default_event_qos}
use entangle.Service.Name.{service_path, safe_name}
use entangle.Service.Registry.{Codec, Files, read_file}
use entangle.Service.Registry.Files.{granted}
use entangle.Service.Payload.{Payload}
use entangle.Service.PubSub
use entangle.Service.PubSub.{PubSubBuilder}
use entangle.Service.Event
use entangle.Service.Event.{EventBuilder}
use entangle.Service.ReqRes
use entangle.Service.ReqRes.{ReqResBuilder}
use entangle.Service.Blackboard
use entangle.Service.Blackboard.{BlackboardBuilder}
use entangle.Service.Patterns.{
  without_publishers, open_or_create-open_existing, open_or_create_apart,
}

abbrev number : Payload
number = record { type_name = "u64"; size = 8; align = 8 }

abbrev builder : String → PubSubBuilder
builder name = record { service_name = name; node_id = 1; qos = default_pubsub_qos }

abbrev events : EventBuilder
events = record { service_name = "a_b"; node_id = 2; qos = default_event_qos }

abbrev requests : ReqResBuilder
requests = record {
  service_name = "a_b";
  node_id = 3;
  qos = record { max_clients = 8; max_servers = 1; max_pending_requests = 16 };
}

abbrev board : BlackboardBuilder
board = record { service_name = "a_b"; node_id = 4 }

abbrev codec : Codec
codec = record {
  encode = λ config. some "(speed)";
  decode = λ content. some (PubSub.static_config number (builder "a/b"));
}

same_path : service_path "a_b" ≡ service_path "a/b"
unfolding service_path safe_name
same_path = refl

unread : read_file (service_path "a/b") [] ≡ none
unfolding read_file
unread = refl

open_or_create-open_existing_example :
    (after : Files) × (PubSub.open_or_create codec number granted (builder "a/b") []
      ≡ (ok (without_publishers (builder "a/b")), after))
    × (PubSub.open_or_create codec number granted (builder "a_b") after
        ≡ (ok (without_publishers (builder "a_b")), after))
    × (PubSub.open_existing codec number (builder "a_b") after
        ≡ (ok (without_publishers (builder "a_b")), after))
open_or_create-open_existing_example =
    open_or_create-open_existing codec number (builder "a/b") (builder "a_b") "(speed)" [] refl refl
      unread same_path

open_or_create_apart_example :
    (after : Files) × (PubSub.open_or_create codec number granted (builder "a/b") []
      ≡ (ok (without_publishers (builder "a/b")), after))
    × (Event.open_or_create codec granted events after ≡ (err (service incompatible_qos), after))
    × (ReqRes.open_or_create codec number number granted requests after
        ≡ (err (service incompatible_qos), after))
    × (Blackboard.open_or_create codec number granted board after
        ≡ (err (service incompatible_qos), after))
open_or_create_apart_example =
    open_or_create_apart codec number number number number (builder "a/b") events requests board
      "(speed)" granted [] refl refl unread same_path same_path same_path
