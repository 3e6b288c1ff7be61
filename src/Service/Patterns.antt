-- ===== src/Service/Patterns.antt =====
-- What the builders of the four patterns do to one another's services.
mod Tests
use Prim.Native.String.{String}
use entangle.Prelude.{
  ℕ, zero, suc, ◌+◌, ◌-◌, ◌*◌, ◌/◌, ◌%◌, ◌^◌, ◌≤◌, ◌<◌, bit_and, bit_or, min, max, ◌≡◌, refl, sym,
  ap, ap₂, subst, ◌∙◌, ◌≢◌, ◌↔◌, ◌⊎◌, inl, inr, Bool, true, false, not, ◌&&◌, ◌||◌, Option, none,
  some, List, [], ◌∷◌, ◌++◌, map, arith, dec_lt, ℕ_discrete, ltb, leb, ◌==◌, if◌then◌else◌, ltb→lt,
  lt→ltb, le→leb, gt→leb, ==→eq, eq→==, ne→==, Bool-cases, Option-cases, length, get_elem?, get_or,
  set, replicate, length-replicate, length-append, length-set, get_elem?-eq-get_or, get_or-set_self,
  get_or-set_ne, set-get_or_self, store, store-in_range, range_from, All, Distinct, All-map,
  length-range_from, length-map, get_or-map_range, All-range_from, Distinct-range_from, pigeonhole,
  count, count-append, count_self, All-ne_of_count, Distinct-of_count, All-lt_of_count,
  length-le_of_count, count-range_from, Result, ok, err, map_err, assert, along_some, ◌>>=◌, ◌>>◌,
}
use entangle.Errors.{already_exists, incompatible_qos, service}
use entangle.Service.Name.{service_path}
use entangle.Service.Config
use entangle.Service.Config.{validate_compatibility, StaticConfig}
use entangle.Service.Config.Compat.{validate_compatibility-Agree}
use entangle.Service.Registry.{Codec, Files, Answers, read_file}
use entangle.Service.Registry
use entangle.Service.Registry.Files.{granted, register-lookup_all}
use entangle.Service.Lifecycle
use entangle.Service.Lifecycle.Opening.{open_or_create-first}
use entangle.Service.Payload.{Payload}
use entangle.Service.PubSub
use entangle.Service.PubSub.{PubSubBuilder, PubSubService}
use entangle.Service.Event
use entangle.Service.Event.{EventBuilder}
use entangle.Service.ReqRes
use entangle.Service.ReqRes.{ReqResBuilder}
use entangle.Service.Blackboard
use entangle.Service.Blackboard.{BlackboardBuilder}

-- What a builder's service is: a wiring of its own in which there is no publisher.
abbrev pub without_publishers : PubSubBuilder → PubSubService
without_publishers b = record {
  service_name = b.service_name;
  node_id = b.node_id;
  qos = b.qos;
  shared = record {
    publishers = [];
    service_name = b.service_name;
    qos = b.qos;
    publisher_counter = 0;
  };
}

-- When the configuration encodes and decodes back and its path is free, a publish-subscribe
-- service that is opened or created, and one of the same payload and path that is opened after it
-- in either way, all succeed; each has the builder's name, node and qualities and a wiring of its
-- own without any publisher, and the later ones leave the directory as it is.
pub open_or_create-open_existing :
    (codec : Codec) (payload : Payload) (a b : PubSubBuilder) (content : String) (files : Files)
    → codec.encode (PubSub.static_config payload a) ≡ some content
    → codec.decode content ≡ some (PubSub.static_config payload a)
    → read_file (service_path a.service_name) files ≡ none
    → service_path b.service_name ≡ service_path a.service_name
    → (after : Files) × (PubSub.open_or_create codec payload granted a files
        ≡ (ok (without_publishers a), after))
      × (PubSub.open_or_create codec payload granted b after ≡ (ok (without_publishers b), after))
      × (PubSub.open_existing codec payload b after ≡ (ok (without_publishers b), after))
unfolding PubSub.open_or_create PubSub.open_existing Lifecycle.open_or_create
    Lifecycle.open_existing Lifecycle.create Registry.lookup Config.new
open_or_create-open_existing codec payload a b content files encoded decodes free same =
    let config = PubSub.static_config payload a in
    let later = PubSub.static_config payload b in
    let (after, made, all_looked) =
      register-lookup_all codec config content files encoded decodes free in
    let looked = all_looked b.service_name same in
    let agree : validate_compatibility later config ≡ ok tt =
      validate_compatibility-Agree later config (refl, refl, refl, refl, refl) in
    (after, rw (free, made) refl, rw (looked, agree) refl, rw (looked, agree) refl)

-- When a publish-subscribe service is created whose configuration encodes and decodes back and
-- whose path was free, then opening an event, a request-response or a blackboard service of the
-- same path is refused as incompatible and leaves the directory as it is.
pub open_or_create_apart :
    (codec : Codec) (payload request response board : Payload) (a : PubSubBuilder)
    (e : EventBuilder) (r : ReqResBuilder) (b : BlackboardBuilder) (content : String) (os : Answers)
    (files : Files)
    → codec.encode (PubSub.static_config payload a) ≡ some content
    → codec.decode content ≡ some (PubSub.static_config payload a)
    → read_file (service_path a.service_name) files ≡ none
    → service_path e.service_name ≡ service_path a.service_name
    → service_path r.service_name ≡ service_path a.service_name
    → service_path b.service_name ≡ service_path a.service_name
    → (after : Files) × (PubSub.open_or_create codec payload granted a files
        ≡ (ok (without_publishers a), after))
      × (Event.open_or_create codec os e after ≡ (err (service incompatible_qos), after))
      × (ReqRes.open_or_create codec request response os r after
          ≡ (err (service incompatible_qos), after))
      × (Blackboard.open_or_create codec board os b after ≡ (err (service incompatible_qos), after))
unfolding PubSub.open_or_create Event.open_or_create ReqRes.open_or_create Blackboard.open_or_create
    Lifecycle.open_or_create Lifecycle.open_existing Lifecycle.create Registry.lookup Config.new
    validate_compatibility
open_or_create_apart codec payload request response board a e r b content os files encoded decodes
      free same_e same_r same_b =
    let config = PubSub.static_config payload a in
    let (after, made, looked) =
      register-lookup_all codec config content files encoded decodes free in
    (
      after,
      rw (free, made) refl,
      rw (looked e.service_name same_e) refl,
      rw (looked r.service_name same_r) refl,
      rw (looked b.service_name same_b) refl,
    )
