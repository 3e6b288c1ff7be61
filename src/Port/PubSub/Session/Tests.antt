-- ===== src/Port/PubSub/Session/Tests.antt =====
-- The session of the ownership tests, the start of another, and instances of the theorems on them.
use entangle.Prelude.{◌+◌, ◌*◌, max, ◌≡◌, refl, true, some, [], ◌∷◌, arith, ltb, if◌then◌else◌, ok}
use entangle.Platform.SharedMemory
use entangle.Platform.SharedMemory.{SharedMemory, Answers}
use entangle.Transport.Channel.{ZeroCopyChannel}
use entangle.Transport.DataSegment.{align8}
use entangle.Transport.DataSegment.Header.{mapping}
use entangle.Qos.{default_pubsub_qos}
use entangle.Port.Publisher
use entangle.Port.Publisher.{Publisher, PubSubShared, SampleMut, send}
use entangle.Port.Publisher.Sending.{send-keeps_pool, send-no_channel}
use entangle.Port.Subscriber
use entangle.Port.PubSub.{lent, delivered}
use entangle.Port.PubSub.Receiving.{listener}
use entangle.Port.PubSub.Session.{
  Session, send as send_one, loan, abandon, receive, release, reclaim, run,
}
use entangle.Port.PubSub.Session.Runs.{Holds, Continues, run-Continues}
use entangle.Port.PubSub.Session.Starting.{create-Holds, fresh, unused, session_of}
use entangle.Port.PubSub.Tests.{publisher, channel, owned, owned-IsOwned}

abbrev session : Session
session = record {
  publisher = publisher;
  subscriber = listener 2;
  loaned = lent publisher 0 ∷ [];
  held = delivered publisher 2 ∷ [];
}

session-Holds : Holds session channel owned 2
session-Holds = record { owned = owned-IsOwned; listens = refl; loans = refl; samples = refl }

run-Continues_example :
    Continues
      (run (loan ∷ send_one 1 ∷ receive ∷ release 0 ∷ reclaim ∷ loan ∷ abandon 0 ∷ []) session)
      2
run-Continues_example =
    run-Continues (loan ∷ send_one 1 ∷ receive ∷ release 0 ∷ reclaim ∷ loan ∷ abandon 0 ∷ []) owned
      session-Holds

abbrev granting : Answers
granting = mapping 1088 (λ at. 255)

abbrev granted : SharedMemory
granted = record {
  memory = λ at. if ltb at 1088 then 0 else 255;
  size = 1088;
  name = "/pub";
  is_owner = true;
}

granted-create : SharedMemory.create "pub" (64 + align8 (max 12 8) * 64) granting ≡ ok granted
unfolding SharedMemory.create SharedMemory.normalize_name align8
granted-create = refl

create-Holds_example :
    (p q : Publisher) × (shared last : PubSubShared) × (ch : ZeroCopyChannel) × (Publisher.create
        (λ n. "pub")
        1
        12
        default_pubsub_qos
        granting
        (fresh "pub" default_pubsub_qos)
      ≡ some (ok p, shared))
    × (shared.publishers ≡ p ∷ [])
    × (Subscriber.create 2 default_pubsub_qos shared ≡ (listener 2, last))
    × (last.publishers ≡ q ∷ [])
    × Holds (session_of 2 q) ch (unused 64) 2
unfolding align8
create-Holds_example =
    create-Holds "pub" (λ n. "pub") 1 2 12 default_pubsub_qos granting (omega arith) (omega arith)
      (omega arith) granted-create

-- No subscriber: the sample is gone, and its chunk stays allocated.
abbrev unheard : Publisher
unheard = record publisher { channels = [] }

unheard-send : send (lent unheard 0) unheard ≡ some (ok tt, unheard)
unheard-send = send-no_channel (lent unheard 0) {p = unheard} refl refl

send-keeps_pool_example :
    (unheard.segment ≡ unheard.segment) × (unheard.active_loans ≡ unheard.active_loans)
send-keeps_pool_example = send-keeps_pool (lent unheard 0) unheard {q = unheard} unheard-send
