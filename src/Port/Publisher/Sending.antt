-- ===== src/Port/Publisher/Sending.antt =====
-- What a send leaves behind when no subscriber takes the sample.
use entangle.Prelude.{
  ◌≡◌, refl, subst, inl, inr, true, Option, none, some, List, [], Bool-cases, Result, ok,
}
use entangle.Transport.Channel.{ZeroCopyChannel}
use entangle.Errors.{PortError}
use entangle.Port.Publisher.{
  Publisher, SampleMut, send, send_all, sent_and_dropped, drop_sample_mut,
}

abbrev Answer : Type 0
Answer = Option (Result PortError (Unit {0}) × Publisher)

-- The publisher of an answer, where there is one.
abbrev after : Publisher → Answer → Publisher
after p none = p
after p (some (answer, q)) = q

sent_and_dropped-keeps :
    (s : SampleMut) (p : Publisher)
    (out : Option (Result PortError (Unit {0}) × List ZeroCopyChannel))
    → ((after p (sent_and_dropped s p out)).segment ≡ p.segment)
      × ((after p (sent_and_dropped s p out)).active_loans ≡ p.active_loans)
unfolding sent_and_dropped drop_sample_mut
sent_and_dropped-keeps s p none = (refl, refl)
sent_and_dropped-keeps s p (some (answer, chs)) = (refl, refl)

send-keeps :
    (s : SampleMut) (p : Publisher)
    → ((after p (send s p)).segment ≡ p.segment)
      × ((after p (send s p)).active_loans ≡ p.active_loans)
unfolding send
send-keeps s p = elim (Bool-cases s.has_send_fn) [
  | inl has ↦ rw has (sent_and_dropped-keeps s p (send_all s.offset p.channels))
  | inr lacks ↦ rw lacks (refl, refl)
]

-- Whatever a send answers, success or failure, the publisher's segment with its pool and the
-- number of active loans are as before: a chunk that no channel takes is neither freed nor
-- counted down.
pub send-keeps_pool :
    (s : SampleMut) (p : Publisher) {answer : Result PortError (Unit {0})} {q : Publisher}
    → send s p ≡ some (answer, q)
    → (q.segment ≡ p.segment) × (q.active_loans ≡ p.active_loans)
send-keeps_pool s p e =
    subst (λ x. ((after p x).segment ≡ p.segment) × ((after p x).active_loans ≡ p.active_loans)) e
      (send-keeps s p)

-- A send to no channel answers success, and changes nothing.
pub send-no_channel :
    (s : SampleMut) {p : Publisher}
    → s.has_send_fn ≡ true
    → p.channels ≡ []
    → send s p ≡ some (ok tt, p)
unfolding send send_all sent_and_dropped drop_sample_mut
send-no_channel s {p} has unheard = rw (has, unheard) refl
