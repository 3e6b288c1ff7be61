-- ===== src/Port/PubSub/Session.antt =====
-- A publisher and a subscriber in use: the applications hold samples, and act in any order.
pub mod Runs
pub mod Starting
mod Tests
use entangle.Prelude.{
  ℕ, zero, suc, ◌+◌, ◌-◌, ◌*◌, ◌/◌, ◌%◌, ◌^◌, ◌≤◌, ◌<◌, bit_and, bit_or, min, max, ◌≡◌, refl, sym,
  ap, ap₂, subst, ◌∙◌, ◌≢◌, ◌↔◌, ◌⊎◌, inl, inr, Bool, true, false, not, ◌&&◌, ◌||◌, Option, none,
  some, List, [], ◌∷◌, ◌++◌, map, arith, dec_lt, ℕ_discrete, ltb, leb, ◌==◌, if◌then◌else◌, ltb→lt,
  lt→ltb, le→leb, gt→leb, ==→eq, eq→==, ne→==, Bool-cases, Option-cases, length, get_elem?, get_or,
  set, replicate, length-replicate, length-append, length-set, get_elem?-eq-get_or, get_or-set_self,
  get_or-set_ne, store, store-in_range, range_from, All, Distinct, All-map, length-range_from,
  length-map, get_or-map_range, All-range_from, Distinct-range_from, pigeonhole, count,
  count-append, count_self, All-ne_of_count, Distinct-of_count, All-lt_of_count, length-le_of_count,
  Result, ok, err, map_err, assert, ◌>>=◌, ◌>>◌,
}
use entangle.Transport.Channel.{has_returned}
use entangle.Port.Publisher
use entangle.Port.Publisher.{Publisher, SampleMut}
use entangle.Port.Subscriber
use entangle.Port.Subscriber.{Subscriber, Sample}
use entangle.Errors.{PortError}

pub record Session : Type 0 where
  pub publisher : Publisher
  pub subscriber : Subscriber
  pub loaned : List SampleMut
  pub held : List Sample

-- What the applications do: with the `k`-th of the samples that they hold, if there is one.
pub data Action : Type 0 where
  loan : Action
  send : ℕ → Action
  abandon : ℕ → Action
  receive : Action
  release : ℕ → Action
  reclaim : Action

-- The `k`-th element, and the list without it.
unfoldable pub take_at {ℓ} : {A : Type ℓ} → List A → ℕ → Option (A × List A)
take_at [] k = none
take_at (x ∷ xs) zero = some (x, xs)
take_at (x ∷ xs) (suc k) = take_at xs k >>= λ (y, ys). some (y, x ∷ ys)

abbrev pub loaned_to : Session → Result PortError SampleMut × Publisher → Session
loaned_to s (ok sample, p) = record s { publisher = p; loaned = sample ∷ s.loaned }
loaned_to s (err e, p) = record s { publisher = p }

abbrev pub received_by : Session → Publisher → Result PortError (Option Sample) → Session
received_by s p (ok (some sample)) = record s { publisher = p; held = sample ∷ s.held }
received_by s p (ok none) = record s { publisher = p }
received_by s p (err e) = record s { publisher = p }

abbrev pub send_taken : Session → Option (SampleMut × List SampleMut) → Option Session
send_taken s none = some s
send_taken s (some (sample, others)) = Publisher.send sample s.publisher >>= λ (answer, p).
    some (record s { publisher = p; loaned = others })

abbrev pub drop_taken : Session → Option (SampleMut × List SampleMut) → Option Session
drop_taken s none = some s
drop_taken s (some (sample, others)) = Publisher.drop_sample_mut sample s.publisher >>= λ p.
    some (record s { publisher = p; loaned = others })

abbrev pub release_taken : Session → Option (Sample × List Sample) → Option Session
release_taken s none = some s
release_taken s (some (sample, others)) =
    Subscriber.drop_sample 0 sample (s.publisher ∷ []) >>= λ (ended, ps). get_elem? ps 0 >>= λ p.
    if has_returned ended then some (record s { publisher = p; held = others }) else none

-- One action. `none` is a panic, or a drop that does not return at once.
unfoldable pub act : Action → Session → Option Session
act loan s = Publisher.loan s.publisher >>= λ answer. some (loaned_to s answer)
act (send k) s = send_taken s (take_at s.loaned k)
act (abandon k) s = drop_taken s (take_at s.loaned k)
act receive s = Subscriber.receive s.subscriber (s.publisher ∷ []) >>= λ (answer, ps).
    get_elem? ps 0 >>= λ p. some (received_by s p answer)
act (release k) s = release_taken s (take_at s.held k)
act reclaim s = Publisher.reclaim s.publisher >>= λ p. some (record s { publisher = p })

unfoldable pub run : List Action → Session → Option Session
run [] s = some s
run (action ∷ rest) s = act action s >>= run rest
