-- ===== src/Port/WaitSet.antt =====
-- `WaitSet` of crates/entangle/src/waitset.rs. The call of poll(2) is an argument: from the descriptors
-- and the timeout, whether it returned a positive number, and the `revents` of each descriptor.
pub mod Ready
mod Tests
use entangle.Prelude.{
  ℕ, zero, suc, ◌+◌, ◌-◌, ◌*◌, ◌/◌, ◌%◌, ◌^◌, ◌≤◌, ◌<◌, bit_and, bit_or, min, max, ◌≡◌, refl, sym,
  ap, ap₂, subst, ◌∙◌, ◌≢◌, ◌↔◌, ◌⊎◌, inl, inr, Bool, true, false, not, ◌&&◌, ◌||◌, Option, none,
  some, List, [], ◌∷◌, ◌++◌, map, arith, dec_lt, ℕ_discrete, ltb, leb, ◌==◌, if◌then◌else◌, ltb→lt,
  lt→ltb, le→leb, gt→leb, ==→eq, eq→==, ne→==, Bool-cases, Option-cases, length, get_elem?, get_or,
  set, replicate, length-replicate, length-append, length-set, get_elem?-eq-get_or, get_or-set_self,
  get_or-set_ne, set-get_or_self, store, store-in_range, range_from, All, Distinct, All-map,
  length-range_from, length-map, get_or-map_range, All-range_from, Distinct-range_from, pigeonhole,
  count, count-append, count_self, All-ne_of_count, Distinct-of_count, All-lt_of_count,
  length-le_of_count, count-range_from, Result, ok, err, map_err, assert, along_some, ◌>>=◌, ◌>>◌,
}

pub record WaitEntry : Type 0 where
  pub fd : ℕ
  pub id : ℕ

pub record WaitSet : Type 0 where
  pub fds : List WaitEntry

unfoldable pub new : WaitSet
new = record { fds = [] }

-- The id is the place in the list.
unfoldable pub attach_fd : ℕ → WaitSet → ℕ × WaitSet
attach_fd fd ws =
    let id = length ws.fds in (id, record { fds = ws.fds ++ (record { fd = fd; id = id } ∷ []) })

-- A listener is attached by the descriptor of its readable end.
unfoldable pub attach_listener : ℕ → WaitSet → ℕ × WaitSet
attach_listener raw_fd ws = attach_fd raw_fd ws

-- `d.as_millis() as i32` or -1, as the word of 32 bits.
unfoldable pub timeout_ms : Option ℕ → ℕ
timeout_ms (some millis) = millis % 2 ^ 32
timeout_ms none = 2 ^ 32 - 1

-- `POLLIN` is 1.
abbrev pub is_ready : ℕ → Bool
is_ready revents = not (bit_and revents 1 == 0)

-- The places of the ready descriptors, from number `n` on.
abbrev pub triggered : ℕ → List ℕ → List ℕ
triggered n [] = []
triggered n (revents ∷ rest) =
    let others = triggered (n + 1) rest in if is_ready revents then n ∷ others else others

abbrev pub polled : Bool × List ℕ → List ℕ
polled (true, revents) = triggered 0 revents
polled (false, revents) = []

unfoldable pub wait : (List ℕ → ℕ → Bool × List ℕ) → Option ℕ → WaitSet → List ℕ
wait poll timeout ws =
    if length ws.fds == 0
    then []
    else polled (poll (map (λ entry. entry.fd) ws.fds) (timeout_ms timeout))
