-- ===== src/Port/WaitSet/Ready.antt =====
-- What a wait set reports is what poll(2) found ready.
use entangle.Prelude.Digits.{bit_and-pow}
use entangle.Prelude.{
  ◌%◌, ◌∙◌, bit_and, ℕ_discrete, ℕ, zero, suc, ◌+◌, ◌<◌, ◌≡◌, refl, inl, inr, Bool, true, Option,
  List, [], ◌∷◌, ◌++◌, map, arith, if◌then◌else◌, eq→==, ne→==, Bool-cases, length, get_or,
  length-append, count,
}
use mathlib.Core.List.{map-append}
use entangle.Port.WaitSet.{WaitEntry, WaitSet, attach_fd, timeout_ms, is_ready, triggered, wait}

count-triggered_below : (i n : ℕ) (revents : List ℕ) → i < n → count i (triggered n revents) ≡ 0
count-triggered_below i n [] lt = refl
count-triggered_below i n (r ∷ rest) lt =
    let later = count-triggered_below i (n + 1) rest (omega arith) in
    elim (Bool-cases (is_ready r)) [
      | inl ready ↦ rw (ready, ne→== n i (omega arith)) (omega arith)
      | inr idle ↦ rw idle later
    ]

count-triggered :
    (i n j : ℕ) (revents : List ℕ)
    → j ≡ n + i
    → count j (triggered n revents) ≡ (if is_ready (get_or revents i 0) then 1 else 0)
count-triggered i n j [] e = refl
count-triggered zero n j (r ∷ rest) e =
    let later = count-triggered_below j (n + 1) rest (omega arith) in
    elim (Bool-cases (is_ready r)) [
      | inl ready ↦ rw (ready, eq→== n j (omega arith)) (omega arith)
      | inr idle ↦ rw idle later
    ]
count-triggered (suc i) n j (r ∷ rest) e =
    let later = count-triggered i (n + 1) j rest (omega arith) in
    elim (Bool-cases (is_ready r)) [
      | inl ready ↦ rw (ready, ne→== n j (omega arith)) (omega (arith, later))
      | inr idle ↦ rw idle later
    ]

is_ready_lem : (revents : ℕ) → (if is_ready revents then 1 else 0) ≡ revents % 2
is_ready_lem revents =
    let masked : bit_and revents 1 ≡ revents % 2 = bit_and-pow 0 revents ∙ omega arith in
    elim (ℕ_discrete (revents % 2) 0) [
      | yes idle ↦ rw (masked, idle) refl
      | no ready ↦ rw (masked, ne→== (revents % 2) 0 ready) (omega arith)
    ]

-- After a descriptor is attached, its id is the number of those before it, and a wait for which
-- poll(2) returns a positive number reports each place as often as the lowest bit, POLLIN, of its
-- answered events says, and a place without an answer not at all.
pub wait-attach_fd :
    (poll : List ℕ → ℕ → Bool × List ℕ) (timeout : Option ℕ) (fd i : ℕ) (ws : WaitSet)
    (revents : List ℕ)
    → poll (map (λ entry. entry.fd) ws.fds ++ (fd ∷ [])) (timeout_ms timeout) ≡ (true, revents)
    → ((attach_fd fd ws).0 ≡ length ws.fds)
      × (count i (wait poll timeout (attach_fd fd ws).1) ≡ get_or revents i 0 % 2)
unfolding wait attach_fd
wait-attach_fd poll timeout fd i ws revents found =
    let some_fds = length-append {0} ws.fds (record { fd = fd; id = length ws.fds } ∷ []) in
    (
      refl,
      rw
          (
            ne→== (length (ws.fds ++ (record { fd = fd; id = length ws.fds } ∷ []))) 0
                (omega arith),
            map-append (λ (entry : WaitEntry). entry.fd) ws.fds
                (record { fd = fd; id = length ws.fds } ∷ []),
            found,
          )
          (count-triggered i 0 i revents (omega arith) ∙ is_ready_lem (get_or revents i 0)),
    )
