-- ===== src/Port/WaitSet/Tests.antt =====
-- A wait set with two descriptors, and an instance of the theorem.
use entangle.Prelude.{ℕ, ◌-◌, ◌^◌, ◌≡◌, refl, Bool, true, none, some, List, [], ◌∷◌, count}
use entangle.Port.WaitSet.{WaitSet, attach_fd, wait, timeout_ms}
use entangle.Port.WaitSet.Ready.{wait-attach_fd}

abbrev one_attached : WaitSet
one_attached = record { fds = record { fd = 7; id = 0 } ∷ [] }

-- The second descriptor has input, the first a hang-up without input.
abbrev poll : List ℕ → ℕ → Bool × List ℕ
poll fds timeout = (true, 16 ∷ 1 ∷ [])

wait-attach_fd_example :
    ((attach_fd 9 one_attached).0 ≡ 1)
    × (count 1 (wait poll (some 10) (attach_fd 9 one_attached).1) ≡ 1)
wait-attach_fd_example = wait-attach_fd poll (some 10) 9 1 one_attached (16 ∷ 1 ∷ []) refl

second_triggered : wait poll (some 10) (attach_fd 9 one_attached).1 ≡ 1 ∷ []
unfolding wait attach_fd timeout_ms
second_triggered = refl

-- 49 days, 17 hours, 2 minutes and some seconds: no limit.
endless : timeout_ms (some (2 ^ 32 - 1)) ≡ timeout_ms none
unfolding timeout_ms
endless = refl
