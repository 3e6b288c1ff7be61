-- ===== src/Platform/EventNotification/Laws.antt =====
-- What eventfd(2), read(2), write(2) and fcntl(2) document, and what notifications then do: a
-- notification is pending until one wait takes it, however many came before.
use entangle.Platform.Errors.{PlatformError, event}
use entangle.Prelude.{
  ◌⊎◌, zero, suc, Result, err, ℕ, ◌+◌, ◌-◌, ◌^◌, ◌<◌, bit_and, bit_or, ◌≡◌, refl, ◌∙◌, ◌≢◌, inl,
  inr, Bool, true, false, not, some, arith, ◌==◌, Bool-cases, ok,
}
use entangle.Prelude.Bits.{bit_and-bit_or_self}
use entangle.Platform.EventNotification.{
  Kernel, EventNotification, nonblock, notify, wait, try_wait, set_nonblocking,
}

abbrev pub is_nonblocking : ℕ → Bool
is_nonblocking flags = not (bit_and flags nonblock == 0)

-- `counter` is the number that an eventfd holds, `flags` those of the descriptor.
pub record Laws (K : Kernel) : Type 0 where
  pub is_open : K.State → ℕ → Bool
  pub counter : K.State → ℕ → ℕ
  pub flags : K.State → ℕ → ℕ
  pub on_eventfd :
      (s t : K.State) (fd : ℕ)
      → K.eventfd s ≡ (some fd, t)
      → (is_open s fd ≡ false)
        × (is_open t fd ≡ true)
        × (counter t fd ≡ 0)
        × ((o : ℕ) → is_open s o ≡ true → is_open t o ≡ true)
        × ((o : ℕ) → o ≢ fd → counter t o ≡ counter s o)
  pub on_get_flags :
      (s : K.State) (fd : ℕ) → is_open s fd ≡ true → K.get_flags fd s ≡ (some (flags s fd), s)
  pub on_set_flags :
      (s : K.State) (fd f : ℕ)
      → is_open s fd ≡ true
      → (t : K.State) × (K.set_flags fd f s ≡ (true, t))
        × (flags t fd ≡ f)
        × ((o : ℕ) → is_open t o ≡ is_open s o)
        × ((o : ℕ) → counter t o ≡ counter s o)
  -- The counter can hold up to 2^64 - 2.
  pub on_write :
      (s : K.State) (fd : ℕ)
      → is_open s fd ≡ true
      → counter s fd + 1 < 2 ^ 64 - 1
      → (t : K.State) × (K.write_one fd s ≡ (true, t))
        × (counter t fd ≡ counter s fd + 1)
        × ((o : ℕ) → is_open t o ≡ is_open s o)
        × ((o : ℕ) → o ≢ fd → counter t o ≡ counter s o)
  pub on_read :
      (s : K.State) (fd : ℕ)
      → is_open s fd ≡ true
      → 0 < counter s fd
      → (t : K.State) × (K.read_word fd s ≡ (true, t))
        × (counter t fd ≡ 0)
        × ((o : ℕ) → is_open t o ≡ is_open s o)
        × ((o : ℕ) → o ≢ fd → counter t o ≡ counter s o)
  pub on_empty_read :
      (s : K.State) (fd : ℕ)
      → is_open s fd ≡ true
      → counter s fd ≡ 0
      → is_nonblocking (flags s fd) ≡ true
      → (t : K.State) × (K.read_word fd s ≡ (false, t))
        × (K.would_block t ≡ true)
        × ((o : ℕ) → is_open t o ≡ is_open s o)
        × ((o : ℕ) → counter t o ≡ counter s o)

-- The answer of a test with the counter at a number: a positive one is a notification. A successful
-- fcntl(2) may change the last error, so that without a notification the test says so or fails.
abbrev pub Answers : ℕ → Result PlatformError Bool → Type 0
Answers zero r = (r ≡ ok false) ⊎ (r ≡ err event)
Answers (suc n) r = r ≡ ok true

-- A state after an operation on `fd`: what is open stays so, and other counters stay as they are.
pub record Keeps (K : Kernel) (L : Laws K) (fd : ℕ) (s t : K.State) : Type 0 where
  pub same_open : (o : ℕ) → L.is_open t o ≡ L.is_open s o
  pub same_others : (o : ℕ) → o ≢ fd → L.counter t o ≡ L.counter s o

module _ (K : Kernel) (L : Laws K) where
  set_nonblocking-ok :
      (s : K.State) (fd : ℕ) (on : Bool)
      → L.is_open s fd ≡ true
      → (t : K.State) × (set_nonblocking K fd on s ≡ (ok tt, t))
        × (on ≡ true → is_nonblocking (L.flags t fd) ≡ true)
        × ((o : ℕ) → L.is_open t o ≡ L.is_open s o)
        × ((o : ℕ) → L.counter t o ≡ L.counter s o)
  unfolding set_nonblocking
  set_nonblocking-ok s fd true h =
      let (t, done, now, open', same) = L.on_set_flags s fd (bit_or (L.flags s fd) nonblock) h in
      (
        t,
        rw (L.on_get_flags s fd h, done) refl,
        λ e. rw (now, bit_and-bit_or_self 11 (L.flags s fd)) refl,
        open',
        same,
      )
  set_nonblocking-ok s fd false h =
      let (t, done, now, open', same) =
        L.on_set_flags s fd (bit_and (L.flags s fd) (2 ^ 32 - 1 - nonblock)) h in
      (t, rw (L.on_get_flags s fd h, done) refl, λ e. absurd (ground arith), open', same)

  try_wait_pending :
      (s : K.State) (e : EventNotification)
      → L.is_open s e.fd ≡ true
      → 0 < L.counter s e.fd
      → (t : K.State) × (r : Result PlatformError Bool) × (try_wait K e s ≡ (r, t))
        × (r ≡ ok true)
        × (L.counter t e.fd ≡ 0)
        × Keeps K L e.fd s t
  unfolding try_wait wait
  try_wait_pending s e h pos =
      let (a, begun, now, open_a, same_a) = set_nonblocking-ok s e.fd true h in
      let (b, got, zero', open_b, same_b) =
        L.on_read a e.fd (open_a e.fd ∙ h) (rw (same_a e.fd) pos) in
      let (c, cleared, _, open_c, same_c) =
        set_nonblocking-ok b e.fd false (open_b e.fd ∙ open_a e.fd ∙ h) in
      (
        c,
        ok true,
        rw (begun, got, cleared) refl,
        refl,
        same_c e.fd ∙ zero',
        record {
          same_open = λ o. open_c o ∙ open_b o ∙ open_a o;
          same_others = λ o ne. same_c o ∙ same_b o ne ∙ same_a o;
        },
      )

  try_wait_nothing :
      (s : K.State) (e : EventNotification)
      → L.is_open s e.fd ≡ true
      → L.counter s e.fd ≡ 0
      → (t : K.State) × (r : Result PlatformError Bool) × (try_wait K e s ≡ (r, t))
        × ((r ≡ ok false) ⊎ (r ≡ err event))
        × (L.counter t e.fd ≡ 0)
        × Keeps K L e.fd s t
  unfolding try_wait wait
  try_wait_nothing s e h none_left =
      let (a, begun, now, open_a, same_a) = set_nonblocking-ok s e.fd true h in
      let (b, blocked, last, open_b, same_b) =
        L.on_empty_read a e.fd (open_a e.fd ∙ h) (same_a e.fd ∙ none_left) (now refl) in
      let (c, cleared, _, open_c, same_c) =
        set_nonblocking-ok b e.fd false (open_b e.fd ∙ open_a e.fd ∙ h) in
      let kept : Keeps K L e.fd s c = record {
        same_open = λ o. open_c o ∙ open_b o ∙ open_a o;
        same_others = λ o ne. same_c o ∙ same_b o ∙ same_a o;
      } in
      let left : L.counter c e.fd ≡ 0 = same_c e.fd ∙ same_b e.fd ∙ same_a e.fd ∙ none_left in
      elim (Bool-cases (K.would_block c)) [
        | inl agreed ↦
            (c, ok false, rw (begun, blocked, cleared, agreed) refl, inl refl, left, kept)
        | inr lost ↦ (c, err event, rw (begun, blocked, cleared, lost) refl, inr refl, left, kept)
      ]

  pub try_wait_lem :
      (s : K.State) (e : EventNotification)
      → L.is_open s e.fd ≡ true
      → (t : K.State) × (r : Result PlatformError Bool) × (try_wait K e s ≡ (r, t))
        × Answers (L.counter s e.fd) r
        × (L.counter t e.fd ≡ 0)
        × Keeps K L e.fd s t
  try_wait_lem s e h = by_counter (L.counter s e.fd) refl
    where
      by_counter :
          (n : ℕ)
          → L.counter s e.fd ≡ n
          → (t : K.State) × (r : Result PlatformError Bool) × (try_wait K e s ≡ (r, t))
            × Answers n r
            × (L.counter t e.fd ≡ 0)
            × Keeps K L e.fd s t
      by_counter zero nothing = try_wait_nothing s e h nothing
      by_counter (suc n) pending = try_wait_pending s e h (omega arith)

  pub notify_lem :
      (s : K.State) (e : EventNotification)
      → L.is_open s e.fd ≡ true
      → L.counter s e.fd + 1 < 2 ^ 64 - 1
      → (t : K.State) × (notify K e s ≡ (ok tt, t))
        × (L.counter t e.fd ≡ L.counter s e.fd + 1)
        × Keeps K L e.fd s t
  unfolding notify
  notify_lem s e h room =
      let (t, done, more, open', same) = L.on_write s e.fd h room in
      (t, rw done refl, more, record { same_open = open'; same_others = same })
