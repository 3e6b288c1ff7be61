-- ===== src/Platform/EventNotification/Table.antt =====
-- A kernel with descriptors in order from 0, which keeps the laws of the system calls.
use entangle.Prelude.{
  ℕ, ◌+◌, ◌≡◌, refl, subst, ◌≢◌, Bool, true, false, Option, none, some, arith, ltb, ◌==◌,
  if◌then◌else◌, lt→ltb, eq→==, ne→==,
}
use entangle.Platform.EventNotification.{Kernel}
use entangle.Platform.EventNotification.Laws.{Laws}

pub record Table : Type 0 where
  pub next : ℕ
  pub counters : ℕ → ℕ
  pub flags : ℕ → ℕ
  pub blocked : Bool

abbrev update : (ℕ → ℕ) → ℕ → ℕ → ℕ → ℕ
update f i x o = if o == i then x else f o

pub update_self : (f : ℕ → ℕ) (i x : ℕ) → update f i x i ≡ x
update_self f i x = rw (eq→== i i refl) refl

pub update_other : (f : ℕ → ℕ) (i x o : ℕ) → o ≢ i → update f i x o ≡ f o
update_other f i x o ne = rw (ne→== o i ne) refl

abbrev pub small_kernel : Kernel
small_kernel = record {
  State = Table;
  eventfd =
      λ s. (some s.next, record s { next = s.next + 1; counters = update s.counters s.next 0 });
  write_one = λ fd s. (true, record s { counters = update s.counters fd (s.counters fd + 1) });
  read_word = λ fd s.
      if ltb 0 (s.counters fd)
      then (true, record s { counters = update s.counters fd 0 })
      else (false, record s { blocked = true });
  get_flags = λ fd s. (some (s.flags fd), s);
  set_flags = λ fd f s. (true, record s { flags = update s.flags fd f });
  would_block = λ s. s.blocked;
}

-- What opening a descriptor leaves.
abbrev pub opened : Table → Table
opened s = record s { next = s.next + 1; counters = update s.counters s.next 0 }

abbrev Opens : Table → ℕ → Table → Type 0
Opens s fd t =
    (ltb fd s.next ≡ false)
    × (ltb fd t.next ≡ true)
    × (t.counters fd ≡ 0)
    × ((o : ℕ) → ltb o s.next ≡ true → ltb o t.next ≡ true)
    × ((o : ℕ) → o ≢ fd → t.counters o ≡ s.counters o)

pub opened-Opens : (s : Table) → Opens s s.next (opened s)
opened-Opens s = (
  ground arith,
  ground arith,
  update_self s.counters s.next 0,
  λ o h. ground arith,
  λ o ne. update_other s.counters s.next 0 o ne,
)

abbrev OpensPair : Table → Option ℕ × Table → Type 0
OpensPair s (some fd, t) = Opens s fd t
OpensPair s (none, t) = Unit

abbrev pub small_kernel-Laws : Laws small_kernel
small_kernel-Laws = record {
  is_open = λ s fd. ltb fd s.next;
  counter = λ s fd. s.counters fd;
  flags = λ s fd. s.flags fd;
  on_eventfd = λ s t fd e. subst (OpensPair s) e (opened-Opens s);
  on_get_flags = λ s fd h. refl;
  on_set_flags = λ s fd f h. (
    record s { flags = update s.flags fd f },
    refl,
    update_self s.flags fd f,
    λ o. refl,
    λ o. refl,
  );
  on_write = λ s fd h room. (
    record s { counters = update s.counters fd (s.counters fd + 1) },
    refl,
    update_self s.counters fd (s.counters fd + 1),
    λ o. refl,
    λ o ne. update_other s.counters fd (s.counters fd + 1) o ne,
  );
  on_read = λ s fd h pos. (
    record s { counters = update s.counters fd 0 },
    rw (lt→ltb 0 (s.counters fd) pos) refl,
    update_self s.counters fd 0,
    λ o. refl,
    λ o ne. update_other s.counters fd 0 o ne,
  );
  on_empty_read = λ s fd h nothing flag.
      (record s { blocked = true }, rw nothing refl, refl, λ o. refl, λ o. refl);
}

abbrev pub empty_table : Table
empty_table = record { next = 0; counters = λ fd. 0; flags = λ fd. 0; blocked = false }
