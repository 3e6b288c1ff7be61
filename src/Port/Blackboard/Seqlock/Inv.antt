-- ===== src/Port/Blackboard/Seqlock/Inv.antt =====
-- What holds between any two steps of the seqlock.
use entangle.Prelude.{
  ℕ, suc, ◌+◌, ◌*◌, ◌%◌, ◌^◌, ◌≤◌, ◌<◌, bit_and, ◌≡◌, refl, sym, ap, subst, ◌∙◌, ◌≢◌, inl, inr,
  Option, none, some, List, [], ◌∷◌, ◌++◌, arith, ℕ_discrete, ◌==◌, ==→eq, eq→==, ne→==, Bool-cases,
  Option-cases, length, get_elem?, set,
}
use mathlib.Core.List.{append_assoc, append-nil}
use entangle.Prelude.Bits.{bit_and-mask}
use entangle.Port.Blackboard.Seqlock.{
  Board, WriterState, idle, write_next, read_next, copy_word, loaded, copying, ReaderState, start,
  finished, write_step, write_call, read_step, Step, call, write, read, again, Reaches, here,
  onward, new_board,
}

-- The slot holds the latest value that was written.
abbrev pub Latest : List (List ℕ) → List ℕ → Type 0
Latest [] slot = Unit
Latest (v ∷ rest) slot = slot ≡ v

abbrev pub WriterOk : Board → WriterState → Type 0
WriterOk b idle = (b.sequence ≡ 2 * length b.history) × Latest b.history b.slot
WriterOk b (loaded seq value) =
    (b.sequence ≡ 2 * length b.history)
    × Latest b.history b.slot
    × (seq ≡ 2 * length b.history)
    × (length value ≡ length b.slot)
WriterOk b (copying seq done todo) =
    (b.sequence ≡ 2 * length b.history + 1)
    × (seq ≡ 2 * length b.history)
    × (tail : List ℕ) × (b.slot ≡ done ++ tail)
    × (length tail ≡ length todo)

-- What a read in progress has copied is a part of the slot, as long as the sequence is the same.
abbrev pub ReaderOk : Board → ReaderState → Type 0
ReaderOk b start = Unit
ReaderOk b (copying s1 got) =
    (s1 ≢ 0)
    × (s1 % 2 ≡ 0)
    × (s1 ≤ b.sequence)
    × (s1 ≡ b.sequence → (tail : List ℕ) × (b.slot ≡ got ++ tail))
ReaderOk b (finished result) = Unit

pub record IsConsistent (b : Board) : Type 0 where
  pub writes : WriterOk b b.writer
  pub reads : ReaderOk b b.reader

pub get_elem?-append :
    (xs : List ℕ) (y : ℕ) (ys : List ℕ) → get_elem? (xs ++ (y ∷ ys)) (length xs) ≡ some y
get_elem?-append [] y ys = refl
get_elem?-append (x ∷ xs) y ys = get_elem?-append xs y ys

pub get_elem?-length : (xs : List ℕ) → get_elem? xs (length xs) ≡ none
get_elem?-length [] = refl
get_elem?-length (x ∷ xs) = get_elem?-length xs

pub set-append :
    (xs : List ℕ) (y x : ℕ) (ys : List ℕ) → set (xs ++ (y ∷ ys)) (length xs) x ≡ xs ++ (x ∷ ys)
set-append [] y x ys = refl
set-append (z ∷ xs) y x ys = ap (λ l. z ∷ l) (set-append xs y x ys)

-- A read in progress is not disturbed by a store to the sequence that raises it, nor by a store to the
-- slot while the sequence is odd.
ReaderOk-raised :
    (b c : Board) (r : ReaderState) → b.sequence < c.sequence → ReaderOk b r → ReaderOk c r
ReaderOk-raised b c start up ok_b = tt
ReaderOk-raised b c (copying s1 got) up (some_one, even, le, held) =
    (some_one, even, omega arith, λ e. absurd (omega arith))
ReaderOk-raised b c (finished result) up ok_b = tt

ReaderOk-odd :
    (b c : Board) (r : ReaderState)
    → b.sequence ≡ c.sequence
    → b.sequence % 2 ≡ 1
    → ReaderOk b r
    → ReaderOk c r
ReaderOk-odd b c start same odd ok_b = tt
ReaderOk-odd b c (copying s1 got) same odd (some_one, even, le, held) =
    (some_one, even, omega arith, λ e. absurd (omega (arith, ap (λ (t : ℕ). t % 2) (e ∙ sym same))))
ReaderOk-odd b c (finished result) same odd ok_b = tt

ReaderOk-same :
    (b c : Board) (r : ReaderState)
    → b.sequence ≡ c.sequence
    → b.slot ≡ c.slot
    → ReaderOk b r
    → ReaderOk c r
ReaderOk-same b c start same slots ok_b = tt
ReaderOk-same b c (copying s1 got) same slots (some_one, even, le, held) = (
  some_one,
  even,
  omega arith,
  λ e. let (tail, split) = held (e ∙ sym same) in (tail, sym slots ∙ split),
)
ReaderOk-same b c (finished result) same slots ok_b = tt

write_next-IsConsistent :
    (b : Board) (w : WriterState)
    → WriterOk b w
    → ReaderOk b b.reader
    → b.writer ≡ w
    → length ((write_next b w).history) < 2 ^ 63
    → IsConsistent (write_next b w)
write_next-IsConsistent b idle ok_w ok_r e h = record { writes = rw e ok_w; reads = ok_r }
write_next-IsConsistent b (loaded seq value) (n, latest, s, len) ok_r e h = record {
  writes = (omega arith, s, b.slot, refl, sym len);
  reads =
      ReaderOk-raised b (record b { sequence = (seq + 1) % 2 ^ 64 }) b.reader (omega arith) ok_r;
}
write_next-IsConsistent b (copying seq done (x ∷ todo)) (n, s, [], split, len) ok_r e h =
    absurd (omega arith)
write_next-IsConsistent b (copying seq done (x ∷ todo)) (n, s, y ∷ tail, split, len) ok_r e h =
    record {
      writes = (
        n,
        s,
        tail,
        rw split (set-append done y x tail) ∙ sym (append_assoc done (x ∷ []) tail),
        omega arith,
      );
      reads =
          ReaderOk-odd b (record b { slot = set b.slot (length done) x }) b.reader refl
            (omega arith) ok_r;
    }
write_next-IsConsistent b (copying seq done []) (n, s, y ∷ tail, split, len) ok_r e h =
    absurd (omega arith)
write_next-IsConsistent b (copying seq done []) (n, s, [], split, len) ok_r e h = record {
  writes = (omega arith, split ∙ append-nil done);
  reads =
      ReaderOk-raised b (record b { sequence = (seq + 2) % 2 ^ 64 }) b.reader (omega arith) ok_r;
}

-- A found word, as a number, and 0 for none.
abbrev pub found : Option ℕ → ℕ
found none = 0
found (some x) = suc x

next_word :
    (slot got tail : List ℕ) (x : ℕ)
    → get_elem? slot (length got) ≡ some x
    → slot ≡ got ++ tail
    → (rest : List ℕ) × (slot ≡ (got ++ (x ∷ [])) ++ rest)
next_word slot got [] x at split = absurd (
    omega (
      arith,
      ap found (
          sym (get_elem?-length got)
          ∙ ap (λ l. get_elem? l (length got)) (sym (split ∙ append-nil got))
          ∙ at),
    ))
next_word slot got (y ∷ rest) x at split =
    let same : y ≡ x = omega (
      arith,
      ap found
          (sym (get_elem?-append got y rest) ∙ ap (λ l. get_elem? l (length got)) (sym split) ∙ at),
    ) in
    (rest, split ∙ ap (λ z. got ++ (z ∷ rest)) same ∙ sym (append_assoc got (x ∷ []) rest))

read_copy-ok :
    (b : Board) (s1 : ℕ) (got : List ℕ)
    → ReaderOk b (copying s1 got)
    → ReaderOk b (copy_word b s1 got (get_elem? b.slot (length got)))
read_copy-ok b s1 got (some_one, even, le, held) =
    elim (Option-cases (get_elem? b.slot (length got))) [
      | inl missing ↦
          rw missing (elim (Bool-cases (b.sequence == s1)) [ inl t ↦ rw t tt | inr f ↦ rw f tt ])
      | inr (x, at) ↦ rw at (
        some_one,
        even,
        le,
        λ e. let (tail, split) = held e in next_word b.slot got tail x at split,
      )
    ]

read_start-ok : (b : Board) → ReaderOk b (read_next b start)
read_start-ok b = elim (ℕ_discrete b.sequence 0) [
  | yes e ↦ rw (eq→== b.sequence 0 e) tt
  | no ne ↦ elim (Bool-cases (bit_and b.sequence 1 == 0)) [
    | inl even ↦
        rw (ne→== b.sequence 0 ne, even)
          (ne, sym (bit_and-mask 1 b.sequence) ∙ ==→eq _ _ even, omega arith, λ e. (b.slot, refl))
    | inr odd ↦ rw (ne→== b.sequence 0 ne, odd) tt
  ]
]

read_next-ok : (b : Board) (r : ReaderState) → ReaderOk b r → ReaderOk b (read_next b r)
read_next-ok b start ok_r = read_start-ok b
read_next-ok b (copying s1 got) ok_r = read_copy-ok b s1 got ok_r
read_next-ok b (finished result) ok_r = tt

WriterOk-reader :
    (b : Board) (r : ReaderState) (w : WriterState)
    → WriterOk b w
    → WriterOk (record b { reader = r }) w
WriterOk-reader b r idle ok_w = ok_w
WriterOk-reader b r (loaded seq value) ok_w = ok_w
WriterOk-reader b r (copying seq done todo) ok_w = ok_w

-- Every step keeps the invariant, while fewer than 2^63 values have been written.
pub Step-IsConsistent :
    {b c : Board} → Step b c → IsConsistent b → length c.history < 2 ^ 63 → IsConsistent c
unfolding write_call write_step read_step
Step-IsConsistent (call {b} value waits sized) v h = record {
  writes = let (n, latest) = subst (λ w. WriterOk b w) waits v.writes in (n, latest, n, sized);
  reads =
      ReaderOk-same b (record b { writer = loaded b.sequence value }) b.reader refl refl v.reads;
}
Step-IsConsistent (write {b}) v h = write_next-IsConsistent b b.writer v.writes v.reads refl h
Step-IsConsistent (read {b}) v h = record {
  writes = WriterOk-reader b (read_next b b.reader) b.writer v.writes;
  reads =
      ReaderOk-same b (record b { reader = read_next b b.reader }) (read_next b b.reader) refl refl
        (read_next-ok b b.reader v.reads);
}
Step-IsConsistent (again {b}) v h = record {
  writes = WriterOk-reader b start b.writer v.writes;
  reads = tt;
}

pub new_board-IsConsistent : (slot : List ℕ) → IsConsistent (new_board slot)
new_board-IsConsistent slot = record { writes = (refl, tt); reads = tt }

-- No step forgets a written value.
write_next-history :
    (b : Board) (w : WriterState) → length b.history ≤ length ((write_next b w).history)
write_next-history b idle = omega arith
write_next-history b (loaded seq value) = omega arith
write_next-history b (copying seq done (x ∷ todo)) = omega arith
write_next-history b (copying seq done []) = omega arith

pub Step-history : {b c : Board} → Step b c → length b.history ≤ length c.history
unfolding write_call write_step read_step
Step-history (call {b} value waits sized) = omega arith
Step-history (write {b}) = write_next-history b b.writer
Step-history (read {b}) = omega arith
Step-history (again {b}) = omega arith

-- Whatever steps lead from a new blackboard keeps the invariant, while fewer than 2^63 values have been
-- written.
pub Reaches-IsConsistent :
    {a b : Board} → Reaches a b → IsConsistent a → length b.history < 2 ^ 63 → IsConsistent b
Reaches-IsConsistent here v h = v
Reaches-IsConsistent (onward before step) v h =
    Step-IsConsistent step (Reaches-IsConsistent before v (omega (arith, Step-history step))) h
