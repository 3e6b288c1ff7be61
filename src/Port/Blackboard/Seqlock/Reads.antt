-- ===== src/Port/Blackboard/Seqlock/Reads.antt =====
-- What a concurrent `read` of the blackboard returns.
use entangle.Prelude.{
  ℕ, ◌*◌, ◌%◌, ◌^◌, ◌<◌, bit_and, ◌≡◌, refl, sym, ap, subst, ◌∙◌, ◌≢◌, inl, inr, Option, none, some,
  List, [], ◌∷◌, ◌++◌, arith, ℕ_discrete, ◌==◌, eq→==, ne→==, Bool-cases, Option-cases, length,
  get_elem?,
}
use mathlib.Core.List.{append-nil}
use entangle.Port.Blackboard.Seqlock.{
  Board, WriterState, idle, loaded, copying, ReaderState, start, finished, read_next, copy_word,
  Reaches, new_board, read_step,
}
use entangle.Port.Blackboard.Seqlock.Inv.{
  WriterOk, ReaderOk, Reaches-IsConsistent, new_board-IsConsistent, Latest, found, get_elem?-append,
}

-- At an even sequence no write is in its copy, and the slot holds the latest value.
Latest-at :
    (b : Board) (w : WriterState)
    → WriterOk b w
    → b.sequence % 2 ≡ 0
    → (b.sequence ≡ 2 * length b.history) × Latest b.history b.slot
Latest-at b idle (n, latest) even = (n, latest)
Latest-at b (loaded seq value) (n, latest, s, len) even = (n, latest)
Latest-at b (copying seq done todo) (n, s, tail, split, len) even = absurd (omega arith)

whole :
    (slot got tail : List ℕ) → slot ≡ got ++ tail → get_elem? slot (length got) ≡ none → slot ≡ got
whole slot got [] split missing = split ∙ append-nil got
whole slot got (y ∷ tail) split missing = absurd (
    omega (
      arith,
      ap found (
          sym (get_elem?-append got y tail)
          ∙ ap (λ l. get_elem? l (length got)) (sym split)
          ∙ missing),
    ))

-- The latest of the values that were written, if any was.
abbrev pub latest : List (List ℕ) → Option (List ℕ)
latest [] = none
latest (v ∷ rest) = some v

-- The read has not returned.
abbrev pub IsReading : ReaderState → Type 0
IsReading start = Unit
IsReading (copying s1 got) = Unit
IsReading (finished result) = ⊥

-- A read that returns, returns the latest value.
abbrev Answers : Board → ReaderState → Type 0
Answers b start = Unit
Answers b (copying s1 got) = Unit
Answers b (finished result) = result ≡ latest b.history

copied-latest :
    (b : Board) (got : List ℕ) (history : List (List ℕ))
    → b.history ≡ history
    → b.sequence ≢ 0
    → b.sequence ≡ 2 * length history
    → Latest history b.slot
    → b.slot ≡ got
    → some got ≡ latest b.history
copied-latest b got [] e ne n held same = absurd (ne n)
copied-latest b got (v ∷ rest) e ne n held same = ap some (sym same ∙ held) ∙ ap latest (sym e)

copy-Answers :
    (b : Board) (s1 : ℕ) (got : List ℕ)
    → WriterOk b b.writer
    → ReaderOk b (copying s1 got)
    → Answers b (copy_word b s1 got (get_elem? b.slot (length got)))
copy-Answers b s1 got ok_w (some_one, even, le, held) =
    elim (Option-cases (get_elem? b.slot (length got))) [
      | inr (x, at) ↦ rw at tt
      | inl missing ↦ elim (ℕ_discrete b.sequence s1) [
        | no ne ↦ rw (missing, ne→== b.sequence s1 ne) tt
        | yes e ↦
            let (n, now) = Latest-at b b.writer ok_w (omega arith) in
            let (tail, split) = held (sym e) in
            rw (missing, eq→== b.sequence s1 e)
              (copied-latest b got b.history refl (λ z. some_one (sym e ∙ z)) n now
                (whole b.slot got tail split missing))
      ]
    ]

start-Answers : (b : Board) → WriterOk b b.writer → Answers b (read_next b start)
start-Answers b ok_w = elim (ℕ_discrete b.sequence 0) [
  | yes e ↦
      rw (eq→== b.sequence 0 e) (unwritten b.history e (Latest-at b b.writer ok_w (omega arith)).0)
  | no ne ↦ elim (Bool-cases (bit_and b.sequence 1 == 0)) [
    | inl even ↦ rw (ne→== b.sequence 0 ne, even) tt
    | inr odd ↦ rw (ne→== b.sequence 0 ne, odd) tt
  ]
]
  where
    unwritten :
        (history : List (List ℕ))
        → b.sequence ≡ 0
        → b.sequence ≡ 2 * length history
        → none ≡ latest history
    unwritten [] e n = refl
    unwritten (v ∷ rest) e n = absurd (omega arith)

read_next-Answers :
    (b : Board) (r : ReaderState)
    → IsReading r
    → WriterOk b b.writer
    → ReaderOk b r
    → Answers b (read_next b r)
read_next-Answers b start reading ok_w ok_r = start-Answers b ok_w
read_next-Answers b (copying s1 got) reading ok_w ok_r = copy-Answers b s1 got ok_w ok_r
read_next-Answers b (finished result) reading ok_w ok_r = absurd reading

-- However the accesses of one writer and one reader are interleaved word by word from a new
-- blackboard, a read that returns gives at that moment the value whose write finished last,
-- whole, and none if no write has finished; it holds while fewer than 2^63 values have been
-- written.
pub read-latest :
    {b : Board} {slot : List ℕ} {result : Option (List ℕ)}
    → Reaches (new_board slot) b
    → length b.history < 2 ^ 63
    → IsReading b.reader
    → (read_step b).reader ≡ finished result
    → result ≡ latest b.history
unfolding read_step
read-latest {b} {slot} run bound reading e =
    let v = Reaches-IsConsistent run (new_board-IsConsistent slot) bound in
    subst (λ r. Answers b r) e (read_next-Answers b b.reader reading v.writes v.reads)
