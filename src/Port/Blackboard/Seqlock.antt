-- ===== src/Port/Blackboard/Seqlock.antt =====
-- `Writer::write` of crates/entangle/src/port/writer.rs and `Reader::read` of
-- crates/entangle/src/port/reader.rs at work at the same time: a step is one atomic access, or the copy
-- of one word of the value. Every thread sees the accesses in the order in which they happen.
pub mod Inv
pub mod Reads
pub mod Alone
mod Tests
use entangle.Prelude.{
  ℕ, zero, suc, ◌+◌, ◌-◌, ◌*◌, ◌/◌, ◌%◌, ◌^◌, ◌≤◌, ◌<◌, bit_and, bit_or, min, max, ◌≡◌, refl, sym,
  ap, ap₂, subst, ◌∙◌, ◌≢◌, ◌↔◌, ◌⊎◌, inl, inr, Bool, true, false, not, ◌&&◌, ◌||◌, Option, none,
  some, List, [], ◌∷◌, ◌++◌, map, arith, dec_lt, ℕ_discrete, ltb, leb, ◌==◌, if◌then◌else◌, ltb→lt,
  lt→ltb, le→leb, gt→leb, ==→eq, eq→==, ne→==, Bool-cases, Option-cases, length, get_elem?, get_or,
  set, replicate, length-replicate, length-append, length-set, get_elem?-eq-get_or, get_or-set_self,
  get_or-set_ne, store, store-in_range, range_from, All, Distinct, All-map, length-range_from,
  length-map, get_or-map_range, All-range_from, Distinct-range_from, pigeonhole, count,
  count-append, count_self, All-ne_of_count, Distinct-of_count, All-lt_of_count, length-le_of_count,
  count-range_from, Result, ok, err, map_err, assert, ◌>>=◌, ◌>>◌,
}

-- Where `write` stands: before the call, after the load of the sequence, and while it copies the value,
-- of which the words `done` are stored and `todo` are not.
pub data WriterState : Type 0 where
  idle : WriterState
  loaded : (seq : ℕ) (value : List ℕ) → WriterState
  copying : (seq : ℕ) (done todo : List ℕ) → WriterState

-- Where `read` stands: at the head of its loop, while it copies the words of the slot, and returned.
pub data ReaderState : Type 0 where
  start : ReaderState
  copying : (s1 : ℕ) (got : List ℕ) → ReaderState
  finished : Option (List ℕ) → ReaderState

-- `history` lists the values whose `write` has finished, the latest first: no code reads it.
pub record Board : Type 0 where
  pub sequence : ℕ
  pub slot : List ℕ
  pub writer : WriterState
  pub reader : ReaderState
  pub history : List (List ℕ)

-- The next access of `write`.
abbrev pub write_next : Board → WriterState → Board
write_next b idle = b
write_next b (loaded seq value) = record b {
  sequence = (seq + 1) % 2 ^ 64;
  writer = copying seq [] value;
}
write_next b (copying seq done (x ∷ todo)) = record b {
  slot = set b.slot (length done) x;
  writer = copying seq (done ++ (x ∷ [])) todo;
}
write_next b (copying seq done []) = record b {
  sequence = (seq + 2) % 2 ^ 64;
  writer = idle;
  history = done ∷ b.history;
}

unfoldable pub write_step : Board → Board
write_step b = write_next b b.writer

-- The call of `write` with its first access.
unfoldable pub write_call : List ℕ → Board → Board
write_call value b = record b { writer = loaded b.sequence value }

-- The copied words, with one more while the slot has one.
abbrev pub copy_word : Board → ℕ → List ℕ → Option ℕ → ReaderState
copy_word b s1 got (some x) = copying s1 (got ++ (x ∷ []))
copy_word b s1 got none = if b.sequence == s1 then finished (some got) else start

-- The next access of `read`.
abbrev pub read_next : Board → ReaderState → ReaderState
read_next b start =
    if b.sequence == 0
    then finished none
    else if bit_and b.sequence 1 == 0
    then copying b.sequence []
    else start
read_next b (copying s1 got) = copy_word b s1 got (get_elem? b.slot (length got))
read_next b (finished result) = finished result

unfoldable pub read_step : Board → Board
read_step b = record b { reader = read_next b b.reader }

-- One step of the system. A call of `write` waits for the last one; a `read` can be called anew.
pub data Step : Board → Board → Type 0 where
  call :
      {b : Board} (value : List ℕ)
      → b.writer ≡ idle
      → length value ≡ length b.slot
      → Step b (write_call value b)
  write : {b : Board} → Step b (write_step b)
  read : {b : Board} → Step b (read_step b)
  again : {b : Board} → Step b (record b { reader = start })

-- What steps lead to.
pub data Reaches : Board → Board → Type 0 where
  here : {b : Board} → Reaches b b
  onward : {a b c : Board} → Reaches a b → Step b c → Reaches a c

-- A new blackboard: nothing is written.
abbrev pub new_board : List ℕ → Board
new_board slot = record { sequence = 0; slot = slot; writer = idle; reader = start; history = [] }
