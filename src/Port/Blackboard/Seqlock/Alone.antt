-- ===== src/Port/Blackboard/Seqlock/Alone.antt =====
-- A write and a read that nothing interrupts.
use entangle.Prelude.{
  ℕ, zero, suc, ◌+◌, ◌%◌, ◌^◌, bit_and, ◌≡◌, refl, sym, ap, ◌∙◌, ◌≢◌, some, List, [], ◌∷◌, ◌++◌,
  arith, eq→==, ne→==, length, get_elem?, set,
}
use mathlib.Core.List.{append_assoc, append-nil}
use entangle.Prelude.Bits.{bit_and-mask}
use entangle.Port.Blackboard.Seqlock.{
  Board, idle, copying, start, finished, read_next, copy_word, write_call, write_step, read_step,
}
use entangle.Port.Blackboard.Seqlock.Inv.{get_elem?-append, get_elem?-length, set-append}

-- So many accesses of the writer, and of the reader, in a row.
abbrev pub writes : ℕ → Board → Board
writes zero b = b
writes (suc n) b = writes n (write_step b)

abbrev pub reads : ℕ → Board → Board
reads zero b = b
reads (suc n) b = reads n (read_step b)

-- The board after a whole write.
abbrev written : Board → ℕ → List ℕ → Board
written b seq value = record b {
  sequence = (seq + 2) % 2 ^ 64;
  slot = value;
  writer = idle;
  history = value ∷ b.history;
}

copy_one :
    (b : Board) (seq : ℕ) (done todo tail : List ℕ) (x y : ℕ)
    → b.writer ≡ copying seq done (x ∷ todo)
    → b.slot ≡ done ++ (y ∷ tail)
    → write_step b
      ≡ record b { slot = done ++ (x ∷ tail); writer = copying seq (done ++ (x ∷ [])) todo }
unfolding write_step
copy_one b seq done todo tail x y e split = rw e (
    ap (λ s. record b { slot = s; writer = copying seq (done ++ (x ∷ [])) todo })
      (ap (λ s. set s (length done) x) split ∙ set-append done y x tail))

copy_end :
    (b : Board) (seq : ℕ) (done : List ℕ)
    → b.writer ≡ copying seq done []
    → b.slot ≡ done
    → write_step b ≡ written b seq done
unfolding write_step
copy_end b seq done e split = rw e (
    ap
      (λ s. record b {
        sequence = (seq + 2) % 2 ^ 64;
        slot = s;
        writer = idle;
        history = done ∷ b.history;
      })
      split)

copy_all :
    (b : Board) (seq : ℕ) (done todo tail : List ℕ)
    → b.writer ≡ copying seq done todo
    → b.slot ≡ done ++ tail
    → length tail ≡ length todo
    → writes (suc (length todo)) b ≡ written b seq (done ++ todo)
copy_all b seq done [] (y ∷ tail) e split len = absurd (omega arith)
copy_all b seq done [] [] e split len =
    copy_end b seq done e (split ∙ append-nil done)
    ∙ ap (λ v. written b seq v) (sym (append-nil done))
copy_all b seq done (x ∷ todo) [] e split len = absurd (omega arith)
copy_all b seq done (x ∷ todo) (y ∷ tail) e split len =
    ap (writes (suc (length todo))) (copy_one b seq done todo tail x y e split)
    ∙ copy_all
        (record b { slot = done ++ (x ∷ tail); writer = copying seq (done ++ (x ∷ [])) todo }) seq
        (done ++ (x ∷ [])) todo tail refl (sym (append_assoc done (x ∷ []) tail)) (omega arith)
    ∙ ap (λ v. written b seq v) (append_assoc done (x ∷ []) todo)

read_one :
    (b : Board) (got tail : List ℕ) (x : ℕ)
    → b.reader ≡ copying b.sequence got
    → b.slot ≡ got ++ (x ∷ tail)
    → read_step b ≡ record b { reader = copying b.sequence (got ++ (x ∷ [])) }
unfolding read_step
read_one b got tail x e split =
    ap (λ r. record b { reader = read_next b r }) e
    ∙ ap (λ o. record b { reader = copy_word b b.sequence got o })
        (ap (λ s. get_elem? s (length got)) split ∙ get_elem?-append got x tail)

read_end :
    (b : Board) (got : List ℕ)
    → b.reader ≡ copying b.sequence got
    → b.slot ≡ got
    → read_step b ≡ record b { reader = finished (some b.slot) }
unfolding read_step
read_end b got e split =
    ap (λ r. record b { reader = read_next b r }) e
    ∙ ap (λ o. record b { reader = copy_word b b.sequence got o })
        (ap (λ s. get_elem? s (length got)) split ∙ get_elem?-length got)
    ∙ rw (eq→== b.sequence b.sequence refl)
        (ap (λ v. record b { reader = finished (some v) }) (sym split))

read_all :
    (b : Board) (got tail : List ℕ)
    → b.reader ≡ copying b.sequence got
    → b.slot ≡ got ++ tail
    → reads (suc (length tail)) b ≡ record b { reader = finished (some b.slot) }
read_all b got [] e split = read_end b got e (split ∙ append-nil got)
read_all b got (x ∷ tail) e split =
    ap (reads (suc (length tail))) (read_one b got tail x e split)
    ∙ read_all (record b { reader = copying b.sequence (got ++ (x ∷ [])) }) (got ++ (x ∷ [])) tail
        refl (split ∙ sym (append_assoc got (x ∷ []) tail))

-- A write of a value of the slot's length that nothing interrupts ends after one access for each
-- word and two more behind its first, stores the whole value, and raises the sequence by 2 modulo
-- 2^64.
pub write_alone :
    (b : Board) (value : List ℕ)
    → length value ≡ length b.slot
    → writes (suc (suc (length value))) (write_call value b) ≡ written b b.sequence value
unfolding write_call write_step
write_alone b value sized =
    copy_all
      (record b { sequence = (b.sequence + 1) % 2 ^ 64; writer = copying b.sequence [] value })
      b.sequence [] value b.slot refl refl (sym sized)

read_begin :
    (b : Board)
    → b.reader ≡ start
    → b.sequence ≢ 0
    → b.sequence % 2 ≡ 0
    → read_step b ≡ record b { reader = copying b.sequence [] }
unfolding read_step
read_begin b e ne even =
    rw (e, ne→== b.sequence 0 ne, eq→== (bit_and b.sequence 1) 0 (bit_and-mask 1 b.sequence ∙ even))
      refl

-- A read that starts at an even sequence other than 0 and that nothing interrupts returns the
-- value of the slot after one access for each word and two more.
pub read_alone :
    (b : Board)
    → b.reader ≡ start
    → b.sequence ≢ 0
    → b.sequence % 2 ≡ 0
    → reads (suc (suc (length b.slot))) b ≡ record b { reader = finished (some b.slot) }
read_alone b e ne even =
    ap (reads (suc (length b.slot))) (read_begin b e ne even)
    ∙ read_all (record b { reader = copying b.sequence [] }) [] b.slot refl refl
