-- ===== src/Port/ReqRes/Bytes.antt =====
-- Values as bytes in memory: what is written is read, and bytes elsewhere stay.
use entangle.Prelude.{
  ℕ, zero, suc, ◌+◌, ◌≤◌, ◌<◌, ◌≡◌, refl, ap₂, ◌∙◌, ◌⊎◌, inl, inr, List, [], ◌∷◌, arith, ◌==◌,
  if◌then◌else◌, eq→==, ne→==, length,
}
use entangle.Platform.SharedMemory.{Memory}
use entangle.Port.ReqRes.{write_bytes, read_bytes}

write_bytes-outside :
    (at : ℕ) (bs : List ℕ) (m : Memory) (i : ℕ)
    → (i < at) ⊎ (at + length bs ≤ i)
    → write_bytes at bs m i ≡ m i
write_bytes-outside at [] m i out = refl
write_bytes-outside at (b ∷ bs) m i out =
    write_bytes-outside (at + 1) bs (λ j. if j == at then b else m j) i (shift out)
    ∙ rw (ne→== i at (omega arith)) refl
  where
    shift : (i < at) ⊎ (at + length (b ∷ bs) ≤ i) → (i < at + 1) ⊎ (at + 1 + length bs ≤ i)
    shift (inl below) = inl (omega arith)
    shift (inr above) = inr (omega arith)

pub read_bytes-write_bytes :
    (at : ℕ) (bs : List ℕ) (m : Memory) → read_bytes at (length bs) (write_bytes at bs m) ≡ bs
read_bytes-write_bytes at [] m = refl
read_bytes-write_bytes at (b ∷ bs) m =
    let m' : Memory = λ i. if i == at then b else m i in
    ap₂ ◌∷◌ (write_bytes-outside (at + 1) bs m' at (inl (omega arith)) ∙ rw (eq→== at at refl) refl)
      (read_bytes-write_bytes (at + 1) bs m')

-- Values that lie apart do not touch.
pub read_bytes-apart :
    (at n to : ℕ) (bs : List ℕ) (m : Memory)
    → (at + n ≤ to) ⊎ (to + length bs ≤ at)
    → read_bytes at n (write_bytes to bs m) ≡ read_bytes at n m
read_bytes-apart at zero to bs m apart = refl
read_bytes-apart at (suc n) to bs m apart =
    ap₂ ◌∷◌ (write_bytes-outside to bs m at (here apart))
      (read_bytes-apart (at + 1) n to bs m (there apart))
  where
    here : (at + suc n ≤ to) ⊎ (to + length bs ≤ at) → (at < to) ⊎ (to + length bs ≤ at)
    here (inl below) = inl (omega arith)
    here (inr above) = inr above

    there :
        (at + suc n ≤ to) ⊎ (to + length bs ≤ at) → (at + 1 + n ≤ to) ⊎ (to + length bs ≤ at + 1)
    there (inl below) = inl (omega arith)
    there (inr above) = inr (omega arith)
