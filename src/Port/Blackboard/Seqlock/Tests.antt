-- ===== src/Port/Blackboard/Seqlock/Tests.antt =====
-- A write and a read of two words, and instances of the theorems on the seqlock.
use entangle.Prelude.{◌≡◌, refl, some, [], ◌∷◌, arith}
use entangle.Port.Blackboard.Seqlock.{
  Board, start, finished, write_call, write_step, read_step, Reaches, here, onward, call, write,
  read, new_board,
}
use entangle.Port.Blackboard.Seqlock.Reads.{read-latest, latest}
use entangle.Port.Blackboard.Seqlock.Alone.{write_alone, read_alone, writes, reads}

abbrev empty : Board
empty = new_board (0 ∷ 0 ∷ [])

-- The write of 7 and 8 has finished, and a read has copied both words.
abbrev almost : Board
almost = reads 3 (writes 4 (write_call (7 ∷ 8 ∷ []) empty))

abbrev to_almost : Reaches empty almost
to_almost =
    let begun = onward here (call {b = empty} (7 ∷ 8 ∷ []) refl refl) in
    let wrote = onward (onward (onward (onward begun write) write) write) write in
    onward (onward (onward wrote read) read) read

read-latest_example : some (7 ∷ 8 ∷ []) ≡ latest (almost.history)
unfolding write_call write_step read_step
read-latest_example = read-latest {b = almost} {slot = 0 ∷ 0 ∷ []} to_almost (omega arith) tt refl

write_alone_example :
    writes 4 (write_call (7 ∷ 8 ∷ []) empty)
    ≡ record empty { sequence = 2; slot = 7 ∷ 8 ∷ []; history = (7 ∷ 8 ∷ []) ∷ [] }
write_alone_example = write_alone empty (7 ∷ 8 ∷ []) refl

-- A board with a value.
abbrev filled : Board
filled = record empty { sequence = 2; slot = 7 ∷ 8 ∷ []; history = (7 ∷ 8 ∷ []) ∷ [] }

read_alone_example : reads 4 filled ≡ record filled { reader = finished (some (7 ∷ 8 ∷ [])) }
read_alone_example = read_alone filled refl (omega arith) refl

-- A read in the middle of a write starts again.
retry : (read_step (writes 2 (write_call (7 ∷ 8 ∷ []) filled))).reader ≡ start
unfolding write_call write_step read_step
retry = refl
