-- ===== src/Platform/ProcessMonitor/Tests.antt =====
-- A directory of two nodes, one alive, and an instance of the theorem on the cleanup.
use Prim.Native.String.{String}
use entangle.Prelude.{
  arith, ℕ, zero, suc, ◌≡◌, refl, ap, true, not, some, List, [], ◌∷◌, map, ◌==◌, count, ok,
}
use entangle.Platform.FileLock.{acquire, probe_locked}
use entangle.Platform.ProcessMonitor.{
  Names, Files, is_alive, list_nodes, cleanup_dead_nodes, register, cleanup_one, cleanup_from,
}
use entangle.Platform.ProcessMonitor.Cleanup.{cleanup_dead_nodes_lem}

-- In base one, to have a printer and a parser at hand.
abbrev ones : ℕ → String
ones zero = ""
ones (suc n) = String.◌∷◌ "1" (ones n)

abbrev count_chars : String → ℕ
count_chars String.[] = 0
count_chars (String.◌∷◌ c s) = suc (count_chars s)

abbrev names : Names
names = record { render = ones; parse = λ text. some (count_chars text) }

count_chars-ones : (n : ℕ) → count_chars (ones n) ≡ n
count_chars-ones zero = refl
count_chars-ones (suc n) = ap suc (count_chars-ones n)

-- The lock of node 3 is held by its process.
abbrev files : Files
files = record {
  opens = λ name. true;
  lock_free = λ name. not (count_chars name == 3);
  removes = λ name. true;
}

-- Node 5 is listed twice and reported once.
cleanup_dead_nodes_lem_example :
    (dead : List ℕ) × (after : Files) × (cleanup_dead_nodes names files
        (some (some (map ones (3 ∷ 5 ∷ 5 ∷ []))))
      ≡ (ok dead, after))
    × (count 5 dead ≡ 1)
cleanup_dead_nodes_lem_example =
    cleanup_dead_nodes_lem names files (3 ∷ 5 ∷ 5 ∷ []) 5 (λ n small. ap some (count_chars-ones n))
      (omega arith, (omega arith, (omega arith, tt))) (omega arith)

cleanup_finds :
    (cleanup_dead_nodes names files (some (some (map ones (3 ∷ 5 ∷ []))))).0 ≡ ok (5 ∷ [])
unfolding cleanup_dead_nodes list_nodes is_alive probe_locked cleanup_from cleanup_one
cleanup_finds = refl

registers :
    register names 2 true (record { create_dir = true; opens = true; flock = true })
    ≡ ok (record { lock = record { path = "11"; is_locked = true }; node_id = 2 })
unfolding register acquire
registers = refl
