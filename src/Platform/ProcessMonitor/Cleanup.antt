-- ===== src/Platform/ProcessMonitor/Cleanup.antt =====
-- The cleanup finds the dead nodes among those that registered, and no others.
use Prim.Native.String.{String}
use text.Mathlib.Text.{◌==◌ as str_eq}
use text.Mathlib.TextEquality.{eq_iff}
use text.Mathlib.TextPositions.{eq_refl}
use entangle.Prelude.{
  ℕ, ◌^◌, ◌<◌, min, ◌≡◌, refl, sym, ap, ap₂, subst, ◌∙◌, ◌≢◌, inl, inr, Bool, true, false, not,
  ◌&&◌, some, List, [], ◌∷◌, map, arith, ℕ_discrete, if◌then◌else◌, ne→==, Bool-cases, All, count,
  count_self, ok,
}
use mathlib.Core.Option.{some-injective}
use entangle.Platform.FileLock.{probe_locked}
use entangle.Platform.ProcessMonitor.{
  Names, Files, unlinked, is_alive, ids_of, parsed, list_nodes, cleanup_one, cleanup_from,
  cleanup_listed, cleanup_dead_nodes,
}

-- The file names of 128-bit numbers parse back.
abbrev pub ParsesBack : Names → Type 0
ParsesBack names = (n : ℕ) → n < 2 ^ 128 → names.parse (names.render n) ≡ some n

ids_of-map :
    (names : Names) (ids : List ℕ)
    → ParsesBack names
    → All (λ n. n < 2 ^ 128) ids
    → ids_of names (map names.render ids) ≡ ids
unfolding ids_of parsed
ids_of-map names [] inverse small = refl
ids_of-map names (id ∷ ids) inverse small =
    rw (inverse id small.0, ids_of-map names ids inverse small.1) refl

-- How often a node is reported: its process holds the lock of its file, the file can be removed, and
-- the node is listed so often. A removed file is not there to be removed again.
abbrev pub reports : Bool → Bool → ℕ → ℕ
reports held removable times = if held then 0 else if removable then min 1 times else 0

-- The lock of an open file is taken.
abbrev pub is_held : Files → String → Bool
is_held files path = files.opens path && not (files.lock_free path)

is_alive-is_held :
    (names : Names) (files : Files) (id : ℕ)
    → is_alive names files id ≡ is_held files (names.render id)
unfolding is_alive probe_locked
is_alive-is_held names files id =
    by_tests (files.opens (names.render id)) (files.lock_free (names.render id))
  where
    by_tests : (a b : Bool) → (if a then (if b then false else true) else false) ≡ (a && not b)
    by_tests true true = refl
    by_tests true false = refl
    by_tests false b = refl

-- Nothing is reported of a node that is held or cannot be removed, nor twice.
reports_zero : (held : Bool) → (times : ℕ) → reports held false times ≡ 0
reports_zero true times = refl
reports_zero false times = refl

-- The names of different nodes differ.
render_ne :
    (names : Names) (a b : ℕ)
    → ParsesBack names
    → a < 2 ^ 128
    → b < 2 ^ 128
    → a ≢ b
    → str_eq (names.render a) (names.render b) ≡ false
render_ne names a b inverse small_a small_b ne =
    elim (Bool-cases (str_eq (names.render a) (names.render b))) [
      | inl same ↦
          let e : names.render a ≡ names.render b =
            (eq_iff (names.render a) (names.render b)).0 same in
          absurd (
            ne
              (some-injective a b (sym (inverse a small_a) ∙ ap names.parse e ∙ inverse b small_b)))
      | inr other ↦ other
    ]

-- What a round leaves of another node's file.
abbrev Same : String → Files → Files → Type 0
Same path files after =
    (after.opens path ≡ files.opens path)
    × (after.lock_free path ≡ files.lock_free path)
    × (after.removes path ≡ files.removes path)

cleanup_one-Same :
    (names : Names) (files : Files) (x : ℕ) (path : String)
    → str_eq path (names.render x) ≡ false
    → Same path files (cleanup_one names x files).1
unfolding cleanup_one
cleanup_one-Same names files x path other = elim (Bool-cases (is_alive names files x)) [
  | inl alive ↦ rw alive (refl, refl, refl)
  | inr dead ↦ elim (Bool-cases (files.removes (names.render x))) [
    | inl gone ↦ rw (dead, gone, other) (refl, refl, refl)
    | inr stays ↦ rw (dead, stays) (refl, refl, refl)
  ]
]

-- A round on the node itself.
count-cleanup_self :
    (names : Names) (id : ℕ) (ids : List ℕ) (files : Files)
    → ((files' : Files)
        → count id (cleanup_from names ids files').0
          ≡ reports
              (is_held files' (names.render id))
              (files'.removes (names.render id))
              (count id ids))
    → count id (cleanup_from names (id ∷ ids) files).0
      ≡ reports
          (is_held files (names.render id))
          (files.removes (names.render id))
          (count id (id ∷ ids))
unfolding cleanup_from cleanup_one
count-cleanup_self names id ids files later =
    let path = names.render id in
    let test = is_alive-is_held names files id in
    elim (Bool-cases (is_alive names files id)) [
      | inl alive ↦
          let held : is_held files path ≡ true = sym test ∙ alive in
          rw (alive, held) (rw held at (later files))
      | inr dead ↦
          let free : is_held files path ≡ false = sym test ∙ dead in
          elim (Bool-cases (files.removes path)) [
            | inl gone ↦
                let after = cleanup_from names ids (unlinked path files) in
                let unlinked_now : (unlinked path files).removes path ≡ false =
                  rw (eq_refl path) refl in
                let none_left : count id after.0 ≡ 0 =
                  later (unlinked path files)
                  ∙ ap (λ r. reports (is_held (unlinked path files) path) r (count id ids))
                      unlinked_now
                  ∙ reports_zero (is_held (unlinked path files) path) (count id ids) in
                rw (dead, gone, free)
                  (omega (arith, count_self id after.0, count_self id ids, none_left))
            | inr stays ↦ rw (dead, stays, free) (rw (free, stays) at (later files))
          ]
    ]

-- A round on another node.
count-cleanup_other :
    (names : Names) (id x : ℕ) (ids : List ℕ) (files : Files)
    → x ≢ id
    → str_eq (names.render id) (names.render x) ≡ false
    → ((files' : Files)
        → count id (cleanup_from names ids files').0
          ≡ reports
              (is_held files' (names.render id))
              (files'.removes (names.render id))
              (count id ids))
    → count id (cleanup_from names (x ∷ ids) files).0
      ≡ reports
          (is_held files (names.render id))
          (files.removes (names.render id))
          (count id (x ∷ ids))
unfolding cleanup_from
count-cleanup_other names id x ids files ne other later =
    let path = names.render id in
    let files' = (cleanup_one names x files).1 in
    let (opens, lock_free, removes) = cleanup_one-Same names files x path other in
    skip_if (cleanup_one names x files).0 (cleanup_from names ids files').0
    ∙ later files'
    ∙ ap (λ h. reports h (files'.removes path) (count id ids))
        (ap₂ (λ a b. a && not b) opens lock_free)
    ∙ ap (λ r. reports (is_held files path) r (count id ids)) removes
    ∙ ap (reports (is_held files path) (files.removes path)) (sym (skip ids))
  where
    skip : (xs : List ℕ) → count id (x ∷ xs) ≡ count id xs
    skip xs = rw (ne→== x id ne) (omega arith)

    skip_if : (b : Bool) (xs : List ℕ) → count id (if b then x ∷ xs else xs) ≡ count id xs
    skip_if true xs = skip xs
    skip_if false xs = refl

count-cleanup_from :
    (names : Names) (id : ℕ) (ids : List ℕ) (files : Files)
    → ParsesBack names
    → id < 2 ^ 128
    → All (λ n. n < 2 ^ 128) ids
    → count id (cleanup_from names ids files).0
      ≡ reports (is_held files (names.render id)) (files.removes (names.render id)) (count id ids)
unfolding cleanup_from
count-cleanup_from names id [] files inverse small all =
    by_tests (is_held files (names.render id)) (files.removes (names.render id))
  where
    by_tests : (a b : Bool) → ◌≡◌ {A = ℕ} 0 (reports a b 0)
    by_tests true b = refl
    by_tests false true = refl
    by_tests false false = refl
count-cleanup_from names id (x ∷ ids) files inverse small all =
    let later = λ (files' : Files). count-cleanup_from names id ids files' inverse small all.1 in
    elim (ℕ_discrete x id) [
      | yes e ↦
          subst
            (λ y.
              count id (cleanup_from names (y ∷ ids) files).0
              ≡ reports (is_held files (names.render id)) (files.removes (names.render id))
                  (count id (y ∷ ids)))
            (sym e) (count-cleanup_self names id ids files later)
      | no ne ↦
          count-cleanup_other names id x ids files ne
            (render_ne names id x inverse small all.0 (λ e. ne (sym e))) later
    ]

-- When the file names of 128-bit numbers parse back, the cleanup of a directory of registered
-- nodes succeeds; it reports nothing of a node whose file opens with its lock taken, or whose
-- file the system does not remove, and reports every other listed node once, however often it is
-- listed.
pub cleanup_dead_nodes_lem :
    (names : Names) (files : Files) (ids : List ℕ) (id : ℕ)
    → ParsesBack names
    → All (λ n. n < 2 ^ 128) ids
    → id < 2 ^ 128
    → (dead : List ℕ) × (after : Files) × (cleanup_dead_nodes names files
          (some (some (map names.render ids)))
        ≡ (ok dead, after))
      × (count id dead ≡ (
          if files.opens (names.render id) && not (files.lock_free (names.render id))
          then 0
          else if files.removes (names.render id)
          then min 1 (count id ids)
          else 0))
unfolding cleanup_dead_nodes cleanup_listed list_nodes
cleanup_dead_nodes_lem names files ids id inverse all small =
    let (dead, after) = cleanup_from names ids files in
    (
      dead,
      after,
      rw (ids_of-map names ids inverse all) refl,
      count-cleanup_from names id ids files inverse small all,
    )
