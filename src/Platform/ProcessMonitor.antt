-- ===== src/Platform/ProcessMonitor.antt =====
-- `ProcessMonitor` of crates/entangle-platform/src/process_monitor.rs. The directory of nodes is the
-- list of its file names, or nothing; `{:032x}` and `from_str_radix` are arguments, and so are the
-- answers to the calls on the files.
pub mod Cleanup
mod Tests
use Prim.Native.String.{String}
use text.Mathlib.Text.{◌==◌ as str_eq}
use entangle.Prelude.{
  ℕ, zero, suc, ◌+◌, ◌-◌, ◌*◌, ◌/◌, ◌%◌, ◌^◌, ◌≤◌, ◌<◌, bit_and, bit_or, min, max, ◌≡◌, refl, sym,
  ap, ap₂, subst, ◌∙◌, ◌≢◌, ◌↔◌, ◌⊎◌, inl, inr, Bool, true, false, not, ◌&&◌, ◌||◌, Option, none,
  some, List, [], ◌∷◌, ◌++◌, map, arith, dec_lt, ℕ_discrete, ltb, leb, ◌==◌, if◌then◌else◌, ltb→lt,
  lt→ltb, le→leb, gt→leb, ==→eq, eq→==, ne→==, Bool-cases, Option-cases, length, get_elem?, get_or,
  set, replicate, length-replicate, length-append, length-set, get_elem?-eq-get_or, get_or-set_self,
  get_or-set_ne, set-get_or_self, store, store-in_range, range_from, All, Distinct, All-map,
  length-range_from, length-map, get_or-map_range, All-range_from, Distinct-range_from, pigeonhole,
  count, count-append, count_self, All-ne_of_count, Distinct-of_count, All-lt_of_count,
  length-le_of_count, count-range_from, Result, ok, err, map_err, assert, along_some, ◌>>=◌, ◌>>◌,
}
use entangle.Platform.Errors.{PlatformError, process_monitor}
use entangle.Platform.FileLock
use entangle.Platform.FileLock.{FileLock, probe_locked}

-- The two functions of the standard library on the names of files.
pub record Names : Type 0 where
  pub render : ℕ → String
  pub parse : String → Option ℕ

pub record ProcessMonitor : Type 0 where
  pub lock : FileLock
  pub node_id : ℕ

registered : ℕ → Result PlatformError FileLock → Result PlatformError ProcessMonitor
registered node_id (ok lock) = ok (record { lock = lock; node_id = node_id })
registered node_id (err e) = err process_monitor

-- `register`, with the answer to the making of the directory and those to `FileLock::acquire`.
unfoldable pub register : Names → ℕ → Bool → FileLock.Answers → Result PlatformError ProcessMonitor
unfolding registered
register names node_id create_dir os =
    if create_dir
    then registered node_id (FileLock.acquire (names.render node_id) os)
    else err process_monitor

-- What the system answers now, by file name: the file opens, flock(2) gives its lock, its removal
-- succeeds.
pub record Files : Type 0 where
  pub opens : String → Bool
  pub lock_free : String → Bool
  pub removes : String → Bool

-- A file that was removed neither opens nor is removed again.
abbrev pub unlinked : String → Files → Files
unlinked path files = record files {
  opens = λ name. if str_eq name path then false else files.opens name;
  removes = λ name. if str_eq name path then false else files.removes name;
}

unfoldable pub is_alive : Names → Files → ℕ → Bool
unfolding probe_locked
is_alive names files node_id =
    probe_locked (files.opens (names.render node_id)) (files.lock_free (names.render node_id))

-- The names that are numbers.
parsed : Names → Option ℕ → List ℕ → List ℕ
parsed names (some id) rest = id ∷ rest
parsed names none rest = rest

ids_of : Names → List String → List ℕ
ids_of names [] = []
ids_of names (name ∷ rest) = parsed names (names.parse name) (ids_of names rest)

-- `list_nodes`: without a directory there are no nodes, and one that cannot be read is an error.
unfoldable pub list_nodes : Names → Option (Option (List String)) → Result PlatformError (List ℕ)
unfolding parsed ids_of
list_nodes names none = ok []
list_nodes names (some none) = err process_monitor
list_nodes names (some (some entries)) = ok (ids_of names entries)

-- One round of `cleanup_dead_nodes`: whether the file of a dead node was removed.
unfoldable pub cleanup_one : Names → ℕ → Files → Bool × Files
unfolding is_alive
cleanup_one names id files =
    if is_alive names files id
    then (false, files)
    else if files.removes (names.render id)
    then (true, unlinked (names.render id) files)
    else (false, files)

-- The loop: the nodes whose files were removed.
unfoldable pub cleanup_from : Names → List ℕ → Files → List ℕ × Files
cleanup_from names [] files = ([], files)
cleanup_from names (id ∷ rest) files =
    let (removed, files') = cleanup_one names id files in
    let (dead, after) = cleanup_from names rest files' in
    (if removed then id ∷ dead else dead, after)

abbrev reported : List ℕ × Files → Result PlatformError (List ℕ) × Files
reported (dead, files) = (ok dead, files)

cleanup_listed :
    Names → Files → Result PlatformError (List ℕ) → Result PlatformError (List ℕ) × Files
unfolding cleanup_from
cleanup_listed names files (ok nodes) = reported (cleanup_from names nodes files)
cleanup_listed names files (err e) = (err e, files)

unfoldable pub cleanup_dead_nodes :
    Names → Files → Option (Option (List String)) → Result PlatformError (List ℕ) × Files
unfolding cleanup_listed
cleanup_dead_nodes names files dir = cleanup_listed names files (list_nodes names dir)

-- `deregister`, with the answers of flock(2) and of the removal.
deregistered : Result PlatformError (Unit {0}) → Result PlatformError (Unit {0})
deregistered (ok done) = ok tt
deregistered (err e) = err process_monitor

unfoldable pub deregister : Bool → Bool → ProcessMonitor → Result PlatformError (Unit {0})
unfolding deregistered
deregister released removes m = deregistered (FileLock.release_and_remove released removes (m.lock))
