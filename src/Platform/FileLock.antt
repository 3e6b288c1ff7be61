-- ===== src/Platform/FileLock.antt =====
-- `FileLock` of crates/entangle-platform/src/file_lock.rs. What the operating system answers to each
-- call is an argument: a test that is true for success.
use Prim.Native.String.{String}
use entangle.Prelude.{Bool, true, false, Result, ok, err, if◌then◌else◌}
use entangle.Platform.Errors.{PlatformError, file_lock}

pub record FileLock : Type 0 where
  pub path : String
  pub is_locked : Bool

-- The answers to `acquire`: the directory is there or made, the file opens, and flock(2) gives the
-- lock at once.
pub record Answers : Type 0 where
  pub create_dir : Bool
  pub opens : Bool
  pub flock : Bool

unfoldable pub acquire : String → Answers → Result PlatformError FileLock
acquire path os =
    if os.create_dir
    then if os.opens
      then if os.flock then ok (record { path = path; is_locked = true }) else err file_lock
      else err file_lock
    else err file_lock

-- The probe of `FileLock::is_locked`: whether the file opens, and whether flock(2) gives the lock.
unfoldable pub probe_locked : Bool → Bool → Bool
probe_locked opens granted = if opens then (if granted then false else true) else false

-- `unlock`, with the answer of flock(2).
unfoldable pub unlock : Bool → FileLock → Result PlatformError FileLock
unlock released l =
    if l.is_locked
    then if released then ok (record l { is_locked = false }) else err file_lock
    else ok l

removed : Bool → Result PlatformError FileLock → Result PlatformError (Unit {0})
removed removes (err e) = err e
removed removes (ok l) = if removes then ok tt else err file_lock

-- `release_and_remove`, with the answers of flock(2) and of the removal.
unfoldable pub release_and_remove : Bool → Bool → FileLock → Result PlatformError (Unit {0})
unfolding removed
release_and_remove released removes l = removed removes (unlock released l)

abbrev left : FileLock → Result PlatformError FileLock → FileLock
left l (ok l') = l'
left l (err e) = l

-- `Drop`: a lock that is held is released, and a failure is only logged.
unfoldable pub drop_lock : Bool → FileLock → FileLock
drop_lock released l = if l.is_locked then left l (unlock released l) else l
