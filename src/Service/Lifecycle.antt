-- ===== src/Service/Lifecycle.antt =====
-- `ServiceLifecycle` of crates/entangle/src/service/lifecycle.rs.
pub mod Opening
mod Tests
use Prim.Native.String.{String}
use entangle.Prelude.{Option, ℕ, Result, ok, err}
use entangle.Errors.{
  ServiceError, not_found, already_exists, incompatible_qos, corrupted, version_mismatch, platform,
}
use entangle.Service.Config.{StaticConfig, validate_compatibility}
use entangle.Service.Registry.{Codec, Files, Answers}
use entangle.Service.Registry

abbrev registered : Result ServiceError String × Files → Result ServiceError (Unit {0}) × Files
registered (ok path, files) = (ok tt, files)
registered (err e, files) = (err e, files)

unfoldable pub create :
    Codec → StaticConfig → Answers → Files → Result ServiceError (Unit {0}) × Files
create codec config os files = registered (Registry.register codec config os files)

abbrev validated : StaticConfig → Result ServiceError (Unit {0}) → Result ServiceError StaticConfig
validated existing (ok done) = ok existing
validated existing (err e) = err e

abbrev found : StaticConfig → Result ServiceError StaticConfig → Result ServiceError StaticConfig
found expected (ok existing) = validated existing (validate_compatibility expected existing)
found expected (err e) = err e

unfoldable pub open_existing : Codec → StaticConfig → Files → Result ServiceError StaticConfig
open_existing codec expected files =
    found expected (Registry.lookup codec expected.service_name files)

abbrev created :
    StaticConfig → Result ServiceError (Unit {0}) × Files → Result ServiceError StaticConfig × Files
created config (ok done, files) = (ok config, files)
created config (err e, files) = (err e, files)

-- The match of `open_or_create` on what `open` answered.
abbrev pub or_create :
    Codec
    → StaticConfig
    → Answers
    → Files
    → Result ServiceError StaticConfig
    → Result ServiceError StaticConfig × Files
or_create codec config os files (ok existing) = (ok existing, files)
or_create codec config os files (err (not_found name)) =
    created config (create codec config os files)
or_create codec config os files (err (already_exists name)) = (err (already_exists name), files)
or_create codec config os files (err incompatible_qos) = (err incompatible_qos, files)
or_create codec config os files (err corrupted) = (err corrupted, files)
or_create codec config os files (err (version_mismatch a b)) = (err (version_mismatch a b), files)
or_create codec config os files (err (platform e)) = (err (platform e), files)

unfoldable pub open_or_create :
    Codec → StaticConfig → Answers → Files → Result ServiceError StaticConfig × Files
open_or_create codec config os files =
    or_create codec config os files (open_existing codec config files)

-- With the error that the system gives to the removal of the file.
unfoldable pub destroy : String → Option ℕ → Files → Result ServiceError (Unit {0}) × Files
destroy name removal files = Registry.unregister name removal files
