-- ===== src/Service/Lifecycle/Tests.antt =====
-- Services "a/b" and "a_b" on an empty directory, and instances of the theorems on services.
use Prim.Native.String.{String}
use entangle.Prelude.{List, ◌≡◌, refl, ◌↔◌, none, some, [], ◌∷◌, ok, err}
use entangle.Platform.Errors.{io}
use entangle.Errors.{ServiceError, already_exists, not_found, platform}
use entangle.Service.Name
use entangle.Service.Name.{
  ServiceName, bad_length, invalid_characters, all_valid, safe_name, service_path,
}
use entangle.Service.Name.Paths.{service_path-clash}
use entangle.Service.Config.{StaticConfig, pubsub, validate_compatibility, magic_number}
use entangle.Service.Config.Compat.{Agree, validate_compatibility_iff}
use entangle.Service.Registry.{Codec, Files, read_file, register, lookup, list}
use mathlib.Core.List.Perm
use mathlib.Core.Option.{some-ne-none}
use mathlib.Core.List.{Perm}
use entangle.Service.Registry.Files.{
  IsEntry, directory, granted, register-lookup, register-half_written,
}
use entangle.Service.Lifecycle.{create, open_existing, open_or_create}
use entangle.Service.Lifecycle.Opening.{open_or_create-first, create-race}

abbrev named : String → StaticConfig
named name = record {
  magic = magic_number;
  version = 1;
  pattern = pubsub;
  service_name = name;
  payload_type_name = "u64";
  payload_size = 8;
  payload_align = 8;
}

-- A codec that knows one configuration.
abbrev codec : Codec
codec = record { encode = λ config. some "(speed)"; decode = λ content. some (named "a/b") }

same_path : service_path "a_b" ≡ service_path "a/b"
unfolding service_path safe_name
same_path = refl

new-valid : Name.new "a/b" ≡ ok (record { text = "a/b" })
unfolding Name.new all_valid
new-valid = refl

new-invalid : (Name.new "a b" ≡ err invalid_characters) × (Name.new "" ≡ err bad_length)
unfolding Name.new all_valid
new-invalid = (refl, refl)

service_path-clash_instance : service_path "a/b" ≡ service_path "a_b"
service_path-clash_instance = service_path-clash "a" "b"

validate_compatibility_iff_instance :
    (validate_compatibility (named "a/b") (named "a_b") ≡ ok tt) ↔ Agree (named "a/b") (named "a_b")
validate_compatibility_iff_instance = validate_compatibility_iff (named "a/b") (named "a_b")

-- A directory with another registration, which is listed first and then last.
abbrev others : Files
others = ("other.ron", "(speed)") ∷ []

others-IsEntry : IsEntry others (some "other.ron")
unfolding read_file
others-IsEntry = some-ne-none "(speed)"

register-lookup_example :
    (after : Files) × (register codec (named "a/b") granted others
      ≡ (ok (service_path "a/b"), after))
    × (lookup codec "a_b" after ≡ ok (named "a/b"))
    × (found found' : List StaticConfig) × (list codec (directory (some "other.ron" ∷ [])) others
        ≡ ok found)
    × (list codec (directory (some "other.ron" ∷ some (service_path "a/b") ∷ [])) after ≡ ok found')
    × Perm found' (named "a/b" ∷ found)
unfolding read_file service_path safe_name
register-lookup_example =
    register-lookup codec (named "a/b") "(speed)" "a_b" others (some "other.ron" ∷ [])
      (some "other.ron" ∷ some (service_path "a/b") ∷ []) refl refl refl same_path
      (others-IsEntry, tt) (Perm.swap (some (service_path "a/b")) (some "other.ron") [])

register-half_written_instance :
    (after : Files) × (register codec
        (named "a/b")
        (record { create_dir = none; open_new = none; write_all = some 28 })
        []
      ≡ (err (platform (io 28)), after))
    × (register codec (named "a/b") granted after ≡ (err (already_exists "a/b"), after))
unfolding read_file
register-half_written_instance = register-half_written codec (named "a/b") "(speed)" 28 [] refl refl

open_or_create-first_instance :
    (after : Files) × (open_or_create codec (named "a/b") granted [] ≡ (ok (named "a/b"), after))
    × (Agree (named "a_b") (named "a/b")
        → (os : _) → open_or_create codec (named "a_b") os after ≡ (ok (named "a/b"), after))
    × ((e : ServiceError)
        → validate_compatibility (named "a_b") (named "a/b") ≡ err e
        → open_existing codec (named "a_b") after ≡ err e)
unfolding read_file
open_or_create-first_instance =
    open_or_create-first codec (named "a/b") (named "a_b") "(speed)" [] refl refl refl same_path

create-race_instance :
    (after : Files) × (open_existing codec (named "a/b") [] ≡ err (not_found "a/b"))
    × (create codec (named "a/b") granted [] ≡ (ok tt, after))
    × (create codec (named "a/b") granted after ≡ (err (already_exists "a/b"), after))
unfolding read_file
create-race_instance = create-race codec (named "a/b") "(speed)" [] refl refl
