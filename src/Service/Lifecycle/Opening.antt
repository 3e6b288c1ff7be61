-- ===== src/Service/Lifecycle/Opening.antt =====
-- What opening or creating a service does for the first caller and for those after it.
use Prim.Native.String.{String}
use entangle.Prelude.{◌≡◌, refl, none, some, ok, err}
use entangle.Errors.{ServiceError, already_exists, not_found}
use entangle.Service.Name.{service_path}
use entangle.Service.Config.{StaticConfig, validate_compatibility}
use entangle.Service.Config.Compat.{Agree, validate_compatibility-Agree}
use entangle.Service.Registry.{Codec, Files, Answers, read_file}
use entangle.Service.Registry
use entangle.Service.Registry.Files.{granted, register-lookup_all, register_twice}
use entangle.Service.Lifecycle.{create, open_existing, open_or_create}

-- When the configuration encodes and decodes back and the service's path is free, the first
-- open_or_create on a willing file system creates the service; a later one whose configuration
-- agrees, under a name of the same path, gets the first configuration and changes nothing, and
-- opening with one that does not validate gets the validation's error.
pub open_or_create-first :
    (codec : Codec) (config later : StaticConfig) (content : String) (files : Files)
    → codec.encode config ≡ some content
    → codec.decode content ≡ some config
    → read_file (service_path config.service_name) files ≡ none
    → service_path later.service_name ≡ service_path config.service_name
    → (after : Files) × (open_or_create codec config granted files ≡ (ok config, after))
      × (Agree later config
          → (os : Answers) → open_or_create codec later os after ≡ (ok config, after))
      × ((e : ServiceError)
          → validate_compatibility later config ≡ err e
          → open_existing codec later after ≡ err e)
unfolding open_or_create open_existing create Registry.lookup
open_or_create-first codec config later content files encoded decodes free same =
    let (after, made, all_looked) =
      register-lookup_all codec config content files encoded decodes free in
    let looked = all_looked later.service_name same in
    (
      after,
      rw (free, made) refl,
      λ agree os. rw (looked, validate_compatibility-Agree later config agree) refl,
      λ e refused. rw (looked, refused) refl,
    )

-- When the configuration encodes and the service's path is free, opening finds no service, one
-- creation succeeds on a willing file system, and a second creation after it, as by a caller that
-- also found no service, fails as already existing and leaves the directory as it is.
pub create-race :
    (codec : Codec) (config : StaticConfig) (content : String) (files : Files)
    → codec.encode config ≡ some content
    → read_file (service_path config.service_name) files ≡ none
    → (after : Files) × (open_existing codec config files ≡ err (not_found config.service_name))
      × (create codec config granted files ≡ (ok tt, after))
      × (create codec config granted after ≡ (err (already_exists config.service_name), after))
unfolding create open_existing Registry.lookup
create-race codec config content files encoded free =
    let path = service_path config.service_name in
    let (after, made, taken) = register_twice codec config content files encoded free in
    (after, rw free refl, rw made refl, rw taken refl)
