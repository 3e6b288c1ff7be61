-- ===== src/Service/Registry.antt =====
-- `ServiceRegistry` of crates/entangle/src/service/registry.rs: a directory of files, one for each
-- service. The answers of the file system's calls and the RON codec are arguments.
pub mod Files
use Prim.Native.String.{String}
use mathlib.Core.List.{filter_map}
use text.Mathlib.Text.{◌==◌ as str_eq}
use entangle.Prelude.{
  ℕ, Bool, List, [], ◌∷◌, Option, none, some, if◌then◌else◌, Result, ok, err, ◌>>=◌,
}
use entangle.Platform.Errors.{io}
use entangle.Errors.{ServiceError, already_exists, not_found, corrupted, platform}
use entangle.Service.Name.{service_path}
use entangle.Service.Config.{StaticConfig}

-- `ron::to_string` and `ron::from_str`: `none` for their errors.
pub record Codec : Type 0 where
  pub encode : StaticConfig → Option String
  pub decode : String → Option StaticConfig

-- The files below the root, by path.
abbrev pub Files : Type 0
Files = List (String × String)

-- The errors that the system gives to `create_dir_all`, to `open` beside `AlreadyExists`, and to
-- `write_all`.
pub record Answers : Type 0 where
  pub create_dir : Option ℕ
  pub open_new : Option ℕ
  pub write_all : Option ℕ

unfoldable pub read_file : String → Files → Option String
read_file path [] = none
read_file path ((p, content) ∷ files) = if str_eq p path then some content else read_file path files

unfoldable pub remove_file : String → Files → Files
remove_file path [] = []
remove_file path ((p, content) ∷ files) =
    let others = remove_file path files in if str_eq p path then others else (p, content) ∷ others

-- `write_all` on the new, empty file.
abbrev written : String → String → Option ℕ → Files → Result ServiceError String × Files
written path content (some errno) files = (err (platform (io errno)), (path, "") ∷ files)
written path content none files = (ok path, (path, content) ∷ files)

abbrev opened :
    String
    → String
    → Answers
    → Option String
    → Option ℕ
    → String
    → Files
    → Result ServiceError String × Files
opened name content os (some old) failure path files = (err (already_exists name), files)
opened name content os none (some errno) path files = (err (platform (io errno)), files)
opened name content os none none path files = written path content os.write_all files

abbrev serialized :
    StaticConfig → Answers → Files → Option String → Result ServiceError String × Files
serialized config os files none = (err corrupted, files)
serialized config os files (some content) =
    let path = service_path config.service_name in
    opened config.service_name content os (read_file path files) os.open_new path files

abbrev with_root :
    Codec → StaticConfig → Answers → Files → Option ℕ → Result ServiceError String × Files
with_root codec config os files (some errno) = (err (platform (io errno)), files)
with_root codec config os files none = serialized config os files (codec.encode config)

unfoldable pub register :
    Codec → StaticConfig → Answers → Files → Result ServiceError String × Files
register codec config os files = with_root codec config os files os.create_dir

abbrev decoded : Option StaticConfig → Result ServiceError StaticConfig
decoded (some config) = ok config
decoded none = err corrupted

abbrev looked_up : Codec → String → Option String → Result ServiceError StaticConfig
looked_up codec name (some content) = decoded (codec.decode content)
looked_up codec name none = err (not_found name)

unfoldable pub lookup : Codec → String → Files → Result ServiceError StaticConfig
lookup codec name files = looked_up codec name (read_file (service_path name) files)

-- The end of `unregister`: the content of the file, if there is one, and the error of its removal.
abbrev unregistered :
    String → Option String → Option ℕ → Files → Result ServiceError (Unit {0}) × Files
unregistered path none removal files = (ok tt, files)
unregistered path (some content) (some errno) files = (err (platform (io errno)), files)
unregistered path (some content) none files = (ok tt, remove_file path files)

unfoldable pub unregister : String → Option ℕ → Files → Result ServiceError (Unit {0}) × Files
unregister name removal files =
    let path = service_path name in unregistered path (read_file path files) removal files

-- What the system answers of the root: whether it exists, and its entries in the order in which they
-- are read; `none` is an entry that fails.
pub record Directory : Type 0 where
  pub root_exists : Bool
  pub read_dir : Result ℕ (List (Option String))

-- The configuration of an entry that is read and decodes.
unfoldable pub entry_config : Codec → Files → Option String → Option StaticConfig
entry_config codec files none = none
entry_config codec files (some path) = read_file path files >>= codec.decode

abbrev listed :
    Codec → Files → Result ℕ (List (Option String)) → Result ServiceError (List StaticConfig)
listed codec files (err errno) = err (platform (io errno))
listed codec files (ok entries) = ok (filter_map (entry_config codec files) entries)

unfoldable pub list : Codec → Directory → Files → Result ServiceError (List StaticConfig)
list codec dir files = if dir.root_exists then listed codec files dir.read_dir else ok []
