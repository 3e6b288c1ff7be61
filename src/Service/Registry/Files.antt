-- ===== src/Service/Registry/Files.antt =====
-- What a registration leaves in the directory.
use Prim.Native.String.{String}
use text.Mathlib.Text.{◌==◌ as str_eq}
use text.Mathlib.TextPositions.{eq_refl}
use text.Mathlib.TextEquality.{eq_iff}
use mathlib.Core.List.Perm
use mathlib.Core.List.{Perm, filter_map}
use entangle.Prelude.{
  true, Option, Option-cases, List, All, ◌≢◌, subst, ℕ, ◌≡◌, refl, inl, inr, none, some, [], ◌∷◌,
  Bool-cases, ok, err,
}
use entangle.Platform.Errors.{io}
use entangle.Errors.{already_exists, not_found, platform}
use entangle.Service.Name.{service_path}
use entangle.Service.Config.{StaticConfig}
use entangle.Service.Registry.{
  Codec, Files, Answers, Directory, read_file, remove_file, register, lookup, unregister, list,
  entry_config,
}

-- Answers without an error.
abbrev pub granted : Answers
granted = record { create_dir = none; open_new = none; write_all = none }

-- An entry of a directory is a file of it.
abbrev pub IsEntry : Files → Option String → Type 0
IsEntry files (some path) = read_file path files ≢ none
IsEntry files none = Unit

-- A root that exists, with these entries.
abbrev pub directory : List (Option String) → Directory
directory entries = record { root_exists = true; read_dir = ok entries }

-- Entries read as before when a file of another path is added.
filter_map-entry_config :
    (codec : Codec) (path content : String) (files : Files) (entries : List (Option String))
    → read_file path files ≡ none
    → All (IsEntry files) entries
    → filter_map (entry_config codec ((path, content) ∷ files)) entries
      ≡ filter_map (entry_config codec files) entries
unfolding entry_config read_file filter_map
filter_map-entry_config codec path content files [] free all = refl
filter_map-entry_config codec path content files (none ∷ entries) free all =
    filter_map-entry_config codec path content files entries free all.1
filter_map-entry_config codec path content files (some p ∷ entries) free all =
    elim (Bool-cases (str_eq path p)) [
      | inl same ↦
          absurd (all.0 (subst (λ q. read_file q files ≡ none) ((eq_iff path p).0 same) free))
      | inr other ↦
          rw (other, filter_map-entry_config codec path content files entries free all.1) refl
    ]

filter_map-entry_new :
    (codec : Codec) (config : StaticConfig) (path content : String) (files : Files)
    (entries : List (Option String))
    → codec.decode content ≡ some config
    → read_file path files ≡ none
    → All (IsEntry files) entries
    → filter_map (entry_config codec ((path, content) ∷ files)) (some path ∷ entries)
      ≡ config ∷ filter_map (entry_config codec files) entries
unfolding entry_config read_file filter_map
filter_map-entry_new codec config path content files entries decodes free all =
    rw (eq_refl path, decodes, filter_map-entry_config codec path content files entries free all)
      refl

-- When the configuration encodes and decodes back and its path is free, registering it on a
-- willing file system succeeds, and lookup of every name with the same path then answers it;
-- where the root exists and its entries before are files of it, listing it before and after
-- succeeds in whatever order the entries are read, the entries after being those before and the
-- new path, and what is listed after is a permutation of the configuration and what was listed
-- before.
pub register-lookup :
    (codec : Codec) (config : StaticConfig) (content name : String) (files : Files)
    (before later : List (Option String))
    → codec.encode config ≡ some content
    → codec.decode content ≡ some config
    → read_file (service_path config.service_name) files ≡ none
    → service_path name ≡ service_path config.service_name
    → All (IsEntry files) before
    → Perm later (some (service_path config.service_name) ∷ before)
    → (after : Files) × (register codec config granted files
        ≡ (ok (service_path config.service_name), after))
      × (lookup codec name after ≡ ok config)
      × (found found' : List StaticConfig) × (list codec (directory before) files ≡ ok found)
      × (list codec (directory later) after ≡ ok found')
      × Perm found' (config ∷ found)
unfolding register lookup list read_file
register-lookup codec config content name files before later encoded decodes free same all order =
    let path = service_path config.service_name in
    let after : Files = (path, content) ∷ files in
    (
      after,
      rw (encoded, free) refl,
      rw (same, eq_refl path, decodes) refl,
      filter_map (entry_config codec files) before,
      filter_map (entry_config codec after) later,
      refl,
      refl,
      subst (Perm (filter_map (entry_config codec after) later))
          (filter_map-entry_new codec config path content files before decodes free all)
          (Perm.filter_map (entry_config codec after) order),
    )

-- The same for every name at once.
pub register-lookup_all :
    (codec : Codec) (config : StaticConfig) (content : String) (files : Files)
    → codec.encode config ≡ some content
    → codec.decode content ≡ some config
    → read_file (service_path config.service_name) files ≡ none
    → (after : Files) × (register codec config granted files
        ≡ (ok (service_path config.service_name), after))
      × ((name : String)
          → service_path name ≡ service_path config.service_name
          → lookup codec name after ≡ ok config)
unfolding register lookup read_file
register-lookup_all codec config content files encoded decodes free = (
  (service_path config.service_name, content) ∷ files,
  rw (encoded, free) refl,
  λ name same. rw (same, eq_refl (service_path config.service_name), decodes) refl,
)

-- A service whose path is taken is refused, and the directory stays as it is.
pub register-taken :
    (codec : Codec) (config : StaticConfig) (content old : String) (os : Answers) (files : Files)
    → codec.encode config ≡ some content
    → read_file (service_path config.service_name) files ≡ some old
    → os.create_dir ≡ none
    → register codec config os files ≡ (err (already_exists config.service_name), files)
unfolding register
register-taken codec config content old os files encoded taken dir = rw (dir, encoded, taken) refl

-- Of two registrations of one name, the second is refused.
pub register_twice :
    (codec : Codec) (config : StaticConfig) (content : String) (files : Files)
    → codec.encode config ≡ some content
    → read_file (service_path config.service_name) files ≡ none
    → (after : Files) × (register codec config granted files
        ≡ (ok (service_path config.service_name), after))
      × (register codec config granted after ≡ (err (already_exists config.service_name), after))
unfolding register read_file
register_twice codec config content files encoded free = (
  (service_path config.service_name, content) ∷ files,
  rw (encoded, free) refl,
  rw (encoded, eq_refl (service_path config.service_name)) refl,
)

read_file-remove_file :
    (path : String) (files : Files) → read_file path (remove_file path files) ≡ none
unfolding read_file remove_file
read_file-remove_file path [] = refl
read_file-remove_file path ((p, content) ∷ files) = elim (Bool-cases (str_eq p path)) [
  | inl same ↦ rw same (read_file-remove_file path files)
  | inr other ↦ rw (other, other) (read_file-remove_file path files)
]

-- Where the system removes the file, or there is none, unregister of a name succeeds, and lookup of
-- every name with the same path then answers that it is not found; a file that the system does not
-- remove stays, with the system's error.
pub unregister-lookup :
    (codec : Codec) (name other : String) (files : Files)
    → service_path other ≡ service_path name
    → (after : Files) × (unregister name none files ≡ (ok tt, after))
      × (lookup codec other after ≡ err (not_found other))
      × ((content : String) (errno : ℕ)
          → read_file (service_path name) files ≡ some content
          → unregister name (some errno) files ≡ (err (platform (io errno)), files))
unfolding lookup unregister
unregister-lookup codec name other files same =
    elim (Option-cases (read_file (service_path name) files)) [
      | inl free ↦ (files, rw free refl, rw (same, free) refl, λ content errno found. rw found refl)
      | inr (old, found) ↦ (
        remove_file (service_path name) files,
        rw found refl,
        rw (same, read_file-remove_file (service_path name) files) refl,
        λ content errno found'. rw found' refl,
      )
    ]

-- When the configuration encodes, its path is free and only the write fails, register gives the
-- system's error but leaves the path taken: the next registration of the configuration, on a
-- willing file system, fails as already existing.
pub register-half_written :
    (codec : Codec) (config : StaticConfig) (content : String) (errno : ℕ) (files : Files)
    → codec.encode config ≡ some content
    → read_file (service_path config.service_name) files ≡ none
    → (after : Files) × (register codec config
          (record { create_dir = none; open_new = none; write_all = some errno })
          files
        ≡ (err (platform (io errno)), after))
      × (register codec config granted after ≡ (err (already_exists config.service_name), after))
unfolding register read_file
register-half_written codec config content errno files encoded free = (
  (service_path config.service_name, "") ∷ files,
  rw (encoded, free) refl,
  rw (encoded, eq_refl (service_path config.service_name)) refl,
)
