-- ===== src/Service/Name.antt =====
-- `ServiceName` of crates/entangle/src/contracts.rs, and the file name that the registry of
-- crates/entangle/src/service/registry.rs derives from a name.
pub mod Paths
use Prim.Native.String.{String, [], ◌∷◌, ◌++◌, len}
use Prim.Native.Char.{Char, code}
use entangle.Prelude.{
  ℕ, Bool, true, not, ◌&&◌, ◌||◌, leb, ltb, ◌==◌, if◌then◌else◌, Result, ok, err,
}

pub record ServiceName : Type 0 where
  pub text : String

pub data NameError : Type 0 where
  bad_length invalid_characters : NameError

-- `is_ascii_alphanumeric`, or one of `/-_.`.
abbrev between : ℕ → ℕ → ℕ → Bool
between lo hi n = leb lo n && leb n hi

abbrev pub is_valid_char : Char → Bool
is_valid_char c =
    (between 48 57 (code c) || between 65 90 (code c) || between 97 122 (code c))
    || (code c == 47 || code c == 45 || code c == 95 || code c == 46)

-- The test of every byte: each byte of a character beyond ASCII fails it, as the character does here.
unfoldable pub all_valid : String → Bool
all_valid [] = true
all_valid (c ∷ s) = is_valid_char c && all_valid s

unfoldable pub new : String → Result NameError ServiceName
unfolding all_valid
new name =
    if len name == 0 || ltb 255 (len name)
    then err bad_length
    else if not (all_valid name)
    then err invalid_characters
    else ok (record { text = name })

-- `replace('/', "_")`.
abbrev pub replace_char : Char → Char
replace_char c = if code c == 47 then "_" else c

unfoldable pub safe_name : String → String
safe_name [] = ""
safe_name (c ∷ s) = replace_char c ∷ safe_name s

-- The path of a service's file below the registry's root.
unfoldable pub service_path : String → String
unfolding safe_name
service_path name = safe_name name ++ ".ron"
