-- ===== src/Service/Config.antt =====
-- `StaticConfig` of crates/entangle/src/service/config.rs, with `PatternType` of
-- crates/entangle/src/contracts.rs.
pub mod Compat
use Prim.Native.String.{String}
use entangle.Prelude.{
  ℕ, zero, suc, ◌+◌, ◌-◌, ◌*◌, ◌/◌, ◌%◌, ◌^◌, ◌≤◌, ◌<◌, bit_and, bit_or, min, max, ◌≡◌, refl, sym,
  ap, ap₂, subst, ◌∙◌, ◌≢◌, ◌↔◌, ◌⊎◌, inl, inr, Bool, true, false, not, ◌&&◌, ◌||◌, Option, none,
  some, List, [], ◌∷◌, ◌++◌, map, arith, dec_lt, ℕ_discrete, ltb, leb, ◌==◌, if◌then◌else◌, ltb→lt,
  lt→ltb, le→leb, gt→leb, ==→eq, eq→==, ne→==, Bool-cases, Option-cases, length, get_elem?, get_or,
  set, replicate, length-replicate, length-append, length-set, get_elem?-eq-get_or, get_or-set_self,
  get_or-set_ne, store, store-in_range, range_from, All, Distinct, All-map, length-range_from,
  length-map, get_or-map_range, All-range_from, Distinct-range_from, pigeonhole, count,
  count-append, count_self, All-ne_of_count, Distinct-of_count, All-lt_of_count, length-le_of_count,
  count-range_from, Result, ok, err, map_err, assert, ◌>>=◌, ◌>>◌,
}
use entangle.Errors.{ServiceError, incompatible_qos, corrupted, version_mismatch}

pub data PatternType : Type 0 where
  pubsub event reqres blackboard : PatternType

-- The number that `repr(u32)` gives a pattern. Two patterns are equal when their numbers are.
abbrev pub pattern_code : PatternType → ℕ
pattern_code pubsub = 1
pattern_code event = 2
pattern_code reqres = 3
pattern_code blackboard = 4

pub record StaticConfig : Type 0 where
  pub magic : ℕ
  pub version : ℕ
  pub pattern : PatternType
  pub service_name : String
  pub payload_type_name : String
  pub payload_size : ℕ
  pub payload_align : ℕ

abbrev pub magic_number : ℕ
magic_number = 0x5A43_4950_0001

unfoldable pub new : PatternType → String → String → ℕ → ℕ → StaticConfig
new pattern service_name payload_type_name payload_size payload_align = record {
  magic = magic_number;
  version = 1;
  pattern = pattern;
  service_name = service_name;
  payload_type_name = payload_type_name;
  payload_size = payload_size;
  payload_align = payload_align;
}

unfoldable pub validate_compatibility : StaticConfig → StaticConfig → Result ServiceError (Unit {0})
validate_compatibility self other =
    if not (self.magic == other.magic)
    then err corrupted
    else if not (self.version == other.version)
    then err (version_mismatch self.version other.version)
    else if not (pattern_code (self.pattern) == pattern_code (other.pattern))
    then err incompatible_qos
    else if not (self.payload_size == other.payload_size)
        || not (self.payload_align == other.payload_align)
    then err incompatible_qos
    else ok tt
