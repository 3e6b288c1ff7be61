-- ===== src/Service/Config/Compat.antt =====
-- When two configurations are compatible.
use entangle.Prelude.{ℕ, ◌≡◌, refl, ap, ◌↔◌, arith, ℕ_discrete, eq→==, ne→==, Result, ok, err}
use entangle.Errors.{ServiceError}
use entangle.Service.Config.{pattern_code, StaticConfig, validate_compatibility}

-- The parts that are compared. The names of the service and of the payload type are not among them.
abbrev pub Agree : StaticConfig → StaticConfig → Type 0
Agree a b =
    (a.magic ≡ b.magic)
    × (a.version ≡ b.version)
    × (pattern_code (a.pattern) ≡ pattern_code (b.pattern))
    × (a.payload_size ≡ b.payload_size)
    × (a.payload_align ≡ b.payload_align)

-- Validation succeeds when the compared parts agree.
pub validate_compatibility-Agree :
    (a b : StaticConfig) → Agree a b → validate_compatibility a b ≡ ok tt
unfolding validate_compatibility
validate_compatibility-Agree a b (magic, version, pattern, size, align) =
    rw
      (
        eq→== a.magic b.magic magic,
        eq→== a.version b.version version,
        eq→== (pattern_code (a.pattern)) (pattern_code (b.pattern)) pattern,
        eq→== a.payload_size b.payload_size size,
        eq→== a.payload_align b.payload_align align,
      )
      refl

abbrev passes : Result ServiceError (Unit {0}) → ℕ
passes (ok done) = 1
passes (err e) = 0

Agree-of_pass : (a b : StaticConfig) → passes (validate_compatibility a b) ≡ 1 → Agree a b
unfolding validate_compatibility
Agree-of_pass a b h = elim (ℕ_discrete a.magic b.magic) [
  | no ne ↦ absurd (omega (arith, rw (ne→== a.magic b.magic ne) at h))
  | yes magic ↦ elim (ℕ_discrete a.version b.version) [
    | no ne ↦
        absurd (omega (arith, rw (eq→== a.magic b.magic magic, ne→== a.version b.version ne) at h))
    | yes version ↦ elim (ℕ_discrete (pattern_code (a.pattern)) (pattern_code (b.pattern))) [
      | no ne ↦ absurd (
          omega (
            arith,
            rw
                (
                  eq→== a.magic b.magic magic,
                  eq→== a.version b.version version,
                  ne→== (pattern_code (a.pattern)) (pattern_code (b.pattern)) ne,
                )
                at h,
          ))
      | yes pattern ↦ elim (ℕ_discrete a.payload_size b.payload_size) [
        | no ne ↦ absurd (
            omega (
              arith,
              rw
                  (
                    eq→== a.magic b.magic magic,
                    eq→== a.version b.version version,
                    eq→== (pattern_code (a.pattern)) (pattern_code (b.pattern)) pattern,
                    ne→== a.payload_size b.payload_size ne,
                  )
                  at h,
            ))
        | yes size ↦ elim (ℕ_discrete a.payload_align b.payload_align) [
          | no ne ↦ absurd (
              omega (
                arith,
                rw
                    (
                      eq→== a.magic b.magic magic,
                      eq→== a.version b.version version,
                      eq→== (pattern_code (a.pattern)) (pattern_code (b.pattern)) pattern,
                      eq→== a.payload_size b.payload_size size,
                      ne→== a.payload_align b.payload_align ne,
                    )
                    at h,
              ))
          | yes align ↦ (magic, version, pattern, size, align)
        ]
      ]
    ]
  ]
]

-- Validation of two configurations succeeds exactly when their magic numbers, versions, patterns,
-- payload sizes and payload alignments are equal; the names of the service and of the payload
-- type are not compared.
pub validate_compatibility_iff :
    (a b : StaticConfig) → (validate_compatibility a b ≡ ok tt) ↔ Agree a b
validate_compatibility_iff a b =
    (λ e. Agree-of_pass a b (ap passes e), validate_compatibility-Agree a b)
