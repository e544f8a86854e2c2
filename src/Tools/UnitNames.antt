-- ===== src/Tools/UnitNames.antt =====
-- What the checks of service names let through (tools/service_actions.py).
use mathlib.Core.Path.{subst}
use master_control.Prelude.{
  String, true, false, not, ◌&&◌, Option, ◌≡◌, refl, inl, inr, Bool-cases, arith, strip, is_empty,
  begins_with, ends_with, has_char, all_chars, contains,
}
use master_control.Tools.Attempt.{done, follow, done-follow}
use master_control.Tools.Units.{
  is_unit_char, is_unit_name, validate_unit_name, validate_service_name, validate_service_scope,
  service_scopes, scope_or_system,
}

-- The text is stripped, it has characters of a unit name only, and its first character is no dash.
pub record IsUnitName (name : String) : Type 0 where
  pub nonempty : is_empty name ≡ false
  pub no_option : begins_with name "-" ≡ false
  pub plain : all_chars is_unit_char name ≡ true

-- `done a ≡ done b` without the constructor.
pub done-inj : {A : Type 0} {a b : A} → done a ≡ done b → a ≡ b
done-inj h = cc

all_unit_chars : (s : String) → is_unit_name s ≡ true → all_chars is_unit_char s ≡ true
unfolding is_unit_name all_chars is_unit_char
all_unit_chars String.[] h = refl
all_unit_chars (String.◌∷◌ c s) h = ground (arith, h)

pub validate_unit_name-IsUnitName :
    (label text name : String) → validate_unit_name label text ≡ done name → IsUnitName name
unfolding validate_unit_name
validate_unit_name-IsUnitName label text name h = elim (Bool-cases (is_empty (strip text))) [
  | inl e ↦ ground (arith, e, h)
  | inr e ↦ elim (Bool-cases (begins_with (strip text) "-")) [
    | inl d ↦ ground (arith, e, d, h)
    | inr d ↦ elim (Bool-cases (is_unit_name (strip text))) [
      | inr u ↦ ground (arith, e, d, u, h)
      | inl u ↦
          let same : strip text ≡ name = ground (arith, e, d, u, h) in
          subst IsUnitName same
            (record { nonempty = e; no_option = d; plain = all_unit_chars (strip text) u })
    ]
  ]
]

-- A name that the tools on services accept is a unit name: not empty, of the characters of unit names
-- only, with no dash in front. If it has a dot it ends in `.service`.
pub validate_service_name-IsUnitName :
    (text name : String)
    → validate_service_name text ≡ done name
    → IsUnitName name × ((has_char 46 name && not (ends_with name ".service")) ≡ false)
unfolding validate_service_name follow
validate_service_name-IsUnitName text name h =
    let (n, unit, rest) = done-follow (validate_unit_name "name" text) _ name h in
    elim (Bool-cases (has_char 46 n && not (ends_with n ".service"))) [
      | inl e ↦ ground (arith, e, rest)
      | inr e ↦
          let same : n ≡ name = ground (arith, e, rest) in
          (
            subst IsUnitName same (validate_unit_name-IsUnitName "name" text n unit),
            subst (λ n. (has_char 46 n && not (ends_with n ".service")) ≡ false) same e,
          )
    ]

-- A scope that the check accepts is one of the two.
pub validate_service_scope-known :
    (lower : String → String) (given : Option String) (scope : String)
    → validate_service_scope lower given ≡ done scope
    → contains service_scopes scope ≡ true
unfolding validate_service_scope
validate_service_scope-known lower given scope h =
    let n = lower (strip (scope_or_system given)) in
    elim (Bool-cases (contains service_scopes n)) [
      | inl e ↦
          let same : n ≡ scope = ground (arith, e, h) in
          subst (λ n. contains service_scopes n ≡ true) same e
      | inr e ↦ ground (arith, e, h)
    ]
