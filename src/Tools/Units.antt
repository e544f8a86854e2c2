-- ===== src/Tools/Units.antt =====
-- The names and scopes of services (tools/service_actions.py).
use Prim.Native.Char.{code}
use master_control.Prelude.{
  ℕ, String, Bool, false, not, ◌&&◌, ◌||◌, Option, none, some, List, [], ◌∷◌, eqb, leb, concat,
  strip, is_empty, begins_with, ends_with, has_char, all_chars, contains, if◌then◌else◌,
}
use master_control.Tools.Attempt.{Attempt, done, failed, follow}

-- `[A-Za-z0-9@_.:]`
unfoldable pub is_first_char : ℕ → Bool
is_first_char c =
    (leb 65 c && leb c 90)
    || (leb 97 c && leb c 122)
    || (leb 48 c && leb c 57)
    || eqb c 64
    || eqb c 95
    || eqb c 46
    || eqb c 58

-- `[A-Za-z0-9@_.:-]`
unfoldable pub is_unit_char : ℕ → Bool
is_unit_char c = is_first_char c || eqb c 45

-- `UNIT_NAME_RE.fullmatch`
unfoldable pub is_unit_name : String → Bool
is_unit_name String.[] = false
is_unit_name (String.◌∷◌ c s) = is_first_char (code c) && all_chars is_unit_char s

unfoldable pub validate_unit_name : String → String → Attempt String
validate_unit_name label unit_name =
    let normalized = strip unit_name in
    if is_empty normalized
    then failed (concat ("Argument '" ∷ label ∷ "' cannot be empty." ∷ []))
    else if begins_with normalized "-" || not (is_unit_name normalized)
    then failed (
        concat
          ("Argument '" ∷ label ∷ "' must be a valid systemd unit name without shell syntax." ∷ []))
    else done normalized

unfoldable pub validate_service_name : String → Attempt String
validate_service_name service_name = follow (validate_unit_name "name" service_name) (λ normalized.
    if has_char 46 normalized && not (ends_with normalized ".service")
    then failed "Argument 'name' must reference a service unit name."
    else done normalized)

abbrev pub service_scopes : List String
service_scopes = "system" ∷ "user" ∷ []

pub scope_or_system : Option String → String
scope_or_system none = "system"
scope_or_system (some text) = if is_empty text then "system" else text

-- `lower` is `str.lower`.
unfoldable pub validate_service_scope : (String → String) → Option String → Attempt String
unfolding scope_or_system
validate_service_scope lower scope_name =
    let normalized = lower (strip (scope_or_system scope_name)) in
    if contains service_scopes normalized
    then done normalized
    else failed "Argument 'scope' must be either 'system' or 'user'."
