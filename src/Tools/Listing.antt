-- ===== src/Tools/Listing.antt =====
-- The tool failed_services and the parser of its listing (tools/failed_services.py).
use Prim.Native.Char.{code}
use master_control.Prelude.{
  ℕ, zero, suc, ◌≤◌, String, false, Option, none, some, List, [], ◌∷◌, length, strip, lstrip,
  is_empty, is_space, if◌then◌else◌, arith, inl, inr, Option-cases,
}
use master_control.Value.{Value, Items, Fields, ℤ, dict_of}
use master_control.Runtime.State.{Invoked}
use master_control.Tools.Attempt.{Attempt, done, failed, escaped, follow, chain}
use master_control.Tools.Arguments.{get_string_argument, get_int_argument}
use master_control.Tools.Units.{validate_service_scope}
use master_control.Tools.Machine.{Machine, CommandResult, splitlines}
use master_control.Tools.Services.{ensure_systemctl_available, run_systemctl, returned_zero}
use master_control.Tools.ServiceTools.{invoked}

-- The word at the start of a text, and the rest behind it.
word_and_rest : String → String × String
unfolding is_space
word_and_rest String.[] = ("", "")
word_and_rest (String.◌∷◌ c s) =
    let (word, rest) = word_and_rest s in
    if is_space (code c) then ("", String.◌∷◌ c s) else (String.◌∷◌ c word, rest)

-- `text.split(None, maxsplit=n)`: the words, and behind `n` of them the rest as one part, without the
-- white space before it.
unfoldable pub split_words : ℕ → String → List String
unfolding word_and_rest
split_words zero text = if is_empty (lstrip text) then [] else lstrip text ∷ []
split_words (suc n) text =
    let (word, rest) = word_and_rest (lstrip text) in
    let more = split_words n rest in if is_empty (lstrip text) then [] else word ∷ more

pub record FailedUnit : Type 0 where
  pub unit : String
  pub load_state : String
  pub active_state : String
  pub sub_state : String
  pub description : String

unit_of : List String → Option FailedUnit
unit_of (a ∷ b ∷ c ∷ d ∷ more) = some (record {
  unit = a;
  load_state = b;
  active_state = c;
  sub_state = d;
  description = elim more [ [] ↦ "" | text ∷ _ ↦ text ];
})
unit_of _ = none

-- The unit that a line describes; blank lines and lines with less than four words describe none.
unfoldable pub parse_line : String → Option FailedUnit
unfolding unit_of
parse_line line = unit_of (split_words 4 (strip line))

-- `_parse_failed_service_lines` with room for `limit` more units; the limit is at least 1, so a full list
-- ends the loop.
unfoldable pub parse_failed_service_lines : ℕ → List String → List FailedUnit
parse_failed_service_lines limit [] = []
parse_failed_service_lines limit (line ∷ lines) = elim (parse_line line) [
  | none ↦ parse_failed_service_lines limit lines
  | some unit ↦ unit ∷ elim limit [
    | zero ↦ []
    | suc n ↦ elim n [ zero ↦ [] | suc m ↦ parse_failed_service_lines (suc m) lines ]
  ]
]

unit_dict : FailedUnit → Fields
unit_dict u = dict_of (
    ("unit", Value.str u.unit)
    ∷ ("load_state", Value.str u.load_state)
    ∷ ("active_state", Value.str u.active_state)
    ∷ ("sub_state", Value.str u.sub_state)
    ∷ ("description", Value.str u.description)
    ∷ [])

unit_items : List FailedUnit → Items
unfolding unit_dict
unit_items [] = Items.nil
unit_items (u ∷ units) = Items.cons (Value.dict (unit_dict u)) (unit_items units)

-- The number of a limit; a limit that is read lies between its bounds, so it is not negative.
natural : ℤ → ℕ
natural (ℤ.pos n) = n
natural (ℤ.negsuc n) = 0

required_limit : Option ℤ → Attempt ℤ
required_limit none = failed "Argument 'limit' is required."
required_limit (some n) = done n

-- The answer without units.
no_units : String → String → ℤ → String → Fields
no_units status scope limit reason = dict_of (
    ("status", Value.str status)
    ∷ ("scope", Value.str scope)
    ∷ ("limit", Value.int limit)
    ∷ ("reason", Value.str reason)
    ∷ ("unit_count", Value.int (ℤ.pos 0))
    ∷ ("units", Value.list Items.nil)
    ∷ [])

listed_units : String → ℤ → List FailedUnit → Fields
unfolding unit_items
listed_units scope limit units = dict_of (
    ("status", Value.str "ok")
    ∷ ("scope", Value.str scope)
    ∷ ("limit", Value.int limit)
    ∷ ("unit_count", Value.int (ℤ.pos (length units)))
    ∷ ("units", Value.list (unit_items units))
    ∷ [])

-- What the tool makes of the command's end; a ToolError is part of the answer.
report_units : {W : Type 0} → String → ℤ → Attempt CommandResult × W → Attempt Fields × W
unfolding no_units listed_units natural
report_units scope limit (done result, w) = (
  done (
      if returned_zero result
      then listed_units scope limit
          (parse_failed_service_lines (natural limit) (splitlines result.stdout))
      else no_units "error" scope limit
          (strip (if is_empty result.stderr then result.stdout else result.stderr))),
  w,
)
report_units scope limit (failed text, w) = (done (no_units "unavailable" scope limit text), w)
report_units scope limit (escaped text, w) = (escaped text, w)

abbrev pub listing_parts : List String
listing_parts =
    "list-units" ∷ "--type=service" ∷ "--state=failed" ∷ "--all" ∷ "--no-legend" ∷ "--no-pager"
    ∷ "--plain" ∷ []

module _ {World : Type 0} (machine : Machine World) where
  open machine use {lower, parse_int}

  unfoldable pub failed_services : Fields → World → Invoked × World
  unfolding required_limit report_units
  failed_services arguments w = invoked (
      chain
        (
          follow (get_string_argument arguments "scope" false none) (validate_service_scope lower),
          w,
        )
        (λ scope w1.
          chain
            (
              follow
                  (get_int_argument parse_int arguments "limit" false (some (ℤ.pos 10))
                    (some (ℤ.pos 1)) (some (ℤ.pos 50)))
                  required_limit,
              w1,
            )
            (λ limit w2. report_units scope limit (
              chain (ensure_systemctl_available machine w2, w2)
                (λ _ w3. run_systemctl machine scope listing_parts 5 w3)))))

-- The listing has at most as many units as the limit allows, if the limit is at least 1.
pub length-parse_failed_service_lines-le :
    (n : ℕ) (lines : List String) → length (parse_failed_service_lines (suc n) lines) ≤ suc n
unfolding parse_failed_service_lines
length-parse_failed_service_lines-le n [] = omega arith
length-parse_failed_service_lines-le zero (line ∷ lines) = elim (Option-cases (parse_line line)) [
  | inl e ↦ rw (e, parse_failed_service_lines) (length-parse_failed_service_lines-le zero lines)
  | inr (u, e) ↦ rw (e, parse_failed_service_lines) (omega arith)
]
length-parse_failed_service_lines-le (suc n) (line ∷ lines) =
    elim (Option-cases (parse_line line)) [
      | inl e ↦
          rw (e, parse_failed_service_lines) (length-parse_failed_service_lines-le (suc n) lines)
      | inr (u, e) ↦
          rw (e, parse_failed_service_lines)
            (omega (arith, length-parse_failed_service_lines-le n lines))
    ]
