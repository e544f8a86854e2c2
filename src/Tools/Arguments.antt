-- ===== src/Tools/Arguments.antt =====
-- `get_string_argument` and `get_int_argument` of tools/base.py. `parse_int` is Python's `int` on a text;
-- `none` is its ValueError.
use mathlib.Core.Option
use master_control.Prelude.{
  String, Bool, true, false, ◌&&◌, Option, none, some, [], ◌∷◌, ltb, concat, strip, is_empty,
  if◌then◌else◌,
}
use master_control.Value.{Value, Fields, ℤ, get, int_text}
use master_control.Tools.Attempt.{Attempt, done, failed, follow}

unfoldable pub text_or : String → Option String → Option String
text_or text default = if is_empty text then default else some text

-- `arguments.get(name, default)`
unfoldable pub get_or : String → Fields → Option Value → Option Value
get_or name arguments default = elim (get name arguments) [ none ↦ default | some v ↦ some v ]

module _ (arguments : Fields) (name : String) where
  missing_argument : String
  missing_argument = concat ("Missing required argument: " ∷ name ∷ [])

  unfoldable pub text_argument : Bool → Option String → String → Attempt (Option String)
  unfolding text_or
  text_argument required default text =
      if required && is_empty (strip text)
      then failed (concat ("Argument '" ∷ name ∷ "' cannot be empty." ∷ []))
      else done (text_or (strip text) default)

  unfoldable pub absent_argument : {A : Type 0} → Bool → Attempt (Option A)
  unfolding missing_argument
  absent_argument required = if required then failed missing_argument else done none

  -- What follows `value = arguments.get(name, default)`.
  unfoldable pub string_argument : Bool → Option String → Option Value → Attempt (Option String)
  unfolding text_argument absent_argument
  string_argument required default none = absent_argument required
  string_argument required default (some Value.null) = absent_argument required
  string_argument required default (some (Value.str text)) = text_argument required default text
  string_argument required default (some _) =
      failed (concat ("Argument '" ∷ name ∷ "' must be a string." ∷ []))

  unfoldable pub get_string_argument : Bool → Option String → Attempt (Option String)
  unfolding string_argument get_or
  get_string_argument required default =
      string_argument required default (get_or name arguments (Option.map Value.str default))

-- `a < b`
unfoldable pub less : ℤ → ℤ → Bool
less (ℤ.pos a) (ℤ.pos b) = ltb a b
less (ℤ.pos a) (ℤ.negsuc b) = false
less (ℤ.negsuc a) (ℤ.pos b) = true
less (ℤ.negsuc a) (ℤ.negsuc b) = ltb b a

unfoldable pub is_below : ℤ → Option ℤ → Bool
is_below n none = false
is_below n (some bound) = less n bound

unfoldable pub is_above : ℤ → Option ℤ → Bool
is_above n none = false
is_above n (some bound) = less bound n

bound_text : Option ℤ → String
bound_text none = "None"
bound_text (some n) = int_text (some (Value.int n))

module _ (parse_int : String → Option ℤ) (arguments : Fields) (name : String) where
  no_integer : {A : Type 0} → Attempt A
  no_integer = failed (concat ("Argument '" ∷ name ∷ "' must be an integer." ∷ []))

  unfoldable pub in_bounds : Option ℤ → Option ℤ → ℤ → Attempt (Option ℤ)
  unfolding bound_text
  in_bounds min_value max_value n =
      if is_below n min_value
      then failed (concat ("Argument '" ∷ name ∷ "' must be >= " ∷ bound_text min_value ∷ "." ∷ []))
      else if is_above n max_value
      then failed (concat ("Argument '" ∷ name ∷ "' must be <= " ∷ bound_text max_value ∷ "." ∷ []))
      else done (some n)

  -- The integer that a value stands for.
  unfoldable pub parsed_value : Value → Attempt ℤ
  unfolding no_integer
  parsed_value (Value.int n) = done n
  parsed_value (Value.str text) = elim (parse_int (strip text)) [
    | none ↦ no_integer
    | some n ↦ done n
  ]
  parsed_value _ = no_integer

  unfoldable pub int_argument : Bool → Option ℤ → Option ℤ → Option Value → Attempt (Option ℤ)
  unfolding absent_argument in_bounds parsed_value
  int_argument required min_value max_value none = absent_argument arguments name required
  int_argument required min_value max_value (some Value.null) =
      absent_argument arguments name required
  int_argument required min_value max_value (some v) =
      follow (parsed_value v) (in_bounds min_value max_value)

  unfoldable pub get_int_argument : Bool → Option ℤ → Option ℤ → Option ℤ → Attempt (Option ℤ)
  unfolding int_argument get_or
  get_int_argument required default min_value max_value =
      int_argument required min_value max_value
        (get_or name arguments (Option.map Value.int default))
