-- ===== src/Tools/Readers.antt =====
-- What the readers of arguments return (tools/base.py).
use mathlib.Core.Path.{subst}
use master_control.Prelude.{
  String, Bool, true, false, Option, none, some, ◌≡◌, sym, inl, inr, Bool-cases, arith, strip,
  is_empty,
}
use master_control.Value.{Value, Fields, ℤ}
use master_control.Tools.Attempt.{Attempt, done, follow, done-follow}
use master_control.Tools.Arguments.{
  get_string_argument, get_int_argument, string_argument, text_argument, absent_argument, text_or,
  is_below, is_above, int_argument, in_bounds, parsed_value,
}

-- The number lies between the bounds that are given.
abbrev pub IsWithin : Option ℤ → Option ℤ → Option ℤ → Type 0
IsWithin min_value max_value none = Unit
IsWithin min_value max_value (some n) =
    (is_below n min_value ≡ false) × (is_above n max_value ≡ false)

module _ (arguments : Fields) (name : String) where
  text_argument-required :
      (default : Option String) (text : String) (out : Option String)
      → text_argument arguments name true default text ≡ done out
      → (t : String) × (out ≡ some t) × (is_empty t ≡ false)
  unfolding text_argument text_or
  text_argument-required default text out h = elim (Bool-cases (is_empty (strip text))) [
    | inl e ↦ ground (arith, e, h)
    | inr e ↦ let same : some (strip text) ≡ out = ground (arith, e, h) in (strip text, sym same, e)
  ]

  string_argument-required :
      (default out : Option String) (v : Option Value)
      → string_argument arguments name true default v ≡ done out
      → (t : String) × (out ≡ some t) × (is_empty t ≡ false)
  unfolding string_argument absent_argument
  string_argument-required default out none h = ground (arith, h)
  string_argument-required default out (some Value.null) h = ground (arith, h)
  string_argument-required default out (some (Value.str text)) h =
      text_argument-required default text out h
  string_argument-required default out (some _) h = ground (arith, h)

  -- A required argument that is read without an error is a text that is not empty.
  pub get_string_argument-required :
      (default out : Option String)
      → get_string_argument arguments name true default ≡ done out
      → (t : String) × (out ≡ some t) × (is_empty t ≡ false)
  unfolding get_string_argument
  get_string_argument-required default out h = string_argument-required default out _ h

module _ (parse_int : String → Option ℤ) (arguments : Fields) (name : String) where
  in_bounds-IsWithin :
      (lo hi out : Option ℤ) (n : ℤ)
      → in_bounds parse_int arguments name lo hi n ≡ done out
      → IsWithin lo hi out
  unfolding in_bounds
  in_bounds-IsWithin lo hi out n h = elim (Bool-cases (is_below n lo)) [
    | inl e ↦ ground (arith, e, h)
    | inr e ↦ elim (Bool-cases (is_above n hi)) [
      | inl f ↦ ground (arith, e, f, h)
      | inr f ↦
          let same : some n ≡ out = ground (arith, e, f, h) in subst (IsWithin lo hi) same (e, f)
    ]
  ]

  follow-IsWithin :
      (lo hi out : Option ℤ) (x : Attempt ℤ)
      → follow x (in_bounds parse_int arguments name lo hi) ≡ done out
      → IsWithin lo hi out
  follow-IsWithin lo hi out x h =
      let (n, _, rest) = done-follow x _ out h in in_bounds-IsWithin lo hi out n rest

  absent-IsWithin :
      (required : Bool) (lo hi out : Option ℤ)
      → absent_argument arguments name required ≡ done out
      → IsWithin lo hi out
  unfolding absent_argument
  absent-IsWithin true lo hi out h = ground (arith, h)
  absent-IsWithin false lo hi out h =
      let same : none ≡ out = ground (arith, h) in subst (IsWithin lo hi) same tt

  int_argument-IsWithin :
      (required : Bool) (lo hi out : Option ℤ) (v : Option Value)
      → int_argument parse_int arguments name required lo hi v ≡ done out
      → IsWithin lo hi out
  unfolding int_argument
  int_argument-IsWithin required lo hi out none h = absent-IsWithin required lo hi out h
  int_argument-IsWithin required lo hi out (some Value.null) h =
      absent-IsWithin required lo hi out h
  int_argument-IsWithin required lo hi out (some (Value.int n)) h =
      follow-IsWithin lo hi out (parsed_value parse_int arguments name (Value.int n)) h
  int_argument-IsWithin required lo hi out (some (Value.str s)) h =
      follow-IsWithin lo hi out (parsed_value parse_int arguments name (Value.str s)) h
  int_argument-IsWithin required lo hi out (some (Value.bool b)) h =
      follow-IsWithin lo hi out (parsed_value parse_int arguments name (Value.bool b)) h
  int_argument-IsWithin required lo hi out (some (Value.float s)) h =
      follow-IsWithin lo hi out (parsed_value parse_int arguments name (Value.float s)) h
  int_argument-IsWithin required lo hi out (some (Value.list x)) h =
      follow-IsWithin lo hi out (parsed_value parse_int arguments name (Value.list x)) h
  int_argument-IsWithin required lo hi out (some (Value.dict d)) h =
      follow-IsWithin lo hi out (parsed_value parse_int arguments name (Value.dict d)) h

  -- An integer that is read without an error lies between the bounds that the reader was given, also where
  -- it is the default or was written as a text.
  pub get_int_argument-IsWithin :
      (required : Bool) (default lo hi out : Option ℤ)
      → get_int_argument parse_int arguments name required default lo hi ≡ done out
      → IsWithin lo hi out
  unfolding get_int_argument
  get_int_argument-IsWithin required default lo hi out h =
      int_argument-IsWithin required lo hi out _ h
