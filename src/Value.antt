-- ===== src/Value.antt =====
-- The dynamic values that pass through the program: JSON payloads, tool arguments, TOML documents.
-- A `dict` keeps its insertion order; a `float` is kept as the text of its `repr`.
use master_control.Prelude.{
  zero, is_empty, ◌≡◌, ◌≢◌, arith, eq_iff, true, false, List, [], ◌∷◌, suc, concat, decimal, ℕ,
  String, Bool, Option, none, some, ◌==◌, if◌then◌else◌,
}

-- `negsuc n` is -(n + 1).
pub data ℤ : Type 0 where
  pos : ℕ → ℤ
  negsuc : ℕ → ℤ

mutual
  pub data Value : Type 0 where
    null : Value
    bool : Bool → Value
    int : ℤ → Value
    float : String → Value
    str : String → Value
    list : Items → Value
    dict : Fields → Value

  pub data Items : Type 0 where
    nil : Items
    cons : Value → Items → Items

  pub data Fields : Type 0 where
    end : Fields
    field : String → Value → Fields → Fields

-- `d.get(key)`, with `none` for a missing key.
unfoldable pub get : String → Fields → Option Value
get k end = none
get k (field j v d) = if j == k then some v else get k d

-- `d[key] = value`
unfoldable pub put : String → Value → Fields → Fields
put k v end = field k v end
put k v (field j w d) = if j == k then field j v d else field j w (put k v d)

-- `{**d, **e}`
unfoldable pub merge : Fields → Fields → Fields
unfolding put
merge d end = d
merge d (field k v e) = merge (put k v d) e

-- `d[k] = v` for each pair of the list.
unfoldable pub put_all : Fields → List (String × Value) → Fields
unfolding put
put_all d [] = d
put_all d ((k, v) ∷ more) = put_all (put k v d) more

-- A dict display.
abbrev pub dict_of : List (String × Value) → Fields
dict_of = put_all end

-- `isinstance(value, int)`, with the number; `True` and `False` are integers in Python.
unfoldable pub as_int : Option Value → Option ℤ
as_int (some (int n)) = some n
as_int (some (bool true)) = some (pos 1)
as_int (some (bool false)) = some (pos 0)
as_int _ = none

-- `isinstance(value, int) and not isinstance(value, bool)`
unfoldable pub is_plain_int : Option Value → Bool
is_plain_int (some (int n)) = true
is_plain_int _ = false

-- `str` of an integer, or of a Boolean.
unfoldable pub int_text : Option Value → String
int_text (some (int (pos n))) = decimal n
int_text (some (int (negsuc n))) = concat ("-" ∷ decimal (suc n) ∷ [])
int_text (some (bool true)) = "True"
int_text (some (bool false)) = "False"
int_text _ = ""

-- `isinstance(value, str) and value`: a text that is not empty.
unfoldable pub text_of : Option Value → Option String
text_of (some (str s)) = if s == "" then none else some s
text_of _ = none

abbrev pub text_or_null : Option String → Value
text_or_null none = null
text_or_null (some s) = str s

-- `bool(v)`
unfoldable pub is_true : Value → Bool
is_true null = false
is_true (bool b) = b
is_true (int (pos zero)) = false
is_true (int _) = true
is_true (float text) = if text == "0.0" then false else if text == "-0.0" then false else true
is_true (str s) = if is_empty s then false else true
is_true (list nil) = false
is_true (list _) = true
is_true (dict end) = false
is_true (dict _) = true

-- `d.get(key, False)`
unfoldable pub get_or_false : String → Fields → Value
get_or_false key d = elim (get key d) [ none ↦ bool false | some v ↦ v ]

-- `if d.get(key)`
unfoldable pub get_truth : String → Fields → Bool
get_truth key d = elim (get key d) [ none ↦ false | some v ↦ is_true v ]

-- What a key reads as after an assignment to it.
pub get-put : (k : String) (v : Value) (d : Fields) → get k (put k v d) ≡ some v
unfolding get put
get-put k v end = ground (arith, eq_iff k k)
get-put k v (field j w d) = ground (arith, get-put k v d, eq_iff j k)

-- An assignment to another key is not seen.
pub get-put_other : (j k : String) (v : Value) (d : Fields) → j ≢ k → get k (put j v d) ≡ get k d
unfolding get put
get-put_other j k v end h = ground (arith, eq_iff j k)
get-put_other j k v (field i w d) h =
    ground (arith, get-put_other j k v d h, eq_iff i j, eq_iff j k, eq_iff i k)
