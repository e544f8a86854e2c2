-- ===== src/Policy/Parse/Fields.antt =====
-- The field readers of PolicyLoader (policy/config.py).
use master_control.Prelude.{
  ℕ, ◌≡◌, refl, String, Bool, Option, none, some, List, [], ◌∷◌, is_empty, concat, strip, decimal,
  if◌then◌else◌,
}
use master_control.Value.{Value, Items, Fields, get}

pub data Parsed (A : Type 0) : Type 0 where
  ok : A → Parsed A
  error : String → Parsed A

infixl 5 ◌>>=◌
abbrev pub ◌>>=◌ : {A B : Type 0} → Parsed A → (A → Parsed B) → Parsed B
ok a >>= f = f a
error e >>= f = error e

pub >>=-eq-ok :
    {X Y : Type 0} (p : Parsed X) (next : X → Parsed Y) {y : Y}
    → (p >>= next) ≡ ok y
    → (x : X) × (p ≡ ok x) × (next x ≡ ok y)
>>=-eq-ok (ok x) next h = (x, refl, h)
>>=-eq-ok (error message) next h = cc

unfoldable pub text_value : String → Option Value → Parsed String
text_value message (some (Value.str s)) = if is_empty (strip s) then error message else ok (strip s)
text_value message _ = error message

-- `index` is the number of the config target.
unfoldable pub required_string : ℕ → Fields → String → Parsed String
required_string index payload key =
    text_value
      (concat (
        "Policy field '"
        ∷ key
        ∷ "' in config target #"
        ∷ decimal index
        ∷ " must be a non-empty string."
        ∷ []))
      (get key payload)

-- The loop over the items of a string list.
unfoldable pub string_items : String → Items → Parsed (List String)
string_items key Items.nil = ok []
string_items key (Items.cons v items) = do
  text ←
      text_value (concat ("Policy field '" ∷ key ∷ "' contains an invalid string item." ∷ []))
        (some v)
  texts ← string_items key items
  ok (text ∷ texts)

unfoldable pub non_empty_items : String → String → Option Value → Parsed (List String)
non_empty_items message key (some (Value.list (Items.cons v items))) =
    string_items key (Items.cons v items)
non_empty_items message key _ = error message

unfoldable pub required_string_list : ℕ → Fields → String → Parsed (List String)
required_string_list index payload key =
    non_empty_items
      (concat (
        "Policy field '"
        ∷ key
        ∷ "' in config target #"
        ∷ decimal index
        ∷ " must be a non-empty string list."
        ∷ []))
      key (get key payload)

unfoldable pub optional_items : String → Option Value → Parsed (List String)
optional_items key none = ok []
optional_items key (some Value.null) = ok []
optional_items key (some (Value.list items)) = string_items key items
optional_items key _ =
    error (concat ("Policy field '" ∷ key ∷ "' must be a string list when provided." ∷ []))

unfoldable pub optional_string_list : Fields → String → Parsed (List String)
optional_string_list payload key = optional_items key (get key payload)

optional_bool_of : String → Option Value → Parsed (Option Bool)
optional_bool_of key none = ok none
optional_bool_of key (some Value.null) = ok none
optional_bool_of key (some (Value.bool b)) = ok (some b)
optional_bool_of key _ =
    error (concat ("Policy field '" ∷ key ∷ "' must be a boolean when provided." ∷ []))

unfoldable pub optional_bool : Fields → String → Parsed (Option Bool)
unfolding optional_bool_of
optional_bool payload key = optional_bool_of key (get key payload)

bool_of : String → Bool → Option Value → Parsed Bool
bool_of key default none = ok default
bool_of key default (some (Value.bool b)) = ok b
bool_of key default _ = error (concat ("Policy field '" ∷ key ∷ "' must be a boolean." ∷ []))

unfoldable pub bool_with_default : Fields → String → Bool → Parsed Bool
unfolding bool_of
bool_with_default payload key default = bool_of key default (get key payload)
