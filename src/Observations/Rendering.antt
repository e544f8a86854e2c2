-- ===== src/Observations/Rendering.antt =====
-- `format_observation_freshness` of core/observations.py.
use Prim.Native.Nat.{◌/◌, ◌%◌}
use master_control.Prelude.{
  ℕ, String, Option, none, some, List, [], ◌∷◌, ◌++◌, ltb, ◌==◌, concat, join, decimal, map,
  if◌then◌else◌,
}
use master_control.Value.{Value, Fields, get, text_of, as_int, int_text}
use master_control.Observations.Freshness.{ObservationFreshness}

-- `{n:02d}`
unfoldable pub two_digits : ℕ → String
two_digits n = if ltb n 10 then concat ("0" ∷ decimal n ∷ []) else decimal n

unfoldable pub format_duration : ℕ → String
unfolding two_digits
format_duration total =
    if ltb total 60
    then concat (decimal total ∷ "s" ∷ [])
    else if ltb (total / 60) 60
    then concat (decimal (total / 60) ∷ "m" ∷ two_digits (total % 60) ∷ "s" ∷ [])
    else concat (decimal (total / 60 / 60) ∷ "h" ∷ two_digits ((total / 60) % 60) ∷ "m" ∷ [])

with_scope : String → Option String → String
with_scope name none = name
with_scope name (some scope) = concat (name ∷ ", scope=" ∷ scope ∷ [])

-- The fields of `value.get(key)`, if it is a dict.
dict_under : String → Fields → Option Fields
dict_under key d = elim (get key d) [ some (Value.dict e) ↦ some e | _ ↦ none ]

render_scoped : String → Fields → Option String
unfolding with_scope
render_scoped name d = elim (text_of (get name d)) [
  | none ↦ none
  | some text ↦ some (with_scope text (text_of (get "scope" d)))
]

or_else : Option String → Option String → Option String
or_else (some text) other = some text
or_else none other = other

render_query : Option Fields → Option String
unfolding or_else
render_query none = none
render_query (some query) = or_else (text_of (get "name" query)) (elim (as_int (get "pid" query)) [
  | none ↦ none
  | some _ ↦ some (concat ("pid=" ∷ int_text (get "pid" query) ∷ []))
])

render_match : Option Fields → Option String
unfolding render_scoped
render_match none = none
render_match (some primary) = render_scoped "unit" primary

unfoldable pub render_target : ObservationFreshness → Option String
unfolding render_scoped render_match render_query or_else dict_under
render_target item =
    if item.key == "disk"
    then text_of (get "path" item.value)
    else if item.key == "service"
    then render_scoped "service" item.value
    else if item.key == "process_unit"
    then or_else (render_match (dict_under "primary_match" item.value))
        (render_query (dict_under "query" item.value))
    else if item.key == "logs"
    then text_of (get "unit" item.value)
    else if item.key == "config"
    then text_of (get "path" item.value)
    else if item.key == "failed_services"
    then elim (text_of (get "scope" item.value)) [
      | none ↦ none
      | some scope ↦ some (concat ("scope=" ∷ scope ∷ []))
    ]
    else none

detail : String → Option ℕ → List String
detail label none = []
detail label (some seconds) = concat (label ∷ "=" ∷ format_duration seconds ∷ []) ∷ []

in_parentheses : Option String → String
in_parentheses none = ""
in_parentheses (some target) = concat (" (" ∷ target ∷ ")" ∷ [])

unfoldable pub freshness_line : ObservationFreshness → String
unfolding detail in_parentheses
freshness_line item = concat (
    "- "
    ∷ item.key
    ∷ in_parentheses (render_target item)
    ∷ ": "
    ∷ join ", " (
        (if item.stale then "stale" else "fresh")
        ∷ (detail "age" item.age_seconds ++ detail "ttl" item.ttl_seconds))
    ∷ [])

unfoldable pub format_observation_freshness : List ObservationFreshness → Option String
format_observation_freshness [] = none
format_observation_freshness (item ∷ items) =
    some (join "\n" (freshness_line item ∷ map freshness_line items))
