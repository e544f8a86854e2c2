-- ===== src/Observations/Freshness.antt =====
-- `build_observation_freshness` of core/observations.py, on the rows of the table `observations`. The
-- module `datetime` is a parameter.
use master_control.Prelude.{
  ℕ, String, Bool, false, Option, none, some, List, [], ◌∷◌, ends_with, is_empty, strip,
  if◌then◌else◌,
}
use master_control.Value.{Fields}
use master_control.Observations.{Observation}

-- What the program uses of `datetime`: `fromisoformat`, whether a value has a time zone, `replace` and
-- `astimezone` with UTC, the whole seconds from the first to the second value, none if there are less
-- than none, and `>=`.
pub record Clock : Type 1 where
  pub Datetime : Type 0
  pub fromisoformat : String → Option Datetime
  pub zulu_to_offset : String → String
  pub has_zone : Datetime → Bool
  pub replace_utc : Datetime → Datetime
  pub to_utc : Datetime → Datetime
  pub seconds_since : Datetime → Datetime → ℕ
  pub not_before : Datetime → Datetime → Bool

pub record ObservationFreshness : Type 0 where
  pub key : String
  pub source : String
  pub value : Fields
  pub observed_at : String
  pub expires_at : Option String
  pub age_seconds : Option ℕ
  pub ttl_seconds : Option ℕ
  pub stale : Bool

module _ (clock : Clock) where
  open clock use {
    Datetime, fromisoformat, zulu_to_offset, has_zone, replace_utc, to_utc, seconds_since,
    not_before,
  }

  in_utc : Datetime → Datetime
  in_utc t = if has_zone t then to_utc t else replace_utc t

  unfoldable pub parse_timestamp : String → Option Datetime
  unfolding in_utc
  parse_timestamp text =
      if is_empty (strip text)
      then none
      else if ends_with (strip text) "Z"
      then fromisoformat (zulu_to_offset (strip text))
      else elim (fromisoformat (strip text)) [ none ↦ none | some t ↦ some (in_utc t) ]

  parse_optional : Option String → Option Datetime
  parse_optional none = none
  parse_optional (some text) = parse_timestamp text

  -- `max(0, int((b - a).total_seconds()))`, if both are there.
  elapsed : Option Datetime → Option Datetime → Option ℕ
  elapsed (some a) (some b) = some (seconds_since a b)
  elapsed _ _ = none

  has_expired : Datetime → Option Datetime → Bool
  has_expired now none = false
  has_expired now (some t) = not_before now t

  unfoldable pub freshness_of : Datetime → Observation → ObservationFreshness
  unfolding parse_optional elapsed has_expired
  freshness_of now o = record {
    key = o.key;
    source = o.source;
    value = o.value;
    observed_at = o.observed_at;
    expires_at = o.expires_at;
    age_seconds = elapsed (parse_timestamp o.observed_at) (some now);
    ttl_seconds = elapsed (parse_timestamp o.observed_at) (parse_optional o.expires_at);
    stale = has_expired now (parse_optional o.expires_at);
  }

  -- The rows of the store have a key, a source, a time and an object each.
  unfoldable pub build_observation_freshness :
      Datetime → List Observation → List ObservationFreshness
  build_observation_freshness now [] = []
  build_observation_freshness now (o ∷ rows) =
      freshness_of now o ∷ build_observation_freshness now rows
