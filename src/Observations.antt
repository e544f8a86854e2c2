-- ===== src/Observations.antt =====
-- What a tool's result becomes in the table `observations` (core/observations.py and
-- `record_observation` of store/session_store.py).
pub mod Freshness
pub mod Rendering
use master_control.Prelude.{
  ℕ, String, Bool, true, false, Option, none, some, List, [], ◌∷◌, lookup, ◌==◌, if◌then◌else◌,
}
use master_control.Value.{Value, Fields, get}

abbrev pub observation_ttls : List (String × ℕ)
observation_ttls =
    ("system_info", 3600)
    ∷ ("disk_usage", 600)
    ∷ ("memory_usage", 300)
    ∷ ("top_processes", 120)
    ∷ ("process_to_unit", 120)
    ∷ ("service_status", 180)
    ∷ ("failed_services", 180)
    ∷ ("restart_service", 180)
    ∷ ("reload_service", 180)
    ∷ ("read_journal", 90)
    ∷ ("read_config_file", 300)
    ∷ ("write_config_file", 300)
    ∷ ("restore_config_backup", 300)
    ∷ []

abbrev pub tool_observation_keys : List (String × String)
tool_observation_keys =
    ("system_info", "host")
    ∷ ("memory_usage", "memory")
    ∷ ("disk_usage", "disk")
    ∷ ("top_processes", "processes")
    ∷ ("process_to_unit", "process_unit")
    ∷ ("service_status", "service")
    ∷ ("failed_services", "failed_services")
    ∷ ("restart_service", "service")
    ∷ ("reload_service", "service")
    ∷ ("read_journal", "logs")
    ∷ ("read_config_file", "config")
    ∷ ("write_config_file", "config")
    ∷ ("restore_config_backup", "config")
    ∷ []

pub record ObservationEnvelope : Type 0 where
  pub source : String
  pub key : String
  pub value : Fields
  pub ttl_seconds : Option ℕ

unfoldable pub observation_key_for_tool : String → Option String
observation_key_for_tool tool = lookup tool tool_observation_keys

-- The result reports a status other than "ok".
unfoldable pub reports_failure : Option Value → Bool
reports_failure (some (Value.str s)) = if s == "ok" then false else true
reports_failure _ = false

envelopes_of : String → Fields → Option String → List ObservationEnvelope
envelopes_of tool result none = []
envelopes_of tool result (some key) =
    record { source = tool; key = key; value = result; ttl_seconds = lookup tool observation_ttls }
    ∷ []

unfoldable pub build_observation_envelopes : String → Fields → Fields → List ObservationEnvelope
unfolding envelopes_of
build_observation_envelopes tool arguments result =
    if reports_failure (get "status" result)
    then []
    else envelopes_of tool result (observation_key_for_tool tool)

pub record Observation : Type 0 where
  pub session_id : ℕ
  pub source : String
  pub key : String
  pub value : Fields
  pub observed_at : String
  pub expires_at : Option String
