-- ===== src/Runtime/State.antt =====
-- The state that the methods of MasterControlRuntime (core/runtime.py) read and change, and what they
-- call outside the repository.
use master_control.Prelude.{
  ◌≡◌, ◌⊎◌, inl, inr, refl, ℕ, String, Bool, false, none, some, List, [], ◌∷◌, ◌++◌, any, eqb,
  if◌then◌else◌,
}
use master_control.Value.{Fields, ℤ}
use master_control.Codec.{Codec, Texts}
use master_control.Config.Targets.{FilePath}
use master_control.Tools.Spec.{ToolSpec}
use master_control.Policy.Loader.{PolicyFile, PolicyLoader}
use master_control.Approvals.Rows as Approvals
use master_control.Recommendations.Rows as Recommendations
use master_control.Observations.{Observation, ObservationEnvelope}

-- What `tool.invoke` does: it returns, raises ToolError, or raises any other exception.
pub data Invoked : Type 0 where
  returned : Fields → Invoked
  tool_error : String → Invoked
  crashed : String → Invoked

-- A registered tool. `World` is the host that the tools act on.
pub record Tool (World : Type 0) : Type 0 where
  pub spec : ToolSpec
  pub invoke : Fields → World → Invoked × World

-- The library routines, the clock and the policy file of the host, and the registry.
pub record Host (World : Type 0) : Type 0 where
  pub codec : Codec
  pub texts : Texts
  pub resolve : String → FilePath
  pub state_dir : FilePath
  pub now : World → String
  pub expires_at : String → ℕ → String
  pub policy_file : World → PolicyFile
  pub tools : List (String × Tool World)

pub record AuditEvent : Type 0 where
  pub event_type : String
  pub payload : Fields

-- The tables of the store, and the policy loader's cache.
pub record State (World : Type 0) : Type 0 where
  pub world : World
  pub loader : PolicyLoader
  pub sessions : List ℕ
  pub approvals : Approvals.Table
  pub recommendations : Recommendations.Table
  pub observations : List Observation
  pub audit : List AuditEvent

-- The end of a method: a value, or the text of an exception that leaves it.
pub data Outcome (A : Type 0) : Type 0 where
  value : A → Outcome A
  raised : String → Outcome A

-- A method returns or raises.
pub Outcome-cases :
    {A : Type 0} (o : Outcome A) → ((a : A) × (o ≡ value a)) ⊎ ((t : String) × (o ≡ raised t))
Outcome-cases (value a) = inl (a, refl)
Outcome-cases (raised t) = inr (t, refl)

unfoldable pub has_session : ℤ → List ℕ → Bool
has_session (ℤ.pos n) sessions = any (eqb n) sessions
has_session (ℤ.negsuc n) sessions = false

session_number : ℤ → ℕ
session_number (ℤ.pos n) = n
session_number (ℤ.negsuc n) = 0

module _ {World : Type 0} where
  unfoldable pub record_audit_event : String → Fields → State World → State World
  record_audit_event event payload s = record s {
    audit = s.audit ++ record { event_type = event; payload = payload } ∷ [];
  }

  unfoldable pub record_observation :
      Host World → ℤ → ObservationEnvelope → State World → Outcome (Unit {0}) × State World
  unfolding has_session session_number
  record_observation host session e s =
      if has_session session s.sessions
      then (
        value tt,
        record s {
          observations =
              s.observations
              ++ record {
                session_id = session_number session;
                source = e.source;
                key = e.key;
                value = e.value;
                observed_at = host.now s.world;
                expires_at = elim e.ttl_seconds [
                  | none ↦ none
                  | some ttl ↦ some (host.expires_at (host.now s.world) ttl)
                ];
              }
                ∷ [];
        },
      )
      else (raised "FOREIGN KEY constraint failed", s)

  -- `_record_execution_observations`: the loop over the envelopes; an exception ends it.
  unfoldable pub record_observations :
      Host World → ℤ → List ObservationEnvelope → State World → Outcome (Unit {0}) × State World
  record_observations host session [] s = (value tt, s)
  record_observations host session (e ∷ es) s =
      let (done, s') = record_observation host session e s in
      let rest = record_observations host session es s' in
      elim done [ value _ ↦ rest | raised text ↦ (raised text, s') ]
