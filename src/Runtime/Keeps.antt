-- ===== src/Runtime/Keeps.antt =====
-- The parts of the state that `_record_execution_observations` of core/runtime.py does not write.
use master_control.Prelude.{List, [], ◌∷◌, ◌≡◌, ◌∙◌, refl, inl, inr, Option-cases, Bool-cases}
use master_control.Value.{Fields, ℤ, get, as_int}
use master_control.Tools.Spec.{ToolSpec}
use master_control.Observations.{Observation, ObservationEnvelope}
use master_control.Runtime.State.{
  Host, State, Outcome-cases, record_observation, has_session, record_observations,
}
use master_control.Runtime.RunTool.{observe}

-- `f` reads a part of the state other than the observations.
module _ {World X : Type 0} (host : Host World) (f : State World → X)
    (h : (os : List Observation) (s : State World) → f (record s { observations = os }) ≡ f s) where
  record_observation-keeps :
      (session : ℤ) (e : ObservationEnvelope) (s : State World)
      → f (record_observation host session e s).1 ≡ f s
  unfolding record_observation
  record_observation-keeps session e s = elim (Bool-cases (has_session session s.sessions)) [
    | inl q ↦ rw (q, record_observation) (h _ s)
    | inr q ↦ rw (q, record_observation) refl
  ]

  record_observations-keeps :
      (session : ℤ) (es : List ObservationEnvelope) (s : State World)
      → f (record_observations host session es s).1 ≡ f s
  unfolding record_observations
  record_observations-keeps session [] s = refl
  record_observations-keeps session (e ∷ es) s =
      let done = record_observation-keeps session e s in
      elim (Outcome-cases (record_observation host session e s).0) [
        | inl (u, q) ↦
            rw (q, record_observations)
              (record_observations-keeps session es (record_observation host session e s).1 ∙ done)
        | inr (t, q) ↦ rw (q, record_observations) done
      ]

  pub observe-keeps :
      (spec : ToolSpec) (arguments context result : Fields) (s : State World)
      → f (observe host spec arguments context result s).1 ≡ f s
  unfolding observe
  observe-keeps spec arguments context result s =
      elim (Option-cases (as_int (get "session_id" context))) [
        | inl e ↦ rw (e, observe) refl
        | inr (n, e) ↦ rw (e, observe) (record_observations-keeps n _ s)
      ]
