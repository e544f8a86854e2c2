-- ===== src/Runtime/Accepted.antt =====
-- The host across `run_recommendation_action` of core/runtime.py.
use master_control.Prelude.{
  ◌∙◌, ℕ, String, Bool, ◌≡◌, ◌⊎◌, inl, inr, true, some, refl, Bool-cases, Option-cases, lookup,
}
use master_control.Value.{Fields, ℤ}
use master_control.Recommendations.Rows as Recommendations
use master_control.Runtime.State.{value, raised, Tool, Host, State, Outcome, record_audit_event}
use master_control.Runtime.Commands.{get_recommendation}
use master_control.Runtime.Authority.{MayRun, run_tool-authority}
use master_control.Runtime.Recommend.{
  is_accepted, action_context, report_action, run_action, run_accepted, run_recommendation_action,
}

module _ {World : Type 0} (host : Host World) where
  open host use {codec, tools}

  report_action-world :
      (n : ℕ) (confirmed : Bool) (r : Recommendations.Row) (tool : String) (out : Outcome Fields)
      (s : State World)
      → (report_action host n confirmed r tool out s).1.world ≡ s.world
  unfolding report_action record_audit_event
  report_action-world n confirmed r tool (value execution) s = refl
  report_action-world n confirmed r tool (raised text) s = refl

  -- A call of `run_recommendation_action` leaves the host as it was, or the recommendation exists and is
  -- accepted, the tool of its action is registered, the policy permits the call with the action's arguments,
  -- and the call was confirmed or needs no confirmation.
  pub run_recommendation_action-authority :
      (n : ℕ) (confirmed : Bool) (s : State World)
      → ((run_recommendation_action host n confirmed s).1.world ≡ s.world)
        ⊎ ((r : Recommendations.Row) × (a : Recommendations.StoredAction) × (tool : Tool World)
            × (get_recommendation codec (ℤ.pos n) s.recommendations ≡ some r)
            × (is_accepted r.status ≡ true)
            × (Recommendations.stored_action codec r ≡ some a)
            × (lookup a.tool_name tools ≡ some tool)
            × MayRun host tool a.arguments confirmed s)
  unfolding run_recommendation_action run_accepted run_action
  run_recommendation_action-authority n confirmed s =
      elim (Option-cases (get_recommendation codec (ℤ.pos n) s.recommendations)) [
        | inl e ↦ inl (rw (e, run_recommendation_action) refl)
        | inr (r, e) ↦ elim (Bool-cases (is_accepted r.status)) [
          | inr q ↦ inl (rw (e, run_recommendation_action) (rw (q, run_accepted) refl))
          | inl q ↦ elim (Option-cases (Recommendations.stored_action codec r)) [
            | inl k ↦
                inl (
                  rw (e, run_recommendation_action)
                    (rw (q, run_accepted) (rw (k, run_action) refl)))
            | inr (a, k) ↦
                elim (run_tool-authority host a.tool_name a.arguments confirmed (action_context n r)
                  s) [
                    | inl w ↦ inl (
                        rw (e, run_recommendation_action)
                          (rw (q, run_accepted)
                            (rw (k, run_action)
                              (report_action-world n confirmed r a.tool_name _ _ ∙ w))))
                    | inr (tool, found, may, w) ↦ inr (r, a, tool, e, q, k, found, may)
                  ]
          ]
        ]
      ]
