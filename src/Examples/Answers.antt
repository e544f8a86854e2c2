-- ===== src/Examples/Answers.antt =====
-- The operator's answers to approvals at concrete inputs.
use mathlib.Core.Path.{subst}
use master_control.Prelude.{
  true, lookup, [], ◌∷◌, ◌⊎◌, ◌≢◌, String, Bool, false, ◌≡◌, refl, sym, List, Option, some, none,
  is_empty, ap, arith, inl, inr, ◌∙◌,
}
use master_control.Approvals.Rows.{Status, Table, ToolApproval}
use master_control.Approvals.Methods.{claim_tool_approval, create_tool_approval, get_tool_approval}
use master_control.Approvals.Invariant.{claim_tool_approval-IsConsistent}
use master_control.Approvals.Lifecycle.{status_of}
use master_control.Approvals.Open.{IsRunning}
use master_control.Runtime.State.{raised, State, Tool}
use master_control.Runtime.Approve.{refusal, approve_tool_approval}
use master_control.Runtime.Approval.{approve_tool_approval-settles, approve_tool_approval-refuses}
use master_control.Value.{ℤ}
use master_control.Recommendations.Rows as Recommendations
use master_control.Runtime.Commands.{get_recommendation}
use master_control.Runtime.Authority.{MayRun}
use master_control.Runtime.Recommend.{is_accepted, run_recommendation_action}
use master_control.Runtime.Statuses.{update_recommendation_status}
use master_control.Runtime.Changes.{StatusEnds, update_recommendation_status-ends}
use master_control.Sql.Laws.{Member}
use master_control.Recommendations.Invariant.{IsConsistent}
use master_control.Runtime.Accepted.{run_recommendation_action-authority}
use master_control.Examples.Data.{
  plain_codec, example_host, example_state, new_approval, one_pending, one_pending-IsConsistent,
}

-- The first approval is executing, the second is pending.
abbrev two_approvals : Table
two_approvals =
    (create_tool_approval plain_codec "2026-01-01 00:00:00" (new_approval "restart_service")
      (claim_tool_approval plain_codec "now" 1 (one_pending "broken")).1).1

abbrev operator_state : State (List String)
operator_state = example_state two_approvals

abbrev IsNamed : Option ToolApproval → Type 0
IsNamed none = Unit
IsNamed (some a) = is_empty a.tool ≡ false

named : IsNamed (claim_tool_approval plain_codec "2026-01-01 00:00:00" 2 two_approvals).0
unfolding master_control.Runtime.Claims.claim_matching master_control.Value.is_plain_int
    master_control.Value.get master_control.Runtime.Claims.claim_of
    master_control.Approvals.Methods.prepare_matching_tool_approval_for_execution
    master_control.Approvals.Rows.select_active_row_by_digest master_control.Sql.first_row
    master_control.Sql.order_by master_control.Sql.insert_by master_control.Sql.update_where
    master_control.Prelude.concat master_control.Approvals.Methods.create_tool_approval
    master_control.Approvals.Methods.insert_row master_control.Approvals.Methods.new_row
    master_control.Approvals.Methods.identity_digest
    master_control.Approvals.Methods.build_tool_approval_digest
    master_control.Approvals.Methods.claim_found master_control.Approvals.Methods.claimed_match
    master_control.Approvals.Methods.deserialize_json_object
    master_control.Approvals.Methods.object_of master_control.Approvals.Methods.row_to_tool_approval
    master_control.Approvals.Methods.to_approval master_control.Approvals.Methods.unclaimed_match
    master_control.Approvals.Methods.update_rows master_control.Approvals.Rows.is_pending_id
    master_control.Approvals.Rows.has_id master_control.Approvals.Rows.is_active
    master_control.Approvals.Rows.is_active_digest master_control.Approvals.Rows.is_executing
    master_control.Approvals.Rows.is_pending master_control.Approvals.Rows.newest_first
    master_control.Approvals.Rows.pending_first master_control.Approvals.Rows.select_row
    master_control.Approvals.Rows.set_executing master_control.Approvals.Methods.get_tool_approval
    master_control.Approvals.Methods.claim_tool_approval
    master_control.Approvals.Lifecycle.status_of
named = refl

runs_on : IsRunning 1 (approve_tool_approval example_host 2 operator_state).1.approvals
unfolding master_control.Runtime.Claims.claim_matching master_control.Value.is_plain_int
    master_control.Value.get master_control.Runtime.Claims.claim_of
    master_control.Approvals.Methods.prepare_matching_tool_approval_for_execution
    master_control.Approvals.Rows.select_active_row_by_digest master_control.Sql.first_row
    master_control.Sql.order_by master_control.Sql.insert_by master_control.Sql.update_where
    master_control.Prelude.concat master_control.Approvals.Methods.create_tool_approval
    master_control.Approvals.Methods.insert_row master_control.Approvals.Methods.new_row
    master_control.Approvals.Methods.identity_digest
    master_control.Approvals.Methods.build_tool_approval_digest
    master_control.Approvals.Methods.claim_found master_control.Approvals.Methods.claimed_match
    master_control.Approvals.Methods.deserialize_json_object
    master_control.Approvals.Methods.object_of master_control.Approvals.Methods.row_to_tool_approval
    master_control.Approvals.Methods.to_approval master_control.Approvals.Methods.unclaimed_match
    master_control.Approvals.Methods.update_rows master_control.Approvals.Rows.is_pending_id
    master_control.Approvals.Rows.has_id master_control.Approvals.Rows.is_active
    master_control.Approvals.Rows.is_active_digest master_control.Approvals.Rows.is_executing
    master_control.Approvals.Rows.is_pending master_control.Approvals.Rows.newest_first
    master_control.Approvals.Rows.pending_first master_control.Approvals.Rows.select_row
    master_control.Approvals.Rows.set_executing master_control.Approvals.Methods.get_tool_approval
    master_control.Approvals.Methods.claim_tool_approval
    master_control.Approvals.Lifecycle.status_of master_control.Runtime.RunTool.run_tool
    master_control.Runtime.RunTool.run_found master_control.Runtime.RunTool.act
    master_control.Runtime.RunTool.execute master_control.Runtime.RunTool.conclude
    master_control.Runtime.RunTool.succeed master_control.Runtime.RunTool.observe
    master_control.Runtime.Claims.evaluate_policy master_control.Runtime.Claims.finalize_claimed
    master_control.Runtime.State.record_audit_event master_control.Policy.Engine.evaluate
    master_control.Policy.Engine.decide_by_rule master_control.Policy.Engine.allow
    master_control.Policy.Engine.deny master_control.Policy.Engine.is_disabled
    master_control.Policy.Engine.evaluate_argument_constraints
    master_control.Policy.Engine.requires_confirmation master_control.Policy.Loader.load
    master_control.Policy.Loader.reload master_control.Policy.Loader.read_policy
    master_control.Policy.Loader.cache_key master_control.Tools.Spec.is_read_only
    master_control.Value.as_int master_control.Value.put master_control.Value.merge
    master_control.Prelude.lookup master_control.Runtime.Approve.approve_tool_approval
    master_control.Runtime.Approve.approve_claimed master_control.Runtime.Approve.run_claimed
    master_control.Runtime.Approve.approve_result master_control.Runtime.Approve.approve_returned
    master_control.Runtime.Approve.approve_failed master_control.Runtime.Approve.final_status
    master_control.Value.is_true master_control.Value.get_or_false
    master_control.Runtime.Approve.exception_payload
    master_control.Approvals.Methods.finish_tool_approval
    master_control.Approvals.Rows.is_executing_id master_control.Approvals.Rows.set_finished
    master_control.Approvals.Methods.error_of
runs_on = refl

approve_tool_approval-settles_example : IsRunning 1 two_approvals
approve_tool_approval-settles_example =
    approve_tool_approval-settles example_host 2 operator_state 1 (λ a e. subst IsNamed e named)
      runs_on

abbrev busy_table : Table
busy_table = (claim_tool_approval plain_codec "now" 1 (one_pending "broken")).1

is_busy : status_of 1 busy_table ≡ some Status.executing
unfolding master_control.Runtime.Claims.claim_matching master_control.Value.is_plain_int
    master_control.Value.get master_control.Runtime.Claims.claim_of
    master_control.Approvals.Methods.prepare_matching_tool_approval_for_execution
    master_control.Approvals.Rows.select_active_row_by_digest master_control.Sql.first_row
    master_control.Sql.order_by master_control.Sql.insert_by master_control.Sql.update_where
    master_control.Prelude.concat master_control.Approvals.Methods.create_tool_approval
    master_control.Approvals.Methods.insert_row master_control.Approvals.Methods.new_row
    master_control.Approvals.Methods.identity_digest
    master_control.Approvals.Methods.build_tool_approval_digest
    master_control.Approvals.Methods.claim_found master_control.Approvals.Methods.claimed_match
    master_control.Approvals.Methods.deserialize_json_object
    master_control.Approvals.Methods.object_of master_control.Approvals.Methods.row_to_tool_approval
    master_control.Approvals.Methods.to_approval master_control.Approvals.Methods.unclaimed_match
    master_control.Approvals.Methods.update_rows master_control.Approvals.Rows.is_pending_id
    master_control.Approvals.Rows.has_id master_control.Approvals.Rows.is_active
    master_control.Approvals.Rows.is_active_digest master_control.Approvals.Rows.is_executing
    master_control.Approvals.Rows.is_pending master_control.Approvals.Rows.newest_first
    master_control.Approvals.Rows.pending_first master_control.Approvals.Rows.select_row
    master_control.Approvals.Rows.set_executing master_control.Approvals.Methods.get_tool_approval
    master_control.Approvals.Methods.claim_tool_approval
    master_control.Approvals.Lifecycle.status_of
is_busy = refl

approve_tool_approval-refuses_example :
    approve_tool_approval example_host 1 (example_state busy_table) ≡ (
      raised (refusal 1 "run" (get_tool_approval plain_codec 1 busy_table)),
      example_state busy_table,
    )
approve_tool_approval-refuses_example =
    approve_tool_approval-refuses example_host 1 (example_state busy_table)
      (claim_tool_approval-IsConsistent plain_codec "now" 1 (one_pending "broken")
        (one_pending-IsConsistent "broken"))
      (subst (λ o. o ≢ some Status.pending) (sym is_busy) (λ k. cc))

abbrev accepted_row : Recommendations.Row
accepted_row = record {
  id = 1;
  session_id = 1;
  dedupe_key = "nginx";
  source_key = "service";
  severity = "critical";
  message = "nginx is down.";
  status = Recommendations.Status.accepted;
  action_kind = some "run_tool";
  action_title = none;
  action_tool_name = some "restart_service";
  action_arguments_json = some "{}";
  created_at = "t";
  updated_at = "t";
  last_seen_at = "t";
}

abbrev accepted_state : State (List String)
accepted_state = record operator_state {
  recommendations = record { rows = accepted_row ∷ []; next_id = 2 };
}

run_recommendation_action-authority_example :
    ((run_recommendation_action example_host 1 true accepted_state).1.world ≡ [])
    ⊎ ((r : Recommendations.Row) × (a : Recommendations.StoredAction) × (tool : Tool (List String))
        × (get_recommendation plain_codec (ℤ.pos 1) accepted_state.recommendations ≡ some r)
        × (is_accepted r.status ≡ true)
        × (Recommendations.stored_action plain_codec r ≡ some a)
        × (lookup a.tool_name example_host.tools ≡ some tool)
        × MayRun example_host tool a.arguments true accepted_state)
run_recommendation_action-authority_example =
    run_recommendation_action-authority example_host 1 true accepted_state

only-accepted :
    (r : Recommendations.Row) → Member r accepted_state.recommendations.rows → r ≡ accepted_row
only-accepted r (inl e) = e
only-accepted r (inr m) = absurd m

accepted_state-IsConsistent : IsConsistent accepted_state.recommendations
accepted_state-IsConsistent = record {
  below = λ r m. omega (arith, ap (λ (x : Recommendations.Row). x.id) (only-accepted r m));
  ids = λ a b m n e. only-accepted a m ∙ sym (only-accepted b n);
  keys = λ a b m n e k. only-accepted a m ∙ sym (only-accepted b n);
}

update_recommendation_status-ends_example :
    StatusEnds example_host 1 "dismissed" accepted_state
      (update_recommendation_status example_host 1 "dismissed" accepted_state)
    × IsConsistent
        (update_recommendation_status example_host 1 "dismissed" accepted_state).1.recommendations
update_recommendation_status-ends_example =
    update_recommendation_status-ends example_host 1 "dismissed" accepted_state
      accepted_state-IsConsistent
