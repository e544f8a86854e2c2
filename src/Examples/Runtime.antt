-- ===== src/Examples/Runtime.antt =====
-- The theorems of `run_tool` at concrete inputs.
use master_control.Prelude.{◌≡◌, ◌⊎◌, refl, String, true, false, List, [], ◌∷◌, some, none, lookup}
use master_control.Value.{Value, put, merge, dict_of, Fields}
use master_control.Approvals.Rows.{Status, ToolApproval}
use master_control.Approvals.Methods.{get_tool_approval}
use master_control.Approvals.Invariant.{IsConsistent}
use master_control.Approvals.Open.{IsRunning}
use master_control.Runtime.State.{Tool, State, raised, value}
use master_control.Runtime.Claims.{claim_matching, decision_dict, evaluate_policy}
use master_control.Runtime.RunTool.{run_tool}
use master_control.Runtime.Authority.{MayRun, run_tool-authority}
use master_control.Runtime.Settlement.{run_tool-settles}
use master_control.Runtime.Consistency.{run_tool-IsConsistent}
use master_control.Runtime.Trail.{Recorded, run_tool-records}
use master_control.Runtime.Crash.{run_tool-crash}
use master_control.Approvals.Invariant.{claim_tool_approval-IsConsistent}
use master_control.Approvals.Methods.{claim_tool_approval}
use master_control.Examples.Data.{
  plain_codec, restart_spec, broken_tool, broken_tool, example_host, example_arguments,
  example_state, one_pending, one_pending-IsConsistent,
}

run_tool-authority_example :
    ((run_tool example_host "restart_service" example_arguments true Fields.end
        (example_state (one_pending "restart_service"))).1.world
      ≡ [])
    ⊎ ((tool : Tool (List String)) × (lookup "restart_service" example_host.tools ≡ some tool)
        × MayRun example_host tool example_arguments true
            (example_state (one_pending "restart_service"))
        × ((run_tool example_host "restart_service" example_arguments true Fields.end
              (example_state (one_pending "restart_service"))).1.world
            ≡ (tool.invoke example_arguments []).1))
run_tool-authority_example =
    run_tool-authority example_host "restart_service" example_arguments true Fields.end
      (example_state (one_pending "restart_service"))

run_tool-records_example :
    Recorded []
      (run_tool example_host "restart_service" example_arguments false Fields.end
        (example_state (one_pending "restart_service"))).0
      (run_tool example_host "restart_service" example_arguments false Fields.end
        (example_state (one_pending "restart_service"))).1.audit
run_tool-records_example =
    run_tool-records example_host "restart_service" example_arguments false Fields.end
      (example_state (one_pending "restart_service"))

run_tool-IsConsistent_example :
    IsConsistent
      (run_tool example_host "restart_service" example_arguments true Fields.end
        (example_state (one_pending "restart_service"))).1.approvals
run_tool-IsConsistent_example =
    run_tool-IsConsistent example_host "restart_service" example_arguments true Fields.end
      (example_state (one_pending "restart_service")) (one_pending-IsConsistent "restart_service")

abbrev busy_state : State (List String)
busy_state = example_state (one_pending "broken")

-- The approval that the call of the broken tool claims.
abbrev claimed_approval : ToolApproval
claimed_approval = record {
  id = 1;
  tool = "broken";
  risk = "privileged";
  arguments = Fields.end;
  audit_context = Fields.end;
  summary = "";
  cli_command = "";
  chat_command = "";
  status = Status.executing;
  execution = none;
  error = none;
  created_at = "2026-01-01 00:00:00";
  updated_at = "2026-01-01 00:00:00";
  resolved_at = none;
}

claims_it :
    (claim_matching example_host broken_tool.spec example_arguments true Fields.end
      busy_state).0.claimed
    ≡ some claimed_approval
unfolding lookup master_control.Runtime.Claims.claim_matching master_control.Value.is_plain_int
    master_control.Value.get master_control.Runtime.Claims.claim_of
    master_control.Approvals.Methods.prepare_matching_tool_approval_for_execution
    master_control.Approvals.Rows.select_active_row_by_digest master_control.Sql.first_row
    master_control.Sql.order_by master_control.Sql.insert_by master_control.Sql.update_where
    master_control.Prelude.concat master_control.Approvals.Methods.create_tool_approval
    master_control.Approvals.Methods.insert_row master_control.Approvals.Methods.new_row
    master_control.Approvals.Methods.identity_digest
    master_control.Approvals.Methods.build_tool_approval_digest
    master_control.Approvals.Methods.claim_found master_control.Approvals.Methods.claimed_match
    master_control.Approvals.Methods.deserialize_json_object
    master_control.Approvals.Methods.object_of master_control.Approvals.Methods.row_to_tool_approval
    master_control.Approvals.Methods.to_approval master_control.Approvals.Methods.unclaimed_match
    master_control.Approvals.Methods.update_rows master_control.Approvals.Rows.is_pending_id
    master_control.Approvals.Rows.has_id master_control.Approvals.Rows.is_active
    master_control.Approvals.Rows.is_active_digest master_control.Approvals.Rows.is_executing
    master_control.Approvals.Rows.is_pending master_control.Approvals.Rows.newest_first
    master_control.Approvals.Rows.pending_first master_control.Approvals.Rows.select_row
    master_control.Approvals.Rows.set_executing
claims_it = refl

run_tool-crash_example :
    ((run_tool example_host "broken" example_arguments true Fields.end busy_state).0
      ≡ raised "OSError")
    × IsRunning 1
        (run_tool example_host "broken" example_arguments true Fields.end busy_state).1.approvals
    × ((run_tool example_host "broken" example_arguments true Fields.end busy_state).1.audit ≡ [])
unfolding lookup master_control.Policy.Engine.evaluate master_control.Policy.Engine.decide_by_rule
    master_control.Policy.Engine.allow master_control.Policy.Engine.deny
    master_control.Policy.Engine.is_disabled
    master_control.Policy.Engine.evaluate_argument_constraints master_control.Policy.Loader.load
    master_control.Policy.Loader.reload master_control.Policy.Loader.read_policy
    master_control.Policy.Loader.cache_key
run_tool-crash_example =
    run_tool-crash example_host "broken" broken_tool example_arguments Fields.end busy_state
      claimed_approval "OSError" (one_pending-IsConsistent "broken") refl claims_it refl refl

-- The approval of the broken tool is executing while another tool is called.
abbrev running_state : State (List String)
running_state = example_state (claim_tool_approval plain_codec "now" 1 (one_pending "broken")).1

abbrev restarted : Fields
restarted = put "result" (Value.dict (Fields.field "status" (Value.str "ok") Fields.end)) (
    merge
      (dict_of (
        ("ok", Value.bool true)
        ∷ ("tool", Value.str "restart_service")
        ∷ ("arguments", Value.dict example_arguments)
        ∷ (
          "policy",
          Value.dict (
              decision_dict
                (evaluate_policy example_host restart_spec example_arguments running_state).0),
        )
        ∷ []))
      Fields.end)

returns_it :
    (run_tool example_host "restart_service" example_arguments true Fields.end running_state).0
    ≡ value restarted
unfolding lookup master_control.Runtime.Claims.claim_matching master_control.Value.is_plain_int
    master_control.Value.get master_control.Runtime.Claims.claim_of
    master_control.Approvals.Methods.prepare_matching_tool_approval_for_execution
    master_control.Approvals.Rows.select_active_row_by_digest master_control.Sql.first_row
    master_control.Sql.order_by master_control.Sql.insert_by master_control.Sql.update_where
    master_control.Prelude.concat master_control.Approvals.Methods.create_tool_approval
    master_control.Approvals.Methods.insert_row master_control.Approvals.Methods.new_row
    master_control.Approvals.Methods.identity_digest
    master_control.Approvals.Methods.build_tool_approval_digest
    master_control.Approvals.Methods.claim_found master_control.Approvals.Methods.claimed_match
    master_control.Approvals.Methods.deserialize_json_object
    master_control.Approvals.Methods.object_of master_control.Approvals.Methods.row_to_tool_approval
    master_control.Approvals.Methods.to_approval master_control.Approvals.Methods.unclaimed_match
    master_control.Approvals.Methods.update_rows master_control.Approvals.Rows.is_pending_id
    master_control.Approvals.Rows.has_id master_control.Approvals.Rows.is_active
    master_control.Approvals.Rows.is_active_digest master_control.Approvals.Rows.is_executing
    master_control.Approvals.Rows.is_pending master_control.Approvals.Rows.newest_first
    master_control.Approvals.Rows.pending_first master_control.Approvals.Rows.select_row
    master_control.Approvals.Rows.set_executing master_control.Runtime.RunTool.run_tool
    master_control.Runtime.RunTool.run_found master_control.Runtime.RunTool.act
    master_control.Runtime.RunTool.execute master_control.Runtime.RunTool.conclude
    master_control.Runtime.RunTool.succeed master_control.Runtime.RunTool.observe
    master_control.Runtime.Claims.evaluate_policy master_control.Runtime.Claims.finalize_claimed
    master_control.Runtime.State.record_audit_event master_control.Policy.Engine.evaluate
    master_control.Policy.Engine.decide_by_rule master_control.Policy.Engine.allow
    master_control.Policy.Engine.deny master_control.Policy.Engine.is_disabled
    master_control.Policy.Engine.evaluate_argument_constraints
    master_control.Policy.Engine.requires_confirmation master_control.Policy.Loader.load
    master_control.Policy.Loader.reload master_control.Policy.Loader.read_policy
    master_control.Policy.Loader.cache_key master_control.Tools.Spec.is_read_only
    master_control.Value.as_int master_control.Value.put master_control.Value.merge
    master_control.Approvals.Methods.claim_tool_approval
    master_control.Approvals.Lifecycle.status_of
returns_it = refl

still-IsRunning :
    IsRunning 1
      (run_tool example_host "restart_service" example_arguments true Fields.end
        running_state).1.approvals
unfolding lookup master_control.Runtime.Claims.claim_matching master_control.Value.is_plain_int
    master_control.Value.get master_control.Runtime.Claims.claim_of
    master_control.Approvals.Methods.prepare_matching_tool_approval_for_execution
    master_control.Approvals.Rows.select_active_row_by_digest master_control.Sql.first_row
    master_control.Sql.order_by master_control.Sql.insert_by master_control.Sql.update_where
    master_control.Prelude.concat master_control.Approvals.Methods.create_tool_approval
    master_control.Approvals.Methods.insert_row master_control.Approvals.Methods.new_row
    master_control.Approvals.Methods.identity_digest
    master_control.Approvals.Methods.build_tool_approval_digest
    master_control.Approvals.Methods.claim_found master_control.Approvals.Methods.claimed_match
    master_control.Approvals.Methods.deserialize_json_object
    master_control.Approvals.Methods.object_of master_control.Approvals.Methods.row_to_tool_approval
    master_control.Approvals.Methods.to_approval master_control.Approvals.Methods.unclaimed_match
    master_control.Approvals.Methods.update_rows master_control.Approvals.Rows.is_pending_id
    master_control.Approvals.Rows.has_id master_control.Approvals.Rows.is_active
    master_control.Approvals.Rows.is_active_digest master_control.Approvals.Rows.is_executing
    master_control.Approvals.Rows.is_pending master_control.Approvals.Rows.newest_first
    master_control.Approvals.Rows.pending_first master_control.Approvals.Rows.select_row
    master_control.Approvals.Rows.set_executing master_control.Runtime.RunTool.run_tool
    master_control.Runtime.RunTool.run_found master_control.Runtime.RunTool.act
    master_control.Runtime.RunTool.execute master_control.Runtime.RunTool.conclude
    master_control.Runtime.RunTool.succeed master_control.Runtime.RunTool.observe
    master_control.Runtime.Claims.evaluate_policy master_control.Runtime.Claims.finalize_claimed
    master_control.Runtime.State.record_audit_event master_control.Policy.Engine.evaluate
    master_control.Policy.Engine.decide_by_rule master_control.Policy.Engine.allow
    master_control.Policy.Engine.deny master_control.Policy.Engine.is_disabled
    master_control.Policy.Engine.evaluate_argument_constraints
    master_control.Policy.Engine.requires_confirmation master_control.Policy.Loader.load
    master_control.Policy.Loader.reload master_control.Policy.Loader.read_policy
    master_control.Policy.Loader.cache_key master_control.Tools.Spec.is_read_only
    master_control.Value.as_int master_control.Value.put master_control.Value.merge
    master_control.Approvals.Methods.claim_tool_approval
    master_control.Approvals.Lifecycle.status_of
still-IsRunning = refl

run_tool-settles_example : IsRunning 1 running_state.approvals
run_tool-settles_example =
    run_tool-settles example_host "restart_service" example_arguments true Fields.end running_state
      restarted 1
      (claim_tool_approval-IsConsistent plain_codec "now" 1 (one_pending "broken")
        (one_pending-IsConsistent "broken"))
      returns_it still-IsRunning
