-- ===== src/Examples/Approvals.antt =====
-- The theorems of the tool approvals at concrete inputs.
use master_control.Prelude.{inr, ℕ, ◌≤◌, ◌≡◌, refl, inl, List, [], ◌∷◌, some, none}
use master_control.Value.{Fields}
use master_control.Approvals.Rows.{MatchOutcome, Status}
use master_control.Approvals.Methods.{
  claim_tool_approval, get_tool_approval, create_tool_approval,
  prepare_matching_tool_approval_for_execution,
}
use master_control.Approvals.Invariant.{IsConsistent}
use master_control.Approvals.Lifecycle.{
  Call, Goes, status_of, perform, perform-moves, perform-IsConsistent,
}
use master_control.Approvals.Exclusive.{grants, grants-le-one, granted, is_grant, granted-Starts}
use master_control.Approvals.Matching.{prepare-decides}
use master_control.Examples.Data.{
  plain_codec, new_approval, no_approvals, no_approvals-IsConsistent, example_arguments,
  one_pending, one_pending-IsConsistent,
}

abbrev two_claims : List Call
two_claims =
    Call.create (new_approval "restart_service")
    ∷ Call.claim 1
    ∷ Call.prepare "restart_service" example_arguments Fields.end
    ∷ Call.finish 1 Status.failed Fields.end
    ∷ Call.claim 1
    ∷ []

grants-le-one_example : grants plain_codec "now" 1 two_claims no_approvals ≤ 1
grants-le-one_example =
    grants-le-one plain_codec "now" two_claims 1 no_approvals (tt, (tt, (tt, (inr refl, (tt, tt)))))
      no_approvals-IsConsistent

perform-IsConsistent_example :
    IsConsistent (perform plain_codec "now" (Call.claim 1) (one_pending "restart_service"))
perform-IsConsistent_example =
    perform-IsConsistent plain_codec "now" (Call.claim 1) (one_pending "restart_service") tt
      (one_pending-IsConsistent "restart_service")

perform-moves_example :
    (s' : Status) × (status_of 1
        (perform plain_codec "now" (Call.claim 1) (one_pending "restart_service"))
      ≡ some s')
    × Goes Status.pending s'
unfolding status_of create_tool_approval master_control.Approvals.Rows.select_row
    master_control.Approvals.Rows.select_active_row_by_digest master_control.Sql.first_row
    master_control.Approvals.Methods.insert_row master_control.Approvals.Methods.new_row
perform-moves_example =
    perform-moves plain_codec "now" (Call.claim 1) 1 (one_pending "restart_service") Status.pending
      tt refl

granted-Starts_example :
    (status_of 1 (one_pending "restart_service") ≡ some Status.pending)
    × (status_of 1 (perform plain_codec "now" (Call.claim 1) (one_pending "restart_service"))
        ≡ some Status.executing)
unfolding is_grant granted master_control.Approvals.Exclusive.granted_id claim_tool_approval
    create_tool_approval master_control.Approvals.Rows.select_active_row_by_digest
    master_control.Sql.first_row master_control.Approvals.Methods.insert_row
    master_control.Approvals.Rows.is_pending_id master_control.Approvals.Methods.new_row
    get_tool_approval master_control.Approvals.Methods.to_approval
    master_control.Approvals.Rows.select_row master_control.Approvals.Methods.update_rows
    master_control.Approvals.Rows.set_executing
    master_control.Approvals.Methods.row_to_tool_approval
granted-Starts_example =
    granted-Starts plain_codec "now" (Call.claim 1) 1 (one_pending "restart_service")
      (one_pending-IsConsistent "restart_service") refl

prepare-decides_example :
    prepare_matching_tool_approval_for_execution plain_codec "now" "restart_service"
      example_arguments Fields.end
      (one_pending "restart_service")
    ≡ (
      record {
        outcome = MatchOutcome.claimed;
        approval =
            get_tool_approval plain_codec 1
              (claim_tool_approval plain_codec "now" 1 (one_pending "restart_service")).1;
      },
      (claim_tool_approval plain_codec "now" 1 (one_pending "restart_service")).1,
    )
unfolding master_control.Approvals.Rows.select_active_row_by_digest master_control.Sql.first_row
    create_tool_approval master_control.Approvals.Methods.insert_row
    master_control.Approvals.Methods.new_row master_control.Approvals.Methods.identity_digest
    master_control.Approvals.Methods.build_tool_approval_digest master_control.Prelude.concat
    get_tool_approval claim_tool_approval master_control.Approvals.Methods.update_rows
    master_control.Approvals.Methods.to_approval master_control.Approvals.Rows.is_pending_id
    master_control.Approvals.Rows.select_row master_control.Approvals.Rows.set_executing
prepare-decides_example =
    prepare-decides plain_codec "now" "restart_service" example_arguments Fields.end
      (one_pending "restart_service") (one_pending-IsConsistent "restart_service")
