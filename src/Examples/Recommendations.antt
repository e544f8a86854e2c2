-- ===== src/Examples/Recommendations.antt =====
-- The theorems of the recommendations at concrete inputs.
use master_control.Prelude.{
  ◌∙◌, sym, ap, arith, sym, ◌∙◌, ◌≡◌, refl, inl, inr, List, [], ◌∷◌, none, contains,
}
use master_control.Sql.Laws.{Member}
use master_control.Recommendations.Rows.{Row, Table, Candidate, Status, is_active}
use master_control.Recommendations.Sync.{ok, Synced, candidate_keys, sync_session_recommendations}
use master_control.Recommendations.Invariant.{IsConsistent}
use master_control.Recommendations.Active.{sync-active, sync-IsConsistent}
use master_control.Recommendations.Success.{sync-succeeds}
use master_control.Examples.Data.{plain_codec}

abbrev old_row : Row
old_row = record {
  id = 1;
  session_id = 1;
  dedupe_key = "disk";
  source_key = "disk";
  severity = "warning";
  message = "The disk is full.";
  status = Status.opened;
  action_kind = none;
  action_title = none;
  action_tool_name = none;
  action_arguments_json = none;
  created_at = "t";
  updated_at = "t";
  last_seen_at = "t";
}

abbrev one_row : Table
one_row = record { rows = old_row ∷ []; next_id = 2 }

only-row : (r : Row) → Member r one_row.rows → r ≡ old_row
only-row r (inl e) = e
only-row r (inr m) = absurd m

one_row-IsConsistent : IsConsistent one_row
one_row-IsConsistent = record {
  below = λ r m. omega (arith, ap (λ (x : Row). x.id) (only-row r m));
  ids = λ a b m n e. only-row a m ∙ sym (only-row b n);
  keys = λ a b m n e k. only-row a m ∙ sym (only-row b n);
}

abbrev memory_candidate : Candidate
memory_candidate = record {
  dedupe_key = "memory";
  source_key = "memory";
  severity = "critical";
  message = "The memory is short.";
  action = none;
}

abbrev new_candidates : List Candidate
new_candidates = memory_candidate ∷ []

sync-succeeds_example :
    (out : Synced) × (t' : Table) × (sync_session_recommendations plain_codec "now"
        (1 ∷ [])
        1
        new_candidates
        one_row
      ≡ ok (out, t'))
sync-succeeds_example =
    sync-succeeds plain_codec "now" (1 ∷ []) 1 new_candidates one_row refl (tt, tt)

abbrev resolved_row : Row
resolved_row = record old_row { status = Status.resolved; updated_at = "now" }

abbrev memory_row : Row
memory_row = record {
  id = 2;
  session_id = 1;
  dedupe_key = "memory";
  source_key = "memory";
  severity = "critical";
  message = "The memory is short.";
  status = Status.opened;
  action_kind = none;
  action_title = none;
  action_tool_name = none;
  action_arguments_json = none;
  created_at = "now";
  updated_at = "now";
  last_seen_at = "now";
}

abbrev synced_table : Table
synced_table = record { rows = resolved_row ∷ memory_row ∷ []; next_id = 3 }

abbrev synced : Synced
synced = record {
  active = memory_row ∷ [];
  new = memory_row ∷ [];
  reopened = [];
  auto_resolved = resolved_row ∷ [];
}

synchronised :
    sync_session_recommendations plain_codec "now" (1 ∷ []) 1 new_candidates one_row
    ≡ ok (synced, synced_table)
unfolding sync_session_recommendations master_control.Recommendations.Sync.sync_candidates
    master_control.Recommendations.Sync.sync_candidate
    master_control.Recommendations.Sync.existing_with_key
    master_control.Recommendations.Rows.in_session master_control.Recommendations.Sync.insert_new
    master_control.Recommendations.Rows.has_key master_control.Recommendations.Sync.report
    master_control.Recommendations.Sync.auto_resolve
    master_control.Recommendations.Sync.list_session_recommendations
    master_control.Recommendations.Sync.pick_ids
    master_control.Recommendations.Sync.mark_recommendations_resolved master_control.Sql.select
    master_control.Recommendations.Sync.auto_resolved_ids
    master_control.Recommendations.Sync.is_stale is_active master_control.Sql.update_where
    master_control.Recommendations.Sync.id_in master_control.Recommendations.Sync.set_resolved
    master_control.Recommendations.Sync.new_row master_control.Recommendations.Rows.newest_first
    master_control.Recommendations.Rows.action_columns master_control.Recommendations.Rows.has_id
synchronised = refl

sync-active_example :
    is_active memory_row.status ≡ contains (candidate_keys new_candidates) "memory"
sync-active_example =
    sync-active plain_codec "now" (1 ∷ []) 1 new_candidates one_row synced synced_table
      one_row-IsConsistent synchronised memory_row (inr (inl refl)) refl

sync-IsConsistent_example : IsConsistent synced_table
sync-IsConsistent_example =
    sync-IsConsistent plain_codec "now" (1 ∷ []) 1 new_candidates one_row synced synced_table
      one_row-IsConsistent synchronised
