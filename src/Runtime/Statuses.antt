-- ===== src/Runtime/Statuses.antt =====
-- `update_recommendation_status` of core/runtime.py and of store/session_store.py.
use master_control.Prelude.{
  ℕ, String, Option, none, some, [], ◌∷◌, concat, decimal, ◌==◌, if◌then◌else◌,
}
use master_control.Value.{Value, ℤ, dict_of}
use master_control.Sql.{update_where}
use master_control.Recommendations.Rows.{Status, Row, Table, StoredAction, has_id, stored_action}
use master_control.Runtime.State.{Host, State, Outcome, value, raised, record_audit_event}
use master_control.Runtime.Commands.{get_recommendation}

-- RECOMMENDATION_STATUSES; `none` is a text that is no status.
unfoldable pub status_named : String → Option Status
status_named text =
    if text == "open"
    then some Status.opened
    else if text == "accepted"
    then some Status.accepted
    else if text == "dismissed"
    then some Status.dismissed
    else if text == "resolved"
    then some Status.resolved
    else none

abbrev pub set_status : String → Status → Row → Row
set_status now status r = record r { status = status; updated_at = now }

-- The UPDATE of the store.
unfoldable pub update_status_row : String → ℕ → Status → Table → Table
update_status_row now n status t = record t {
  rows = update_where (has_id n) (set_status now status) t.rows;
}

-- `_build_recommendation_commands`
pub record NextStep : Type 0 where
  pub cli_accept_command : String
  pub chat_accept_command : String
  pub cli_confirm_command : String
  pub chat_confirm_command : String

unfoldable pub build_recommendation_commands : ℕ → NextStep
build_recommendation_commands n = record {
  cli_accept_command = concat ("mc recommendation " ∷ decimal n ∷ " accepted" ∷ []);
  chat_accept_command = concat ("/recommendation " ∷ decimal n ∷ " accepted" ∷ []);
  cli_confirm_command = concat ("mc recommendation-run " ∷ decimal n ∷ " --confirm" ∷ []);
  chat_confirm_command = concat ("/recommendation-run " ∷ decimal n ∷ " confirm" ∷ []);
}

-- What the method returns: the row, and the commands of the next step, where there is one.
pub record StatusUpdate : Type 0 where
  pub recommendation : Row
  pub next_step : Option NextStep

next_step_of : String → ℕ → Option StoredAction → Option NextStep
next_step_of status n none = none
next_step_of status n (some action) =
    if status == "accepted" then some (build_recommendation_commands n) else none

module _ {World : Type 0} (host : Host World) where
  open host use {codec, now}

  unfoldable pub report_update :
      ℕ → String → Option Row → State World → Outcome StatusUpdate × State World
  unfolding next_step_of
  report_update n status none s =
      (raised (concat ("Unknown recommendation_id: " ∷ decimal n ∷ [])), s)
  report_update n status (some r) s = (
    value
        (record { recommendation = r; next_step = next_step_of status n (stored_action codec r) }),
    record_audit_event "recommendation_status_updated"
        (dict_of (
          ("recommendation_id", Value.int (ℤ.pos n))
          ∷ ("session_id", Value.int (ℤ.pos r.session_id))
          ∷ ("status", Value.str status)
          ∷ []))
        s,
  )

  unfoldable pub update_recommendation_status :
      ℕ → String → State World → Outcome StatusUpdate × State World
  update_recommendation_status n text s = elim (status_named text) [
    | none ↦ (raised (concat ("Invalid recommendation status: " ∷ text ∷ [])), s)
    | some status ↦
        let t = update_status_row (now s.world) n status s.recommendations in
        report_update n text (get_recommendation codec (ℤ.pos n) t)
          (record s { recommendations = t })
  ]
