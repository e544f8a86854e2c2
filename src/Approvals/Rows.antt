-- ===== src/Approvals/Rows.antt =====
-- The table `tool_approvals` of store/session_store.py: its rows, the WHERE and ORDER BY clauses of
-- the statements that read it, and the SET clauses of those that write it. `now` is
-- CURRENT_TIMESTAMP.
use master_control.Prelude.{
  ℕ, String, Bool, true, false, ◌&&◌, ◌||◌, Option, some, List, leb, eqb, ◌==◌, find, if◌then◌else◌,
}
use master_control.Value.{Fields}
use master_control.Sql.{first_row}

-- The values of the column `status`.
pub data Status : Type 0 where
  pending executing completed failed rejected : Status

unfoldable pub is_pending : Status → Bool
is_pending Status.pending = true
is_pending _ = false

unfoldable pub is_executing : Status → Bool
is_executing Status.executing = true
is_executing _ = false

-- status IN ('pending', 'executing')
unfoldable pub is_active : Status → Bool
unfolding is_pending is_executing
is_active s = is_pending s || is_executing s

pub record Row : Type 0 where
  pub id : ℕ
  pub tool_name : String
  pub risk : String
  pub arguments_json : String
  pub audit_context_json : String
  pub action_digest : String
  pub summary : String
  pub cli_command : String
  pub chat_command : String
  pub status : Status
  pub execution_payload_json : Option String
  pub error_text : Option String
  pub created_at : String
  pub updated_at : String
  pub resolved_at : Option String

-- `next_id` is the AUTOINCREMENT counter.
pub record Table : Type 0 where
  pub rows : List Row
  pub next_id : ℕ

-- The dict that `_row_to_tool_approval` returns.
pub record ToolApproval : Type 0 where
  pub id : ℕ
  pub tool : String
  pub risk : String
  pub arguments : Fields
  pub audit_context : Fields
  pub summary : String
  pub cli_command : String
  pub chat_command : String
  pub status : Status
  pub execution : Option Fields
  pub error : Option String
  pub created_at : String
  pub updated_at : String
  pub resolved_at : Option String

-- What `create_tool_approval` is given.
pub record NewApproval : Type 0 where
  pub tool_name : String
  pub risk : String
  pub arguments : Fields
  pub audit_context : Fields
  pub summary : String
  pub cli_command : String
  pub chat_command : String

pub data MatchOutcome : Type 0 where
  unmatched claimed already_executing : MatchOutcome

pub record ExecutionMatch : Type 0 where
  pub outcome : MatchOutcome
  pub approval : Option ToolApproval

-- WHERE id = ?
unfoldable pub has_id : ℕ → Row → Bool
has_id n r = eqb r.id n

-- WHERE id = ? AND status = 'pending'
unfoldable pub is_pending_id : ℕ → Row → Bool
unfolding is_pending
is_pending_id n r = eqb r.id n && is_pending r.status

-- WHERE id = ? AND status = 'executing'
unfoldable pub is_executing_id : ℕ → Row → Bool
unfolding is_executing
is_executing_id n r = eqb r.id n && is_executing r.status

-- WHERE action_digest = ? AND status IN ('pending', 'executing')
unfoldable pub is_active_digest : String → Row → Bool
unfolding is_active
is_active_digest d r = r.action_digest == d && is_active r.status

-- The text of the column.
unfoldable pub status_text : Status → String
status_text Status.pending = "pending"
status_text Status.executing = "executing"
status_text Status.completed = "completed"
status_text Status.failed = "failed"
status_text Status.rejected = "rejected"

-- WHERE status = ?
unfoldable pub has_status : Status → Row → Bool
unfolding status_text
has_status s r = status_text r.status == status_text s

status_rank : Status → ℕ
status_rank Status.pending = 0
status_rank _ = 1

unfoldable pub newest_first : Row → Row → Bool
newest_first a b = leb b.id a.id

-- ORDER BY CASE status WHEN 'pending' THEN 0 ELSE 1 END, id DESC
unfoldable pub pending_first : Row → Row → Bool
unfolding status_rank newest_first
pending_first a b =
    if eqb (status_rank a.status) (status_rank b.status)
    then newest_first a b
    else leb (status_rank a.status) (status_rank b.status)

unfoldable pub select_active_row_by_digest : String → Table → Option Row
unfolding pending_first is_active_digest
select_active_row_by_digest d t = first_row pending_first (is_active_digest d) t.rows

unfoldable pub select_row : ℕ → Table → Option Row
unfolding has_id
select_row n t = find (has_id n) t.rows

-- SET status = 'executing', updated_at = CURRENT_TIMESTAMP
unfoldable pub set_executing : String → Row → Row
set_executing now r = record r { status = Status.executing; updated_at = now }

unfoldable pub set_rejected : String → Row → Row
set_rejected now r = record r { status = Status.rejected; updated_at = now; resolved_at = some now }

unfoldable pub set_finished : String → Status → String → Option String → Row → Row
set_finished now s payload error r = record r {
  status = s;
  execution_payload_json = some payload;
  error_text = error;
  updated_at = now;
  resolved_at = some now;
}
