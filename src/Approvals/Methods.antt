-- ===== src/Approvals/Methods.antt =====
-- The methods of `SessionStore` on the tool approvals (store/session_store.py), each as one
-- transaction on the table: the result beside the table that it leaves. A `none` of
-- `create_tool_approval` is its RuntimeError.
use master_control.Prelude.{
  ℕ, suc, String, Bool, true, Option, none, some, List, [], ◌∷◌, ◌++◌, map, eqb, is_empty, concat,
  count_by, if◌then◌else◌,
}
use master_control.Value.{Value, Fields, get}
use master_control.Codec.{Codec}
use master_control.Sql.{select, update_where}
use master_control.Approvals.Rows.{
  Status, Row, Table, ToolApproval, NewApproval, MatchOutcome, ExecutionMatch, is_executing,
  is_pending_id, is_executing_id, has_status, newest_first, select_row, select_active_row_by_digest,
  set_executing, set_rejected, set_finished,
}

-- A JSON document that is no object reads as the empty one.
unfoldable pub object_of : Option Value → Fields
object_of (some (Value.dict d)) = d
object_of _ = Fields.end

-- The error text, if the payload's `error` is a text.
unfoldable pub error_of : Option Value → Option String
error_of (some (Value.str s)) = some s
error_of _ = none

abbrev pub no_match : ExecutionMatch
no_match = record { outcome = MatchOutcome.unmatched; approval = none }

-- UPDATE tool_approvals SET f WHERE p
unfoldable pub update_rows : (Row → Bool) → (Row → Row) → Table → Table
unfolding update_where
update_rows p f t = record t { rows = update_where p f t.rows }

module _ (codec : Codec) where
  unfoldable pub deserialize_json_object : Option String → Fields
  deserialize_json_object none = Fields.end
  deserialize_json_object (some text) =
      if is_empty text then Fields.end else object_of (codec.loads text)

  unfoldable pub row_to_tool_approval : Row → ToolApproval
  row_to_tool_approval r = record {
    id = r.id;
    tool = r.tool_name;
    risk = r.risk;
    arguments = deserialize_json_object (some r.arguments_json);
    audit_context = deserialize_json_object (some r.audit_context_json);
    summary = r.summary;
    cli_command = r.cli_command;
    chat_command = r.chat_command;
    status = r.status;
    execution = elim r.execution_payload_json [
      | none ↦ none
      | some text ↦ some (deserialize_json_object (some text))
    ];
    error = r.error_text;
    created_at = r.created_at;
    updated_at = r.updated_at;
    resolved_at = r.resolved_at;
  }

  unfoldable pub to_approval : Option Row → Option ToolApproval
  to_approval none = none
  to_approval (some r) = some (row_to_tool_approval r)

  -- `sha256(f"{tool_name}\x1f{arguments_json}\x1f{audit_context_json}")`
  unfoldable pub build_tool_approval_digest : String → String → String → String
  build_tool_approval_digest tool_name arguments_json audit_context_json =
      codec.sha256
        (concat (tool_name ∷ "\u{1f}" ∷ arguments_json ∷ "\u{1f}" ∷ audit_context_json ∷ []))

  -- The digest of `_serialize_tool_approval_identity`.
  unfoldable pub identity_digest : String → Fields → Fields → String
  identity_digest tool_name arguments audit_context =
      build_tool_approval_digest tool_name (codec.dumps (Value.dict arguments))
        (codec.dumps (Value.dict audit_context))

  -- The row that INSERT makes, the defaults of the schema included.
  unfoldable pub new_row : String → ℕ → NewApproval → Row
  new_row now n a = record {
    id = n;
    tool_name = a.tool_name;
    risk = a.risk;
    arguments_json = codec.dumps (Value.dict a.arguments);
    audit_context_json = codec.dumps (Value.dict a.audit_context);
    action_digest = identity_digest a.tool_name a.arguments a.audit_context;
    summary = a.summary;
    cli_command = a.cli_command;
    chat_command = a.chat_command;
    status = Status.pending;
    execution_payload_json = none;
    error_text = none;
    created_at = now;
    updated_at = now;
    resolved_at = none;
  }

  unfoldable pub insert_row : String → NewApproval → Table → Table
  insert_row now a t = record {
    rows = t.rows ++ new_row now t.next_id a ∷ [];
    next_id = suc t.next_id;
  }

  -- The state of the table beside what the method returns. `none` is the RuntimeError of an insert
  -- that leaves no row.
  unfoldable pub create_tool_approval : String → NewApproval → Table → Option ToolApproval × Table
  create_tool_approval now a t =
      elim (select_active_row_by_digest (identity_digest a.tool_name a.arguments a.audit_context)
        t) [
          | some r ↦ (some (row_to_tool_approval r), t)
          | none ↦ (to_approval (select_row t.next_id (insert_row now a t)), insert_row now a t)
        ]

  unfoldable pub list_tool_approvals : Option Status → ℕ → Table → List ToolApproval
  list_tool_approvals none limit t =
      map row_to_tool_approval (select newest_first (λ _. true) limit t.rows)
  list_tool_approvals (some s) limit t =
      map row_to_tool_approval (select newest_first (has_status s) limit t.rows)

  unfoldable pub get_tool_approval : ℕ → Table → Option ToolApproval
  get_tool_approval n t = to_approval (select_row n t)

  unfoldable pub claim_tool_approval : String → ℕ → Table → Option ToolApproval × Table
  claim_tool_approval now n t =
      let t' = update_rows (is_pending_id n) (set_executing now) t in
      if eqb (count_by (is_pending_id n) t.rows) 1 then (get_tool_approval n t', t') else (none, t)

  -- The answer of `prepare_matching_tool_approval_for_execution` for an active row that the UPDATE
  -- did not change.
  unfoldable pub unclaimed_match : Row → ExecutionMatch
  unclaimed_match r =
      if is_executing r.status
      then record {
        outcome = MatchOutcome.already_executing;
        approval = some (row_to_tool_approval r);
      }
      else no_match

  unfoldable pub claimed_match : Option Row → ExecutionMatch
  claimed_match none = no_match
  claimed_match (some r) = record {
    outcome = MatchOutcome.claimed;
    approval = some (row_to_tool_approval r);
  }

  -- The claim of the active row that was found.
  unfoldable pub claim_found : String → String → Row → Table → ExecutionMatch × Table
  claim_found now digest r t =
      let t' = update_rows (is_pending_id r.id) (set_executing now) t in
      if is_executing r.status
      then (unclaimed_match r, t)
      else if eqb (count_by (is_pending_id r.id) t.rows) 1
      then (claimed_match (select_row r.id t'), t')
      else elim (select_active_row_by_digest digest t') [
        | none ↦ (no_match, t)
        | some current ↦ (unclaimed_match current, t')
      ]

  unfoldable pub prepare_matching_tool_approval_for_execution :
      String → String → Fields → Fields → Table → ExecutionMatch × Table
  prepare_matching_tool_approval_for_execution now tool_name arguments audit_context t =
      let digest = identity_digest tool_name arguments audit_context in
      elim (select_active_row_by_digest digest t) [
        | none ↦ (no_match, t)
        | some r ↦ claim_found now digest r t
      ]

  unfoldable pub claim_latest_matching_tool_approval :
      String → String → Fields → Fields → Table → Option ToolApproval × Table
  claim_latest_matching_tool_approval now tool_name arguments audit_context t =
      let (found, t') =
        prepare_matching_tool_approval_for_execution now tool_name arguments audit_context t in
      (elim found.outcome [ MatchOutcome.claimed ↦ found.approval | _ ↦ none ], t')

  unfoldable pub finish_tool_approval :
      String → ℕ → Status → Fields → Table → Option ToolApproval × Table
  finish_tool_approval now n s payload t =
      let set =
        set_finished now s (codec.dumps (Value.dict payload)) (error_of (get "error" payload)) in
      let t' = update_rows (is_executing_id n) set t in
      (if eqb (count_by (is_executing_id n) t.rows) 1 then get_tool_approval n t' else none, t')

  unfoldable pub reject_tool_approval : String → ℕ → Table → Option ToolApproval × Table
  reject_tool_approval now n t =
      let t' = update_rows (is_pending_id n) (set_rejected now) t in
      (if eqb (count_by (is_pending_id n) t.rows) 1 then get_tool_approval n t' else none, t')
