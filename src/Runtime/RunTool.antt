-- ===== src/Runtime/RunTool.antt =====
-- `run_tool` of core/runtime.py. An exception leaves the state as the calls before it have made it.
use Prim.Native.Nat.{◌-◌}
use Prim.Native.String.{compare}
use text.Mathlib.Text.{is_le}
use master_control.Prelude.{
  ℕ, String, Bool, true, false, not, ◌&&◌, Option, none, some, List, [], ◌∷◌, ◌++◌, suc, concat,
  decimal, is_some, lookup, if◌then◌else◌,
}
use master_control.Sql.{order_by}
use master_control.Value.{Value, Items, Fields, ℤ, get, put, merge, dict_of, put_all, as_int}
use master_control.Tools.Spec.{ToolSpec, risk_text}
use master_control.Policy.Rules.{PolicyDecision}
use master_control.Approvals.Rows.{
  Status, Table, ToolApproval, NewApproval, is_executing, is_pending,
}
use master_control.Approvals.Methods.{create_tool_approval}
use master_control.Observations.{build_observation_envelopes}
use master_control.Runtime.State.{
  returned, tool_error, crashed, Invoked, Tool, Host, State, Outcome, value, raised,
  record_audit_event, record_observations,
}
use master_control.Runtime.Commands.{build_approval_payload}
use master_control.Runtime.Claims.{
  Claim, decision_dict, format_tool_approval, audit_base, failure, finalize_claimed, claim_matching,
  evaluate_policy,
}

keys_of : Fields → List String
keys_of Fields.end = []
keys_of (Fields.field k v d) = k ∷ keys_of d

pub text_items : List String → Items
text_items [] = Items.nil
text_items (s ∷ more) = Items.cons (Value.str s) (text_items more)

size_of : Items → ℕ
size_of Items.nil = 0
size_of (Items.cons v items) = suc (size_of items)

copied : String → Fields → List (String × Value)
copied key result = elim (get key result) [ none ↦ [] | some v ↦ (key, v) ∷ [] ]

counted : String → String → Fields → List (String × Value)
unfolding size_of
counted key name result = elim (get key result) [
  | some (Value.list items) ↦ (name, Value.int (ℤ.pos (size_of items))) ∷ []
  | _ ↦ []
]

-- `_summarize_result`
unfoldable pub summarize_result : Fields → Fields
unfolding keys_of text_items copied counted
summarize_result result = dict_of (
    ("keys", Value.list (text_items (order_by (λ a b. is_le (compare a b)) (keys_of result))))
    ∷ (copied "status" result
        ++ (counted "processes" "process_count" result
            ++ (counted "entries" "entry_count" result
                ++ (copied "service" result ++ copied "path" result)))))

abbrev busy_message : String
busy_message = "Matching approval is already executing."

abbrev confirmation_message : String
confirmation_message = "Tool requires explicit confirmation before execution."

-- The answer to a call that waits for a confirmation.
unfoldable pub pending_payload : Fields → ToolApproval → Fields
pending_payload base a = put_all (merge (dict_of (("ok", Value.bool false) ∷ [])) base) (
    ("pending_confirmation", Value.bool (is_pending a.status))
    ∷ ("approval_in_progress", Value.bool (is_executing a.status))
    ∷ ("approval", Value.dict (put "required" (Value.bool true) (format_tool_approval a)))
    ∷ ("error", Value.str (if is_pending a.status then confirmation_message else busy_message))
    ∷ [])

-- The answer to a confirmed call whose approval another call is executing.
unfoldable pub busy_payload : Fields → ToolApproval → Fields
busy_payload base a = put_all (merge (dict_of (("ok", Value.bool false) ∷ [])) base) (
    ("approval_in_progress", Value.bool true)
    ∷ ("approval", Value.dict (format_tool_approval a))
    ∷ ("error", Value.str busy_message)
    ∷ [])

-- `cursor.lastrowid` after an INSERT.
last_row_id : Table → ℕ
last_row_id t = t.next_id - 1

module _ {World : Type 0} (host : Host World) where
  open host use {codec, now, tools}

  -- `record_audit_event("tool_execution", payload)` and `return payload`.
  unfoldable pub answer : Fields → State World → Outcome Fields × State World
  answer payload s = (value payload, record_audit_event "tool_execution" payload s)

  -- A call that ends with `"ok": False`, after its approval, if it claimed one, is marked as failed.
  unfoldable pub fail_call :
      Option ToolApproval → Fields → State World → Outcome Fields × State World
  fail_call claimed payload s =
      answer payload (finalize_claimed host claimed Status.failed payload s)

  -- What `_create_tool_approval` gives to the store.
  unfoldable pub requested : ToolSpec → Fields → Fields → State World → NewApproval
  requested spec arguments context s =
      let rendered = build_approval_payload codec spec.name arguments context s.recommendations in
      record {
        tool_name = spec.name;
        risk = risk_text spec.risk;
        arguments = arguments;
        audit_context = context;
        summary = rendered.summary;
        cli_command = rendered.cli_command;
        chat_command = rendered.chat_command;
      }

  -- What `_create_tool_approval` does with the row that the store reads back.
  unfoldable pub answer_request :
      Fields → Option ToolApproval → State World → Outcome Fields × State World
  unfolding last_row_id
  answer_request base (some a) s = answer (pending_payload base a) s
  answer_request base none s = (
    raised (
        concat (
          "Tool approval "
          ∷ decimal (last_row_id s.approvals)
          ∷ " disappeared after insert."
          ∷ [])),
    s,
  )

  -- The branch that creates an approval for a call that is not confirmed.
  unfoldable pub request_confirmation :
      ToolSpec → Fields → Fields → Fields → State World → Outcome Fields × State World
  request_confirmation spec arguments context base s =
      let (created, approvals) =
        create_tool_approval codec (now s.world) (requested spec arguments context s) s.approvals in
      answer_request base created (record s { approvals = approvals })

  -- `_record_execution_observations`, if the context names a session.
  unfoldable pub observe :
      ToolSpec → Fields → Fields → Fields → State World → Outcome (Unit {0}) × State World
  observe spec arguments context result s = elim (as_int (get "session_id" context)) [
    | none ↦ (value tt, s)
    | some session ↦
        record_observations host session (build_observation_envelopes spec.name arguments result) s
  ]

  -- What follows a call of the tool that returned.
  unfoldable pub succeed :
      ToolSpec
      → Fields
      → PolicyDecision
      → Claim
      → Fields
      → State World
      → Outcome Fields × State World
  succeed spec arguments decision claim result s =
      let payload = put "result" (Value.dict result) (
        merge
          (dict_of (
            ("ok", Value.bool true)
            ∷ ("tool", Value.str spec.name)
            ∷ ("arguments", Value.dict arguments)
            ∷ ("policy", Value.dict (decision_dict decision))
            ∷ []))
          claim.context) in
      let audit =
        put_all (audit_base spec arguments decision claim.context) (
          ("ok", Value.bool true)
          ∷ ("result_summary", Value.dict (summarize_result result))
          ∷ []) in
      let (observed, s') = observe spec arguments claim.context result s in
      elim observed [
        | value _ ↦ (
          value payload,
          record_audit_event "tool_execution" audit
              (finalize_claimed host claim.claimed Status.completed payload s'),
        )
        | raised text ↦ (raised text, s')
      ]

  -- What follows a call of the tool. Only a ToolError is caught.
  unfoldable pub conclude :
      ToolSpec
      → Fields
      → PolicyDecision
      → Claim
      → Invoked
      → State World
      → Outcome Fields × State World
  conclude spec arguments decision claim (returned result) s =
      succeed spec arguments decision claim result s
  conclude spec arguments decision claim (tool_error text) s =
      fail_call claim.claimed (failure (audit_base spec arguments decision claim.context) text) s
  conclude spec arguments decision claim (crashed text) s = (raised text, s)

  -- `tool.invoke` and what follows it.
  unfoldable pub execute :
      Tool World → Fields → PolicyDecision → Claim → State World → Outcome Fields × State World
  execute tool arguments decision claim s =
      let (invoked, world) = tool.invoke arguments s.world in
      conclude tool.spec arguments decision claim invoked (record s { world = world })

  -- The branches of `run_tool` behind the policy's decision.
  unfoldable pub act :
      Tool World
      → Fields
      → Bool
      → PolicyDecision
      → Claim
      → State World
      → Outcome Fields × State World
  act tool arguments confirmed decision claim s =
      let base = audit_base tool.spec arguments decision claim.context in
      if not decision.allowed
      then fail_call claim.claimed (failure base decision.reason) s
      else elim (if confirmed && not (is_some claim.claimed) then claim.matching else none) [
        | some matching ↦ answer (busy_payload base matching) s
        | none ↦
            if decision.needs_confirmation && not confirmed
            then request_confirmation tool.spec arguments claim.context base s
            else execute tool arguments decision claim s
      ]

  unfoldable pub run_found :
      Tool World → Fields → Bool → Fields → State World → Outcome Fields × State World
  run_found tool arguments confirmed context s =
      let (claim, s1) = claim_matching host tool.spec arguments confirmed context s in
      let (decision, s2) = evaluate_policy host tool.spec arguments s1 in
      act tool arguments confirmed decision claim s2

  unfoldable pub run_tool :
      String → Fields → Bool → Fields → State World → Outcome Fields × State World
  run_tool name arguments confirmed context s = elim (lookup name tools) [
    | some tool ↦ run_found tool arguments confirmed context s
    | none ↦
        answer
          (put "error" (Value.str (codec.repr (concat ("Unknown tool: " ∷ name ∷ [])))) (
            merge
              (dict_of (
                ("ok", Value.bool false)
                ∷ ("tool", Value.str name)
                ∷ ("arguments", Value.dict arguments)
                ∷ []))
              context))
          s
  ]
