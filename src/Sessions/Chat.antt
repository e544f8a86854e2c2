-- ===== src/Sessions/Chat.antt =====
-- The session of a chat: `_prepare_chat_session` and the methods it calls (core/runtime.py).
use master_control.Prelude.{
  ℕ, String, Bool, Option, none, some, [], ◌∷◌, ◌==◌, ◌&&◌, concat, decimal, is_empty, strip,
  is_some, if◌then◌else◌,
}
use master_control.Runtime.State.{Outcome, value, raised}
use master_control.Sessions.Tables.{
  Tables, ProviderStateRow, create_session, session_exists, get_session_provider_state,
  get_session_summary,
}

-- What the runtime remembers between two turns, and the store.
pub record ChatState : Type 0 where
  pub chat_session_id : Option ℕ
  pub previous_provider_response_id : Option String
  pub tables : Tables

unknown_session : ℕ → String
unknown_session n = concat ("Unknown session_id: " ∷ decimal n ∷ [])

-- `str(previous_response_id) if previous_response_id else None`
present_id : Option String → Option String
present_id none = none
present_id (some text) = if is_empty text then none else some text

resumed_id : String → Option ProviderStateRow → Option String
unfolding present_id
resumed_id provider none = none
resumed_id provider (some r) =
    if r.provider_backend == provider then present_id r.previous_response_id else none

module _ (provider_name now : String) where
  unfoldable pub ensure_chat_session : ChatState → ℕ × ChatState
  ensure_chat_session s = elim s.chat_session_id [
    | some n ↦ (n, s)
    | none ↦
        let (n, tables) = create_session now s.tables in
        (n, record s { chat_session_id = some n; tables = tables })
  ]

  unfoldable pub resume_session : ℕ → ChatState → Outcome (Unit {0}) × ChatState
  unfolding unknown_session resumed_id
  resume_session n s =
      if session_exists n s.tables
      then (
        value tt,
        record s {
          chat_session_id = some n;
          previous_provider_response_id =
              resumed_id provider_name (get_session_provider_state n s.tables);
        },
      )
      else (raised (unknown_session n), s)

  -- `if new_session: ...`
  unfoldable pub forget_session : Bool → ChatState → ChatState
  forget_session new_session s =
      if new_session
      then record s { chat_session_id = none; previous_provider_response_id = none }
      else s

  -- What follows the resumption.
  unfoldable pub ensured : Outcome (Unit {0}) × ChatState → Outcome ℕ × ChatState
  ensured (raised text, s) = (raised text, s)
  ensured (value _, s) = let (n, s') = ensure_chat_session s in (value n, s')

  unfoldable pub prepare_chat_session : Option ℕ → Bool → ChatState → Outcome ℕ × ChatState
  prepare_chat_session session_id new_session s =
      let s' = forget_session new_session s in
      if is_some session_id && new_session
      then (raised "Cannot use session_id and new_session at the same time.", s)
      else elim session_id [
        | none ↦ ensured (value tt, s')
        | some n ↦ ensured (resume_session n s')
      ]

-- `_load_session_summary`
unfoldable pub load_session_summary : ℕ → Tables → Option String
load_session_summary session t = elim (get_session_summary session t) [
  | none ↦ none
  | some r ↦ if is_empty (strip r.summary_text) then none else some r.summary_text
]
