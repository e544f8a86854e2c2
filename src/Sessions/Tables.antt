-- ===== src/Sessions/Tables.antt =====
-- The tables sessions, conversation_messages, session_summaries and session_provider_state, and the methods
-- of SessionStore on them (store/session_store.py). Rows stand in the order of their ids.
use Prim.Native.String.{compare}
use text.Mathlib.Text.{is_le}
use master_control.Prelude.{
  ℕ, suc, String, Bool, Option, none, some, List, [], ◌∷◌, ◌++◌, map, filter, any, find, take,
  count_by, eqb, if◌then◌else◌,
}
use master_control.Sql.{update_where}
use master_control.Runtime.State.{Outcome, value, raised}

pub record SessionRow : Type 0 where
  pub id : ℕ
  pub created_at : String

pub record MessageRow : Type 0 where
  pub session_id : ℕ
  pub role : String
  pub content : String
  pub created_at : String

pub record SummaryRow : Type 0 where
  pub session_id : ℕ
  pub summary_text : String
  pub updated_at : String

pub record ProviderStateRow : Type 0 where
  pub session_id : ℕ
  pub provider_backend : String
  pub previous_response_id : Option String
  pub updated_at : String

pub record Tables : Type 0 where
  pub sessions : List SessionRow
  pub next_id : ℕ
  pub messages : List MessageRow
  pub summaries : List SummaryRow
  pub provider_states : List ProviderStateRow

abbrev foreign_key_error : String
foreign_key_error = "FOREIGN KEY constraint failed"

-- The rows with the highest ids first.
unfoldable pub newest_first : {A : Type 0} → List A → List A
newest_first [] = []
newest_first (r ∷ rows) = newest_first rows ++ r ∷ []

-- INSERT … ON CONFLICT(session_id) DO UPDATE SET …
unfoldable pub upsert : {A : Type 0} → (A → Bool) → (A → A) → A → List A → List A
upsert p f new rows = if any p rows then update_where p f rows else rows ++ new ∷ []

unfoldable pub create_session : String → Tables → ℕ × Tables
create_session now t = (
  t.next_id,
  record t {
    sessions = t.sessions ++ record { id = t.next_id; created_at = now } ∷ [];
    next_id = suc t.next_id;
  },
)

unfoldable pub session_exists : ℕ → Tables → Bool
session_exists n t = any (λ (r : SessionRow). eqb r.id n) t.sessions

unfoldable pub append_conversation_message :
    String → ℕ → String → String → Tables → Outcome (Unit {0}) × Tables
append_conversation_message now session role content t =
    if session_exists session t
    then (
      value tt,
      record t {
        messages =
            t.messages
            ++ record { session_id = session; role = role; content = content; created_at = now }
              ∷ [];
      },
    )
    else (raised foreign_key_error, t)

unfoldable pub list_conversation_messages : ℕ → ℕ → Tables → List MessageRow
list_conversation_messages session limit t =
    newest_first
      (take limit (newest_first (filter (λ (r : MessageRow). eqb r.session_id session) t.messages)))

unfoldable pub get_session_summary : ℕ → Tables → Option SummaryRow
get_session_summary session t = find (λ (r : SummaryRow). eqb r.session_id session) t.summaries

unfoldable pub upsert_session_summary : String → ℕ → String → Tables → Outcome (Unit {0}) × Tables
upsert_session_summary now session text t =
    if session_exists session t
    then (
      value tt,
      record t {
        summaries =
            upsert (λ (r : SummaryRow). eqb r.session_id session)
              (λ (r : SummaryRow). record r { summary_text = text; updated_at = now })
              (record { session_id = session; summary_text = text; updated_at = now }) t.summaries;
      },
    )
    else (raised foreign_key_error, t)

unfoldable pub get_session_provider_state : ℕ → Tables → Option ProviderStateRow
get_session_provider_state session t =
    find (λ (r : ProviderStateRow). eqb r.session_id session) t.provider_states

unfoldable pub update_session_provider_state :
    String → ℕ → String → Option String → Tables → Outcome (Unit {0}) × Tables
update_session_provider_state now session backend response t =
    if session_exists session t
    then (
      value tt,
      record t {
        provider_states =
            upsert (λ (r : ProviderStateRow). eqb r.session_id session)
              (λ (r : ProviderStateRow). record r {
                provider_backend = backend;
                previous_response_id = response;
                updated_at = now;
              })
              (record {
                session_id = session;
                provider_backend = backend;
                previous_response_id = response;
                updated_at = now;
              })
              t.provider_states;
      },
    )
    else (raised foreign_key_error, t)

-- What `list_sessions` says of one session.
pub record SessionEntry : Type 0 where
  pub session : SessionRow
  pub provider_state : Option ProviderStateRow
  pub summary : Option SummaryRow
  pub message_count : ℕ
  pub last_message_at : Option String

-- MAX over the texts.
latest_text : List MessageRow → Option String
latest_text [] = none
latest_text (r ∷ rows) = elim (latest_text rows) [
  | none ↦ some r.created_at
  | some text ↦ if is_le (compare r.created_at text) then some text else some r.created_at
]

session_entry : Tables → SessionRow → SessionEntry
unfolding latest_text
session_entry t s = record {
  session = s;
  provider_state = get_session_provider_state s.id t;
  summary = get_session_summary s.id t;
  message_count = count_by (λ (r : MessageRow). eqb r.session_id s.id) t.messages;
  last_message_at = latest_text (filter (λ (r : MessageRow). eqb r.session_id s.id) t.messages);
}

unfoldable pub list_sessions : ℕ → Tables → List SessionEntry
unfolding session_entry
list_sessions limit t = take limit (map (session_entry t) (newest_first t.sessions))
