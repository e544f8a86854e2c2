-- ===== src/Examples/Sessions.antt =====
-- Sessions at concrete inputs.
use master_control.Prelude.{◌≡◌, ◌≢◌, refl, true, none, some, [], ◌∷◌, String, ℕ, false, arith}
use master_control.Value.{Fields}
use master_control.Observations.{Observation}
use master_control.Sessions.Tables.{
  Tables, session_exists, get_session_summary, upsert_session_summary,
}
use master_control.Sessions.Chat.{ChatState, prepare_chat_session}
use master_control.Sessions.Prepared.{IsOpen, Prepared, prepare_chat_session-Prepared}
use master_control.Sessions.Observed.{list_latest_observations, list_recent_observations}
use master_control.Sessions.Latest.{list_latest-list_recent}
use master_control.Sessions.Upserts.{Says, get-upsert}

abbrev one_session : Tables
one_session = record {
  sessions = record { id = 1; created_at = "now" } ∷ [];
  next_id = 2;
  messages = [];
  summaries = record { session_id = 1; summary_text = "old"; updated_at = "then" } ∷ [];
  provider_states =
      record {
        session_id = 1;
        provider_backend = "heuristic";
        previous_response_id = some "r1";
        updated_at = "then";
      }
      ∷ [];
}

abbrev fresh_chat : ChatState
fresh_chat = record {
  chat_session_id = none;
  previous_provider_response_id = none;
  tables = one_session;
}

fresh_chat-IsOpen : IsOpen fresh_chat
fresh_chat-IsOpen n h = ground (arith, h)

prepare_chat_session-Prepared_example :
    Prepared (prepare_chat_session "heuristic" "now" (some 1) false fresh_chat)
prepare_chat_session-Prepared_example =
    prepare_chat_session-Prepared "heuristic" "now" (some 1) false fresh_chat fresh_chat-IsOpen

abbrev observed : String → String → Observation
observed key time = record {
  session_id = 1;
  source = "memory_usage";
  key = key;
  value = Fields.end;
  observed_at = time;
  expires_at = none;
}

list_latest-list_recent_example :
    list_latest_observations 1
      (observed "memory" "1" ∷ observed "disk" "2" ∷ observed "memory" "3" ∷ [])
    ≡ list_recent_observations 1 1
        (observed "memory" "1" ∷ observed "disk" "2" ∷ observed "memory" "3" ∷ [])
list_latest-list_recent_example =
    list_latest-list_recent 1
      (observed "memory" "1" ∷ observed "disk" "2" ∷ observed "memory" "3" ∷ [])

has_one : session_exists 1 one_session ≡ true
unfolding session_exists
has_one = refl

get-upsert_example :
    Says "new" (get_session_summary 1 (upsert_session_summary "now" 1 "new" one_session).1)
    × ((m : ℕ)
        → m ≢ 1
        → get_session_summary m (upsert_session_summary "now" 1 "new" one_session).1
          ≡ get_session_summary m one_session)
get-upsert_example = get-upsert "now" "new" 1 one_session has_one
