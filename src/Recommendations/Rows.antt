-- ===== src/Recommendations/Rows.antt =====
-- The table `session_recommendations` of store/session_store.py, and the candidates of
-- core/session_recommendations.py. `now` is CURRENT_TIMESTAMP.
use master_control.Prelude.{
  ℕ, String, Bool, true, false, ◌&&◌, Option, none, some, List, leb, eqb, ◌==◌, is_empty,
  if◌then◌else◌,
}
use master_control.Value.{Value, Fields}
use master_control.Codec.{Codec}

-- RECOMMENDATION_STATUSES
pub data Status : Type 0 where
  opened accepted dismissed resolved : Status

-- status IN ('open', 'accepted')
unfoldable pub is_active : Status → Bool
is_active Status.opened = true
is_active Status.accepted = true
is_active _ = false

pub record Row : Type 0 where
  pub id : ℕ
  pub session_id : ℕ
  pub dedupe_key : String
  pub source_key : String
  pub severity : String
  pub message : String
  pub status : Status
  pub action_kind : Option String
  pub action_title : Option String
  pub action_tool_name : Option String
  pub action_arguments_json : Option String
  pub created_at : String
  pub updated_at : String
  pub last_seen_at : String

pub record Table : Type 0 where
  pub rows : List Row
  pub next_id : ℕ

-- RecommendationAction
pub record Action : Type 0 where
  pub kind : String
  pub tool_name : String
  pub title : Option String
  pub arguments : Fields

-- RecommendationCandidate
pub record Candidate : Type 0 where
  pub dedupe_key : String
  pub source_key : String
  pub severity : String
  pub message : String
  pub action : Option Action

-- The four columns of a candidate's action.
pub record ActionColumns : Type 0 where
  pub kind : Option String
  pub title : Option String
  pub tool_name : Option String
  pub arguments_json : Option String

-- `str(raw) if raw else None`
text_or_none : String → Option String
text_or_none s = if is_empty s then none else some s

unfoldable pub action_columns : Codec → Option Action → ActionColumns
unfolding text_or_none
action_columns codec none = record {
  kind = none;
  title = none;
  tool_name = none;
  arguments_json = none;
}
action_columns codec (some a) = record {
  kind = text_or_none a.kind;
  title = elim a.title [ none ↦ none | some t ↦ text_or_none t ];
  tool_name = text_or_none a.tool_name;
  arguments_json = some (codec.dumps (Value.dict a.arguments));
}

-- WHERE session_id = ?
unfoldable pub in_session : ℕ → Row → Bool
in_session s r = eqb r.session_id s

-- WHERE id = ?
unfoldable pub has_id : ℕ → Row → Bool
has_id n r = eqb r.id n

-- The columns of UNIQUE(session_id, dedupe_key).
unfoldable pub has_key : ℕ → String → Row → Bool
has_key s key r = eqb r.session_id s && r.dedupe_key == key

-- ORDER BY id DESC
unfoldable pub newest_first : Row → Row → Bool
newest_first a b = leb b.id a.id

-- The dict under `action` that `_row_to_recommendation` builds.
pub record StoredAction : Type 0 where
  pub kind : String
  pub tool_name : String
  pub title : Option String
  pub arguments : Fields

object_or_empty : Option Value → Fields
object_or_empty (some (Value.dict d)) = d
object_or_empty _ = Fields.end

stored_arguments : Codec → Option String → Fields
stored_arguments codec none = Fields.end
stored_arguments codec (some text) =
    if is_empty text then Fields.end else object_or_empty (codec.loads text)

-- `action_kind or "run_tool"`
kind_or_default : Option String → String
kind_or_default none = "run_tool"
kind_or_default (some k) = if is_empty k then "run_tool" else k

-- The action of a row: none without a tool name.
unfoldable pub stored_action : Codec → Row → Option StoredAction
unfolding stored_arguments object_or_empty kind_or_default
stored_action codec r = elim r.action_tool_name [
  | none ↦ none
  | some tool ↦
      if is_empty tool
      then none
      else some (record {
        kind = kind_or_default r.action_kind;
        tool_name = tool;
        title = r.action_title;
        arguments = stored_arguments codec r.action_arguments_json;
      })
]
