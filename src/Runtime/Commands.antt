-- ===== src/Runtime/Commands.antt =====
-- The texts that ask the operator for a confirmation (core/runtime.py).
use master_control.Prelude.{
  String, Option, none, some, List, [], ◌∷◌, ◌++◌, map, ◌==◌, is_empty, contains, concat, join,
  strip, find, if◌then◌else◌,
}
use master_control.Value.{Value, Fields, ℤ, get, as_int, int_text, text_of}
use master_control.Codec.{Codec}
use master_control.Policy.Engine.{service_tools}
use master_control.Recommendations.Rows.{Row, Table, StoredAction, has_id, stored_action}

abbrev path_tools : List String
path_tools = "disk_usage" ∷ "read_config_file" ∷ "write_config_file" ∷ "restore_config_backup" ∷ []

quoted : String → String
quoted tool = concat ("`" ∷ tool ∷ "`" ∷ [])

describe_service : String → Option String → Option String → Option String
unfolding quoted
describe_service tool none scope = none
describe_service tool (some name) (some scope) =
    some (concat (quoted tool ∷ " no serviço `" ∷ name ∷ "` (" ∷ scope ∷ ")" ∷ []))
describe_service tool (some name) none =
    some (concat (quoted tool ∷ " no serviço `" ∷ name ∷ "`" ∷ []))

describe_scope : String → Option String → String
unfolding quoted
describe_scope tool (some scope) = concat (quoted tool ∷ " no escopo `" ∷ scope ∷ "`" ∷ [])
describe_scope tool none = quoted tool

describe_process : String → Option String → Option Value → Option String
unfolding quoted
describe_process tool (some name) pid =
    some (concat (quoted tool ∷ " para o processo `" ∷ name ∷ "`" ∷ []))
describe_process tool none pid = elim (as_int pid) [
  | some n ↦ some (concat (quoted tool ∷ " para `pid=" ∷ int_text pid ∷ "`" ∷ []))
  | none ↦ none
]

describe_path : String → Option String → Option String
unfolding quoted
describe_path tool (some path) = some (concat (quoted tool ∷ " em `" ∷ path ∷ "`" ∷ []))
describe_path tool none = none

or_text : Option String → String → String
or_text (some s) other = s
or_text none other = other

unfoldable pub describe_tool_target : String → Fields → String
unfolding describe_service describe_scope describe_process describe_path or_text quoted
describe_tool_target tool arguments =
    if contains service_tools tool
    then or_text
        (describe_service tool (text_of (get "name" arguments)) (text_of (get "scope" arguments)))
        (quoted tool)
    else if tool == "failed_services"
    then describe_scope tool (text_of (get "scope" arguments))
    else if tool == "process_to_unit"
    then or_text (describe_process tool (text_of (get "name" arguments)) (get "pid" arguments))
        (quoted tool)
    else if contains path_tools tool
    then or_text (describe_path tool (text_of (get "path" arguments))) (quoted tool)
    else quoted tool

module _ (codec : Codec) where
  unfoldable pub stringify_argument : Value → String
  stringify_argument (Value.str s) = s
  stringify_argument v = codec.dumps v

  argument_text : String → Value → String
  argument_text k v = concat (k ∷ "=" ∷ stringify_argument v ∷ [])

  cli_arguments : Fields → List String
  unfolding argument_text
  cli_arguments Fields.end = []
  cli_arguments (Fields.field k v more) = "--arg" ∷ argument_text k v ∷ cli_arguments more

  chat_arguments : Fields → List String
  unfolding argument_text
  chat_arguments Fields.end = []
  chat_arguments (Fields.field k v more) = argument_text k v ∷ chat_arguments more

  -- With `confirmed=True`, as the only caller has it.
  unfoldable pub format_cli_tool_command : String → Fields → String
  unfolding cli_arguments
  format_cli_tool_command tool arguments =
      join " "
        (map codec.quote ("mc" ∷ "tool" ∷ tool ∷ (cli_arguments arguments ++ "--confirm" ∷ [])))

  unfoldable pub format_chat_tool_command : String → Fields → String
  unfolding chat_arguments
  format_chat_tool_command tool arguments =
      join " " (map codec.quote ("/tool" ∷ tool ∷ (chat_arguments arguments ++ "confirm" ∷ [])))

  -- `store.get_recommendation`
  unfoldable pub get_recommendation : ℤ → Table → Option Row
  get_recommendation (ℤ.pos n) t = find (has_id n) t.rows
  get_recommendation (ℤ.negsuc n) t = none

  title_or : String → Option StoredAction → String
  title_or summary none = summary
  title_or summary (some a) = elim a.title [
    | none ↦ summary
    | some title ↦ if is_empty (strip title) then summary else strip title
  ]

  -- The summary of a recommendation's approval.
  recommendation_summary : Option Row → String
  unfolding title_or
  recommendation_summary none = "Execute a ação da recomendação com confirmação explícita."
  recommendation_summary (some r) =
      let summary =
        title_or "Execute a ação da recomendação com confirmação explícita."
          (stored_action codec r) in
      if is_empty (strip r.message)
      then summary
      else concat (summary ∷ " Evidência: " ∷ strip r.message ∷ [])

  -- `summary`, `cli_command` and `chat_command` of `_build_approval_payload`.
  pub record Rendered : Type 0 where
    pub summary : String
    pub cli_command : String
    pub chat_command : String

  unfoldable pub build_approval_payload : String → Fields → Fields → Table → Rendered
  unfolding recommendation_summary
  build_approval_payload tool arguments context t =
      elim (as_int (get "recommendation_id" context)) [
        | some n ↦ record {
          summary = recommendation_summary (get_recommendation n t);
          cli_command = concat (
              "mc recommendation-run "
              ∷ int_text (get "recommendation_id" context)
              ∷ " --confirm"
              ∷ []);
          chat_command = concat (
              "/recommendation-run "
              ∷ int_text (get "recommendation_id" context)
              ∷ " confirm"
              ∷ []);
        }
        | none ↦ record {
          summary =
              concat ("Confirme a execução de " ∷ describe_tool_target tool arguments ∷ "." ∷ []);
          cli_command = format_cli_tool_command tool arguments;
          chat_command = format_chat_tool_command tool arguments;
        }
      ]
