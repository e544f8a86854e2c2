-- ===== src/Policy/Parse/Document.antt =====
-- The tool rules, the config targets and the whole policy document (policy/config.py). `resolve` is
-- `_resolve_policy_path`: the expansion and the resolution of a path by `pathlib`.
use master_control.Prelude.{
  ℕ, suc, String, true, false, not, ◌&&◌, Option, none, some, List, [], ◌∷◌, map, ◌==◌, eqb,
  is_empty, is_some, contains, concat, decimal, assign, if◌then◌else◌,
}
use master_control.Value.{Value, Items, Fields, ℤ, get}
use master_control.Config.Targets.{FilePath, ConfigTarget, build_default_config_targets}
use master_control.Policy.Rules.{ToolPolicyRule, LoadedPolicy}
use master_control.Policy.Parse.Fields.{
  Parsed, ok, error, ◌>>=◌, required_string, required_string_list, optional_string_list,
  optional_bool, bool_with_default,
}

abbrev pub supported_validators : List String
supported_validators = "ini_parse" ∷ "json_parse" ∷ "command" ∷ []

abbrev pub supported_scopes : List String
supported_scopes = "system" ∷ "user" ∷ []

-- The loop over the allowed scopes of a rule.
unfoldable pub check_scopes : String → List String → Parsed (List String)
check_scopes tool [] = ok []
check_scopes tool (scope ∷ scopes) =
    if contains supported_scopes scope
    then (do rest ← check_scopes tool scopes; ok (scope ∷ rest))
    else error
        (concat ("Policy rule for '" ∷ tool ∷ "' contains unsupported scope '" ∷ scope ∷ "'." ∷ []))

unfoldable pub parse_rule : String → Fields → Parsed ToolPolicyRule
parse_rule tool raw = do
  enabled ← optional_bool raw "enabled"
  confirm ← bool_with_default raw "require_confirmation" false
  listed ← optional_string_list raw "allowed_scopes"
  scopes ← check_scopes tool listed
  patterns ← optional_string_list raw "service_patterns"
  ok (record {
    enabled = enabled;
    require_confirmation = confirm;
    allowed_scopes = scopes;
    service_patterns = patterns;
  })

unfoldable pub parse_rule_value : String → Value → Parsed ToolPolicyRule
parse_rule_value tool (Value.dict raw) =
    if is_empty tool
    then error "Policy tool rule names must be non-empty strings."
    else parse_rule tool raw
parse_rule_value tool _ =
    if is_empty tool
    then error "Policy tool rule names must be non-empty strings."
    else error (concat ("Policy rule for '" ∷ tool ∷ "' must be a TOML table." ∷ []))

-- The loop over the rules, with the dict built so far.
unfoldable pub parse_rules :
    List (String × ToolPolicyRule) → Fields → Parsed (List (String × ToolPolicyRule))
parse_rules rules Fields.end = ok rules
parse_rules rules (Fields.field tool v more) = do
  rule ← parse_rule_value tool v
  parse_rules (assign tool rule rules) more

unfoldable pub parse_tool_rules : Option Value → Parsed (List (String × ToolPolicyRule))
parse_tool_rules none = ok []
parse_tool_rules (some Value.null) = ok []
parse_tool_rules (some (Value.dict raw)) = parse_rules [] raw
parse_tool_rules _ = error "Policy field 'tools' must be a TOML table."

-- `tuple(items) if items else None`
unfoldable pub command_of : List String → Option (List String)
command_of [] = none
command_of (part ∷ parts) = some (part ∷ parts)

-- The two tests that tie `validator_command` to the kind of the validator.
unfoldable pub check_command :
    String → String → Option (List String) → Parsed (Option (List String))
check_command name kind command =
    if kind == "command" && not (is_some command)
    then error (
        concat
          ("Config target '" ∷ name ∷ "' requires 'validator_command' for validator=command." ∷ []))
    else if not (kind == "command") && is_some command
    then error (
        concat (
          "Config target '" ∷ name ∷ "' may only set 'validator_command' when validator=command."
          ∷ []))
    else ok command

unfoldable pub check_validator : String → String → Fields → Parsed (Option (List String))
check_validator name kind raw =
    if not (contains supported_validators kind)
    then error
        (concat ("Config target '" ∷ name ∷ "' uses unsupported validator '" ∷ kind ∷ "'." ∷ []))
    else (do
      items ← optional_string_list raw "validator_command"
      check_command name kind (command_of items))

unfoldable pub check_version : Option Value → Parsed ℕ
check_version none = ok 1
check_version (some (Value.int (ℤ.pos n))) =
    if eqb n 1 then ok n else error (concat ("Unsupported policy version: " ∷ decimal n ∷ []))
check_version (some (Value.int (ℤ.negsuc n))) =
    error (concat ("Unsupported policy version: -" ∷ decimal (suc n) ∷ []))
check_version _ = error "Policy field 'version' must be an integer."

module _ (resolve : String → FilePath) where
  unfoldable pub parse_target : ℕ → Fields → Parsed ConfigTarget
  parse_target index raw = do
    name ← required_string index raw "name"
    description ← required_string index raw "description"
    roots ← required_string_list index raw "roots"
    globs ← required_string_list index raw "file_globs"
    kind ← required_string index raw "validator"
    command ← check_validator name kind raw
    ok (record {
      name = name;
      description = description;
      roots = map resolve roots;
      file_globs = globs;
      validator_kind = kind;
      validator_command = command;
    })

  unfoldable pub parse_target_value : ℕ → Value → Parsed ConfigTarget
  parse_target_value index (Value.dict raw) = parse_target index raw
  parse_target_value index _ =
      error (concat ("Config target #" ∷ decimal index ∷ " must be a TOML table." ∷ []))

  -- The loop over the targets, numbered from 1.
  unfoldable pub parse_targets : ℕ → Items → Parsed (List ConfigTarget)
  parse_targets index Items.nil = ok []
  parse_targets index (Items.cons v items) = do
    target ← parse_target_value index v
    targets ← parse_targets (suc index) items
    ok (target ∷ targets)

  unfoldable pub parse_config_targets : FilePath → Option Value → Parsed (List ConfigTarget)
  parse_config_targets state_dir none = ok (build_default_config_targets state_dir)
  parse_config_targets state_dir (some Value.null) = ok (build_default_config_targets state_dir)
  parse_config_targets state_dir (some (Value.list items)) = parse_targets 1 items
  parse_config_targets state_dir _ =
      error "Policy field 'config_targets' must be an array of tables."

  unfoldable pub parse_loaded_policy : FilePath → Value → Parsed LoadedPolicy
  parse_loaded_policy state_dir (Value.dict raw) = do
    version ← check_version (get "version" raw)
    rules ← parse_tool_rules (get "tools" raw)
    targets ← parse_config_targets state_dir (get "config_targets" raw)
    ok (record {
      exists = true;
      version = version;
      using_default = false;
      error = none;
      tool_rules = rules;
      config_targets = targets;
    })
  parse_loaded_policy state_dir _ = error "Policy document must be a TOML table at the root."
