-- ===== src/Policy/WellFormed.antt =====
-- Well-formed policies, and the parser of policy/config.py.
use mathlib.Core.Path.{subst}
use master_control.Prelude.{
  ℕ, suc, String, ◌≡◌, refl, inl, inr, true, false, Option, none, some, List, [], ◌∷◌, ◌==◌, All,
  map, contains, assign, arith, is_some, is_empty, Bool-cases,
}
use master_control.Value.{Value, Items, Fields, ℤ, get}
use master_control.Config.Targets.{FilePath, ConfigTarget, build_default_config_targets}
use master_control.Policy.Rules.{ToolPolicyRule, LoadedPolicy}
use master_control.Policy.Parse.Fields.{
  ok, >>=-eq-ok, required_string, required_string_list, optional_string_list, optional_bool,
  bool_with_default,
}
use master_control.Policy.Parse.Document.{
  check_version, supported_validators, supported_scopes, check_scopes, parse_rule, parse_rule_value,
  parse_rules, parse_tool_rules, check_command, check_validator, parse_target, parse_target_value,
  parse_targets, parse_config_targets, parse_loaded_policy,
}

abbrev pub IsSupportedScope : String → Type 0
IsSupportedScope scope = contains supported_scopes scope ≡ true

abbrev pub RuleIsWellFormed : String × ToolPolicyRule → Type 0
RuleIsWellFormed (tool, rule) = (is_empty tool ≡ false) × All IsSupportedScope rule.allowed_scopes

-- The validator is one of three, and has a command exactly when it is the validator `command`.
pub record TargetIsWellFormed (target : ConfigTarget) : Type 0 where
  pub supported : contains supported_validators target.validator_kind ≡ true
  pub commanded : is_some target.validator_command ≡ (target.validator_kind == "command")

pub record IsWellFormed (policy : LoadedPolicy) : Type 0 where
  pub version : policy.version ≡ 1
  pub no_error : policy.error ≡ none
  pub rules : All RuleIsWellFormed policy.tool_rules
  pub targets : All TargetIsWellFormed policy.config_targets

check_scopes-supported :
    (tool : String) (listed scopes : List String)
    → check_scopes tool listed ≡ ok scopes
    → All IsSupportedScope scopes
unfolding check_scopes
check_scopes-supported tool [] scopes h =
    let q : [] ≡ scopes = ground arith in subst (All IsSupportedScope) q tt
check_scopes-supported tool (s ∷ listed) scopes h =
    elim (Bool-cases (contains supported_scopes s)) [
      | inl e ↦
          let (rest, k, q) = >>=-eq-ok (check_scopes tool listed) _ (rw e at h) in
          let same : s ∷ rest ≡ scopes = ground arith in
          subst (All IsSupportedScope) same (e, check_scopes-supported tool listed rest k)
      | inr e ↦ absurd (ground (arith, e))
    ]

check_validator-IsWellFormed :
    (name kind : String) (raw : Fields) (command : Option (List String))
    → check_validator name kind raw ≡ ok command
    → (contains supported_validators kind ≡ true) × (is_some command ≡ (kind == "command"))
unfolding check_validator check_command
check_validator-IsWellFormed name kind raw command h =
    elim (Bool-cases (contains supported_validators kind)) [
      | inl e ↦
          let (items, k, q) =
            >>=-eq-ok (optional_string_list raw "validator_command") _ (rw e at h) in
          (e, ground arith)
      | inr e ↦ absurd (ground (arith, e))
    ]

parse_rule-IsWellFormed :
    (tool : String) (raw : Fields) (rule : ToolPolicyRule)
    → parse_rule tool raw ≡ ok rule
    → All IsSupportedScope rule.allowed_scopes
unfolding parse_rule
parse_rule-IsWellFormed tool raw rule h =
    let (enabled, e1, h1) = >>=-eq-ok (optional_bool raw "enabled") _ h in
    let (confirm, e2, h2) = >>=-eq-ok (bool_with_default raw "require_confirmation" false) _ h1 in
    let (listed, e3, h3) = >>=-eq-ok (optional_string_list raw "allowed_scopes") _ h2 in
    let (scopes, e4, h4) = >>=-eq-ok (check_scopes tool listed) _ h3 in
    let (patterns, e5, h5) = >>=-eq-ok (optional_string_list raw "service_patterns") _ h4 in
    let same : scopes ≡ rule.allowed_scopes = ground arith in
    subst (All IsSupportedScope) same (check_scopes-supported tool listed scopes e4)

parse_rule_value-IsWellFormed :
    (tool : String) (v : Value) (rule : ToolPolicyRule)
    → parse_rule_value tool v ≡ ok rule
    → RuleIsWellFormed (tool, rule)
unfolding parse_rule_value
parse_rule_value-IsWellFormed tool (Value.dict raw) rule h =
    (ground arith, parse_rule-IsWellFormed tool raw rule (ground arith))
parse_rule_value-IsWellFormed tool _ rule h = absurd (ground arith)

assign-All :
    (tool : String) (rule : ToolPolicyRule) (rules : List (String × ToolPolicyRule))
    → RuleIsWellFormed (tool, rule)
    → All RuleIsWellFormed rules
    → All RuleIsWellFormed (assign tool rule rules)
unfolding assign
assign-All tool rule [] w h = (w, tt)
assign-All tool rule ((j, r) ∷ rules) w (k, h) = elim (Bool-cases (j == tool)) [
  | inl e ↦ rw e ((k.0, w.1), h)
  | inr e ↦ rw e (k, assign-All tool rule rules w h)
]

parse_rules-IsWellFormed :
    (raw : Fields) (before rules : List (String × ToolPolicyRule))
    → parse_rules before raw ≡ ok rules
    → All RuleIsWellFormed before
    → All RuleIsWellFormed rules
unfolding parse_rules
parse_rules-IsWellFormed Fields.end before rules h w =
    let same : before ≡ rules = ground arith in subst (All RuleIsWellFormed) same w
parse_rules-IsWellFormed (Fields.field tool v more) before rules h w =
    let (rule, e, k) = >>=-eq-ok (parse_rule_value tool v) _ h in
    parse_rules-IsWellFormed more (assign tool rule before) rules k
      (assign-All tool rule before (parse_rule_value-IsWellFormed tool v rule e) w)

parse_tool_rules-IsWellFormed :
    (raw : Option Value) (rules : List (String × ToolPolicyRule))
    → parse_tool_rules raw ≡ ok rules
    → All RuleIsWellFormed rules
unfolding parse_tool_rules
parse_tool_rules-IsWellFormed none rules h =
    let same : [] ≡ rules = ground arith in subst (All RuleIsWellFormed) same tt
parse_tool_rules-IsWellFormed (some Value.null) rules h =
    let same : [] ≡ rules = ground arith in subst (All RuleIsWellFormed) same tt
parse_tool_rules-IsWellFormed (some (Value.dict raw)) rules h =
    parse_rules-IsWellFormed raw [] rules h tt
parse_tool_rules-IsWellFormed (some _) rules h = cc

check_version-one : (v : Option Value) (n : ℕ) → check_version v ≡ ok n → n ≡ 1
unfolding check_version
check_version-one none n h = ground arith
check_version-one (some (Value.int (ℤ.pos m))) n h = ground arith
check_version-one (some (Value.int (ℤ.negsuc m))) n h = absurd (ground arith)
check_version-one (some _) n h = absurd (ground arith)

module _ (resolve : String → FilePath) where
  parse_target-IsWellFormed :
      (index : ℕ) (raw : Fields) (target : ConfigTarget)
      → parse_target resolve index raw ≡ ok target
      → TargetIsWellFormed target
  unfolding parse_target
  parse_target-IsWellFormed index raw target h =
      let (name, e1, h1) = >>=-eq-ok (required_string index raw "name") _ h in
      let (description, e2, h2) = >>=-eq-ok (required_string index raw "description") _ h1 in
      let (roots, e3, h3) = >>=-eq-ok (required_string_list index raw "roots") _ h2 in
      let (globs, e4, h4) = >>=-eq-ok (required_string_list index raw "file_globs") _ h3 in
      let (kind, e5, h5) = >>=-eq-ok (required_string index raw "validator") _ h4 in
      let (command, e6, h6) = >>=-eq-ok (check_validator name kind raw) _ h5 in
      let (supported, commanded) = check_validator-IsWellFormed name kind raw command e6 in
      let same : record {
        name = name;
        description = description;
        roots = map resolve roots;
        file_globs = globs;
        validator_kind = kind;
        validator_command = command;
      }
          ≡ target =
        ground arith in
      subst TargetIsWellFormed same (record { supported = supported; commanded = commanded })

  parse_targets-IsWellFormed :
      (index : ℕ) (items : Items) (targets : List ConfigTarget)
      → parse_targets resolve index items ≡ ok targets
      → All TargetIsWellFormed targets
  unfolding parse_targets
  parse_targets-IsWellFormed index Items.nil targets h =
      let same : [] ≡ targets = ground arith in subst (All TargetIsWellFormed) same tt
  parse_targets-IsWellFormed index (Items.cons (Value.dict raw) items) targets h =
      let (target, e, k) = >>=-eq-ok (parse_target_value resolve index (Value.dict raw)) _ h in
      let (rest, e', k') = >>=-eq-ok (parse_targets resolve (suc index) items) _ k in
      let same : target ∷ rest ≡ targets = ground arith in
      subst (All TargetIsWellFormed) same (
        parse_target-IsWellFormed index raw target (unfold parse_target_value in e),
        parse_targets-IsWellFormed (suc index) items rest e',
      )
  parse_targets-IsWellFormed index (Items.cons _ items) targets h =
      absurd (unfold parse_target_value in ground arith)

  default-IsWellFormed :
      (state_dir : FilePath) → All TargetIsWellFormed (build_default_config_targets state_dir)
  unfolding build_default_config_targets
  default-IsWellFormed state_dir = (
    record { supported = refl; commanded = refl },
    (
      record { supported = refl; commanded = refl },
      (record { supported = refl; commanded = refl }, tt),
    ),
  )

  parse_config_targets-IsWellFormed :
      (state_dir : FilePath) (raw : Option Value) (targets : List ConfigTarget)
      → parse_config_targets resolve state_dir raw ≡ ok targets
      → All TargetIsWellFormed targets
  unfolding parse_config_targets
  parse_config_targets-IsWellFormed state_dir none targets h =
      let same : build_default_config_targets state_dir ≡ targets = ground arith in
      subst (All TargetIsWellFormed) same (default-IsWellFormed state_dir)
  parse_config_targets-IsWellFormed state_dir (some Value.null) targets h =
      let same : build_default_config_targets state_dir ≡ targets = ground arith in
      subst (All TargetIsWellFormed) same (default-IsWellFormed state_dir)
  parse_config_targets-IsWellFormed state_dir (some (Value.list items)) targets h =
      parse_targets-IsWellFormed 1 items targets h
  parse_config_targets-IsWellFormed state_dir (some _) targets h = cc

  -- A policy document that the parser accepts has version 1, rules with non-empty names and supported
  -- scopes only, and targets with a supported validator that have a command exactly when it is
  -- `command`.
  pub parse_loaded_policy-IsWellFormed :
      (state_dir : FilePath) (raw : Value) (policy : LoadedPolicy)
      → parse_loaded_policy resolve state_dir raw ≡ ok policy
      → IsWellFormed policy
  unfolding parse_loaded_policy
  parse_loaded_policy-IsWellFormed state_dir (Value.dict raw) policy h =
      let (version, e1, h1) = >>=-eq-ok (check_version (get "version" raw)) _ h in
      let (rules, e2, h2) = >>=-eq-ok (parse_tool_rules (get "tools" raw)) _ h1 in
      let (targets, e3, h3) =
        >>=-eq-ok (parse_config_targets resolve state_dir (get "config_targets" raw)) _ h2 in
      let same : policy_of version rules targets ≡ policy = ground arith in
      subst IsWellFormed same (record {
        version = check_version-one (get "version" raw) version e1;
        no_error = refl;
        rules = parse_tool_rules-IsWellFormed (get "tools" raw) rules e2;
        targets = parse_config_targets-IsWellFormed state_dir (get "config_targets" raw) targets e3;
      })
    where
      policy_of : ℕ → List (String × ToolPolicyRule) → List ConfigTarget → LoadedPolicy
      policy_of version rules targets = record {
        exists = true;
        version = version;
        using_default = false;
        error = none;
        tool_rules = rules;
        config_targets = targets;
      }
  parse_loaded_policy-IsWellFormed state_dir _ policy h = absurd (ground arith)
