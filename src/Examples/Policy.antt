-- ===== src/Examples/Policy.antt =====
-- The theorems of the policy at concrete inputs.
use master_control.Prelude.{
  ◌≡◌, ◌↔◌, ◌&&◌, ◌||◌, not, refl, String, true, false, [], ◌∷◌, none, lookup,
}
use master_control.Value.{Value, Items, Fields, ℤ}
use master_control.Tools.Spec.{is_read_only}
use master_control.Policy.Rules.{LoadedPolicy}
use master_control.Policy.Engine.{evaluate, requires_confirmation}
use master_control.Policy.Permits.{Permits, evaluate-Permits, evaluate-confirmation}
use master_control.Policy.Loader.{
  PolicyFile, TomlRead, PolicyLoader, IsCurrent, read_policy, reload, load, load-read_policy,
  same_key, cache_key,
}
use master_control.Policy.Parse.Document.{parse_loaded_policy}
use master_control.Policy.WellFormed.{IsWellFormed, parse_loaded_policy-IsWellFormed}
use master_control.Config.Targets.{FilePath}
use master_control.Examples.Data.{plain_texts, restart_spec, example_arguments}

abbrev one_rule : LoadedPolicy
one_rule = record {
  exists = true;
  version = 1;
  using_default = false;
  error = none;
  tool_rules =
      (
        "restart_service",
        record {
          enabled = none;
          require_confirmation = false;
          allowed_scopes = [];
          service_patterns = "nginx" ∷ [];
        },
      )
      ∷ [];
  config_targets = [];
}

evaluate-Permits_example :
    ((evaluate plain_texts one_rule restart_spec example_arguments).allowed ≡ true)
    ↔ Permits plain_texts one_rule restart_spec example_arguments
evaluate-Permits_example = evaluate-Permits plain_texts one_rule restart_spec example_arguments

evaluate-confirmation_example :
    (evaluate plain_texts one_rule restart_spec example_arguments).needs_confirmation ≡ (
      (evaluate plain_texts one_rule restart_spec example_arguments).allowed
      && (not (is_read_only restart_spec.risk)
          || requires_confirmation (lookup "restart_service" one_rule.tool_rules)))
evaluate-confirmation_example =
    evaluate-confirmation plain_texts one_rule restart_spec example_arguments

abbrev rooted : String → FilePath
rooted s = s ∷ []

abbrev version_one : Value
version_one = Value.dict (Fields.field "version" (Value.int (ℤ.pos 1)) Fields.end)

abbrev old_file : PolicyFile
old_file = PolicyFile.present 1 (TomlRead.unreadable "Invalid value")

abbrev new_file : PolicyFile
new_file = PolicyFile.present 2 (TomlRead.document version_one)

load-read_policy_example :
    ((load rooted [] new_file (reload rooted [] old_file).1).0 ≡ read_policy rooted [] new_file)
    × IsCurrent rooted [] new_file (load rooted [] new_file (reload rooted [] old_file).1).1
unfolding reload same_key cache_key
load-read_policy_example =
    load-read_policy rooted [] old_file new_file (reload rooted [] old_file).1
      (record { key = refl; policy = refl }) (λ h. cc)

parse_loaded_policy-IsWellFormed_example : IsWellFormed (read_policy rooted [] new_file)
unfolding parse_loaded_policy master_control.Policy.Parse.Document.check_version
    master_control.Value.get master_control.Policy.Parse.Document.parse_tool_rules
    master_control.Policy.Parse.Document.parse_config_targets read_policy
    master_control.Policy.Loader.policy_or_failure
parse_loaded_policy-IsWellFormed_example =
    parse_loaded_policy-IsWellFormed rooted [] version_one (read_policy rooted [] new_file) refl
