-- ===== src/Examples/Tools.antt =====
-- The tools at concrete inputs.
use master_control.Prelude.{
  ◌≡◌, ◌⊎◌, refl, true, false, Option, none, some, List, [], ◌∷◌, String, ◌≤◌, suc, length,
  is_empty, has_char, ends_with, not, ◌&&◌, ◌==◌, strip, if◌then◌else◌,
}
use master_control.Value.{Value, Fields, ℤ, dict_of}
use master_control.Tools.Attempt.{done}
use master_control.Tools.Arguments.{get_string_argument, get_int_argument}
use master_control.Tools.Readers.{IsWithin, get_string_argument-required, get_int_argument-IsWithin}
use master_control.Tools.Units.{validate_service_name, validate_service_scope}
use master_control.Tools.UnitNames.{IsUnitName, validate_service_name-IsUnitName}
use master_control.Tools.Machine.{Machine, completed}
use master_control.Tools.Services.{read_service_state, run_service_action}
use master_control.Tools.ServiceTools.{restart_service, service_status}
use master_control.Tools.Issued.{
  Issued, IsShow, IsServiceCommand, restart_service-issues, service_status-issues,
}
use master_control.Tools.Preflight.{Allows, run_service_action-preflight}
use master_control.Tools.Listing.{parse_failed_service_lines, length-parse_failed_service_lines-le}

abbrev example_arguments : Fields
example_arguments = dict_of (("name", Value.str " nginx.service ") ∷ ("limit", Value.str "20") ∷ [])

reads_name : get_string_argument example_arguments "name" true none ≡ done (some "nginx.service")
unfolding get_string_argument strip master_control.Value.get master_control.Value.put_all
reads_name = refl

get_string_argument-required_example :
    (t : String) × (some "nginx.service" ≡ some t) × (is_empty t ≡ false)
get_string_argument-required_example =
    get_string_argument-required example_arguments "name" none (some "nginx.service") reads_name

abbrev twenty : String → Option ℤ
twenty text = if text == "20" then some (ℤ.pos 20) else none

reads_limit :
    get_int_argument twenty example_arguments "limit" false none (some (ℤ.pos 1)) (some (ℤ.pos 50))
    ≡ done (some (ℤ.pos 20))
unfolding get_int_argument strip master_control.Value.get master_control.Value.put_all
    master_control.Tools.Attempt.follow master_control.Tools.Arguments.is_below
    master_control.Tools.Arguments.less master_control.Tools.Arguments.is_above
reads_limit = refl

get_int_argument-IsWithin_example : IsWithin (some (ℤ.pos 1)) (some (ℤ.pos 50)) (some (ℤ.pos 20))
get_int_argument-IsWithin_example =
    get_int_argument-IsWithin twenty example_arguments "limit" false none (some (ℤ.pos 1))
      (some (ℤ.pos 50)) (some (ℤ.pos 20)) reads_limit

accepts_name : validate_service_name " nginx.service " ≡ done "nginx.service"
unfolding validate_service_name strip master_control.Tools.Attempt.follow
    master_control.Tools.Units.validate_unit_name master_control.Prelude.begins_with
    master_control.Tools.Units.is_unit_name master_control.Tools.Units.is_first_char
    master_control.Prelude.all_chars master_control.Tools.Units.is_unit_char has_char ends_with
accepts_name = refl

validate_service_name-IsUnitName_example :
    IsUnitName "nginx.service"
    × ((has_char 46 "nginx.service" && not (ends_with "nginx.service" ".service")) ≡ false)
validate_service_name-IsUnitName_example =
    validate_service_name-IsUnitName " nginx.service " "nginx.service" accepts_name

-- The world is the list of the commands that ran.
abbrev example_machine : Machine (List (List String))
example_machine = record {
  run_process = λ command log. (
    completed (record {
      returncode = ℤ.pos 0;
      stdout = "id=nginx\nloadstate=loaded\nactivestate=active\nsubstate=running\n";
      stderr = "";
    }),
    command.arguments ∷ log,
  );
  which = λ program log. true;
  getenv = λ key. none;
  lower = λ text. text;
  parse_int = twenty;
}

restart_service-issues_example :
    Issued example_machine
      (IsServiceCommand "restart")
      []
      (restart_service example_machine example_arguments []).1
restart_service-issues_example = restart_service-issues example_machine example_arguments []

service_status-issues_example :
    Issued example_machine IsShow [] (service_status example_machine example_arguments []).1
service_status-issues_example = service_status-issues example_machine example_arguments []

accepts_scope : validate_service_scope (λ text. text) (some "system") ≡ done "system"
unfolding validate_service_scope strip
accepts_scope = refl

run_service_action-preflight_example :
    ((run_service_action example_machine "restart" "nginx" "system" []).1
      ≡ (read_service_state example_machine "nginx" "system" []).1)
    ⊎ ((preflight : Fields) × ((read_service_state example_machine "nginx" "system" []).0
          ≡ done preflight)
        × Allows "restart" preflight)
run_service_action-preflight_example =
    run_service_action-preflight example_machine "restart" "nginx" "system" "system" []
      accepts_scope

length-parse_failed_service_lines-le_example :
    length (
      parse_failed_service_lines 1
        ("a.service loaded failed failed A" ∷ "b.service loaded failed failed B" ∷ []))
    ≤ 1
length-parse_failed_service_lines-le_example =
    length-parse_failed_service_lines-le 0
      ("a.service loaded failed failed A" ∷ "b.service loaded failed failed B" ∷ [])
