-- ===== src/Tools/ServiceTools.antt =====
-- The tools restart_service, reload_service, service_status and failed_services (tools/).
use master_control.Prelude.{String, true, false, Option, none, some, [], ◌∷◌}
use master_control.Value.{Value, Fields, merge, dict_of}
use master_control.Runtime.State.{Invoked, returned, tool_error, crashed}
use master_control.Tools.Attempt.{Attempt, done, failed, escaped, follow, chain}
use master_control.Tools.Arguments.{get_string_argument}
use master_control.Tools.Units.{validate_service_name, validate_service_scope}
use master_control.Tools.Machine.{Machine}
use master_control.Tools.Services.{ActionResult, read_service_state, run_service_action}

unfoldable pub invoked : {W : Type 0} → Attempt Fields × W → Invoked × W
invoked (done result, w) = (returned result, w)
invoked (failed text, w) = (tool_error text, w)
invoked (escaped text, w) = (crashed text, w)

required_text : Option String → Attempt String
required_text none = failed "Argument 'name' is required."
required_text (some text) = done text

-- The arguments of a tool on one service, checked.
pub record Service : Type 0 where
  pub name : String
  pub scope : String

unfoldable pub service_argument : (String → String) → Fields → Attempt Service
unfolding required_text
service_argument lower arguments =
    follow (get_string_argument arguments "name" true none) (λ service_name.
      follow (get_string_argument arguments "scope" false none) (λ given.
        follow (validate_service_scope lower given) (λ scope.
          follow (required_text service_name) (λ text.
            follow (validate_service_name text)
              (λ name. done (record { name = name; scope = scope }))))))

unfoldable pub action_dict : String → String → String → ActionResult → Fields
action_dict action post name result = dict_of (
    ("status", Value.str "ok")
    ∷ ("service", Value.str name)
    ∷ ("scope", Value.str result.scope)
    ∷ ("action", Value.str action)
    ∷ ("preflight", Value.dict result.preflight)
    ∷ (post, Value.dict result.post_action)
    ∷ [])

module _ {World : Type 0} (machine : Machine World) where
  open machine use {lower}

  -- RestartServiceTool and ReloadServiceTool differ in the action and in one key of the result.
  unfoldable pub act_on_service : String → String → Fields → World → Attempt Fields × World
  act_on_service action post arguments w =
      chain (service_argument lower arguments, w)
        (λ service w1.
          chain (run_service_action machine action service.name service.scope w1)
            (λ result w2. (done (action_dict action post service.name result), w2)))

  unfoldable pub restart_service : Fields → World → Invoked × World
  restart_service arguments w = invoked (act_on_service "restart" "post_restart" arguments w)

  unfoldable pub reload_service : Fields → World → Invoked × World
  reload_service arguments w = invoked (act_on_service "reload" "post_reload" arguments w)

  -- A ToolError of `read_service_state` is part of the answer.
  unfoldable pub report_status : Service → Attempt Fields × World → Attempt Fields × World
  report_status service (done payload, w) =
      (done (merge (dict_of (("status", Value.str "ok") ∷ [])) payload), w)
  report_status service (failed text, w) = (
    done (
        dict_of (
          ("status", Value.str "unavailable")
          ∷ ("service", Value.str service.name)
          ∷ ("scope", Value.str service.scope)
          ∷ ("reason", Value.str text)
          ∷ [])),
    w,
  )
  report_status service (escaped text, w) = (escaped text, w)

  unfoldable pub service_status : Fields → World → Invoked × World
  service_status arguments w = invoked (
      chain (service_argument lower arguments, w)
        (λ service w1.
          report_status service (read_service_state machine service.name service.scope w1)))
