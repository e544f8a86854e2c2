-- ===== src/Tools/Services.antt =====
-- The calls of systemctl (tools/service_actions.py).
use master_control.Prelude.{
  ℕ, zero, String, Bool, true, false, not, ◌&&◌, Option, none, some, List, [], ◌∷◌, ◌++◌, ◌==◌,
  filter, concat, join, strip, is_empty, if◌then◌else◌,
}
use master_control.Value.{Value, Fields, ℤ, get, put, dict_of}
use master_control.Tools.Attempt.{Attempt, done, failed, follow, chain}
use master_control.Tools.Units.{validate_service_scope}
use master_control.Tools.Machine.{Machine, CommandResult, run, splitlines, key_and_value}

unfoldable pub build_systemctl_command : String → List String → List String
build_systemctl_command scope parts =
    if scope == "user" then "systemctl" ∷ "--user" ∷ parts else "systemctl" ∷ parts

unfoldable pub build_systemctl_action_flags : String → List String
build_systemctl_action_flags scope = if scope == "system" then "--no-ask-password" ∷ [] else []

is_set : Option String → Bool
is_set none = false
is_set (some text) = not (is_empty text)

env_entry : (String → Option String) → String → List (String × String)
unfolding is_set
env_entry getenv key = elim (getenv key) [
  | none ↦ []
  | some text ↦ if is_empty text then [] else (key, text) ∷ []
]

abbrev user_scope_env_keys : List String
user_scope_env_keys = "XDG_RUNTIME_DIR" ∷ "DBUS_SESSION_BUS_ADDRESS" ∷ []

-- The environment of a user's systemctl; `none` is the system's.
unfoldable pub build_systemctl_env :
    (String → Option String) → String → Attempt (Option (List (String × String)))
unfolding is_set env_entry
build_systemctl_env getenv scope =
    let missing = filter (λ key. not (is_set (getenv key))) user_scope_env_keys in
    if not (scope == "user") then done none else elim missing [
      | [] ↦ done (
          some (
            env_entry getenv "XDG_RUNTIME_DIR"
            ++ (env_entry getenv "DBUS_SESSION_BUS_ADDRESS" ++ env_entry getenv "HOME")))
      | key ∷ more ↦ failed (
          concat (
            "user-scoped systemd commands require these environment variables: "
            ∷ join ", " (key ∷ more)
            ∷ []))
    ]

-- `(result.stderr or result.stdout).strip() or fallback`
unfoldable pub error_text : CommandResult → String → String
error_text result fallback =
    let text = strip (if is_empty result.stderr then result.stdout else result.stderr) in
    if is_empty text then fallback else text

unfoldable pub returned_zero : CommandResult → Bool
returned_zero result = elim result.returncode [ ℤ.pos zero ↦ true | _ ↦ false ]

-- The loop over the lines of the output.
read_properties : (String → String) → List String → Fields → Fields
read_properties lower [] payload = payload
read_properties lower (line ∷ lines) payload = elim (key_and_value line) [
  | none ↦ read_properties lower lines payload
  | some (key, text) ↦ read_properties lower lines (put (lower key) (Value.str text) payload)
]

unfoldable pub is_text : Option Value → Bool
is_text (some (Value.str text)) = not (is_empty (strip text))
is_text _ = false

-- `payload.get(key) == text`
unfoldable pub has_text : String → String → Fields → Bool
has_text key text payload = elim (get key payload) [
  | some (Value.str found) ↦ found == text
  | _ ↦ false
]

abbrev pub required_fields : List String
required_fields = "id" ∷ "loadstate" ∷ "activestate" ∷ "substate" ∷ []

abbrev properties : String
properties =
    "--property=Id,LoadState,ActiveState,SubState,UnitFileState,Description,FragmentPath,CanReload,MainPID"

-- What `read_service_state` makes of the command's result.
unfoldable pub service_state : (String → String) → String → String → CommandResult → Attempt Fields
unfolding read_properties
service_state lower service_name scope result =
    let payload =
      read_properties lower (splitlines result.stdout)
        (dict_of (("service", Value.str service_name) ∷ ("scope", Value.str scope) ∷ [])) in
    let missing = filter (λ key. not (is_text (get key payload))) required_fields in
    if not (returned_zero result)
    then failed (error_text result (concat ("Failed to inspect `" ∷ service_name ∷ "`." ∷ [])))
    else elim missing [
      | [] ↦ done payload
      | key ∷ more ↦ failed (
          concat (
            "systemctl returned incomplete metadata for `"
            ∷ service_name
            ∷ "`: missing "
            ∷ join ", " (key ∷ more)
            ∷ "."
            ∷ []))
    ]

unfoldable pub show_parts : String → List String
show_parts service_name = "show" ∷ service_name ∷ "--no-pager" ∷ properties ∷ []

unfoldable pub action_parts : String → String → String → List String
action_parts action service_name scope =
    action ∷ service_name ∷ "--no-pager" ∷ build_systemctl_action_flags scope

-- Why the preflight forbids the action.
unfoldable pub check_preflight : String → String → String → Fields → Attempt (Unit {0})
check_preflight action service_name scope preflight =
    if has_text "loadstate" "not-found" preflight
    then failed (concat ("Service `" ∷ service_name ∷ "` was not found." ∷ []))
    else if (action == "reload") && has_text "canreload" "no" preflight
    then failed (
        concat
          ("Service `" ∷ service_name ∷ "` does not support reload in `" ∷ scope ∷ "` scope." ∷ []))
    else done tt

unfoldable pub check_result : String → String → CommandResult → Attempt (Unit {0})
check_result action service_name result =
    if returned_zero result
    then done tt
    else failed
        (error_text result (concat ("Failed to " ∷ action ∷ " `" ∷ service_name ∷ "`." ∷ [])))

-- `preflight` and `post_action` of `run_service_action`'s result; the other fields are the arguments.
pub record ActionResult : Type 0 where
  pub scope : String
  pub preflight : Fields
  pub post_action : Fields

module _ {World : Type 0} (machine : Machine World) where
  open machine use {which, getenv, lower}

  unfoldable pub ensure_systemctl_available : World → Attempt (Unit {0})
  ensure_systemctl_available w =
      if which "systemctl" w then done tt else failed "systemctl not found on PATH."

  -- `runner.run(build_systemctl_command(...), env=build_systemctl_env(...))`
  unfoldable pub run_systemctl : String → List String → ℕ → World → Attempt CommandResult × World
  run_systemctl scope parts timeout w =
      chain (build_systemctl_env getenv scope, w)
        (λ env w'.
          run machine
            (record {
              arguments = build_systemctl_command scope parts;
              timeout_s = timeout;
              env = env;
            })
            w')

  unfoldable pub read_service_state : String → String → World → Attempt Fields × World
  read_service_state service_name scope w =
      chain
        (follow (ensure_systemctl_available w) (λ _. validate_service_scope lower (some scope)), w)
        (λ normalized w1.
          chain (run_systemctl normalized (show_parts service_name) 3 w1)
            (λ result w2. (service_state lower service_name normalized result, w2)))

  -- The part behind the preflight.
  unfoldable pub apply_action :
      String → String → String → Fields → World → Attempt ActionResult × World
  apply_action action service_name scope preflight w =
      chain (run_systemctl scope (action_parts action service_name scope) 10 w) (λ result w1.
        chain (check_result action service_name result, w1)
          (λ _ w2. chain (read_service_state service_name scope w2) (λ post_action w3. (
            done (record { scope = scope; preflight = preflight; post_action = post_action }),
            w3,
          ))))

  unfoldable pub run_service_action :
      String → String → String → World → Attempt ActionResult × World
  run_service_action action service_name scope w =
      chain (validate_service_scope lower (some scope), w)
        (λ normalized w1. chain (read_service_state service_name normalized w1) (λ preflight w2.
          chain (check_preflight action service_name normalized preflight, w2)
            (λ _ w3. apply_action action service_name normalized preflight w3)))
