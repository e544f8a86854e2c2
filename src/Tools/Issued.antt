-- ===== src/Tools/Issued.antt =====
-- The commands that the tools on services run (tools/service_actions.py).
use mathlib.Core.Path.{subst}
use master_control.Prelude.{ℕ, String, List, ◌≡◌, refl, sym}
use master_control.Value.{Fields}
use master_control.Tools.Attempt.{Attempt, done, failed, escaped, chain-keeps, done-follow}
use master_control.Tools.Units.{validate_service_name}
use master_control.Tools.UnitNames.{IsUnitName, validate_service_name-IsUnitName, done-inj}
use master_control.Tools.Machine.{Machine, Command, run}
use master_control.Tools.Services.{
  build_systemctl_command, show_parts, action_parts, run_systemctl, read_service_state,
  apply_action, run_service_action,
}
use master_control.Tools.ServiceTools.{
  Service, service_argument, act_on_service, restart_service, invoked, report_status,
  service_status,
}

-- A world is reached from another one by running commands with the property `P`.
pub data Issued {World : Type 0} (machine : Machine World) (P : List String → Type 0)
    (start : World) : World → Type 0 where
  idle : Issued machine P start start
  issue :
      (command : Command) (w : World)
      → Issued machine P start w
      → P command.arguments
      → Issued machine P start (run machine command w).1

-- The command inspects a service with a name that is a unit name.
pub record IsShow (arguments : List String) : Type 0 where
  pub name : String
  pub scope : String
  pub is_name : IsUnitName name
  pub command : arguments ≡ build_systemctl_command scope (show_parts name)

-- The command inspects such a service, or does the action to it.
pub data IsServiceCommand (action : String) (arguments : List String) : Type 0 where
  shows : IsShow arguments → IsServiceCommand action arguments
  acts :
      (name scope : String)
      → IsUnitName name
      → arguments ≡ build_systemctl_command scope (action_parts action name scope)
      → IsServiceCommand action arguments

module _ {World : Type 0} (machine : Machine World) (P : List String → Type 0) (start : World) where
  open machine use {lower}

  run_systemctl-Issued :
      (scope : String) (parts : List String) (timeout : ℕ) (w : World)
      → P (build_systemctl_command scope parts)
      → Issued machine P start w
      → Issued machine P start (run_systemctl machine scope parts timeout w).1
  unfolding run_systemctl
  run_systemctl-Issued scope parts timeout w p h =
      chain-keeps (Issued machine P start) _ _ h (λ env _.
        issue
          (record {
            arguments = build_systemctl_command scope parts;
            timeout_s = timeout;
            env = env;
          })
          w h p)

  read_service_state-Issued :
      (name scope : String) (w : World)
      → ((scope : String) → P (build_systemctl_command scope (show_parts name)))
      → Issued machine P start w
      → Issued machine P start (read_service_state machine name scope w).1
  unfolding read_service_state
  read_service_state-Issued name scope w p h = chain-keeps (Issued machine P start) _ _ h (λ n _.
      let next = run_systemctl-Issued n (show_parts name) 3 w (p n) h in
      chain-keeps (Issued machine P start) _ _ next (λ result _. next))

service_argument-IsUnitName :
    (lower : String → String) (arguments : Fields) (service : Service)
    → service_argument lower arguments ≡ done service
    → IsUnitName service.name
unfolding service_argument
service_argument-IsUnitName lower arguments service h =
    let (text, _, h1) = done-follow _ _ service h in
    let (given, _, h2) = done-follow _ _ service h1 in
    let (scope, _, h3) = done-follow _ _ service h2 in
    let (found, _, h4) = done-follow _ _ service h3 in
    let (name, valid, h5) = done-follow (validate_service_name found) _ service h4 in
    let same : record { name = name; scope = scope } ≡ service = done-inj h5 in
    subst (λ (s : Service). IsUnitName s.name) same
      (validate_service_name-IsUnitName found name valid).0

module _ {World : Type 0} (machine : Machine World) (action : String) (start : World) where
  open machine use {lower}

  abbrev Acted : World → Type 0
  Acted = Issued machine (IsServiceCommand action) start

  show-Acted :
      (name scope : String) (w : World)
      → IsUnitName name
      → Acted w
      → Acted (read_service_state machine name scope w).1
  show-Acted name scope w u h =
      read_service_state-Issued machine (IsServiceCommand action) start name scope w
        (λ n. shows (record { name = name; scope = n; is_name = u; command = refl })) h

  apply_action-Acted :
      (name scope : String) (preflight : Fields) (w : World)
      → IsUnitName name
      → Acted w
      → Acted (apply_action machine action name scope preflight w).1
  unfolding apply_action
  apply_action-Acted name scope preflight w u h =
      let ran =
        run_systemctl-Issued machine (IsServiceCommand action) start scope
          (action_parts action name scope) 10 w (acts name scope u refl) h in
      chain-keeps Acted _ _ ran (λ result _. chain-keeps Acted _ _ ran (λ _ _.
        let read = show-Acted name scope _ u ran in chain-keeps Acted _ _ read (λ _ _. read)))

  run_service_action-Acted :
      (name scope : String) (w : World)
      → IsUnitName name
      → Acted w
      → Acted (run_service_action machine action name scope w).1
  unfolding run_service_action
  run_service_action-Acted name scope w u h = chain-keeps Acted _ _ h (λ n _.
      let read = show-Acted name n w u h in
      chain-keeps Acted _ _ read (λ preflight _.
        chain-keeps Acted _ _ read (λ _ _. apply_action-Acted name n preflight _ u read)))

invoked-world : {W : Type 0} (x : Attempt Fields × W) → (invoked x).1 ≡ x.1
unfolding invoked
invoked-world (done r, w) = refl
invoked-world (failed t, w) = refl
invoked-world (escaped t, w) = refl

module _ {World : Type 0} (machine : Machine World) where
  open machine use {lower}

  act_on_service-Issued :
      (action post : String) (arguments : Fields) (w : World)
      → Issued machine
          (IsServiceCommand action)
          w
          (act_on_service machine action post arguments w).1
  unfolding act_on_service
  act_on_service-Issued action post arguments w =
      chain-keeps (Issued machine (IsServiceCommand action) w) _ _ idle (λ service e.
        let u = service_argument-IsUnitName lower arguments service e in
        let ran = run_service_action-Acted machine action w service.name service.scope w u idle in
        chain-keeps (Issued machine (IsServiceCommand action) w) _ _ ran (λ _ _. ran))

  -- Whatever its arguments are, the tool restart_service runs only commands of systemctl that inspect or
  -- restart a service, with a service name that is a unit name: it has no dash in front and no character
  -- outside those of unit names.
  pub restart_service-issues :
      (arguments : Fields) (w : World)
      → Issued machine (IsServiceCommand "restart") w (restart_service machine arguments w).1
  unfolding restart_service
  restart_service-issues arguments w =
      subst (Issued machine (IsServiceCommand "restart") w)
        (sym (invoked-world (act_on_service machine "restart" "post_restart" arguments w)))
        (act_on_service-Issued "restart" "post_restart" arguments w)

  report_status-world :
      (service : Service) (x : Attempt Fields × World) → (report_status machine service x).1 ≡ x.1
  unfolding report_status
  report_status-world service (done r, w) = refl
  report_status-world service (failed t, w) = refl
  report_status-world service (escaped t, w) = refl

  -- The tool service_status, which is read-only, runs only commands of systemctl that inspect a service, with
  -- a service name that is a unit name.
  pub service_status-issues :
      (arguments : Fields) (w : World)
      → Issued machine IsShow w (service_status machine arguments w).1
  unfolding service_status
  service_status-issues arguments w = subst (Issued machine IsShow w) (sym (invoked-world _)) (
      chain-keeps (Issued machine IsShow w) _ _ idle (λ service e.
        let u = service_argument-IsUnitName lower arguments service e in
        subst (Issued machine IsShow w) (sym (report_status-world service _)) (
          read_service_state-Issued machine IsShow w service.name service.scope w
            (λ n. record { name = service.name; scope = n; is_name = u; command = refl }) idle)))
