-- ===== src/Tools/Machine.antt =====
-- The commands that tools run (executor/command_runner.py and tools/service_actions.py).
use Prim.Native.Char.{Char, code}
use master_control.Prelude.{
  ◌&&◌, ℕ, zero, suc, String, Bool, false, Option, none, some, List, [], ◌∷◌, eqb, leb, ◌||◌,
  concat, join, ltb, assign, if◌then◌else◌,
}
use master_control.Value.{ℤ}
use master_control.Tools.Attempt.{Attempt, done, failed, escaped}

-- A call of `runner.run`; the timeout is in seconds.
pub record Command : Type 0 where
  pub arguments : List String
  pub timeout_s : ℕ
  pub env : Option (List (String × String))

-- What the process leaves.
pub record Completed : Type 0 where
  pub returncode : ℤ
  pub stdout : String
  pub stderr : String

pub record CommandResult : Type 0 where
  pub returncode : ℤ
  pub stdout : String
  pub stderr : String
  pub truncated_stdout : Bool
  pub truncated_stderr : Bool

-- `subprocess.run`: the process ends, is not found, runs too long, or another exception leaves the call.
pub data Ran : Type 0 where
  completed : Completed → Ran
  not_found : Ran
  timed_out : String → Ran
  broken : String → Ran

-- The host that the tools see, with the library routines that they call. A `timed_out` process gives the
-- text of the timeout.
pub record Machine (World : Type 0) : Type 0 where
  pub run_process : Command → World → Ran × World
  pub which : String → World → Bool
  pub getenv : String → Option String
  pub lower : String → String
  pub parse_int : String → Option ℤ

abbrev pub max_output_chars : ℕ
max_output_chars = 16000

-- `text[:n]`
unfoldable pub first_chars : ℕ → String → String
first_chars zero s = ""
first_chars (suc n) String.[] = ""
first_chars (suc n) (String.◌∷◌ c s) = String.◌∷◌ c (first_chars n s)

-- `len(text)`
unfoldable pub size : String → ℕ
size String.[] = 0
size (String.◌∷◌ c s) = suc (size s)

first_argument : List String → String
first_argument [] = ""
first_argument (a ∷ arguments) = a

-- `get_env(key, default)`
getenv_or : (String → Option String) → String → String → String
getenv_or getenv key default = elim (getenv key) [ none ↦ default | some v ↦ v ]

update_env : List (String × String) → List (String × String) → List (String × String)
update_env env [] = env
update_env env ((k, v) ∷ more) = update_env (assign k v env) more

-- What the runner gives back; its CommandExecutionError is `failed`.
run_result : List String → Ran → Attempt CommandResult
unfolding first_argument
run_result arguments (completed p) = done (record {
  returncode = p.returncode;
  stdout = first_chars max_output_chars p.stdout;
  stderr = first_chars max_output_chars p.stderr;
  truncated_stdout = ltb max_output_chars (size p.stdout);
  truncated_stderr = ltb max_output_chars (size p.stderr);
})
run_result arguments not_found =
    failed (concat ("Command not found: " ∷ first_argument arguments ∷ []))
run_result arguments (timed_out seconds) =
    failed (concat ("Command timed out after " ∷ seconds ∷ "s: " ∷ join " " arguments ∷ []))
run_result arguments (broken text) = escaped text

module _ {World : Type 0} (machine : Machine World) where
  open machine use {run_process, getenv}

  -- `safe_env`
  unfoldable pub safe_env : Option (List (String × String)) → List (String × String)
  unfolding getenv_or update_env
  safe_env env =
      let base =
        ("PATH", getenv_or getenv "PATH" "")
        ∷ ("LANG", getenv_or getenv "LANG" "C.UTF-8")
        ∷ ("LC_ALL", getenv_or getenv "LC_ALL" "C.UTF-8")
        ∷ [] in
      elim env [ none ↦ base | some more ↦ update_env base more ]

  -- `CommandRunner.run`
  unfoldable pub run : Command → World → Attempt CommandResult × World
  unfolding run_result
  run command w =
      let (ran, w') = run_process (record command { env = some (safe_env command.env) }) w in
      (run_result command.arguments ran, w')

is_break : ℕ → Bool
is_break c =
    (leb 10 c && leb c 13) || (leb 28 c && leb c 30) || eqb c 133 || eqb c 8232 || eqb c 8233

extend_line : Char → List String → List String
extend_line c [] = String.◌∷◌ c "" ∷ []
extend_line c (line ∷ lines) = String.◌∷◌ c line ∷ lines

starts_with_newline : String → Bool
starts_with_newline String.[] = false
starts_with_newline (String.◌∷◌ c s) = eqb (code c) 10

-- `text.splitlines()`
unfoldable pub splitlines : String → List String
unfolding is_break extend_line starts_with_newline
splitlines String.[] = []
splitlines (String.◌∷◌ c s) =
    let rest = splitlines s in
    if is_break (code c)
    then (if eqb (code c) 13 && starts_with_newline s then rest else "" ∷ rest)
    else extend_line c rest

push_key : Char → Option (String × String) → Option (String × String)
push_key c none = none
push_key c (some (k, v)) = some (String.◌∷◌ c k, v)

-- `text.split("=", maxsplit=1)` where the text has an `=`, and `none` where it has not.
unfoldable pub key_and_value : String → Option (String × String)
unfolding push_key
key_and_value String.[] = none
key_and_value (String.◌∷◌ c s) =
    let rest = key_and_value s in if eqb (code c) 61 then some ("", s) else push_key c rest
