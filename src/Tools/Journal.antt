-- ===== src/Tools/Journal.antt =====
-- The tool read_journal (tools/read_journal.py).
use master_control.Prelude.{
  String, Bool, false, not, ◌&&◌, Option, none, some, List, [], ◌∷◌, ◌==◌, filter, strip, is_empty,
  length, if◌then◌else◌,
}
use master_control.Value.{Value, Items, Fields, ℤ, dict_of, int_text, text_or_null}
use master_control.Runtime.State.{Invoked}
use master_control.Runtime.RunTool.{text_items}
use master_control.Tools.Attempt.{Attempt, done, failed, escaped, follow, chain}
use master_control.Tools.Arguments.{get_string_argument, get_int_argument}
use master_control.Tools.Units.{validate_unit_name}
use master_control.Tools.Machine.{Machine, CommandResult, run, splitlines}
use master_control.Tools.Services.{returned_zero}
use master_control.Tools.ServiceTools.{invoked}

required_lines : Option ℤ → Attempt ℤ
required_lines none = failed "Argument 'lines' is required."
required_lines (some n) = done n

checked_unit : Option String → Attempt (Option String)
checked_unit none = done none
checked_unit (some text) = follow (validate_unit_name "unit" text) (λ unit. done (some unit))

unfoldable pub journal_command : ℤ → Option String → List String
journal_command lines unit =
    "journalctl"
    ∷ "-q"
    ∷ "--no-pager"
    ∷ "--output=short-iso"
    ∷ "-n"
    ∷ int_text (some (Value.int lines))
    ∷ elim unit [ none ↦ [] | some name ↦ if is_empty name then [] else "-u" ∷ name ∷ [] ]

-- The answer without entries.
no_entries : String → Option String → ℤ → String → Fields
no_entries status unit lines reason = dict_of (
    ("status", Value.str status)
    ∷ ("unit", text_or_null unit)
    ∷ ("requested_lines", Value.int lines)
    ∷ ("reason", Value.str reason)
    ∷ ("entries", Value.list Items.nil)
    ∷ [])

is_entry : String → Bool
is_entry line = not (is_empty (strip line)) && not (strip line == "-- No entries --")

journal_entries : Option String → ℤ → CommandResult → Fields
unfolding is_entry
journal_entries unit lines result =
    let entries = filter is_entry (splitlines result.stdout) in
    dict_of (
      ("status", Value.str "ok")
      ∷ ("unit", text_or_null unit)
      ∷ ("requested_lines", Value.int lines)
      ∷ ("returned_lines", Value.int (ℤ.pos (length entries)))
      ∷ ("truncated", Value.bool result.truncated_stdout)
      ∷ ("entries", Value.list (text_items entries))
      ∷ [])

report_journal : {W : Type 0} → Option String → ℤ → Attempt CommandResult × W → Attempt Fields × W
unfolding no_entries journal_entries
report_journal unit lines (done result, w) = (
  done (
      if returned_zero result
      then journal_entries unit lines result
      else no_entries "error" unit lines
          (strip (if is_empty result.stderr then result.stdout else result.stderr))),
  w,
)
report_journal unit lines (failed text, w) = (done (no_entries "unavailable" unit lines text), w)
report_journal unit lines (escaped text, w) = (escaped text, w)

module _ {World : Type 0} (machine : Machine World) where
  open machine use {which, parse_int}

  read_entries : ℤ → Option String → World → Attempt Fields × World
  unfolding no_entries report_journal
  read_entries lines unit w =
      if which "journalctl" w
      then report_journal unit lines (
          run machine (record { arguments = journal_command lines unit; timeout_s = 5; env = none })
            w)
      else (done (no_entries "unavailable" unit lines "journalctl not found on PATH."), w)

  unfoldable pub read_journal : Fields → World → Invoked × World
  unfolding required_lines checked_unit read_entries
  read_journal arguments w = invoked (
      chain
        (
          get_int_argument parse_int arguments "lines" false (some (ℤ.pos 50)) (some (ℤ.pos 1))
              (some (ℤ.pos 200)),
          w,
        )
        (λ given w1.
          chain (get_string_argument arguments "unit" false none, w1)
            (λ raw_unit w2.
              chain (required_lines given, w2)
                (λ lines w3.
                  chain (checked_unit raw_unit, w3) (λ unit w4. read_entries lines unit w4)))))
