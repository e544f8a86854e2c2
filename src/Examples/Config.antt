-- ===== src/Examples/Config.antt =====
-- Managed files at concrete inputs.
use master_control.Prelude.{
  ◌≡◌, ◌≢◌, ◌⊎◌, refl, sym, true, false, Bool, Option, none, some, List, [], ◌∷◌, ◌++◌, String,
  join, has_char, ◌==◌, if◌then◌else◌, arith, eq_iff,
}
use master_control.Value.{ℤ}
use master_control.Tools.Attempt.{Attempt, done}
use master_control.Config.Targets.{FilePath, ConfigTarget}
use master_control.Config.Disk.{utf8, File, Disk, Os, same_path}
use master_control.Config.Manager.{ConfigResolution, resolve_target}
use master_control.Config.Writes.{write_text, read_backup, restore_backup}
use master_control.Config.Installed.{is_done}
use master_control.Config.Safety.{Holds}
use master_control.Config.Outcomes.{WriteEnds, backup_of}
use master_control.Config.Contract.{Unchanged, write_text-ends, restore_backup-ends}
use master_control.Config.Roundtrip.{later_os, restore-write}
use master_control.Examples.Data.{plain_texts}

-- Texts name files of the directory /managed, and other texts the backups of app.ini.
abbrev resolve_text : String → FilePath
resolve_text text =
    if text == "backup"
    then "state" ∷ "config-backups" ∷ "ini" ∷ "1__managed__app.ini.bak" ∷ []
    else "managed" ∷ text ∷ []

abbrev example_os : Os
example_os = record {
  texts = plain_texts;
  resolve = resolve_text;
  real = λ path. path;
  subpath = λ path name. path ++ name ∷ [];
  path_text = join "/";
  make_temp = λ path disk. "managed" ∷ ".mc-1" ∷ [];
  timestamp = "1";
  default_mode = 420;
  os_error = λ operation path disk. none;
  ini_error = λ text. none;
  json_error = λ text. none;
  format_part = λ part candidate. done part;
  run_validator = λ command disk. (
    done (record {
      returncode = ℤ.pos 0;
      stdout = "";
      stderr = "";
      truncated_stdout = false;
      truncated_stderr = false;
    }),
    disk,
  );
}

abbrev ini_target : ConfigTarget
ini_target = record {
  name = "ini";
  description = "";
  roots = ("managed" ∷ []) ∷ [];
  file_globs = "app.ini" ∷ [];
  validator_kind = "ini_parse";
  validator_command = none;
}

abbrev app_ini : ConfigResolution
app_ini = record { path = "managed" ∷ "app.ini" ∷ []; target = ini_target }

abbrev old_file : File
old_file = record { content = utf8 "a=1"; mode = 384 }

abbrev example_disk : Disk
example_disk = record {
  file =
      λ path. elim path [ p ∷ q ∷ [] ↦ if q == "app.ini" then some old_file else none | _ ↦ none ];
  directory = λ path. false;
}

abbrev state_path : FilePath
state_path = "state" ∷ []

abbrev written_disk : Disk
written_disk = (write_text example_os (ini_target ∷ []) state_path "app.ini" "b=2" example_disk).1

resolves : resolve_target example_os (ini_target ∷ []) state_path "app.ini" ≡ done app_ini
unfolding resolve_target master_control.Config.Targets.matches
    master_control.Config.Targets.matches_root master_control.Config.Targets.relative_to
    master_control.Config.Targets.as_posix join
resolves = refl

apart : same_path app_ini.path (backup_of example_os (ini_target ∷ []) state_path app_ini) ≡ false
unfolding same_path master_control.Config.Manager.backup_path
apart = refl

apart_later :
    same_path app_ini.path
      (backup_of (later_os example_os "2") (ini_target ∷ []) state_path app_ini)
    ≡ false
unfolding same_path master_control.Config.Manager.backup_path
apart_later = refl

names_backup : resolve_text "backup" ≡ backup_of example_os (ini_target ∷ []) state_path app_ini
unfolding join master_control.Config.Manager.backup_path
names_backup = refl

writes :
    is_done (write_text example_os (ini_target ∷ []) state_path "app.ini" "b=2" example_disk).0
    ≡ true
unfolding master_control.Config.Disk.newlines master_control.Config.Disk.make_directory
    master_control.Config.Disk.parent_of master_control.Config.Disk.put_file
    master_control.Config.Disk.same_path master_control.Config.Disk.size_of
    master_control.Config.Disk.unlink master_control.Config.Disk.write_file
    master_control.Config.Disk.encoded_size master_control.Config.Disk.exists
    master_control.Config.Disk.read_text master_control.Config.Manager.applied_mode
    master_control.Config.Manager.apply_temp_file master_control.Config.Manager.backup_path
    master_control.Config.Manager.copy_to_backup master_control.Config.Manager.create_backup
    master_control.Config.Manager.create_temp master_control.Config.Manager.or_unlink
    master_control.Config.Manager.write_temp_file master_control.Config.Manager.resolve_target
    master_control.Config.Manager.validate_content_size master_control.Config.Manager.read_text_file
    master_control.Config.Targets.name_of master_control.Config.Targets.matches
    master_control.Config.Targets.matches_root master_control.Config.Targets.relative_to
    master_control.Config.Targets.as_posix master_control.Config.Writes.apply_validated
    master_control.Config.Writes.command_result master_control.Config.Writes.finish
    master_control.Config.Writes.format_command master_control.Config.Writes.replace_content
    master_control.Config.Writes.same_text master_control.Config.Writes.validate_by_command
    master_control.Config.Writes.validate_content master_control.Config.Writes.validate_path
    master_control.Config.Writes.validator_of master_control.Config.Writes.current_content
    master_control.Config.Writes.write_changed master_control.Config.Writes.install
    master_control.Config.Writes.write_text master_control.Config.Writes.restore_backup
    master_control.Config.Writes.read_backup master_control.Prelude.concat
    master_control.Prelude.join master_control.Tools.Attempt.chain
    master_control.Tools.Attempt.follow
writes = refl

restores :
    is_done
      (restore_backup
        (later_os example_os "2")
        (ini_target ∷ [])
        state_path
        "app.ini"
        "backup"
        written_disk).0
    ≡ true
unfolding master_control.Config.Disk.newlines master_control.Config.Disk.make_directory
    master_control.Config.Disk.parent_of master_control.Config.Disk.put_file
    master_control.Config.Disk.same_path master_control.Config.Disk.size_of
    master_control.Config.Disk.unlink master_control.Config.Disk.write_file
    master_control.Config.Disk.encoded_size master_control.Config.Disk.exists
    master_control.Config.Disk.read_text master_control.Config.Manager.applied_mode
    master_control.Config.Manager.apply_temp_file master_control.Config.Manager.backup_path
    master_control.Config.Manager.copy_to_backup master_control.Config.Manager.create_backup
    master_control.Config.Manager.create_temp master_control.Config.Manager.or_unlink
    master_control.Config.Manager.write_temp_file master_control.Config.Manager.resolve_target
    master_control.Config.Manager.validate_content_size master_control.Config.Manager.read_text_file
    master_control.Config.Targets.name_of master_control.Config.Targets.matches
    master_control.Config.Targets.matches_root master_control.Config.Targets.relative_to
    master_control.Config.Targets.as_posix master_control.Config.Writes.apply_validated
    master_control.Config.Writes.command_result master_control.Config.Writes.finish
    master_control.Config.Writes.format_command master_control.Config.Writes.replace_content
    master_control.Config.Writes.same_text master_control.Config.Writes.validate_by_command
    master_control.Config.Writes.validate_content master_control.Config.Writes.validate_path
    master_control.Config.Writes.validator_of master_control.Config.Writes.current_content
    master_control.Config.Writes.write_changed master_control.Config.Writes.install
    master_control.Config.Writes.write_text master_control.Config.Writes.restore_backup
    master_control.Config.Writes.read_backup master_control.Prelude.concat
    master_control.Prelude.join master_control.Tools.Attempt.chain
    master_control.Tools.Attempt.follow
restores = refl

reads_backup :
    read_backup example_os (ini_target ∷ []) state_path (resolve_text "backup") written_disk
    ≡ done "a=1"
unfolding master_control.Config.Disk.newlines master_control.Config.Disk.make_directory
    master_control.Config.Disk.parent_of master_control.Config.Disk.put_file
    master_control.Config.Disk.same_path master_control.Config.Disk.size_of
    master_control.Config.Disk.unlink master_control.Config.Disk.write_file
    master_control.Config.Disk.encoded_size master_control.Config.Disk.exists
    master_control.Config.Disk.read_text master_control.Config.Manager.applied_mode
    master_control.Config.Manager.apply_temp_file master_control.Config.Manager.backup_path
    master_control.Config.Manager.copy_to_backup master_control.Config.Manager.create_backup
    master_control.Config.Manager.create_temp master_control.Config.Manager.or_unlink
    master_control.Config.Manager.write_temp_file master_control.Config.Manager.resolve_target
    master_control.Config.Manager.validate_content_size master_control.Config.Manager.read_text_file
    master_control.Config.Targets.name_of master_control.Config.Targets.matches
    master_control.Config.Targets.matches_root master_control.Config.Targets.relative_to
    master_control.Config.Targets.as_posix master_control.Config.Writes.apply_validated
    master_control.Config.Writes.command_result master_control.Config.Writes.finish
    master_control.Config.Writes.format_command master_control.Config.Writes.replace_content
    master_control.Config.Writes.same_text master_control.Config.Writes.validate_by_command
    master_control.Config.Writes.validate_content master_control.Config.Writes.validate_path
    master_control.Config.Writes.validator_of master_control.Config.Writes.current_content
    master_control.Config.Writes.write_changed master_control.Config.Writes.install
    master_control.Config.Writes.write_text master_control.Config.Writes.restore_backup
    master_control.Config.Writes.read_backup master_control.Prelude.concat
    master_control.Prelude.join master_control.Tools.Attempt.chain
    master_control.Tools.Attempt.follow
reads_backup = refl

abbrev old_text : String
old_text = "a=1"

differs : old_text ≢ "b=2"
differs h =
    let same : (old_text == "b=2") ≡ true = (eq_iff old_text "b=2").1 h in ground (arith, same)

plain_old : has_char 13 "a=1" ≡ false
unfolding has_char
plain_old = refl

write_text-ends_example :
    WriteEnds example_os
      (ini_target ∷ [])
      state_path
      app_ini
      "b=2"
      example_disk
      (write_text example_os (ini_target ∷ []) state_path "app.ini" "b=2" example_disk)
    ⊎ Unchanged example_os
        (ini_target ∷ [])
        state_path
        (λ command disk. refl)
        app_ini
        "b=2"
        example_disk
        (write_text example_os (ini_target ∷ []) state_path "app.ini" "b=2" example_disk)
write_text-ends_example =
    write_text-ends example_os (ini_target ∷ []) state_path (λ command disk. refl) app_ini apart
      "app.ini" "b=2" example_disk resolves

restore_backup-ends_example :
    WriteEnds example_os
      (ini_target ∷ [])
      state_path
      app_ini
      "a=1"
      written_disk
      (restore_backup example_os (ini_target ∷ []) state_path "app.ini" "backup" written_disk)
restore_backup-ends_example =
    restore_backup-ends example_os (ini_target ∷ []) state_path (λ command disk. refl) app_ini apart
      "app.ini" "backup" "a=1" written_disk resolves reads_backup

restore-write_example :
    Holds "a=1" app_ini.path written_disk
      (restore_backup
        (later_os example_os "2")
        (ini_target ∷ [])
        state_path
        "app.ini"
        "backup"
        written_disk).1
restore-write_example =
    restore-write example_os (ini_target ∷ []) state_path (λ command disk. refl) app_ini "2" apart
      apart_later "app.ini" "backup" "b=2" "a=1" example_disk old_file resolves names_backup refl
      refl plain_old differs writes restores
