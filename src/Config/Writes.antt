-- ===== src/Config/Writes.antt =====
-- The operations of ConfigManager (config_manager.py) on the files: reading, validating, writing and
-- restoring.
use master_control.Prelude.{
  ℕ, String, Bool, true, false, not, Option, none, some, List, [], ◌∷◌, ◌==◌, concat, length,
  is_some, if◌then◌else◌,
}
use master_control.Value.{Value, Fields}
use master_control.Runtime.RunTool.{text_items}
use master_control.Tools.Attempt.{Attempt, done, failed, follow, chain}
use master_control.Tools.Machine.{CommandResult, splitlines}
use master_control.Tools.Services.{returned_zero, error_text}
use master_control.Config.Targets.{FilePath, ConfigTarget, relative_to}
use master_control.Config.Disk.{Disk, Os, parent_of, exists, read_text, unlink, make_directory}
use master_control.Config.Manager.{
  ConfigResolution, or_unlink, validation, validate_content_size, backup_root, resolve_target,
  read_text_file, write_temp_file, apply_temp_file, create_backup,
}

-- What `write_text` and `restore_backup` return: the path and the target, whether the file was written,
-- the backup of what it held, and the validation. The other fields are constants and arguments.
pub record Written : Type 0 where
  pub resolution : ConfigResolution
  pub changed : Bool
  pub backup : Option FilePath
  pub validated : Fields

pub record ReadText : Type 0 where
  pub resolution : ConfigResolution
  pub line_count : ℕ
  pub content : String

-- `current_content == content`
unfoldable pub same_text : Option String → String → Bool
same_text none content = false
same_text (some current) content = current == content

module _ (os : Os) (targets : List ConfigTarget) (state_dir : FilePath) where
  open os use {
    texts, resolve, real, subpath, path_text, ini_error, json_error, format_part, run_validator,
  }

  -- `[part.format(path=str(candidate_path)) for part in target.validator_command]`
  unfoldable pub format_command : String → List String → Attempt (List String)
  format_command candidate [] = done []
  format_command candidate (part ∷ parts) =
      follow (format_part part candidate)
        (λ text. follow (format_command candidate parts) (λ more. done (text ∷ more)))

  -- The parsers: `none` is a text that they accept.
  parsed_by : String → String → FilePath → Option String → Attempt Fields
  parsed_by kind label path (some text) =
      failed (concat (label ∷ " validation failed for `" ∷ path_text path ∷ "`: " ∷ text ∷ []))
  parsed_by kind label path none = done (validation kind [])

  unfoldable pub command_result : FilePath → List String → CommandResult → Attempt Fields
  command_result path command result =
      if returned_zero result
      then done (validation "command" (("command", Value.list (text_items command)) ∷ []))
      else failed
          (error_text result (concat ("Validation failed for `" ∷ path_text path ∷ "`." ∷ [])))

  -- The command that a target names; an empty one counts as missing.
  unfoldable pub validator_of : ConfigTarget → Option (List String)
  validator_of target = elim target.validator_command [
    | none ↦ none
    | some [] ↦ none
    | some (part ∷ parts) ↦ some (part ∷ parts)
  ]

  unfoldable pub validate_by_command : ConfigResolution → FilePath → Disk → Attempt Fields × Disk
  unfolding format_command command_result validator_of
  validate_by_command resolution candidate disk = elim (validator_of resolution.target) [
    | none ↦ (
      failed
          (concat ("Target `" ∷ resolution.target.name ∷ "` is missing a validator command." ∷ [])),
      disk,
    )
    | some parts ↦
        chain (format_command (path_text candidate) parts, disk)
          (λ command d.
            chain (run_validator command d)
              (λ result d'. (command_result resolution.path command result, d')))
  ]

  unfoldable pub validate_path : ConfigResolution → FilePath → Disk → Attempt Fields × Disk
  unfolding parsed_by
  validate_path resolution candidate disk =
      let kind = resolution.target.validator_kind in
      if kind == "ini_parse"
      then (
        follow (read_text candidate disk)
            (λ text. parsed_by kind "INI" resolution.path (ini_error text)),
        disk,
      )
      else if kind == "json_parse"
      then (
        follow (read_text candidate disk)
            (λ text. parsed_by kind "JSON" resolution.path (json_error text)),
        disk,
      )
      else if kind == "command"
      then validate_by_command resolution candidate disk
      else (failed (concat ("Unknown validator kind: " ∷ kind ∷ [])), disk)

  -- `try: return self.validate_path(...)`, `finally: temp_path.unlink(missing_ok=True)`
  unfoldable pub validate_content : ConfigResolution → String → Disk → Attempt Fields × Disk
  validate_content resolution content disk =
      chain (write_temp_file os targets state_dir resolution.path content disk)
        (λ temp d. let (valid, d') = validate_path resolution temp d in (valid, unlink temp d'))

  -- The part behind the temporary file, with the removal of that file on every exception.
  unfoldable pub apply_validated : ConfigResolution → FilePath → Disk → Attempt Fields × Disk
  apply_validated resolution temp disk = or_unlink temp (
      chain (validate_path resolution temp disk) (λ valid d.
        chain (apply_temp_file os targets state_dir temp resolution.path d)
          (λ _ d'. (done valid, d'))))

  -- What follows the write of the temporary file.
  unfoldable pub finish :
      ConfigResolution → Option FilePath → FilePath → Disk → Attempt Written × Disk
  finish resolution backup temp disk = chain (apply_validated resolution temp disk) (λ valid d. (
    done (record { resolution = resolution; changed = true; backup = backup; validated = valid }),
    d,
  ))

  -- What follows the backup.
  unfoldable pub replace_content :
      ConfigResolution → String → Option FilePath → Disk → Attempt Written × Disk
  replace_content resolution content backup disk =
      chain (write_temp_file os targets state_dir resolution.path content disk)
        (λ temp d. finish resolution backup temp d)

  -- The part that writes, with its backup, that `write_text` and `restore_backup` share.
  unfoldable pub install : ConfigResolution → String → Disk → Attempt Written × Disk
  install resolution content disk =
      chain (make_directory os (parent_of resolution.path) disk) (λ _ d1.
        chain (create_backup os targets state_dir resolution.path resolution.target.name d1)
          (λ backup d2. replace_content resolution content backup d2))

  -- `target_path.read_text(encoding="utf-8") if target_path.exists() else None`
  unfoldable pub current_content : FilePath → Disk → Attempt (Option String)
  current_content path disk =
      if exists path disk
      then follow (read_text path disk) (λ text. done (some text))
      else done none

  -- The branches behind the reading of the current content.
  unfoldable pub write_changed :
      ConfigResolution → String → Option String → Disk → Attempt Written × Disk
  unfolding same_text
  write_changed resolution content current disk =
      if same_text current content
      then chain (validate_content resolution content disk) (λ valid d. (
        done
            (record { resolution = resolution; changed = false; backup = none; validated = valid }),
        d,
      ))
      else install resolution content disk

  unfoldable pub write_text : String → String → Disk → Attempt Written × Disk
  write_text text content disk =
      chain (resolve_target os targets state_dir text, disk)
        (λ resolution d.
          chain (validate_content_size content, d)
            (λ _ d1.
              chain (current_content resolution.path d1, d1)
                (λ current d2. write_changed resolution content current d2)))

  -- The checks of a backup's path, and its text.
  unfoldable pub read_backup : FilePath → Disk → Attempt String
  read_backup backup disk =
      if not (exists backup disk)
      then failed (concat ("Backup file `" ∷ path_text backup ∷ "` does not exist." ∷ []))
      else if not (is_some (relative_to backup (real (backup_root os targets state_dir))))
      then failed "Backup path is outside the managed backup directory."
      else follow (read_text_file os targets state_dir backup disk)
          (λ content. follow (validate_content_size content) (λ _. done content))

  unfoldable pub restore_backup : String → String → Disk → Attempt Written × Disk
  restore_backup text backup_text disk =
      chain (resolve_target os targets state_dir text, disk)
        (λ resolution d.
          chain (read_backup (resolve backup_text) d, d)
            (λ content d1. install resolution content d1))

  unfoldable pub read_managed_text : String → Disk → Attempt ReadText
  read_managed_text text disk = follow (resolve_target os targets state_dir text) (λ resolution.
      follow (read_text_file os targets state_dir resolution.path disk) (λ content. done (record {
        resolution = resolution;
        line_count = length (splitlines content);
        content = content;
      })))
