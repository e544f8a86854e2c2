-- ===== src/Tools/ConfigTools.antt =====
-- The tools read_config_file, write_config_file and restore_config_backup (tools/).
use master_control.Prelude.{
  String, Option, none, some, List, [], ◌∷◌, is_empty, true, if◌then◌else◌,
}
use master_control.Value.{Value, Fields, ℤ, get, dict_of}
use master_control.Runtime.State.{Invoked}
use master_control.Tools.Attempt.{Attempt, done, failed, follow, chain}
use master_control.Tools.Arguments.{get_string_argument}
use master_control.Tools.ServiceTools.{invoked}
use master_control.Config.Targets.{FilePath, ConfigTarget}
use master_control.Config.Disk.{Disk, Os}
use master_control.Config.Writes.{Written, ReadText, read_managed_text, write_text, restore_backup}

-- `if path is None: raise ...`
required_argument : String → Option String → Attempt String
required_argument message none = failed message
required_argument message (some text) = done text

-- The content of a write: any text but the empty one, as it is.
content_argument : Option Value → Attempt String
content_argument (some (Value.str text)) =
    if is_empty text then failed "Argument 'content' cannot be empty." else done text
content_argument _ = failed "Argument 'content' must be a string."

path_or_null : (FilePath → String) → Option FilePath → Value
path_or_null path_text none = Value.null
path_or_null path_text (some path) = Value.str (path_text path)

module _ (os : Os) (targets : List ConfigTarget) (state_dir : FilePath) where
  open os use {path_text, resolve}

  read_dict : ReadText → Fields
  read_dict r = dict_of (
      ("status", Value.str "ok")
      ∷ ("path", Value.str (path_text r.resolution.path))
      ∷ ("target", Value.str r.resolution.target.name)
      ∷ ("line_count", Value.int (ℤ.pos r.line_count))
      ∷ ("content", Value.str r.content)
      ∷ [])

  written_dict : Written → Fields
  unfolding path_or_null
  written_dict w = dict_of (
      ("status", Value.str "ok")
      ∷ ("path", Value.str (path_text w.resolution.path))
      ∷ ("target", Value.str w.resolution.target.name)
      ∷ ("changed", Value.bool w.changed)
      ∷ ("backup_path", path_or_null path_text w.backup)
      ∷ ("validation", Value.dict w.validated)
      ∷ [])

  restored_dict : String → Written → Fields
  unfolding path_or_null
  restored_dict backup w = dict_of (
      ("status", Value.str "ok")
      ∷ ("path", Value.str (path_text w.resolution.path))
      ∷ ("target", Value.str w.resolution.target.name)
      ∷ ("restored_from", Value.str (path_text (resolve backup)))
      ∷ ("rollback_backup_path", path_or_null path_text w.backup)
      ∷ ("validation", Value.dict w.validated)
      ∷ [])

  path_argument : Fields → Attempt String
  unfolding required_argument
  path_argument arguments =
      follow (get_string_argument arguments "path" true none)
        (required_argument "Argument 'path' is required.")

  unfoldable pub read_config_file : Fields → Disk → Invoked × Disk
  unfolding path_argument read_dict
  read_config_file arguments disk = invoked (
    follow (path_argument arguments) (λ path.
        follow (read_managed_text os targets state_dir path disk) (λ r. done (read_dict r))),
    disk,
  )

  -- The source checks the content before the test that `path` is not None, which a required argument
  -- always passes.
  unfoldable pub write_config_file : Fields → Disk → Invoked × Disk
  unfolding path_argument content_argument written_dict
  write_config_file arguments disk = invoked (
      chain (path_argument arguments, disk)
        (λ path d.
          chain (content_argument (get "content" arguments), d)
            (λ content d1.
              chain (write_text os targets state_dir path content d1)
                (λ w d2. (done (written_dict w), d2)))))

  unfoldable pub restore_config_backup : Fields → Disk → Invoked × Disk
  unfolding path_argument required_argument restored_dict
  restore_config_backup arguments disk = invoked (
      chain (path_argument arguments, disk)
        (λ path d.
          chain
            (
              follow (get_string_argument arguments "backup_path" true none)
                  (required_argument "Argument 'backup_path' is required."),
              d,
            )
            (λ backup d1.
              chain (restore_backup os targets state_dir path backup d1)
                (λ w d2. (done (restored_dict backup w), d2)))))
