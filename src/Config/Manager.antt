-- ===== src/Config/Manager.antt =====
-- ConfigManager of config_manager.py.
use Prim.Native.Nat.{◌%◌}
use master_control.Prelude.{
  ℕ, String, Bool, not, Option, none, some, List, [], ◌∷◌, ltb, concat, join, if◌then◌else◌,
}
use master_control.Value.{Value, Fields, dict_of}
use master_control.Tools.Attempt.{Attempt, done, failed, escaped, chain}
use master_control.Config.Targets.{FilePath, ConfigTarget, matches}
use master_control.Config.Disk.{
  utf8, Disk, Os, encoded_size, size_of, parent_of, exists, put_file, read_text, unlink,
  make_directory, write_file,
}

abbrev pub max_config_file_bytes : ℕ
max_config_file_bytes = 131072

pub record ConfigResolution : Type 0 where
  pub path : FilePath
  pub target : ConfigTarget

-- `try: ... except: path.unlink(missing_ok=True); raise`
unfoldable pub or_unlink : {A : Type 0} → FilePath → Attempt A × Disk → Attempt A × Disk
or_unlink path (done a, disk) = (done a, disk)
or_unlink path (failed text, disk) = (failed text, unlink path disk)
or_unlink path (escaped text, disk) = (escaped text, unlink path disk)

pub size_message : String → String
size_message subject = concat (subject ∷ " exceeds the maximum managed size of 131072 bytes." ∷ [])

unfoldable pub validate_content_size : String → Attempt (Unit {0})
unfolding size_message
validate_content_size content =
    if ltb max_config_file_bytes (encoded_size content)
    then failed (size_message "Content")
    else done tt

pub validation : String → List (String × Value) → Fields
validation kind more = dict_of (("kind", Value.str kind) ∷ ("status", Value.str "ok") ∷ more)

find_target : (ConfigTarget → Bool) → FilePath → List ConfigTarget → Option ConfigResolution
find_target p path [] = none
find_target p path (target ∷ targets) =
    let rest = find_target p path targets in
    if p target then some (record { path = path; target = target }) else rest

module _ (os : Os) (targets : List ConfigTarget) (state_dir : FilePath) where
  open os use {
    texts, resolve, real, subpath, path_text, make_temp, timestamp, os_error, ini_error, json_error,
    format_part, run_validator,
  }

  abbrev pub backup_root : FilePath
  backup_root = subpath state_dir "config-backups"

  unfoldable pub resolve_target : String → Attempt ConfigResolution
  unfolding find_target
  resolve_target text =
      let path = resolve text in
      elim (find_target (λ target. matches texts target path) path targets) [
        | some resolution ↦ done resolution
        | none ↦
            failed
              (concat ("Path `" ∷ path_text path ∷ "` is not managed by the config policy." ∷ []))
      ]

  unfoldable pub read_text_file : FilePath → Disk → Attempt String
  unfolding size_message
  read_text_file path disk =
      if not (exists path disk)
      then failed (concat ("File `" ∷ path_text path ∷ "` does not exist." ∷ []))
      else if disk.directory path
      then failed (concat ("Path `" ∷ path_text path ∷ "` is a directory, not a file." ∷ []))
      else elim (disk.file path) [
        | none ↦ read_text path disk
        | some file ↦
            if ltb max_config_file_bytes (size_of file.content)
            then failed (size_message (concat ("File `" ∷ path_text path ∷ "`" ∷ [])))
            else read_text path disk
      ]

  -- `tempfile.mkstemp` and the write to its file; the file of a write that fails is removed.
  unfoldable pub create_temp : FilePath → String → Disk → Attempt FilePath × Disk
  create_temp target_path content disk =
      let temp = make_temp target_path disk in
      elim (os_error "mkstemp" temp disk) [
        | some text ↦ (escaped text, disk)
        | none ↦
            if exists temp disk
            then (escaped "FileExistsError", disk)
            else elim (os_error "write" temp disk) [
              | some text ↦ (escaped text, unlink temp disk)
              | none ↦ (
                done temp,
                put_file temp (some (record { content = utf8 content; mode = 384 })) disk,
              )
            ]
      ]

  -- `_write_temp_file`
  unfoldable pub write_temp_file : FilePath → String → Disk → Attempt FilePath × Disk
  write_temp_file target_path content disk =
      chain (make_directory os (parent_of target_path) disk)
        (λ _ d. create_temp target_path content d)

  -- The mode that the new file gets: `st_mode & 0o777`, or 0o644.
  unfoldable pub applied_mode : FilePath → Disk → ℕ
  applied_mode target_path disk = elim (disk.file target_path) [
    | some file ↦ file.mode % 512
    | none ↦ 420
  ]

  -- `os.chmod` and `os.replace`
  unfoldable pub apply_temp_file : FilePath → FilePath → Disk → Attempt (Unit {0}) × Disk
  apply_temp_file temp target_path disk = elim (os_error "replace" target_path disk) [
    | some text ↦ (escaped text, disk)
    | none ↦ elim (disk.file temp) [
      | none ↦ (escaped "FileNotFoundError", disk)
      | some file ↦ (
        done tt,
        put_file target_path
            (some (record { content = file.content; mode = applied_mode target_path disk }))
            (unlink temp disk),
      )
    ]
  ]

  -- The path of the backup that `_create_backup` writes.
  unfoldable pub backup_path : FilePath → String → FilePath
  backup_path target_path target_name =
      subpath (subpath backup_root target_name)
        (concat (timestamp ∷ "__" ∷ join "__" (real target_path) ∷ ".bak" ∷ []))

  -- The copy to the backup's path.
  unfoldable pub copy_to_backup : FilePath → String → Disk → Attempt (Option FilePath) × Disk
  copy_to_backup target_path target_name disk =
      chain (read_text target_path disk, disk)
        (λ text d.
          chain (write_file os (backup_path target_path target_name) text d)
            (λ _ d'. (done (some (backup_path target_path target_name)), d')))

  unfoldable pub create_backup : FilePath → String → Disk → Attempt (Option FilePath) × Disk
  create_backup target_path target_name disk =
      if not (exists target_path disk)
      then (done none, disk)
      else chain (make_directory os (subpath backup_root target_name) disk)
          (λ _ d. copy_to_backup target_path target_name d)
