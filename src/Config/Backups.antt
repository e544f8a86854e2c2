-- ===== src/Config/Backups.antt =====
-- The backup of a write, and the whole of its writing part (config_manager.py).
use master_control.Prelude.{
  ap, String, true, Option, some, List, ◌≡◌, inl, inr, refl, sym, ◌∙◌, Option-cases, arith,
}
use master_control.Tools.Attempt.{done-chain, chain-done, Attempt, done, done-chain, chain-done}
use master_control.Config.Targets.{FilePath, ConfigTarget}
use master_control.Config.Disk.{
  utf8, File, Disk, Os, file-put_file, newlines, exists, read_text, make_directory, write_file,
}
use master_control.Tools.UnitNames.{done-inj}
use master_control.Config.Manager.{
  copy_to_backup, backup_root, create_backup, backup_path, backup_root,
}
use master_control.Config.Temporary.{make_directory-Same}

-- The backup holds what the path read as before.
abbrev pub Saved : FilePath → FilePath → Disk → Disk → Type 0
Saved backup p before after =
    (old : File) (text : String)
    → before.file p ≡ some old
    → old.content ≡ utf8 text
    → (b : File) × (after.file backup ≡ some b) × (b.content ≡ utf8 (newlines text))

module _ (os : Os) where
  write_file-saves :
      (path : FilePath) (text : String) (d : Disk)
      → (write_file os path text d).0 ≡ done tt
      → (b : File) × ((write_file os path text d).1.file path ≡ some b) × (b.content ≡ utf8 text)
  unfolding write_file
  write_file-saves path text d h = elim (Option-cases (os.os_error "write" path d)) [
    | inl e ↦ rw (e, write_file) (_, file-put_file path _ d, refl)
    | inr (t, e) ↦ ground (arith, e, h)
  ]

pub read_text-file :
    (path : FilePath) (d : Disk) (old : File) (text : String)
    → d.file path ≡ some old
    → old.content ≡ utf8 text
    → read_text path d ≡ done (newlines text)
unfolding read_text
read_text-file path d old text h k = rw (h, read_text) (rw k refl)

module _ (os : Os) (targets : List ConfigTarget) (state_dir : FilePath) where
  copy_to_backup-Saved :
      (target : FilePath) (name : String) (d : Disk) (made : Option FilePath)
      → (copy_to_backup os targets state_dir target name d).0 ≡ done made
      → Saved
          (backup_path os targets state_dir target name)
          target
          d
          (copy_to_backup os targets state_dir target name d).1
  unfolding copy_to_backup
  copy_to_backup-Saved target name d made h old text at is =
      let b = backup_path os targets state_dir target name in
      let read = read_text-file target d old text at is in
      let (found, e, h1) = done-chain (read_text target d, d) _ made h in
      let same : found ≡ newlines text = done-inj (sym e ∙ read) in
      let (u, e1, _) = done-chain (write_file os b found d) _ made h1 in
      let (file, at', holds) = write_file-saves os b found d e1 in
      (
        file,
        ap (λ (x : Attempt (Option FilePath) × Disk). x.1.file b)
              (chain-done (read_text target d, d) _ found e
                ∙ chain-done (write_file os b found d) _ u e1)
            ∙ at',
        holds ∙ ap utf8 same,
      )

  pub create_backup-Saved :
      (target : FilePath) (name : String) (d : Disk) (made : Option FilePath)
      → (create_backup os targets state_dir target name d).0 ≡ done made
      → Saved
          (backup_path os targets state_dir target name)
          target
          d
          (create_backup os targets state_dir target name d).1
  unfolding create_backup exists
  create_backup-Saved target name d made h old text at is =
      let there : exists target d ≡ true = rw (at, exists) refl in
      let directory = make_directory os (os.subpath (backup_root os targets state_dir) name) d in
      let h' = rw (there, create_backup) at h in
      let (u, e, copied) = done-chain directory _ made h' in
      let before : directory.1.file target ≡ some old = make_directory-Same os _ target d ∙ at in
      let (file, at', holds) =
        copy_to_backup-Saved target name directory.1 made copied old text before is in
      (
        file,
        rw (there, create_backup)
            (ap
                (λ (x : Attempt (Option FilePath) × Disk).
                  x.1.file (backup_path os targets state_dir target name))
                (chain-done directory _ u e)
              ∙ at'),
        holds,
      )
