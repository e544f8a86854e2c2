-- ===== src/Config/Outcomes.antt =====
-- How `write_text` and `restore_backup` of config_manager.py end.
use master_control.Prelude.{String, true, false, Option, List, ◌≡◌, ◌⊎◌, inl, inr, refl, ◌∙◌}
use master_control.Tools.Attempt.{Attempt, done, failed, escaped, chain}
use master_control.Config.Targets.{FilePath, ConfigTarget}
use master_control.Config.Disk.{Disk, Os, same_path, same_path_sym, parent_of, make_directory}
use master_control.Config.Manager.{ConfigResolution, create_backup, backup_path}
use master_control.Config.Writes.{install, replace_content}
use master_control.Config.Installed.{is_done}
use master_control.Config.Temporary.{Same, create_backup-Same, make_directory-Same}
use master_control.Config.Safety.{Holds, replace_content-TailEnds}
use master_control.Config.Backups.{Saved, create_backup-Saved}

module _ (os : Os) (targets : List ConfigTarget) (state_dir : FilePath) where
  abbrev pub backup_of : ConfigResolution → FilePath
  backup_of r = backup_path os targets state_dir r.path r.target.name

  -- A write without a value leaves every file but the backup as it was. A write with a value leaves the
  -- text at the target, what the target held in the backup, and every other file as it was.
  abbrev pub WriteEnds : {A : Type 0} → ConfigResolution → String → Disk → Attempt A × Disk → Type 0
  WriteEnds r content d x =
      ((is_done x.0 ≡ false) × ((p : FilePath) → same_path p (backup_of r) ≡ false → Same p d x.1))
      ⊎ ((is_done x.0 ≡ true)
          × Holds content r.path d x.1
          × Saved (backup_of r) r.path d x.1
          × ((p : FilePath)
              → same_path p (backup_of r) ≡ false
              → same_path p r.path ≡ false
              → Same p d x.1))

  WriteEnds-before :
      {A : Type 0} (r : ConfigResolution) (content : String) (d d' : Disk) (x : Attempt A × Disk)
      → ((p : FilePath) → Same p d d')
      → WriteEnds r content d' x
      → WriteEnds r content d x
  WriteEnds-before r content d d' x same (inl (bad, h)) = inl (bad, λ p k. h p k ∙ same p)
  WriteEnds-before r content d d' x same (inr (good, (f, at, is, mode), saved, h)) = inr (
    good,
    (f, at, is, λ old k. mode old (same r.path ∙ k)),
    λ old text k. saved old text (same r.path ∙ k),
    λ p k l. h p k l ∙ same p,
  )

  module _ (quiet : (command : List String) (d : Disk) → (os.run_validator command d).1 ≡ d)
      (r : ConfigResolution) (apart : same_path r.path (backup_of r) ≡ false) where
    backed-WriteEnds :
        (content : String) (d : Disk) (x : Attempt (Option FilePath) × Disk)
        → ((p : FilePath) → same_path p (backup_of r) ≡ false → Same p d x.1)
        → ((made : Option FilePath) → x.0 ≡ done made → Saved (backup_of r) r.path d x.1)
        → WriteEnds r content d
            (chain x (λ backup d'. replace_content os targets state_dir r content backup d'))
    unfolding chain
    backed-WriteEnds content d (failed t, d') h k = inl (refl, h)
    backed-WriteEnds content d (escaped t, d') h k = inl (refl, h)
    backed-WriteEnds content d (done made, d') h k =
        elim (replace_content-TailEnds os targets state_dir quiet r content made d') [
          | inl (bad, same) ↦ inl (bad, λ p e. same p ∙ h p e)
          | inr (good, (f, at, is, mode), same) ↦ inr (
            good,
            (f, at, is, λ old e. mode old (h r.path apart ∙ e)),
            λ old text e i.
                let (b, at', is') = k made refl old text e i in
                (b, same (backup_of r) (same_path_sym r.path (backup_of r) apart) ∙ at', is'),
            λ p e l. same p l ∙ h p e,
          )
        ]

    directory-WriteEnds :
        (content : String) (d : Disk) (x : Attempt (Unit {0}) × Disk)
        → ((p : FilePath) → Same p d x.1)
        → WriteEnds r content d (
            chain x (λ _ d1.
              chain
                (create_backup os targets state_dir r.path r.target.name d1)
                (λ backup d2. replace_content os targets state_dir r content backup d2)))
    unfolding chain
    directory-WriteEnds content d (failed t, d') h = inl (refl, λ p _. h p)
    directory-WriteEnds content d (escaped t, d') h = inl (refl, λ p _. h p)
    directory-WriteEnds content d (done u, d') h =
        WriteEnds-before r content d d'
          (chain (create_backup os targets state_dir r.path r.target.name d')
            (λ backup d2. replace_content os targets state_dir r content backup d2))
          h
          (backed-WriteEnds content d' (create_backup os targets state_dir r.path r.target.name d')
            (λ p e. create_backup-Same os targets state_dir r.path p r.target.name d' e)
            (λ made e. create_backup-Saved os targets state_dir r.path r.target.name d' made e))

    pub install-WriteEnds :
        (content : String) (d : Disk)
        → WriteEnds r content d (install os targets state_dir r content d)
    unfolding install
    install-WriteEnds content d =
        directory-WriteEnds content d (make_directory os (parent_of r.path) d)
          (λ p. make_directory-Same os (parent_of r.path) p d)
