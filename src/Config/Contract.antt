-- ===== src/Config/Contract.antt =====
-- What `write_text` and `restore_backup` of config_manager.py do to the files.
use mathlib.Core.Path.{subst}
use master_control.Prelude.{
  ap, String, false, Option, none, some, List, ◌≡◌, ◌⊎◌, inl, inr, refl, sym, ◌∙◌, Bool-cases,
  arith, eq_iff,
}
use master_control.Tools.Attempt.{Attempt, done, failed, escaped, chain, chain-keeps}
use master_control.Tools.UnitNames.{done-inj}
use master_control.Config.Targets.{FilePath, ConfigTarget}
use master_control.Config.Disk.{Disk, Os, same_path, unlink}
use master_control.Config.Manager.{
  ConfigResolution, resolve_target, validate_content_size, write_temp_file,
}
use master_control.Config.Writes.{
  install, write_text, write_changed, current_content, restore_backup, read_backup,
  validate_content, validate_path, same_text,
}
use master_control.Config.Installed.{validate_path-disk}
use master_control.Config.Temporary.{Same, TempEnds, write_temp_file-ends}
use master_control.Config.Safety.{gone-Same}
use master_control.Config.Outcomes.{WriteEnds, backup_of, install-WriteEnds}

module _ (os : Os) (targets : List ConfigTarget) (state_dir : FilePath)
    (quiet : (command : List String) (d : Disk) → (os.run_validator command d).1 ≡ d) where
  temp-validated-Same :
      (r : ConfigResolution) (content : String) (p : FilePath) (d : Disk)
      (x : Attempt FilePath × Disk)
      → TempEnds os targets state_dir content d x
      → Same p d
          (chain x (λ temp d'.
            let (valid, d'') = validate_path os targets state_dir r temp d' in
            (valid, unlink temp d''))).1
  unfolding chain
  temp-validated-Same r content p d (failed t, d') (inl (bad, h)) = h p
  temp-validated-Same r content p d (escaped t, d') (inl (bad, h)) = h p
  temp-validated-Same r content p d (done t, d') (inl (bad, h)) = ground (arith, bad)
  temp-validated-Same r content p d (failed t, d') (inr (temp, e, _, _, _)) = ground (arith, e)
  temp-validated-Same r content p d (escaped t, d') (inr (temp, e, _, _, _)) = ground (arith, e)
  temp-validated-Same r content p d (done t, d') (inr (temp, e, new, at, h)) =
      let same : t ≡ temp = done-inj e in
      let quiet' = validate_path-disk os targets state_dir quiet r t d' in
      subst (λ (y : Disk). Same p d (unlink t y)) (sym quiet')
        (subst (λ t. Same p d (unlink t d')) (sym same)
          (gone-Same os targets state_dir quiet temp d d' new h p))

  -- A validation leaves every file as it was.
  validate_content-Same :
      (r : ConfigResolution) (content : String) (p : FilePath) (d : Disk)
      → Same p d (validate_content os targets state_dir r content d).1
  unfolding validate_content
  validate_content-Same r content p d =
      temp-validated-Same r content p d (write_temp_file os targets state_dir r.path content d)
        (write_temp_file-ends os targets state_dir r.path content d)

  -- The target reads as the text already, and every file stays as it was.
  abbrev pub Unchanged : {A : Type 0} → ConfigResolution → String → Disk → Attempt A × Disk → Type 0
  Unchanged r content d x =
      (current_content os targets state_dir r.path d ≡ done (some content))
      × ((p : FilePath) → Same p d x.1)

  module _ (r : ConfigResolution)
      (apart : same_path r.path (backup_of os targets state_dir r) ≡ false) where
    write_changed-ends :
        (content : String) (current : Option String) (d : Disk)
        → current_content os targets state_dir r.path d ≡ done current
        → WriteEnds os targets state_dir r content d
            (write_changed os targets state_dir r content current d)
          ⊎ Unchanged r content d (write_changed os targets state_dir r content current d)
    unfolding write_changed
    write_changed-ends content none d e =
        inl (unfold same_text in install-WriteEnds os targets state_dir quiet r apart content d)
    write_changed-ends content (some text) d e = elim (Bool-cases (same_text (some text) content)) [
      | inr f ↦
          inl
            (rw (f, write_changed) (install-WriteEnds os targets state_dir quiet r apart content d))
      | inl f ↦
          let same : text ≡ content = unfold same_text in (eq_iff text content).0 f in
          inr (
            e ∙ ap (λ s. done (some s)) same,
            λ p.
                rw (f, write_changed)
                  (chain-keeps (Same p d) _ _ (validate_content-Same r content p d)
                    (λ _ _. validate_content-Same r content p d)),
          )
    ]

    current-ends :
        (content : String) (d : Disk) (x : Attempt (Option String))
        → current_content os targets state_dir r.path d ≡ x
        → WriteEnds os targets state_dir r content d
            (chain (x, d) (λ current d2. write_changed os targets state_dir r content current d2))
          ⊎ Unchanged r content d
              (chain (x, d) (λ current d2. write_changed os targets state_dir r content current d2))
    unfolding chain
    current-ends content d (done current) e = write_changed-ends content current d e
    current-ends content d (failed t) e = inl (inl (refl, λ p _. refl))
    current-ends content d (escaped t) e = inl (inl (refl, λ p _. refl))

    sized-ends :
        (content : String) (d : Disk) (x : Attempt (Unit {0}))
        → WriteEnds os targets state_dir r content d (
            chain
              (x, d)
              (λ _ d1.
                chain
                  (current_content os targets state_dir r.path d1, d1)
                  (λ current d2. write_changed os targets state_dir r content current d2)))
          ⊎ Unchanged r content d (
              chain
                (x, d)
                (λ _ d1.
                  chain
                    (current_content os targets state_dir r.path d1, d1)
                    (λ current d2. write_changed os targets state_dir r content current d2)))
    unfolding chain
    sized-ends content d (done u) =
        current-ends content d (current_content os targets state_dir r.path d) refl
    sized-ends content d (failed t) = inl (inl (refl, λ p _. refl))
    sized-ends content d (escaped t) = inl (inl (refl, λ p _. refl))

    -- A write to a managed path ends in one of three ways. With an error, every file but the new backup is as
    -- it was before. Without one, the target holds exactly the text, with the old file's permission bits,
    -- the backup holds what the target read as before, and every other file is as before. Or the target
    -- read as the text already, and every file is as before, with an error of the validation or without.
    -- It is assumed that a validator's command changes no file, and that the target is not the backup's
    -- path.
    pub write_text-ends :
        (text content : String) (d : Disk)
        → resolve_target os targets state_dir text ≡ done r
        → WriteEnds os targets state_dir r content d
            (write_text os targets state_dir text content d)
          ⊎ Unchanged r content d (write_text os targets state_dir text content d)
    unfolding write_text chain
    write_text-ends text content d e =
        rw (e, write_text) (sized-ends content d (validate_content_size content))

    restored-ends :
        (d : Disk) (x : Attempt String) (content : String)
        → x ≡ done content
        → WriteEnds os targets state_dir r content d
            (chain (x, d) (λ content d1. install os targets state_dir r content d1))
    unfolding chain
    restored-ends d x content e =
        rw e (install-WriteEnds os targets state_dir quiet r apart content d)

    -- A restoration of a managed path from a backup that can be read ends like a write of the backup's text:
    -- with an error and every file but the new backup as it was before, or without one, the text at the target
    -- and what the target read as before in the new backup. It is assumed that a validator's command changes
    -- no file, and that the target is not the new backup's path.
    pub restore_backup-ends :
        (text backup_text content : String) (d : Disk)
        → resolve_target os targets state_dir text ≡ done r
        → read_backup os targets state_dir (os.resolve backup_text) d ≡ done content
        → WriteEnds os targets state_dir r content d
            (restore_backup os targets state_dir text backup_text d)
    unfolding restore_backup chain
    restore_backup-ends text backup_text content d e f =
        rw (e, restore_backup)
          (restored-ends d (read_backup os targets state_dir (os.resolve backup_text) d) content f)
