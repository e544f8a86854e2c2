-- ===== src/Config/Temporary.antt =====
-- The temporary file and the backup of a write (config_manager.py), and what they leave alone.
use mathlib.Core.Path.{subst}
use master_control.Prelude.{
  arith, String, false, none, some, List, ◌≡◌, ◌⊎◌, inl, inr, refl, sym, ◌∙◌, Bool-cases,
  Option-cases,
}
use master_control.Tools.Attempt.{Attempt, done, failed, escaped, chain, chain-keeps}
use master_control.Config.Targets.{FilePath, ConfigTarget}
use master_control.Config.Disk.{
  utf8, Disk, Os, same_path, same_path-eq, file-put_file, file-put_file_other, parent_of, exists,
  put_file, unlink, make_directory, write_file,
}
use master_control.Config.Manager.{
  copy_to_backup, create_temp, write_temp_file, write_temp_file, create_temp, create_backup,
  backup_path,
}
use master_control.Config.Installed.{is_done}

-- The two disks have the same file at a path.
abbrev pub Same : FilePath → Disk → Disk → Type 0
Same p before after = after.file p ≡ before.file p

module _ (os : Os) where
  pub make_directory-Same : (path p : FilePath) (d : Disk) → Same p d (make_directory os path d).1
  unfolding make_directory
  make_directory-Same path p d = elim (Option-cases (os.os_error "mkdir" path d)) [
    | inl e ↦ rw (e, make_directory) refl
    | inr (t, e) ↦ rw (e, make_directory) refl
  ]

  write_file-Same :
      (path p : FilePath) (text : String) (d : Disk)
      → same_path p path ≡ false
      → Same p d (write_file os path text d).1
  unfolding write_file
  write_file-Same path p text d h = elim (Option-cases (os.os_error "write" path d)) [
    | inl e ↦ rw (e, write_file) (file-put_file_other p path _ d h)
    | inr (t, e) ↦ rw (e, write_file) refl
  ]

module _ (os : Os) (targets : List ConfigTarget) (state_dir : FilePath) where
  copy_to_backup-Same :
      (target p : FilePath) (name : String) (d : Disk)
      → same_path p (backup_path os targets state_dir target name) ≡ false
      → Same p d (copy_to_backup os targets state_dir target name d).1
  unfolding copy_to_backup
  copy_to_backup-Same target p name d h = chain-keeps (Same p d) _ _ refl (λ text _.
      let written = write_file-Same os _ p text d h in
      chain-keeps (Same p d) _ _ written (λ _ _. written))

  pub create_backup-Same :
      (target p : FilePath) (name : String) (d : Disk)
      → same_path p (backup_path os targets state_dir target name) ≡ false
      → Same p d (create_backup os targets state_dir target name d).1
  unfolding create_backup
  create_backup-Same target p name d h = elim (Bool-cases (exists target d)) [
    | inr e ↦ rw (e, create_backup) refl
    | inl e ↦
        rw (e, create_backup)
          (let made = make_directory-Same os _ p d in
            chain-keeps (Same p d) _ _ made (λ _ _. copy_to_backup-Same target p name _ h ∙ made))
  ]

  -- How the temporary file's write ends: without a value and with every file as before, or with a new file
  -- beside the others.
  abbrev pub TempEnds : String → Disk → Attempt FilePath × Disk → Type 0
  TempEnds content d x =
      ((is_done x.0 ≡ false) × ((p : FilePath) → Same p d x.1))
      ⊎ ((temp : FilePath) × (x.0 ≡ done temp)
          × (d.file temp ≡ none)
          × (x.1.file temp ≡ some (record { content = utf8 content; mode = 384 }))
          × ((p : FilePath) → same_path p temp ≡ false → Same p d x.1))

  pub unlink_fresh-Same :
      (temp p : FilePath) (d : Disk) → d.file temp ≡ none → Same p d (unlink temp d)
  unfolding unlink
  unlink_fresh-Same temp p d h = elim (Bool-cases (same_path p temp)) [
    | inr e ↦ file-put_file_other p temp none d e
    | inl e ↦
        let same = same_path-eq p temp e in
        subst (λ q. Same q d (put_file temp none d)) (sym same) (file-put_file temp none d ∙ sym h)
  ]

  absent-file : (path : FilePath) (d : Disk) → exists path d ≡ false → d.file path ≡ none
  unfolding exists
  absent-file path d h = elim (Option-cases (d.file path)) [
    | inl e ↦ e
    | inr (f, e) ↦ let wrong = rw (e, exists) at h in ground (arith, wrong)
  ]

  create_temp-ends :
      (target : FilePath) (content : String) (d : Disk)
      → TempEnds content d (create_temp os targets state_dir target content d)
  unfolding create_temp
  create_temp-ends target content d =
      let temp = os.make_temp target d in
      elim (Option-cases (os.os_error "mkstemp" temp d)) [
        | inr (t, e) ↦ rw (e, create_temp) (inl (refl, λ p. refl))
        | inl e ↦ elim (Bool-cases (exists temp d)) [
          | inl k ↦ rw (e, create_temp) (rw k (inl (refl, λ p. refl)))
          | inr k ↦
              let new = absent-file temp d k in
              elim (Option-cases (os.os_error "write" temp d)) [
                | inr (t, f) ↦
                    rw (e, create_temp)
                      (rw k (rw f (inl (refl, λ p. unlink_fresh-Same temp p d new))))
                | inl f ↦
                    rw (e, create_temp)
                      (rw k (
                        rw f (
                          inr (
                            temp,
                            refl,
                            new,
                            file-put_file temp _ d,
                            λ p h. file-put_file_other p temp _ d h,
                          ))))
              ]
        ]
      ]

  TempEnds-before :
      (content : String) (d d' : Disk) (x : Attempt FilePath × Disk)
      → ((p : FilePath) → Same p d d')
      → TempEnds content d' x
      → TempEnds content d x
  TempEnds-before content d d' x same (inl (f, k)) = inl (f, λ p. k p ∙ same p)
  TempEnds-before content d d' x same (inr (temp, e, new, file, k)) =
      inr (temp, e, sym (same temp) ∙ new, file, λ p h. k p h ∙ same p)

  made-ends :
      (target : FilePath) (content : String) (d : Disk) (x : Attempt (Unit {0}) × Disk)
      → ((p : FilePath) → Same p d x.1)
      → TempEnds content d (chain x (λ _ d'. create_temp os targets state_dir target content d'))
  unfolding chain
  made-ends target content d (done u, d') h =
      TempEnds-before content d d' (create_temp os targets state_dir target content d') h
        (create_temp-ends target content d')
  made-ends target content d (failed t, d') h = inl (refl, h)
  made-ends target content d (escaped t, d') h = inl (refl, h)

  pub write_temp_file-ends :
      (target : FilePath) (content : String) (d : Disk)
      → TempEnds content d (write_temp_file os targets state_dir target content d)
  unfolding write_temp_file
  write_temp_file-ends target content d =
      made-ends target content d (make_directory os (parent_of target) d)
        (λ p. make_directory-Same os (parent_of target) p d)
