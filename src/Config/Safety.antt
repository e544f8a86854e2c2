-- ===== src/Config/Safety.antt =====
-- The files across the writing part of `write_text` and `restore_backup` (config_manager.py).
use Prim.Native.Nat.{◌%◌}
use mathlib.Core.Path.{subst}
use master_control.Prelude.{
  ap, String, true, false, Option, none, some, List, ◌≡◌, ◌⊎◌, inl, inr, refl, sym, ◌∙◌, Bool-cases,
  arith,
}
use master_control.Value.{Fields}
use master_control.Tools.Attempt.{Attempt, done, failed, escaped, chain}
use master_control.Config.Targets.{FilePath, ConfigTarget}
use master_control.Config.Disk.{
  binary, Content, utf8, binary, Content, File, Disk, Os, same_path, same_path-eq, file-put_file,
  file-put_file_other, put_file, unlink,
}
use master_control.Config.Manager.{ConfigResolution, write_temp_file, applied_mode}
use master_control.Config.Writes.{apply_validated, finish, replace_content}
use master_control.Config.Installed.{is_done, apply_validated-ends}
use master_control.Config.Temporary.{Same, TempEnds, write_temp_file-ends}

abbrev content_at : Option File → Content
content_at none = binary 0
content_at (some f) = f.content

-- The file at a path holds the text, with the permission bits of the file that was there before, if one was.
abbrev pub Holds : String → FilePath → Disk → Disk → Type 0
Holds text p before after =
    (f : File) × (after.file p ≡ some f)
    × (f.content ≡ utf8 text)
    × ((old : File) → before.file p ≡ some old → f.mode ≡ old.mode % 512)

module _ (os : Os) (targets : List ConfigTarget) (state_dir : FilePath)
    (quiet : (command : List String) (d : Disk) → (os.run_validator command d).1 ≡ d) where
  -- How the part behind the backup ends: without a value and with every file as it was, or with the text
  -- at the target and every other file as it was.
  abbrev pub TailEnds : {A : Type 0} → ConfigResolution → String → Disk → Attempt A × Disk → Type 0
  TailEnds r content d x =
      ((is_done x.0 ≡ false) × ((p : FilePath) → Same p d x.1))
      ⊎ ((is_done x.0 ≡ true)
          × Holds content r.path d x.1
          × ((p : FilePath) → same_path p r.path ≡ false → Same p d x.1))

  applied_mode-old :
      (path : FilePath) (d : Disk) (old : File)
      → d.file path ≡ some old
      → applied_mode os targets state_dir path d ≡ old.mode % 512
  unfolding applied_mode
  applied_mode-old path d old h = rw (h, applied_mode) refl

  -- The files once the temporary one is gone.
  pub gone-Same :
      (temp : FilePath) (d d' : Disk)
      → d.file temp ≡ none
      → ((p : FilePath) → same_path p temp ≡ false → Same p d d')
      → (p : FilePath) → Same p d (unlink temp d')
  unfolding unlink
  gone-Same temp d d' new h p = elim (Bool-cases (same_path p temp)) [
    | inr e ↦ file-put_file_other p temp none d' e ∙ h p e
    | inl e ↦
        let same = same_path-eq p temp e in
        subst (λ q. Same q d (put_file temp none d')) (sym same)
          (file-put_file temp none d' ∙ sym new)
  ]

  -- The old mode is that of the disk before the temporary file.
  kept_mode :
      (path temp : FilePath) (d d' : Disk) (old : File)
      → d.file temp ≡ none
      → ((p : FilePath) → same_path p temp ≡ false → Same p d d')
      → d.file path ≡ some old
      → applied_mode os targets state_dir path d' ≡ old.mode % 512
  kept_mode path temp d d' old new h k = elim (Bool-cases (same_path path temp)) [
    | inr e ↦ applied_mode-old path d' old (h path e ∙ k)
    | inl e ↦
        let same = same_path-eq path temp e in
        let clash : none ≡ some old = sym new ∙ (sym (ap d.file same) ∙ k) in ground (arith, clash)
  ]

  apply_validated-TailEnds :
      (r : ConfigResolution) (content : String) (temp : FilePath) (d d' : Disk)
      → d.file temp ≡ none
      → d'.file temp ≡ some (record { content = utf8 content; mode = 384 })
      → ((p : FilePath) → same_path p temp ≡ false → Same p d d')
      → TailEnds r content d (apply_validated os targets state_dir r temp d')
  apply_validated-TailEnds r content temp d d' new at h =
      elim (apply_validated-ends os targets state_dir quiet r temp d') [
        | inl (bad, w) ↦ inl (bad, λ p. ap (λ (x : Disk). x.file p) w ∙ gone-Same temp d d' new h p)
        | inr (file, good, f, w) ↦
            let same : some file ≡ some (record { content = utf8 content; mode = 384 }) =
              sym f ∙ at in
            let text : file.content ≡ utf8 content = ap content_at same in
            inr (
              good,
              (
                record {
                  content = file.content;
                  mode = applied_mode os targets state_dir r.path d';
                },
                ap (λ (x : Disk). x.file r.path) w ∙ file-put_file r.path _ _,
                text,
                λ old k. kept_mode r.path temp d d' old new h k,
              ),
              λ p k.
                  ap (λ (x : Disk). x.file p) w
                  ∙ (file-put_file_other p r.path _ _ k ∙ gone-Same temp d d' new h p),
            )
      ]

  -- The result carries the value of its last step.
  wrapped-TailEnds :
      {A B : Type 0} (r : ConfigResolution) (content : String) (d : Disk) (f : A → B)
      (x : Attempt A × Disk)
      → TailEnds r content d x
      → TailEnds r content d (chain x (λ a d'. (done (f a), d')))
  unfolding chain
  wrapped-TailEnds r content d f (done a, d') h = h
  wrapped-TailEnds r content d f (failed t, d') h = h
  wrapped-TailEnds r content d f (escaped t, d') h = h

  finish-TailEnds :
      (r : ConfigResolution) (content : String) (backup : Option FilePath) (temp : FilePath)
      (d d' : Disk)
      → TailEnds r content d (apply_validated os targets state_dir r temp d')
      → TailEnds r content d (finish os targets state_dir r backup temp d')
  unfolding finish
  finish-TailEnds r content backup temp d d' h =
      wrapped-TailEnds r content d
        (λ (valid : Fields). record {
          resolution = r;
          changed = true;
          backup = backup;
          validated = valid;
        })
        (apply_validated os targets state_dir r temp d') h

  temp-TailEnds :
      (r : ConfigResolution) (content : String) (backup : Option FilePath) (d : Disk)
      (x : Attempt FilePath × Disk)
      → TempEnds os targets state_dir content d x
      → TailEnds r content d (chain x (λ temp d'. finish os targets state_dir r backup temp d'))
  unfolding chain
  temp-TailEnds r content backup d (failed t, d') (inl (bad, h)) = inl (bad, h)
  temp-TailEnds r content backup d (escaped t, d') (inl (bad, h)) = inl (bad, h)
  temp-TailEnds r content backup d (done temp, d') (inl (bad, h)) = ground (arith, bad)
  temp-TailEnds r content backup d (failed t, d') (inr (temp, e, _, _, _)) = ground (arith, e)
  temp-TailEnds r content backup d (escaped t, d') (inr (temp, e, _, _, _)) = ground (arith, e)
  temp-TailEnds r content backup d (done temp', d') (inr (temp, e, new, at, h)) =
      let same : temp' ≡ temp = ground (arith, e) in
      subst (λ t. TailEnds r content d (finish os targets state_dir r backup t d')) (sym same)
        (finish-TailEnds r content backup temp d d'
          (apply_validated-TailEnds r content temp d d' new at h))

  pub replace_content-TailEnds :
      (r : ConfigResolution) (content : String) (backup : Option FilePath) (d : Disk)
      → TailEnds r content d (replace_content os targets state_dir r content backup d)
  unfolding replace_content
  replace_content-TailEnds r content backup d =
      temp-TailEnds r content backup d (write_temp_file os targets state_dir r.path content d)
        (write_temp_file-ends os targets state_dir r.path content d)
