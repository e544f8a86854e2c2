-- ===== src/Config/Installed.antt =====
-- The files across the steps of writing a managed file (config_manager.py).
use mathlib.Core.Path.{subst}
use master_control.Prelude.{
  String, Bool, true, false, some, List, ◌≡◌, ◌⊎◌, inl, inr, refl, Option-cases, ◌==◌,
  if◌then◌else◌,
}
use master_control.Value.{Fields}
use master_control.Tools.Attempt.{Attempt, done, failed, escaped, chain, chain-keeps}
use master_control.Config.Targets.{FilePath, ConfigTarget}
use master_control.Config.Disk.{File, Disk, Os, put_file, unlink}
use master_control.Config.Manager.{ConfigResolution, or_unlink, apply_temp_file, applied_mode}
use master_control.Config.Writes.{validate_path, apply_validated, validate_by_command, validator_of}

abbrev pub is_done : {A : Type 0} → Attempt A → Bool
is_done (done a) = true
is_done (failed text) = false
is_done (escaped text) = false

pub Attempt-cases :
    {A : Type 0} (x : Attempt A)
    → ((a : A) × (x ≡ done a))
      ⊎ (((t : String) × (x ≡ failed t)) ⊎ ((t : String) × (x ≡ escaped t)))
Attempt-cases (done a) = inl (a, refl)
Attempt-cases (failed t) = inr (inl (t, refl))
Attempt-cases (escaped t) = inr (inr (t, refl))

if-disk :
    (b : Bool) (x y : Attempt Fields × Disk) (d : Disk)
    → x.1 ≡ d
    → y.1 ≡ d
    → (if b then x else y).1 ≡ d
if-disk true x y d h k = h
if-disk false x y d h k = k

module _ (os : Os) (targets : List ConfigTarget) (state_dir : FilePath)
    (quiet : (command : List String) (d : Disk) → (os.run_validator command d).1 ≡ d) where
  validate_by_command-disk :
      (r : ConfigResolution) (candidate : FilePath) (d : Disk)
      → (validate_by_command os targets state_dir r candidate d).1 ≡ d
  unfolding validate_by_command
  validate_by_command-disk r candidate d =
      elim (Option-cases (validator_of os targets state_dir r.target)) [
        | inl e ↦ rw (e, validate_by_command) refl
        | inr (parts, e) ↦
            rw (e, validate_by_command)
              (chain-keeps (λ d'. d' ≡ d) _ _ refl
                (λ command _.
                  chain-keeps (λ d'. d' ≡ d) _ _ (quiet command d) (λ result _. quiet command d)))
      ]

  pub validate_path-disk :
      (r : ConfigResolution) (candidate : FilePath) (d : Disk)
      → (validate_path os targets state_dir r candidate d).1 ≡ d
  unfolding validate_path
  validate_path-disk r candidate d =
      let kind = r.target.validator_kind in
      if-disk (kind == "ini_parse") _ _ d refl (
        if-disk (kind == "json_parse") _ _ d refl
          (if-disk (kind == "command") _ _ d (validate_by_command-disk r candidate d) refl))

  -- How the part behind the temporary file ends: without a value and without the temporary file, or with
  -- its content at the target.
  abbrev pub ValidatedEnds : ConfigResolution → FilePath → Disk → Attempt Fields × Disk → Type 0
  ValidatedEnds r temp d x =
      ((is_done x.0 ≡ false) × (x.1 ≡ unlink temp d))
      ⊎ ((file : File) × (is_done x.0 ≡ true)
          × (d.file temp ≡ some file)
          × (x.1
              ≡ put_file r.path
                  (some (record {
                    content = file.content;
                    mode = applied_mode os targets state_dir r.path d;
                  }))
                  (unlink temp d)))

  behind-ends :
      (r : ConfigResolution) (temp : FilePath) (x : Attempt Fields × Disk)
      → ValidatedEnds r temp x.1 (
          or_unlink temp (
            chain x (λ valid d.
              chain
                (apply_temp_file os targets state_dir temp r.path d)
                (λ _ d'. (done valid, d')))))
  unfolding chain or_unlink apply_temp_file
  behind-ends r temp (failed t, d) = inl (refl, refl)
  behind-ends r temp (escaped t, d) = inl (refl, refl)
  behind-ends r temp (done v, d) = elim (Option-cases (os.os_error "replace" r.path d)) [
    | inr (t, e) ↦ inl (rw (e, apply_temp_file) (refl, refl))
    | inl e ↦ elim (Option-cases (d.file temp)) [
      | inl f ↦ inl (rw (e, apply_temp_file) (rw f (refl, refl)))
      | inr (file, f) ↦ rw (e, apply_temp_file) (rw f (inr (file, refl, refl, refl)))
    ]
  ]

  pub apply_validated-ends :
      (r : ConfigResolution) (temp : FilePath) (d : Disk)
      → ValidatedEnds r temp d (apply_validated os targets state_dir r temp d)
  unfolding apply_validated
  apply_validated-ends r temp d =
      subst (λ e. ValidatedEnds r temp e (apply_validated os targets state_dir r temp d))
        (validate_path-disk r temp d)
        (behind-ends r temp (validate_path os targets state_dir r temp d))
