-- ===== src/Config/Roundtrip.antt =====
-- A write and the restoration of its backup (config_manager.py).
use Prim.Native.Char.{code}
use mathlib.Core.Path.{subst}
use master_control.Prelude.{
  ◌≢◌, ap, String, true, false, some, List, ◌≡◌, inl, inr, refl, sym, ◌∙◌, Bool-cases, arith, eqb,
  has_char, ltb, is_some,
}
use master_control.Tools.Attempt.{chain, follow, done, done-follow}
use master_control.Tools.UnitNames.{done-inj}
use master_control.Config.Targets.{FilePath, ConfigTarget, relative_to}
use master_control.Config.Disk.{utf8, size_of, File, Disk, Os, same_path, newlines, exists}
use master_control.Config.Manager.{
  ConfigResolution, resolve_target, validate_content_size, read_text_file, max_config_file_bytes,
  backup_root,
}
use master_control.Config.Writes.{current_content, restore_backup, write_text, read_backup}
use master_control.Config.Installed.{is_done, Attempt-cases}
use master_control.Config.Safety.{Holds}
use master_control.Config.Backups.{read_text-file}
use master_control.Config.Outcomes.{backup_of}
use master_control.Config.Contract.{write_text-ends, restore_backup-ends}

-- A text without carriage returns reads as it is.
newlines-plain : (s : String) → has_char 13 s ≡ false → newlines s ≡ s
unfolding newlines has_char
newlines-plain String.[] h = refl
newlines-plain (String.◌∷◌ c s) h = elim (Bool-cases (eqb (code c) 13)) [
  | inl e ↦ ground (arith, e, h)
  | inr e ↦ rw e (ap (String.◌∷◌ c) (newlines-plain s (ground (arith, e, h))))
]

module _ (os : Os) (targets : List ConfigTarget) (state_dir : FilePath) where
  read_text_file-text :
      (path : FilePath) (d : Disk) (f : File) (text content : String)
      → d.file path ≡ some f
      → f.content ≡ utf8 text
      → read_text_file os targets state_dir path d ≡ done content
      → content ≡ newlines text
  unfolding read_text_file exists
  read_text_file-text path d f text content at is h =
      let h1 = rw (at, read_text_file) at h in
      elim (Bool-cases (d.directory path)) [
        | inl e ↦ let wrong = rw e at h1 in ground (arith, wrong)
        | inr e ↦
            let h2 = rw e at h1 in
            elim (Bool-cases (ltb max_config_file_bytes (size_of f.content))) [
              | inl k ↦ let wrong = rw k at h2 in ground (arith, wrong)
              | inr k ↦
                  let read = rw k at h2 in done-inj (sym read ∙ read_text-file path d f text at is)
            ]
      ]

  read_backup-text :
      (path : FilePath) (d : Disk) (f : File) (text content : String)
      → d.file path ≡ some f
      → f.content ≡ utf8 text
      → read_backup os targets state_dir path d ≡ done content
      → content ≡ newlines text
  unfolding read_backup exists
  read_backup-text path d f text content at is h =
      let h1 = rw (at, read_backup) at h in
      elim (Bool-cases (is_some (relative_to path (os.real (backup_root os targets state_dir))))) [
        | inr e ↦ let wrong = rw e at h1 in ground (arith, wrong)
        | inl e ↦
            let h2 = rw e at h1 in
            let (found, read, rest) =
              done-follow (read_text_file os targets state_dir path d) _ content h2 in
            let (u, _, last) = done-follow (validate_content_size found) _ content rest in
            sym (done-inj last) ∙ read_text_file-text path d f text found at is read
      ]

  -- A restoration that returns has read its backup.
  restored-read :
      (text backup_text : String) (r : ConfigResolution) (d : Disk)
      → resolve_target os targets state_dir text ≡ done r
      → is_done (restore_backup os targets state_dir text backup_text d).0 ≡ true
      → (content : String) × (read_backup os targets state_dir (os.resolve backup_text) d
          ≡ done content)
  unfolding restore_backup chain
  restored-read text backup_text r d e good =
      let h = rw (e, restore_backup) at good in
      elim (Attempt-cases (read_backup os targets state_dir (os.resolve backup_text) d)) [
        | inl found ↦ found
        | inr (inl (t, f)) ↦ let wrong = rw f at h in ground (arith, wrong)
        | inr (inr (t, f)) ↦ let wrong = rw f at h in ground (arith, wrong)
      ]

  current_content-file :
      (path : FilePath) (d : Disk) (f : File) (text : String)
      → d.file path ≡ some f
      → f.content ≡ utf8 text
      → current_content os targets state_dir path d ≡ done (some (newlines text))
  unfolding current_content exists follow
  current_content-file path d f text at is =
      let there : exists path d ≡ true = rw (at, exists) refl in
      rw (there, current_content) (rw (read_text-file path d f text at is) refl)

-- The machine at a later time.
abbrev pub later_os : Os → String → Os
later_os os time = record os { timestamp = time }

module _ (os : Os) (targets : List ConfigTarget) (state_dir : FilePath)
    (quiet : (command : List String) (d : Disk) → (os.run_validator command d).1 ≡ d)
    (r : ConfigResolution) (time : String)
    (apart : same_path r.path (backup_of os targets state_dir r) ≡ false)
    (apart_later : same_path r.path (backup_of (later_os os time) targets state_dir r)
      ≡ false) where
  -- The backup of a write that changed a text.
  write-saved :
      (text content old_text : String) (d : Disk) (old : File)
      → resolve_target os targets state_dir text ≡ done r
      → d.file r.path ≡ some old
      → old.content ≡ utf8 old_text
      → has_char 13 old_text ≡ false
      → old_text ≢ content
      → is_done (write_text os targets state_dir text content d).0 ≡ true
      → (b : File) × ((write_text os targets state_dir text content d).1.file
            (backup_of os targets state_dir r)
          ≡ some b)
        × (b.content ≡ utf8 old_text)
  write-saved text content old_text d old e at is plain other wrote =
      let same = newlines-plain old_text plain in
      elim (write_text-ends os targets state_dir quiet r apart text content d e) [
        | inl (inl (bad, _)) ↦ ground (arith, bad, wrote)
        | inl (inr (_, _, saved, _)) ↦
            let (b, at', is') = saved old old_text at is in (b, at', is' ∙ ap utf8 same)
        | inr (read, _) ↦
            let known = current_content-file os targets state_dir r.path d old old_text at is in
            let equal : some (newlines old_text) ≡ some content = done-inj (sym known ∙ read) in
            let clash : newlines old_text ≡ content = ground (arith, equal) in
            absurd (other (sym same ∙ clash))
      ]

  -- A text that a managed file held, and that another text replaced, is what the file holds again when the
  -- backup of that write is restored at a later time, if both calls return and the text has no carriage
  -- return. It is assumed that a validator's command changes no file, and that the target is neither of
  -- the two backups' paths.
  pub restore-write :
      (text backup_text content old_text : String) (d : Disk) (old : File)
      → resolve_target os targets state_dir text ≡ done r
      → os.resolve backup_text ≡ backup_of os targets state_dir r
      → d.file r.path ≡ some old
      → old.content ≡ utf8 old_text
      → has_char 13 old_text ≡ false
      → old_text ≢ content
      → is_done (write_text os targets state_dir text content d).0 ≡ true
      → is_done
          (restore_backup
            (later_os os time)
            targets
            state_dir
            text
            backup_text
            (write_text os targets state_dir text content d).1).0
        ≡ true
      → Holds old_text r.path
          (write_text os targets state_dir text content d).1
          (restore_backup
            (later_os os time)
            targets
            state_dir
            text
            backup_text
            (write_text os targets state_dir text content d).1).1
  unfolding resolve_target
  restore-write text backup_text content old_text d old e b at is plain other wrote restored =
      let after = (write_text os targets state_dir text content d).1 in
      let final = (restore_backup (later_os os time) targets state_dir text backup_text after).1 in
      let same = newlines-plain old_text plain in
      let (f, at', is') = write-saved text content old_text d old e at is plain other wrote in
      let (found, read) =
        restored-read (later_os os time) targets state_dir text backup_text r after e restored in
      let there : after.file (os.resolve backup_text) ≡ some f = ap after.file b ∙ at' in
      let holds : found ≡ old_text =
        read_backup-text (later_os os time) targets state_dir (os.resolve backup_text) after f
          old_text found there is' read
        ∙ same in
      elim (restore_backup-ends (later_os os time) targets state_dir quiet r apart_later text
        backup_text found after e read) [
          | inl (bad, _) ↦ ground (arith, bad, restored)
          | inr (_, ends, _, _) ↦ subst (λ t. Holds t r.path after final) holds ends
        ]
