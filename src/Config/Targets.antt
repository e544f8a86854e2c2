-- ===== src/Config/Targets.antt =====
-- ConfigTarget of config_manager.py, and its default targets. A path is the list of its parts below
-- the root directory, as `Path.resolve` leaves it.
use master_control.Prelude.{
  String, Bool, false, ◌||◌, Option, none, some, List, [], ◌∷◌, ◌++◌, ◌==◌, any, join,
  if◌then◌else◌,
}
use master_control.Codec.{Texts}

abbrev pub FilePath : Type 0
FilePath = List String

pub record ConfigTarget : Type 0 where
  pub name : String
  pub description : String
  pub roots : List FilePath
  pub file_globs : List String
  pub validator_kind : String
  pub validator_command : Option (List String)

-- `path.relative_to(root)`; `none` is its ValueError.
unfoldable pub relative_to : FilePath → FilePath → Option FilePath
relative_to path [] = some path
relative_to [] (r ∷ root) = none
relative_to (p ∷ path) (r ∷ root) = if p == r then relative_to path root else none

-- `path.as_posix()` of a relative path.
unfoldable pub as_posix : FilePath → String
as_posix [] = "."
as_posix (p ∷ path) = join "/" (p ∷ path)

-- `path.name`
unfoldable pub name_of : FilePath → String
name_of [] = ""
name_of (p ∷ []) = p
name_of (p ∷ q ∷ path) = name_of (q ∷ path)

module _ (texts : Texts) where
  -- The test of one root.
  unfoldable pub matches_root : List String → FilePath → FilePath → Bool
  matches_root globs path root = elim (relative_to path root) [
    | none ↦ false
    | some relative ↦
        any
          (λ pattern.
            texts.fnmatch (as_posix relative) pattern || texts.fnmatch (name_of path) pattern)
          globs
  ]

  unfoldable pub matches : ConfigTarget → FilePath → Bool
  matches target path = any (matches_root target.file_globs path) target.roots

abbrev managed_root : FilePath → FilePath
managed_root state_dir = state_dir ++ "managed-configs" ∷ []

unfoldable pub build_default_config_targets : FilePath → List ConfigTarget
build_default_config_targets state_dir =
    record {
      name = "managed_ini";
      description = "MC-managed INI or CFG files.";
      roots = managed_root state_dir ∷ [];
      file_globs = "*.ini" ∷ "*.cfg" ∷ [];
      validator_kind = "ini_parse";
      validator_command = none;
    }
    ∷ record {
      name = "managed_json";
      description = "MC-managed JSON files.";
      roots = managed_root state_dir ∷ [];
      file_globs = "*.json" ∷ [];
      validator_kind = "json_parse";
      validator_command = none;
    }
    ∷ record {
      name = "systemd_unit";
      description = "Systemd unit files under /etc/systemd/system.";
      roots = ("etc" ∷ "systemd" ∷ "system" ∷ []) ∷ [];
      file_globs = "*.service" ∷ "*.timer" ∷ [];
      validator_kind = "command";
      validator_command = some ("systemd-analyze" ∷ "verify" ∷ "{path}" ∷ []);
    }
    ∷ []
