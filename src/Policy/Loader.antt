-- ===== src/Policy/Loader.antt =====
-- PolicyLoader.load of policy/config.py: the policy is parsed again only when the file's existence or
-- modification time has changed.
use mathlib.Core.Path.{subst}
use master_control.Prelude.{
  Bool-cases, ap, inl, inr, ℕ, Bool, true, false, String, ◌≡◌, refl, Option, none, some, [], eqb,
  if◌then◌else◌,
}
use master_control.Value.{Value}
use master_control.Config.Targets.{FilePath, build_default_config_targets}
use master_control.Policy.Rules.{LoadedPolicy}
use master_control.Policy.Parse.Fields.{Parsed, ok, error}
use master_control.Policy.Parse.Document.{parse_loaded_policy}

-- What reading the file and `tomllib.loads` give: a document, or the text of the exception.
pub data TomlRead : Type 0 where
  document : Value → TomlRead
  unreadable : String → TomlRead

-- The policy file: missing, or with a modification time and a content.
pub data PolicyFile : Type 0 where
  missing : PolicyFile
  present : ℕ → TomlRead → PolicyFile

pub record PolicyLoader : Type 0 where
  pub cached_key : Option (Option ℕ)
  pub cached_policy : Option LoadedPolicy

-- `(exists, stamp)`; the stamp is there exactly when the file is.
unfoldable pub cache_key : PolicyFile → Option ℕ
cache_key PolicyFile.missing = none
cache_key (PolicyFile.present stamp read) = some stamp

unfoldable pub same_key : Option (Option ℕ) → Option ℕ → Bool
same_key (some none) none = true
same_key (some (some a)) (some b) = eqb a b
same_key _ _ = false

unfoldable pub failed_policy : String → LoadedPolicy
failed_policy message = record {
  exists = true;
  version = 1;
  using_default = false;
  error = some message;
  tool_rules = [];
  config_targets = [];
}

unfoldable pub policy_or_failure : Parsed LoadedPolicy → LoadedPolicy
policy_or_failure (ok policy) = policy
policy_or_failure (error message) = failed_policy message

module _ (resolve : String → FilePath) (state_dir : FilePath) where
  unfoldable pub read_policy : PolicyFile → LoadedPolicy
  read_policy PolicyFile.missing = record {
    exists = false;
    version = 1;
    using_default = true;
    error = none;
    tool_rules = [];
    config_targets = build_default_config_targets state_dir;
  }
  read_policy (PolicyFile.present stamp (TomlRead.document raw)) =
      policy_or_failure (parse_loaded_policy resolve state_dir raw)
  read_policy (PolicyFile.present stamp (TomlRead.unreadable message)) = failed_policy message

  unfoldable pub reload : PolicyFile → LoadedPolicy × PolicyLoader
  reload file =
      let policy = read_policy file in
      (policy, record { cached_key = some (cache_key file); cached_policy = some policy })

  unfoldable pub load : PolicyFile → PolicyLoader → LoadedPolicy × PolicyLoader
  load file loader = elim loader.cached_policy [
    | some policy ↦
        if same_key loader.cached_key (cache_key file) then (policy, loader) else reload file
    | none ↦ reload file
  ]

-- The loader's cache holds what reading `file` gives, under the key of `file`.
pub record IsCurrent (resolve : String → FilePath) (state_dir : FilePath) (file : PolicyFile)
    (loader : PolicyLoader) : Type 0 where
  pub key : loader.cached_key ≡ some (cache_key file)
  pub policy : loader.cached_policy ≡ some (read_policy resolve state_dir file)

-- From a cache that was filled from `old`, `load` gives what reading `file` gives, if `file` is `old` or
-- has another key, and the cache then belongs to `file`.
pub load-read_policy :
    (resolve : String → FilePath) (state_dir : FilePath) (old file : PolicyFile)
    (loader : PolicyLoader)
    → IsCurrent resolve state_dir old loader
    → (same_key (some (cache_key old)) (cache_key file) ≡ true → old ≡ file)
    → ((load resolve state_dir file loader).0 ≡ read_policy resolve state_dir file)
      × IsCurrent resolve state_dir file (load resolve state_dir file loader).1
unfolding load reload
load-read_policy resolve state_dir old file loader c h =
    elim (Bool-cases (same_key loader.cached_key (cache_key file))) [
      | inl hit ↦
          let same : old ≡ file = h (subst (λ k. same_key k (cache_key file) ≡ true) c.key hit) in
          rw (c.policy, load)
            (rw hit (
              ap (read_policy resolve state_dir) same,
              subst (λ f. IsCurrent resolve state_dir f loader) same c,
            ))
      | inr miss ↦ rw (c.policy, load) (rw miss (refl, record { key = refl; policy = refl }))
    ]
