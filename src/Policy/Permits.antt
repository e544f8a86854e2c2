-- ===== src/Policy/Permits.antt =====
-- What the operator's policy permits, said without the order of the checks in policy/engine.py.
use master_control.Prelude.{
  ◌||◌, not, ◌&&◌, inr, Bool-cases, inl, Option-cases, ◌∷◌, String, ◌≡◌, ◌≢◌, ◌↔◌, ◌⊎◌, refl, true,
  false, Option, none, some, List, [], any, contains, arith, lookup,
}
use master_control.Value.{Fields, get}
use master_control.Codec.{Texts}
use master_control.Tools.Spec.{is_read_only, ToolSpec}
use master_control.Policy.Rules.{ToolPolicyRule, LoadedPolicy}
use master_control.Policy.Engine.{
  requires_confirmation, is_disabled, allow, deny, evaluate, decide_by_rule,
  evaluate_argument_constraints, service_denial, normalize_scope, service_tools, scope_denial,
  service_name_of, pattern_denial,
}

-- No scope is listed, or the call's scope is one of them.
abbrev pub ScopePermitted : Texts → Fields → List String → Type 0
ScopePermitted texts arguments scopes =
    (scopes ≡ []) ⊎ (contains scopes (normalize_scope texts (get "scope" arguments)) ≡ true)

-- No pattern is listed, or the tool is none of the service tools, or the call names a service that some
-- pattern matches.
abbrev pub ServicePermitted : Texts → String → Fields → List String → Type 0
ServicePermitted texts tool arguments patterns =
    (patterns ≡ [])
    ⊎ (contains service_tools tool ≡ false)
    ⊎ ((name : String) × (service_name_of (get "name" arguments) ≡ some name)
        × (any (λ pattern. texts.fnmatch name pattern) patterns ≡ true))

abbrev pub RulePermits : Texts → String → Fields → Option ToolPolicyRule → Type 0
RulePermits texts tool arguments none = Unit
RulePermits texts tool arguments (some rule) =
    (rule.enabled ≢ some false)
    × ScopePermitted texts arguments rule.allowed_scopes
    × ServicePermitted texts tool arguments rule.service_patterns

abbrev pub Permits : Texts → LoadedPolicy → ToolSpec → Fields → Type 0
Permits texts policy spec arguments =
    (policy.error ≡ none)
    × RulePermits texts spec.name arguments (lookup spec.name policy.tool_rules)

module _ (texts : Texts) (tool : String) (arguments : Fields) where
  scope_denial_iff :
      (scopes : List String)
      → (scope_denial texts tool arguments scopes ≡ none) ↔ ScopePermitted texts arguments scopes
  unfolding scope_denial
  scope_denial_iff [] = (λ h. inl refl, λ h. refl)
  scope_denial_iff (s ∷ scopes) = ground arith

  pattern_denial_iff :
      (name : Option String) (patterns : List String)
      → (pattern_denial texts tool name patterns ≡ none)
        ↔ ((n : String) × (name ≡ some n) × (any (λ p. texts.fnmatch n p) patterns ≡ true))
  unfolding pattern_denial
  pattern_denial_iff none patterns = (λ h. cc, λ (n, e, q). cc)
  pattern_denial_iff (some n) patterns = (λ h. (n, refl, ground arith), λ (m, e, q). ground arith)

  ServicePermitted-none :
      (p : String) (patterns : List String)
      → contains service_tools tool ≡ true
      → ServicePermitted texts tool arguments (p ∷ patterns)
      → pattern_denial texts tool (service_name_of (get "name" arguments)) (p ∷ patterns) ≡ none
  ServicePermitted-none p patterns e (inl h) = cc
  ServicePermitted-none p patterns e (inr (inl h)) = absurd (ground (arith, e, h))
  ServicePermitted-none p patterns e (inr (inr h)) = (pattern_denial_iff _ (p ∷ patterns)).1 h

  service_denial_iff :
      (patterns : List String)
      → (service_denial texts tool arguments patterns ≡ none)
        ↔ ServicePermitted texts tool arguments patterns
  unfolding service_denial
  service_denial_iff [] = (λ h. inl refl, λ h. refl)
  service_denial_iff (p ∷ patterns) = elim (Bool-cases (contains service_tools tool)) [
    | inl e ↦ (
      λ h. inr (inr ((pattern_denial_iff _ (p ∷ patterns)).0 (rw e at h))),
      λ h. rw e (ServicePermitted-none p patterns e h),
    )
    | inr e ↦ (λ h. inr (inl e), λ h. rw e refl)
  ]

  -- The checks on the arguments of a call find no reason to deny it exactly when the rule's scopes and
  -- service patterns permit it.
  constraints_iff :
      (rule : ToolPolicyRule)
      → (evaluate_argument_constraints texts tool arguments (some rule) ≡ none) ↔ (
          ScopePermitted texts arguments rule.allowed_scopes
          × ServicePermitted texts tool arguments rule.service_patterns)
  unfolding evaluate_argument_constraints
  constraints_iff rule =
      elim (Option-cases (scope_denial texts tool arguments rule.allowed_scopes)) [
        | inl e ↦ (
          λ h. (
            (scope_denial_iff rule.allowed_scopes).0 e,
            (service_denial_iff rule.service_patterns).0
                (rw (e, evaluate_argument_constraints) at h),
          ),
          λ h.
              rw (e, evaluate_argument_constraints)
                ((service_denial_iff rule.service_patterns).1 h.1),
        )
        | inr (reason, e) ↦ (
          λ h. absurd (ground (arith, e)),
          λ h. absurd (ground (arith, e, (scope_denial_iff rule.allowed_scopes).1 h.0)),
        )
      ]

is_disabled_iff :
    (rule : ToolPolicyRule) → (is_disabled (some rule) ≡ false) ↔ (rule.enabled ≢ some false)
unfolding is_disabled
is_disabled_iff rule = (λ h e. ground arith, λ h. ground arith)

decide_iff :
    (texts : Texts) (spec : ToolSpec) (arguments : Fields) (rule : Option ToolPolicyRule)
    → ((decide_by_rule texts spec arguments rule).allowed ≡ true)
      ↔ RulePermits texts spec.name arguments rule
unfolding decide_by_rule deny allow
decide_iff texts spec arguments none =
    unfold evaluate_argument_constraints is_disabled in (λ h. tt, λ h. refl)
decide_iff texts spec arguments (some rule) = (permitted, allowed)
  where
    permitted :
        (decide_by_rule texts spec arguments (some rule)).allowed ≡ true
        → RulePermits texts spec.name arguments (some rule)
    permitted h =
        let enabled : is_disabled (some rule) ≡ false = ground arith in
        let free : evaluate_argument_constraints texts spec.name arguments (some rule) ≡ none =
          ground arith in
        let (scope, service) = (constraints_iff texts spec.name arguments rule).0 free in
        ((is_disabled_iff rule).0 enabled, scope, service)

    allowed :
        RulePermits texts spec.name arguments (some rule)
        → (decide_by_rule texts spec arguments (some rule)).allowed ≡ true
    allowed (enabled, scope, service) = ground (
      arith,
      (is_disabled_iff rule).1 enabled,
      (constraints_iff texts spec.name arguments rule).1 (scope, service),
    )

-- The engine allows a call exactly when the policy was loaded without an error and the rule of the tool,
-- if it has one, does not disable it and permits its scope and its service.
pub evaluate-Permits :
    (texts : Texts) (policy : LoadedPolicy) (spec : ToolSpec) (arguments : Fields)
    → ((evaluate texts policy spec arguments).allowed ≡ true) ↔ Permits texts policy spec arguments
unfolding evaluate deny
evaluate-Permits texts policy spec arguments =
    let (to, from) = decide_iff texts spec arguments (lookup spec.name policy.tool_rules) in
    elim (Option-cases policy.error) [
      | inl e ↦ (λ h. (e, to (rw (e, evaluate) at h)), λ h. rw (e, evaluate) (from h.1))
      | inr (error, e) ↦ (λ h. absurd (ground (arith, e)), λ h. absurd (ground (arith, e)))
    ]

-- A call that is allowed needs a confirmation exactly when its tool changes something, or its rule asks
-- for one; a call that is denied needs none.
pub evaluate-confirmation :
    (texts : Texts) (policy : LoadedPolicy) (spec : ToolSpec) (arguments : Fields)
    → (evaluate texts policy spec arguments).needs_confirmation ≡ (
        (evaluate texts policy spec arguments).allowed
        && (not (is_read_only spec.risk)
            || requires_confirmation (lookup spec.name policy.tool_rules)))
unfolding evaluate decide_by_rule deny allow
evaluate-confirmation texts policy spec arguments = ground arith
