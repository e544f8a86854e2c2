-- ===== src/Tools/Preflight.antt =====
-- The inspection before an action of `run_service_action` (tools/service_actions.py).
use master_control.Prelude.{String, false, ◌&&◌, some, ◌≡◌, ◌⊎◌, refl, inl, inr, Bool-cases, ◌==◌}
use master_control.Value.{Fields}
use master_control.Tools.Attempt.{Attempt, done, failed, escaped, chain}
use master_control.Tools.Units.{validate_service_scope}
use master_control.Tools.Machine.{Machine}
use master_control.Tools.Services.{
  has_text, check_preflight, read_service_state, apply_action, run_service_action, ActionResult,
}

-- The inspection lets the action happen.
pub record Allows (action : String) (preflight : Fields) : Type 0 where
  pub loaded : has_text "loadstate" "not-found" preflight ≡ false
  pub reloads : ((action == "reload") && has_text "canreload" "no" preflight) ≡ false

module _ {World : Type 0} (machine : Machine World) (action name normalized : String) where
  open machine use {lower}

  -- What follows the inspection.
  abbrev behind : Attempt Fields × World → Attempt ActionResult × World
  behind x = chain x (λ preflight w2.
      chain (check_preflight action name normalized preflight, w2)
        (λ _ w3. apply_action machine action name normalized preflight w3))

  behind-world :
      (x : Attempt Fields × World)
      → ((behind x).1 ≡ x.1)
        ⊎ ((preflight : Fields) × (x.0 ≡ done preflight) × Allows action preflight)
  unfolding chain check_preflight
  behind-world (failed t, w) = inl refl
  behind-world (escaped t, w) = inl refl
  behind-world (done p, w) = elim (Bool-cases (has_text "loadstate" "not-found" p)) [
    | inl e ↦ inl (rw (e, check_preflight) refl)
    | inr e ↦ elim (Bool-cases ((action == "reload") && has_text "canreload" "no" p)) [
      | inl f ↦ inl (rw (e, check_preflight) (rw f refl))
      | inr f ↦ inr (p, refl, record { loaded = e; reloads = f })
    ]
  ]

  -- `run_service_action` runs nothing behind its inspection of the service, unless the inspection returned
  -- metadata that do not say that the service is missing, nor, for a reload, that it cannot reload.
  pub run_service_action-preflight :
      (scope : String) (w : World)
      → validate_service_scope lower (some scope) ≡ done normalized
      → ((run_service_action machine action name scope w).1
          ≡ (read_service_state machine name normalized w).1)
        ⊎ ((preflight : Fields) × ((read_service_state machine name normalized w).0
              ≡ done preflight)
            × Allows action preflight)
  unfolding run_service_action chain
  run_service_action-preflight scope w valid =
      rw (valid, run_service_action) (behind-world (read_service_state machine name normalized w))
