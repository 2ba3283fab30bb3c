-- ===== src/Manager/Shutdown.antt =====
-- `CloseAll` (internal/services/service.go).
use scuffinger.Prelude.{◌≡◌, ◌↔◌, refl, Option, none, List, [], ◌∷◌, ℕ_eq, arith, All}
use scuffinger.I18n.{Error, Messages}
use scuffinger.Manager.{Service, Manager, close_services, close_all, shutdown_error}

-- the results of closing every service in order, whatever fails
module _ {W : Type 0} where
  pub close_results : List (Service W) → W → List (Option Error)
  close_results [] w = []
  close_results (svc ∷ svcs) w = (svc.close w).0 ∷ close_results svcs (svc.close w).1

  unfoldable pub closed_world : List (Service W) → W → W
  closed_world [] w = w
  closed_world (svc ∷ svcs) w = closed_world svcs (svc.close w).1

abbrev pub Succeeds : Option Error → Type 0
Succeeds r = r ≡ none

shutdown_error-none :
    (active : Messages) (es : List Error) → (shutdown_error active es ≡ none) ↔ (es ≡ [])
unfolding shutdown_error
shutdown_error-none active [] = (λ h. refl, λ h. refl)
shutdown_error-none active (e ∷ es) = (λ h. ground arith, λ h. ground arith)

module _ {W : Type 0} (active : Messages) where
  close_services-world :
      (svcs : List (Service W)) (w : W) → (close_services active svcs w).1 ≡ closed_world svcs w
  unfolding close_services closed_world
  close_services-world [] w = refl
  close_services-world (svc ∷ svcs) w = ground (arith, close_services-world svcs (svc.close w).1)

  close_services-errors :
      (svcs : List (Service W)) (w : W)
      → ((close_services active svcs w).0 ≡ []) ↔ All Succeeds (close_results svcs w)
  unfolding close_services close_results
  close_services-errors [] w = (λ h. tt, λ h. refl)
  close_services-errors (svc ∷ svcs) w =
      let ih = close_services-errors svcs (svc.close w).1 in
      (λ h. ground (arith, ih.0), λ h. ground (arith, ih.1))

  -- `CloseAll` closes every service once, in order, also behind one that fails to close, and
  -- returns nil exactly when each of these calls succeeded.
  pub close_all-results :
      (m : Manager W) (w : W)
      → ((close_all active m w).2 ≡ closed_world m.services w)
        × (((close_all active m w).0 ≡ none) ↔ All Succeeds (close_results m.services w))
  unfolding close_all
  close_all-results m w =
      let se = shutdown_error-none active (close_services active m.services w).0 in
      let ce = close_services-errors m.services w in
      (close_services-world m.services w, (λ h. ce.0 (se.0 h), λ h. se.1 (ce.1 h)))
