-- ===== src/Status/Visible.antt =====
-- statusw/status.go, `ToResponse`: what the client sees of an error.
use go_utility.Base.{◌≡◌, ◌↔◌, arith}
use go_utility.Status.{StatusError, to_response}

module _ {D : Type 0} where
  -- Two errors give the client the same answer exactly when they have the same custom code, the
  -- same message and the same data: it shows all three, and neither the cause nor the logical code.
  pub to_response_iff :
      (e e' : StatusError D)
      → (to_response e ≡ to_response e')
        ↔ ((e.custom_code ≡ e'.custom_code) × (e.message ≡ e'.message) × (e.data_of ≡ e'.data_of))
  unfolding to_response
  to_response_iff e e' = ground arith
