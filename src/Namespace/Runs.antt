-- ===== src/Namespace/Runs.antt =====
-- Concrete registrations, and the theorems at concrete inputs.
use tnp.Prelude.{◌+◌, ◌*◌, ◌≤◌, ◌≡◌, refl, ◌↔◌, true, some}
use tnp.Namespace.Expiry.{
  day_ms, native_expiry_state, renewable, grace, expired, is_native_name_served,
  is_native_renewal_allowed, native_expiry_state_lem,
}

-- An expiry on day 200, to the millisecond on either side of the boundaries.
boundaries :
    (native_expiry_state (some (200 * day_ms)) (110 * day_ms) ≡ renewable)
    × (native_expiry_state (some (200 * day_ms)) (200 * day_ms) ≡ grace)
    × (native_expiry_state (some (200 * day_ms)) (230 * day_ms) ≡ grace)
    × (native_expiry_state (some (200 * day_ms)) (230 * day_ms + 1) ≡ expired)
unfolding native_expiry_state
boundaries = (refl, refl, refl, refl)

native_expiry_state_lem_example :
    ((is_native_name_served (native_expiry_state (some 100) 90) ≡ true) ↔ (90 ≤ 100 + 30 * day_ms))
    × ((is_native_renewal_allowed (native_expiry_state (some 100) 90) ≡ true)
        ↔ (100 ≤ 90 + 90 * day_ms))
native_expiry_state_lem_example = native_expiry_state_lem 100 90
