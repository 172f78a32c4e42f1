-- ===== src/Namespace/Expiry.antt =====
-- packages/namespace/src/expiry.ts: the lifecycle of a native name. A time is in milliseconds since 1970.
use tnp.Prelude.{
  ℕ, ◌+◌, ◌*◌, ◌≤◌, ◌≡◌, ◌↔◌, Bool, true, false, ltb, leb, if◌then◌else◌, Option, none, some, arith,
}

pub data NativeExpiryState : Type 0 where
  active renewable grace expired : NativeExpiryState

abbrev pub native_renewal_window_days : ℕ
native_renewal_window_days = 90

abbrev pub native_grace_days : ℕ
native_grace_days = 30

abbrev pub day_ms : ℕ
day_ms = 24 * 60 * 60 * 1000

-- What the source says of the difference of the two times, which may be negative, is said of their
-- sums with the other side.
unfoldable pub native_expiry_state : Option ℕ → ℕ → NativeExpiryState
native_expiry_state none now = active
native_expiry_state (some expires_at) now =
    if ltb (now + native_renewal_window_days * day_ms) expires_at
    then active
    else if ltb now expires_at
    then renewable
    else if leb now (expires_at + native_grace_days * day_ms)
    then grace
    else expired

unfoldable pub is_native_renewal_allowed : NativeExpiryState → Bool
is_native_renewal_allowed active = false
is_native_renewal_allowed renewable = true
is_native_renewal_allowed grace = true
is_native_renewal_allowed expired = true

unfoldable pub is_native_name_served : NativeExpiryState → Bool
is_native_name_served active = true
is_native_name_served renewable = true
is_native_name_served grace = true
is_native_name_served expired = false

-- The order of the lifecycle.
abbrev pub stage : NativeExpiryState → ℕ
stage active = 0
stage renewable = 1
stage grace = 2
stage expired = 3

-- Time only moves a registration forward in its lifecycle.
pub native_expiry_state_mono :
    (expires_at : Option ℕ) (now later : ℕ)
    → now ≤ later
    → stage (native_expiry_state expires_at now) ≤ stage (native_expiry_state expires_at later)
unfolding native_expiry_state
native_expiry_state_mono none now later h = omega arith
native_expiry_state_mono (some expires_at) now later h = ground arith

-- A name is served up to and including thirty days after its expiry, and may be renewed from ninety
-- days before it on, also then.
pub native_expiry_state_lem :
    (expires_at now : ℕ)
    → ((is_native_name_served (native_expiry_state (some expires_at) now) ≡ true)
        ↔ (now ≤ expires_at + 30 * day_ms))
      × ((is_native_renewal_allowed (native_expiry_state (some expires_at) now) ≡ true)
          ↔ (expires_at ≤ now + 90 * day_ms))
unfolding native_expiry_state is_native_name_served is_native_renewal_allowed
native_expiry_state_lem expires_at now =
    ((λ h. ground arith, λ h. ground arith), (λ h. ground arith, λ h. ground arith))
