-- ===== src/Controller/Sandbox/Ttl.antt =====
-- sandbox_reconciler.go: `isTTLExpired` against `nextSync`.
use sandbox_mommy.Base.{true, false, ◌≡◌, ◌≢◌, ◌↔◌, arith}
use sandbox_mommy.Base.Int.{ℤ, pos, ◌+ℤ◌, ◌-ℤ◌, ◌<ℤ◌, ltb_ℤ, eqb_ℤ, +ℤ_parts, -ℤ_parts}
use sandbox_mommy.Api.{Time, Sandbox}
use sandbox_mommy.Controller.Sandbox.Steps.{expiration, is_ttl_expired, next_sync}

ltb_ℤ_iff : (a b : ℤ) → (ltb_ℤ a b ≡ true) ↔ (a <ℤ b)
ltb_ℤ_iff a b = ground arith

eqb_ℤ_ne : (a : ℤ) → a ≢ pos 0 → eqb_ℤ a (pos 0) ≡ false
eqb_ℤ_ne a h = ground arith

next_sync-of_ne :
    (now : Time) (sandbox : Sandbox)
    → sandbox.spec.ttl ≢ pos 0
    → next_sync now sandbox ≡ expiration sandbox -ℤ now
unfolding next_sync
next_sync-of_ne now sandbox h = rw (eqb_ℤ_ne sandbox.spec.ttl h)

-- With a time to live set, the requeue delay computed at `now` is exact: at a time `later` the
-- sandbox is expired if and only if more than the delay has passed since `now`.
pub next_sync_exact :
    (now later : Time) (sandbox : Sandbox)
    → sandbox.spec.ttl ≢ pos 0
    → (is_ttl_expired later sandbox ≡ true) ↔ ((now +ℤ next_sync now sandbox) <ℤ later)
unfolding is_ttl_expired
next_sync_exact now later sandbox h =
    rw (next_sync-of_ne now sandbox h)
      (ground (arith, -ℤ_parts (expiration sandbox) now, +ℤ_parts now (expiration sandbox -ℤ now)))

-- A sandbox whose time to live is zero counts as expired at every time after its creation, though
-- the delay for a zero time to live means that no check is scheduled.
pub ttl_zero_expires :
    (now : Time) (sandbox : Sandbox)
    → sandbox.spec.ttl ≡ pos 0
    → sandbox.metadata.creation_timestamp <ℤ now
    → (is_ttl_expired now sandbox ≡ true) × (next_sync now sandbox ≡ pos 0)
unfolding is_ttl_expired next_sync
ttl_zero_expires now sandbox zero later =
    rw zero (ground (arith, +ℤ_parts sandbox.metadata.creation_timestamp (pos 0)))
