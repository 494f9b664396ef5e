-- ===== src/Prelude/Outcome.antt =====
-- Go's `(value, error)` results. An `error` is one of the sentinels of internal/domain/errors.go
-- or of another package, a text, or another error wrapped by fmt.Errorf's %w.
use Prim.Native.String.{String}
use mathlib.Core.Path.{◌≡◌, refl}
use mathlib.Core.Logic.{◌⊎◌, inl, inr}
use mathlib.Core.Bool.{Bool, true, false}
use claude_ops.Prelude.Tests.{if◌then◌else◌}

pub data Error : Type 0 where
  not_found outside_active_window already_running full_mode_off usage_exhausted session_missing
        not_cancellable invalid_range range_too_large invalid_bucket sub_cap_reached
        webhook_disabled missing_signature_header invalid_signature :
      Error
  message : String → Error
  wrap : String → Error → Error

-- errors.Is(err, domain.ErrNotFound)
abbrev pub is_not_found : Error → Bool
is_not_found not_found = true
is_not_found (wrap m e) = is_not_found e
is_not_found e = false

pub data Result {ℓ} (A : Type ℓ) : Type ℓ where
  ok : A → Result A
  err : Error → Result A

infixl 5 ◌>>=◌
abbrev pub ◌>>=◌ {ℓ κ} : {A : Type ℓ} {B : Type κ} → Result A → (A → Result B) → Result B
ok a >>= f = f a
err e >>= f = err e

abbrev pub is_ok {ℓ} : {A : Type ℓ} → Result A → Bool
is_ok (ok a) = true
is_ok (err e) = false

pub Result-cases {ℓ} :
    {A : Type ℓ} (r : Result A) → ((a : A) × (r ≡ ok a)) ⊎ ((e : Error) × (r ≡ err e))
Result-cases (ok a) = inl (a, refl)
Result-cases (err e) = inr (e, refl)

-- A guard that a successful result has passed.
pub past_guard {ℓ} :
    {A : Type ℓ} (b : Bool) (e : Error) (r : Result A) (a : A)
    → (if b then err e else r) ≡ ok a
    → (b ≡ false) × (r ≡ ok a)
past_guard true e r a h = absurd (err_ok h)
  where
    err_ok : ¬ (err e ≡ ok a)
    err_ok x = cc
past_guard false e r a h = (refl, h)

pub within_guard {ℓ} :
    {A : Type ℓ} (b : Bool) (e : Error) (r : Result A) (a : A)
    → (if b then r else err e) ≡ ok a
    → (b ≡ true) × (r ≡ ok a)
within_guard true e r a h = (refl, h)
within_guard false e r a h = absurd (err_ok h)
  where
    err_ok : ¬ (err e ≡ ok a)
    err_ok x = cc
