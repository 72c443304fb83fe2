-- ===== src/Base/Results.antt =====
-- The error values of the program. A sentinel error is a constructor, and an error that wraps it
-- with a formatted text is the sentinel itself: callers only test with `errors.Is`.

use Prim.Native.String.{String}
use mathlib.Core.Path.{◌≡◌, refl}
use mathlib.Core.Logic.{◌⊎◌, inl, inr}

-- internal/store/store.go, and the sentinels of internal/core/service.go.
pub data Error : Type 0 where
  device_not_found device_exists invalid_credential command_not_found : Error
  tenant_not_found tenant_exists product_not_found product_exists : Error
  group_not_found group_exists rule_not_found rule_exists : Error
  config_not_found config_exists firmware_not_found firmware_exists : Error
  ota_not_found ota_exists alert_not_found shadow_not_found : Error
  device_offline unknown_thing_property invalid_thing_model invalid_product : Error
  invalid_group invalid_rule invalid_config invalid_alert : Error
  -- An error without a sentinel, by its text.
  unnamed : String → Error

-- What a function of the program returns beside its `error`.
pub data Result {ℓ} (T : Type ℓ) : Type ℓ where
  err : Error → Result T
  ok : T → Result T

-- if err != nil { return err }
infixl 6 ◌>>=◌ ◌>>◌
abbrev pub ◌>>=◌ {ℓ κ} : {T : Type ℓ} {U : Type κ} → Result T → (T → Result U) → Result U
err failure >>= next = err failure
ok value >>= next = next value

abbrev pub ◌>>◌ {ℓ κ} : {T : Type ℓ} {U : Type κ} → Result T → Result U → Result U
err failure >> next = err failure
ok _ >> next = next

-- A result is an error or a success.
pub Result-cases {ℓ} :
    {T : Type ℓ} (r : Result T) → ((e : Error) × (r ≡ err e)) ⊎ ((x : T) × (r ≡ ok x))
Result-cases (err e) = inl (e, refl)
Result-cases (ok x) = inr (x, refl)
