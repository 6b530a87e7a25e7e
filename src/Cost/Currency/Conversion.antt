-- ===== src/Cost/Currency/Conversion.antt =====
-- When an amount can be converted.
use newchanges.Base.{Bool, true, false, Option, String, ◌≡◌, arith}
use newchanges.Cost.Currency.{
  CurrencyConverter, Converted, converted, conversion_unavailable, can_convert, to_base,
}

abbrev pub is_converted {ℓ} : {F : Type ℓ} → Converted F → Bool
is_converted (converted x) = true
is_converted (conversion_unavailable source target) = false

module _ {ℓ} {F : Type ℓ} (times : F → F → F) (c : CurrencyConverter F) where
  -- An amount is converted exactly when `can_convert` says so: it is never taken over as it is for
  -- want of a rate.
  pub to_base-can_convert :
      (amount : F) (source : Option String)
      → is_converted (to_base times c amount source) ≡ can_convert c source
  unfolding to_base can_convert
  to_base-can_convert amount source = ground arith
