-- ===== src/Cost/Currency.antt =====
-- app/services/currency.py. The decimal product of `to_base` is an argument.
pub mod Conversion
use newchanges.Base.{
  Bool, true, false, not, if◌then◌else◌, Option, none, some, String, str_eq, List, [], ◌∷◌, is_none,
}
use newchanges.Base.Text.{upper, strip}

-- `cleaned or None`
abbrev cleaned_or_none : String → Option String
cleaned_or_none s = if str_eq s "" then none else some s

unfoldable pub normalise_currency : Option String → Option String
unfolding upper strip
normalise_currency none = none
normalise_currency (some code) =
    if str_eq code "" then none else cleaned_or_none (upper (strip code))

pub record CurrencyConverter {ℓ} (F : Type ℓ) : Type ℓ where
  pub base_currency : String
  pub rates : Option (List (String × F))

-- `ConversionUnavailableError`, with its pair
pub data Converted {ℓ} (F : Type ℓ) : Type ℓ where
  converted : F → Converted F
  conversion_unavailable : String → String → Converted F

module _ {ℓ} {F : Type ℓ} where
  unfoldable pub find_rate : String → List (String × F) → Option F
  find_rate code [] = none
  find_rate code ((k, rate) ∷ rest) =
      let later = find_rate code rest in if str_eq k code then some rate else later

  -- `self.rates or {}`
  abbrev pub rates_of : CurrencyConverter F → List (String × F)
  rates_of c = elim c.rates [ none ↦ [] | some rates ↦ rates ]

  unfoldable pub can_convert : CurrencyConverter F → Option String → Bool
  unfolding normalise_currency find_rate
  can_convert c source = elim (normalise_currency source) [
    | none ↦ false
    | some code ↦
        if str_eq code c.base_currency then true else not (is_none (find_rate code (rates_of c)))
  ]

  -- `to_base`, with `float(Decimal(str(a)) * Decimal(str(b)))` as `times`
  unfoldable pub to_base : (F → F → F) → CurrencyConverter F → F → Option String → Converted F
  unfolding normalise_currency find_rate
  to_base times c amount source = elim (normalise_currency source) [
    | none ↦ conversion_unavailable "UNKNOWN" c.base_currency
    | some code ↦
        if str_eq code c.base_currency
        then converted amount
        else elim (find_rate code (rates_of c)) [
          | none ↦ conversion_unavailable code c.base_currency
          | some rate ↦ converted (times amount rate)
        ]
  ]
