-- ===== src/Base/Audit.antt =====
-- app/security/events.py: the security events, and the effect of a check that may record events
-- and raise. Events stand newest first; an event carries its name and its reason.
use Prim.Native.String.{String}
use mathlib.Core.List.{List, ◌∷◌}

pub data SecurityEvent : Type 0 where
  authentication_failed authorization_denied tenant_isolation_violation : SecurityEvent
  route_unprotected prompt_injection_detected guardrail_rejected tool_denied : SecurityEvent
  sensitive_output_blocked request_rejected_oversized rate_limit_exceeded : SecurityEvent
  high_risk_approval_required : SecurityEvent

pub record Event : Type 0 where
  pub name : SecurityEvent
  pub reason : String

abbrev pub Trail : Type 0
Trail = List Event

-- The exceptions that the security layer raises, with `ValueError` for a misuse by the caller.
pub data Error : Type 0 where
  forbidden cross_tenant value_error : Error

pub data Result {ℓ} (A : Type ℓ) : Type ℓ where
  ok : A → Result A
  err : Error → Result A

abbrev pub Audited {ℓ} : Type ℓ → Type ℓ
Audited A = Trail → Result A × Trail

module _ {ℓ} {A : Type ℓ} where
  abbrev pub pure : A → Audited A
  pure a t = (ok a, t)

  abbrev pub raise : Error → Audited A
  raise e t = (err e, t)

  -- `record_security_event(name, reason=…)` followed by `raise e`
  abbrev pub deny : SecurityEvent → String → Error → Audited A
  deny name reason e t = (err e, record { name = name; reason = reason } ∷ t)

infixl 5 ◌>>=◌ ◌>>◌
abbrev pub ◌>>=◌ {ℓ κ} : {A : Type ℓ} {B : Type κ} → Audited A → (A → Audited B) → Audited B
◌>>=◌ m f t = let (r, t') = m t in elim r [ ok a ↦ f a t' | err e ↦ (err e, t') ]

abbrev pub ◌>>◌ {κ} : {B : Type κ} → Audited (Unit {0}) → Audited B → Audited B
m >> k = m >>= λ _. k
