-- ===== src/RateLimit/Answers.antt =====
-- A check always answers under a policy that the constructor accepts.
use newchanges.Base.{
  ℕ, ◌≤◌, leb, if◌then◌else◌, some, String, List, [], ◌∷◌, length, ◌≡◌, refl, arith, Bool-cases,
  inl, inr,
}
use newchanges.Base.Audit.{Trail, rate_limit_exceeded}
use newchanges.Base.Float.{Float}
use newchanges.RateLimit.{RateLimitPolicy, RateLimitDecision, Hits, check, make_policy, count_hit}

module _ {ℓ} {F : Type ℓ} ⦃f : Float F⦄ where
  -- what a decision adds to the trail of security events
  abbrev pub noted : RateLimitDecision F → Trail → Trail
  noted d trail =
      if d.allowed
      then trail
      else record { name = rate_limit_exceeded; reason = "window_exhausted" } ∷ trail

  answers :
      (now : F) (key : String) (p : RateLimitPolicy F) (s : Hits F × Trail) (hits : List F)
      → 1 ≤ p.max_requests
      → (d : RateLimitDecision F) × ((count_hit now key p s hits).0 ≡ some d)
        × ((count_hit now key p s hits).1.1 ≡ noted d s.1)
  answers now key p (store, trail) [] h = elim (Bool-cases (leb p.max_requests 0)) [
    | inl full ↦ ground (arith, full)
    | inr room ↦ rw room (_, refl, refl)
  ]
  answers now key p (store, trail) (x ∷ xs) h =
      elim (Bool-cases (leb p.max_requests (length (x ∷ xs)))) [
        | inl full ↦ rw full (_, refl, refl)
        | inr room ↦ rw room (_, refl, refl)
      ]

  -- Under a policy that the constructor accepts, a check always answers, and records one security
  -- event exactly when it refuses.
  pub check-answers :
      (max_requests : ℕ) (window : F) (p : RateLimitPolicy F)
      → make_policy max_requests window ≡ some p
      → (now : F) (key : String) (s : Hits F × Trail)
      → (d : RateLimitDecision F) × ((check now key p s).0 ≡ some d)
        × ((check now key p s).1.1 ≡ noted d s.1)
  unfolding make_policy check
  check-answers n window p e now key s = answers now key p s _ (ground (arith, e))
