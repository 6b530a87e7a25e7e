-- ===== src/RateLimit/History.antt =====
-- The rate limiter's decisions against the history of what it has admitted.
use mathlib.Core.Path.{subst}
use newchanges.Base.{
  ℕ, ◌+◌, ◌-◌, ◌≤◌, leb, true, false, if◌then◌else◌, Option, none, some, String, List, [], ◌∷◌,
  ◌++◌, length, length-append, ◌≡◌, refl, sym, ap, ◌∙◌, arith, Bool-cases, inl, inr,
}
use newchanges.Base.Audit.{Trail}
use newchanges.Base.Float.{Float, IsOrdered, ◌≼◌, max}
use newchanges.RateLimit.Chain.{drop_expired-le}
use newchanges.RateLimit.{
  RateLimitPolicy, RateLimitDecision, Hits, hits_of, check, refusal, drop_expired,
}
use newchanges.RateLimit.Window.{
  recent, Served, IsWindow, recent-IsWindow, IsWindow-later, Served-IsWindow, check-hits,
}

module _ {ℓ} {F : Type ℓ} ⦃f : Float F⦄ where
  -- A refusal until the oldest of some hits is outside the window, or at once where that is past.
  abbrev until_oldest : F → F → List F → Option (RateLimitDecision F)
  until_oldest now window [] = none
  until_oldest now window (oldest ∷ hits) = some (record {
    allowed = false;
    remaining = 0;
    retry_after_seconds = some (max (f.sub (f.add oldest window) now) f.nought);
  })

  -- The decision on a call, by the admitted calls that are inside the window.
  abbrev pub decision_on : F → RateLimitPolicy F → List F → Option (RateLimitDecision F)
  decision_on now p inside =
      if leb p.max_requests (length inside)
      then until_oldest now p.window_seconds inside
      else some (record {
        allowed = true;
        remaining = p.max_requests - (length inside + 1);
        retry_after_seconds = none;
      })

  refusal_lem :
      (now : F) (p : RateLimitPolicy F) (hits : List F)
      → refusal now p hits ≡ until_oldest now p.window_seconds hits
  refusal_lem now p [] = refl
  refusal_lem now p (h ∷ hits) = refl

  decision_lem :
      (now : F) (p : RateLimitPolicy F) (hits : List F)
      → (if leb p.max_requests (length hits)
          then refusal now p hits
          else some (record {
            allowed = true;
            remaining = p.max_requests - length (hits ++ now ∷ []);
            retry_after_seconds = none;
          }))
        ≡ decision_on now p hits
  decision_lem now p hits = elim (Bool-cases (leb p.max_requests (length hits))) [
    | inl q ↦ rw q (refusal_lem now p hits)
    | inr q ↦ rw q (
        ap (λ n. some (record { allowed = true; remaining = n; retry_after_seconds = none }))
          (omega (arith, length-append hits (now ∷ []))))
  ]

module _ {ℓ} {F : Type ℓ} ⦃f : Float F⦄ (window : String → F) (most : String → ℕ) (o : IsOrdered F)
    (sub_mono : (a b c : F) → a ≼ b → f.sub a c ≼ f.sub b c) where
  module _ {t : F} {s : Hits F × Trail} {history : String → List F}
      (run : Served window most t s history) (now : F) (key : String) (h : t ≼ now) where
    later : IsWindow now (window key) (most key) (hits_of s.0 key) (history key)
    later =
        IsWindow-later o sub_mono t now (window key) (most key) (hits_of s.0 key) (history key) h
          (Served-IsWindow o sub_mono window most run key)

    live_lem :
        drop_expired (f.sub now (window key)) (hits_of s.0 key)
        ≡ recent now (window key) (history key)
    live_lem = sym (
        recent-IsWindow o sub_mono now (window key) (most key) (hits_of s.0 key) (history key)
          later)

    -- Over ordered floats whose rounded subtraction is monotone, and at times that do not go back,
    -- where all checks of a key have the same window and maxima up to a bound: whatever calls of
    -- all keys have been served, a check decides by the history of admitted calls of its own key
    -- alone. It admits when fewer than its maximum of them are inside the window that ends now, and
    -- reports what then remains, else it refuses, with a retry after the rounded time until the
    -- oldest of them leaves the window, or after 0.0 where that is negative.
    pub check-decides :
        (p : RateLimitPolicy F)
        → p.window_seconds ≡ window key
        → (check now key p s).0 ≡ decision_on now p (recent now p.window_seconds (history key))
    check-decides p same =
        check-hits o sub_mono now key p s
        ∙ decision_lem now p (drop_expired (f.sub now p.window_seconds) (hits_of s.0 key))
        ∙ ap (decision_on now p) (
            subst (λ v. drop_expired (f.sub now v) (hits_of s.0 key) ≡ recent now v (history key))
              (sym same) live_lem)

    -- Over ordered floats whose rounded subtraction is monotone, and at times that do not go back,
    -- no window of any key ever holds more admitted calls than the largest maximum of its checks.
    pub Served-recent-le : length (recent now (window key) (history key)) ≤ most key
    Served-recent-le = omega (
      arith,
      ap length live_lem,
      drop_expired-le (f.sub now (window key)) (hits_of s.0 key),
      later.bounded,
    )
