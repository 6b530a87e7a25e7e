-- ===== src/RateLimit/Chain.antt =====
-- Lists of times in order, and the hits that a window keeps of one.
use newchanges.Base.{
  ◌≤◌, false, not, List, [], ◌∷◌, ◌++◌, length, keep, keep-full, All, All-append, All-map, ◌≡◌,
  refl, ap, arith, Bool-cases, inl, inr,
}
use newchanges.Base.Float.{Float, IsOrdered, ◌≼◌}
use newchanges.RateLimit.{drop_expired}

module _ {ℓ} {F : Type ℓ} ⦃f : Float F⦄ where
  -- in order of time
  abbrev pub IsChain : List F → Type 0
  IsChain [] = Unit
  IsChain (x ∷ xs) = All (λ y. x ≼ y) xs × IsChain xs

  pub IsChain-append :
      (xs : List F) (y : F) → IsChain xs → All (λ x. x ≼ y) xs → IsChain (xs ++ y ∷ [])
  IsChain-append [] y c h = (tt, tt)
  IsChain-append (x ∷ xs) y c h =
      (All-append (λ z. x ≼ z) xs (y ∷ []) c.0 (h.0, tt), IsChain-append xs y c.1 h.1)

  pub drop_expired-le :
      (cutoff : F) (hits : List F) → length (drop_expired cutoff hits) ≤ length hits
  unfolding drop_expired
  drop_expired-le cutoff [] = omega arith
  drop_expired-le cutoff (x ∷ xs) = ground (arith, drop_expired-le cutoff xs)

module _ {ℓ} {F : Type ℓ} ⦃f : Float F⦄ (o : IsOrdered F) where
  stays_recent :
      (x cutoff : F) (xs : List F)
      → f.le x cutoff ≡ false
      → All (λ y. x ≼ y) xs
      → All (λ y. f.le y cutoff ≡ false) xs
  stays_recent x cutoff xs h c = All-map _ _ xs (λ y e. ground (arith, o.le_trans x y cutoff e)) c

  pub recent-chain :
      (cutoff : F) (hits : List F)
      → IsChain hits
      → keep (λ hit. not (f.le hit cutoff)) hits ≡ drop_expired cutoff hits
  unfolding drop_expired
  recent-chain cutoff [] c = refl
  recent-chain cutoff (x ∷ xs) c = elim (Bool-cases (f.le x cutoff)) [
    | inl gone ↦ rw gone (recent-chain cutoff xs c.1)
    | inr kept ↦ rw kept (
        ap (λ l. x ∷ l)
          (keep-full _ xs (All-map _ _ xs (λ y e. rw e refl) (stays_recent x cutoff xs kept c.0))))
  ]
