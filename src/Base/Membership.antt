-- ===== src/Base/Membership.antt =====
-- Membership in the parts of a list that the program selects.
use mathlib.Core.List.{Mem, Mem-prop, mem-cons, mem-cons_self, mem-cons_of_mem, not-mem-nil}
use mathlib.Core.Path.{subst}
use mathlib.Core.Logic.Or
use mathlib.Core.Bool.{Bool-set}
use newchanges.Base.{
  ℕ, zero, suc, ◌+◌, ◌≤◌, ◌≡◌, sym, refl, arith, Bool, true, false, List, [], ◌∷◌, inl, inr, All,
  keep, take, length, Bool-cases,
}

module _ {ℓ} {A : Type ℓ} where
  pub mem_take : (n : ℕ) (xs : List A) (x : A) → Mem x (take n xs) → Mem x xs
  mem_take zero xs x m = absurd (not-mem-nil m)
  mem_take (suc n) [] x m = m
  mem_take (suc n) (y ∷ xs) x m =
      Or.elim Mem-prop (mem-cons.0 m) (λ e. rw e mem-cons_self)
        (λ k. mem-cons_of_mem y (mem_take n xs x k))

  pub take_full : (n : ℕ) (xs : List A) → length xs ≤ n → take n xs ≡ xs
  take_full zero [] h = refl
  take_full zero (x ∷ xs) h = absurd (omega arith)
  take_full (suc n) [] h = refl
  take_full (suc n) (x ∷ xs) h = ground (arith, take_full n xs)

  pub length-take-le : (n : ℕ) (xs : List A) → length (take n xs) ≤ length xs
  length-take-le zero xs = omega arith
  length-take-le (suc n) [] = omega arith
  length-take-le (suc n) (x ∷ xs) = omega (arith, length-take-le n xs)

  pub mem-keep : (p : A → Bool) (xs : List A) (x : A) → Mem x (keep p xs) → Mem x xs
  mem-keep p [] x m = m
  mem-keep p (y ∷ xs) x m = elim (Bool-cases (p y)) [
    | inl e ↦
        Or.elim Mem-prop (mem-cons.0 (rw e at m)) (λ q. rw q mem-cons_self)
          (λ k. mem-cons_of_mem y (mem-keep p xs x k))
    | inr e ↦ mem-cons_of_mem y (mem-keep p xs x (rw e at m))
  ]

  pub keep_holds : (p : A → Bool) (xs : List A) (x : A) → Mem x (keep p xs) → p x ≡ true
  keep_holds p [] x m = absurd (not-mem-nil m)
  keep_holds p (y ∷ xs) x m = elim (Bool-cases (p y)) [
    | inl e ↦
        Or.elim (Bool-set _ _) (mem-cons.0 (rw e at m)) (λ q. rw q e) (λ k. keep_holds p xs x k)
    | inr e ↦ keep_holds p xs x (rw e at m)
  ]

  pub mem-keep_of_mem :
      (p : A → Bool) (xs : List A) (x : A) → Mem x xs → p x ≡ true → Mem x (keep p xs)
  mem-keep_of_mem p [] x m h = m
  mem-keep_of_mem p (y ∷ xs) x m h =
      Or.elim Mem-prop (mem-cons.0 m)
        (λ q. subst (λ z. Mem x (keep p (z ∷ xs))) q (rw h mem-cons_self))
        (λ k. later (mem-keep_of_mem p xs x k h))
    where
      later : Mem x (keep p xs) → Mem x (keep p (y ∷ xs))
      later k = elim (Bool-cases (p y)) [ inl e ↦ rw e (mem-cons_of_mem y k) | inr e ↦ rw e k ]

  pub All-mem {κ} :
      (P : A → Type κ)
      → ((x : A) → IsProp (P x))
      → (xs : List A) (x : A) → All P xs
      → Mem x xs
      → P x
  All-mem P prop [] x h m = absurd (not-mem-nil m)
  All-mem P prop (y ∷ xs) x h m =
      Or.elim (prop x) (mem-cons.0 m) (λ q. subst P (sym q) h.0) (All-mem P prop xs x h.1)

  -- Two tests that exclude each other keep no more than there is.
  pub length-keep_disjoint :
      (p q : A → Bool) (xs : List A)
      → ((x : A) → p x ≡ true → q x ≡ false)
      → length (keep p xs) + length (keep q xs) ≤ length xs
  length-keep_disjoint p q [] h = omega arith
  length-keep_disjoint p q (x ∷ xs) h = ground (arith, h x, length-keep_disjoint p q xs h)
