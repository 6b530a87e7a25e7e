-- ===== src/Optimization/Simulation/Mix.antt =====
-- What the loops over the model mix compute.
use mathlib.Core.List.{append-nil, append_assoc}
use newchanges.Base.{
  ◌≡◌, refl, sym, ap, ◌∙◌, arith, ◌⊎◌, inl, inr, Bool, true, false, not, ◌||◌, List, [], ◌∷◌, ◌++◌,
  Option, none, some, String, is_none, is_empty, any, keep, map, Bool-cases, Option-cases,
  if◌then◌else◌,
}
use newchanges.Base.Float.{Float}
use newchanges.Registry.{ModelRegistryEntry, has_known_pricing}
use newchanges.Optimization.Simulation.{
  Rates, ModelMixEntry, Blend, if_priced, blend, blend_step, no_blend, blended_rate, blend_result,
  score_of, weigh, impact_on, quality_impact,
}

module _ {ℓ} {F : Type ℓ} where
  abbrev pub is_unpriced : Option (ModelRegistryEntry F) → Bool
  is_unpriced none = true
  is_unpriced (some m) = not (has_known_pricing m)

  is_none-if_priced : (o : Option (ModelRegistryEntry F)) → is_none (if_priced o) ≡ is_unpriced o
  is_none-if_priced none = refl
  is_none-if_priced (some m) = elim (Bool-cases (has_known_pricing m)) [
    | inl q ↦ rw q refl
    | inr q ↦ rw q refl
  ]

module _ {ℓ} {F : Type ℓ} (registry : String → Option (ModelRegistryEntry F)) where
  -- An entry whose model is unknown, or known without its pricing.
  abbrev pub lacks_pricing : ModelMixEntry F → Bool
  lacks_pricing e = is_unpriced (registry e.model_id)

  abbrev pub lacks_score : ModelMixEntry F → Bool
  lacks_score e = is_none (score_of (registry e.model_id))

module _ {ℓ} {F : Type ℓ} ⦃f : Float F⦄ where
  abbrev pub shares : F → List (ModelMixEntry F) → F
  shares total [] = total
  shares total (e ∷ mix) = shares (f.add total e.share_percent) mix

module _ {ℓ} {F : Type ℓ} ⦃f : Float F⦄ ⦃r : Rates F⦄
    (registry : String → Option (ModelRegistryEntry F)) where
  abbrev pub unpriced_ids : List (ModelMixEntry F) → List String
  unpriced_ids mix = map (λ (e : ModelMixEntry F). e.model_id) (keep (lacks_pricing registry) mix)

  step_unpriced :
      (a : Blend F) (e : ModelMixEntry F) (o : Option (ModelRegistryEntry F))
      → (blend_step a e o).unpriced ≡ a.unpriced ++ (if is_none o then e.model_id ∷ [] else [])
  step_unpriced a e none = refl
  step_unpriced a e (some m) = sym (append-nil a.unpriced)

  blend-unpriced_ids :
      (a : Blend F) (mix : List (ModelMixEntry F))
      → (blend registry a mix).unpriced ≡ a.unpriced ++ unpriced_ids mix
  unfolding blend
  blend-unpriced_ids a [] = sym (append-nil a.unpriced)
  blend-unpriced_ids a (e ∷ mix) =
      blend-unpriced_ids (blend_step a e (if_priced (registry e.model_id))) mix
      ∙ ap (λ us. us ++ unpriced_ids mix) (step_unpriced a e (if_priced (registry e.model_id)))
      ∙ ap (λ b. (a.unpriced ++ (if b then e.model_id ∷ [] else [])) ++ unpriced_ids mix)
          (is_none-if_priced (registry e.model_id))
      ∙ append_assoc a.unpriced _ (unpriced_ids mix)
      ∙ ap (λ us. a.unpriced ++ us) (split (Bool-cases (lacks_pricing registry e)))
    where
      split :
          (lacks_pricing registry e ≡ true) ⊎ (lacks_pricing registry e ≡ false)
          → (if lacks_pricing registry e then e.model_id ∷ [] else []) ++ unpriced_ids mix
            ≡ unpriced_ids (e ∷ mix)
      split (inl q) = rw q refl
      split (inr q) = rw q refl

  step_shares :
      (a : Blend F) (e : ModelMixEntry F) (o : Option (ModelRegistryEntry F))
      → is_none o ≡ false
      → (blend_step a e o).total_share ≡ f.add a.total_share e.share_percent
  step_shares a e none h = absurd (ground arith)
  step_shares a e (some m) h = refl

  blend-shares :
      (a : Blend F) (mix : List (ModelMixEntry F))
      → any (lacks_pricing registry) mix ≡ false
      → (blend registry a mix).total_share ≡ shares a.total_share mix
  unfolding blend
  blend-shares a [] h = refl
  blend-shares a (e ∷ mix) h =
      blend-shares (blend_step a e (if_priced (registry e.model_id))) mix (ground arith)
      ∙ ap (λ x. shares x mix)
          (step_shares a e (if_priced (registry e.model_id))
            (is_none-if_priced (registry e.model_id) ∙ ground arith))

  any-unpriced_ids :
      (mix : List (ModelMixEntry F))
      → any (lacks_pricing registry) mix ≡ not (is_empty (unpriced_ids mix))
  any-unpriced_ids [] = refl
  any-unpriced_ids (e ∷ mix) = elim (Bool-cases (lacks_pricing registry e)) [
    | inl q ↦ rw q refl
    | inr q ↦ rw q (any-unpriced_ids mix)
  ]

  pub blended_rate-unpriced_ids :
      (mix : List (ModelMixEntry F)) → (blended_rate registry mix).1 ≡ unpriced_ids mix
  unfolding blended_rate
  blended_rate-unpriced_ids [] = refl
  blended_rate-unpriced_ids (e ∷ mix) =
      ids (blend registry no_blend (e ∷ mix)) ∙ blend-unpriced_ids no_blend (e ∷ mix)
    where
      ids : (a : Blend F) → (blend_result a).1 ≡ a.unpriced
      ids a = chosen a.unpriced (f.le a.total_share f.nought)
        where
          chosen :
              (us : List String) (b : Bool)
              → (if◌then◌else◌ {A = Option F × List String × Option String}
                  (not (is_empty us) || b)
                  (none, us, a.cost_unit)
                  (some a.weighted, [], a.cost_unit)).1
                ≡ us
          chosen [] true = refl
          chosen [] false = refl
          chosen (u ∷ us) b = refl

  -- When there is no blended rate.
  abbrev pub uncosted : List (ModelMixEntry F) → Bool
  uncosted mix =
      is_empty mix || (any (lacks_pricing registry) mix || f.le (shares f.nought mix) f.nought)

  is_none-blend_result :
      (a : Blend F)
      → is_none (blend_result a).0 ≡ (not (is_empty a.unpriced) || f.le a.total_share f.nought)
  is_none-blend_result a =
      elim (Bool-cases (not (is_empty a.unpriced) || f.le a.total_share f.nought)) [
        | inl q ↦ rw q refl
        | inr q ↦ rw q refl
      ]

  pub blended_rate-uncosted :
      (mix : List (ModelMixEntry F)) → is_none (blended_rate registry mix).0 ≡ uncosted mix
  unfolding blended_rate
  blended_rate-uncosted [] = refl
  blended_rate-uncosted (e ∷ mix) =
      is_none-blend_result (blend registry no_blend (e ∷ mix))
      ∙ ap
          (λ us. not (is_empty us) || f.le (blend registry no_blend (e ∷ mix)).total_share f.nought)
          (blend-unpriced_ids no_blend (e ∷ mix))
      ∙ ap (λ b. b || f.le (blend registry no_blend (e ∷ mix)).total_share f.nought)
          (sym (any-unpriced_ids (e ∷ mix)))
      ∙ rest (Bool-cases (any (lacks_pricing registry) (e ∷ mix)))
    where
      rest :
          (any (lacks_pricing registry) (e ∷ mix) ≡ true)
            ⊎ (any (lacks_pricing registry) (e ∷ mix) ≡ false)
          → (any (lacks_pricing registry) (e ∷ mix)
              || f.le (blend registry no_blend (e ∷ mix)).total_share f.nought)
            ≡ uncosted (e ∷ mix)
      rest (inl q) = rw q refl
      rest (inr q) =
          ap (λ x. any (lacks_pricing registry) (e ∷ mix) || f.le x f.nought)
            (blend-shares no_blend (e ∷ mix) q)

  -- When there is no figure for the quality.
  abbrev pub unscored : List (ModelMixEntry F) → Option F → Bool
  unscored mix none = true
  unscored mix (some base) =
      is_empty mix
      || (f.le base f.nought
          || (any (lacks_score registry) mix || f.le (shares f.nought mix) f.nought))

  is_none-weigh :
      (base w t : F) (mix : List (ModelMixEntry F))
      → is_none (impact_on base (weigh registry (w, t) mix))
        ≡ (any (lacks_score registry) mix || f.le (shares t mix) f.nought)
  unfolding weigh
  is_none-weigh base w t [] = elim (Bool-cases (f.le t f.nought)) [
    | inl q ↦ rw q refl
    | inr q ↦ rw q refl
  ]
  is_none-weigh base w t (e ∷ mix) = elim (Option-cases (score_of (registry e.model_id))) [
    | inl q ↦ ap (λ o. is_none (impact_on base (after o))) q ∙ rw q refl
    | inr (x, q) ↦
        ap (λ o. is_none (impact_on base (after o))) q
        ∙ is_none-weigh base (f.add w (r.times x (r.over e.share_percent f.hundred)))
            (f.add t e.share_percent) mix
        ∙ rw q refl
  ]
    where
      after : Option F → Option (F × F)
      after none = none
      after (some x) =
          weigh registry
            (f.add w (r.times x (r.over e.share_percent f.hundred)), f.add t e.share_percent) mix

  pub quality_impact-unscored :
      (mix : List (ModelMixEntry F)) (base : Option F)
      → is_none (quality_impact registry mix base) ≡ unscored mix base
  unfolding quality_impact
  quality_impact-unscored mix none = refl
  quality_impact-unscored mix (some base) = elim (Bool-cases (is_empty mix || f.le base f.nought)) [
    | inl q ↦ rw q (ground arith)
    | inr q ↦ rw q (is_none-weigh base f.nought f.nought mix ∙ ground arith)
  ]
