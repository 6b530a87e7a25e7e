-- ===== src/Orchestrator/Selection/Best.antt =====
-- What the selected model has over the other candidates.
use mathlib.Core.List.{Mem}
use newchanges.Base.{
  ◌≡◌, refl, arith, Bool, true, false, not, ◌&&◌, ◌||◌, List, ◌∷◌, Option, none, some,
  if◌then◌else◌, Option-cases, inl, inr, is_none, All, All-of_mem,
}
use newchanges.Base.Float.{Float, IsOrdered}
use newchanges.Base.Sort.{text_le}
use newchanges.Registry.{ModelRegistryEntry, is_some}
use newchanges.Orchestrator.Selection.{key_order, quality_of, select_model, below_unknown}
use newchanges.Orchestrator.Selection.Choice.{IsLeast, select_model-IsLeast}
use newchanges.Orchestrator.Selection.Order.{lt_asymm, unknown_asymm}

module _ {ℓ} {F : Type ℓ} ⦃f : Float F⦄ where
  -- A known value is less than an unknown one.
  abbrev is_less : Option F → Option F → Bool
  is_less none b = false
  is_less (some a) none = true
  is_less (some a) (some b) = f.lt a b

  -- An unknown quality counts as 0.0.
  abbrev quality_level : Option F → F
  quality_level none = f.nought
  quality_level (some q) = q

  abbrev cheaper : ModelRegistryEntry F → ModelRegistryEntry F → Bool
  cheaper a b = is_less a.input_cost b.input_cost

  abbrev better : ModelRegistryEntry F → ModelRegistryEntry F → Bool
  better a b = f.lt (quality_level b.quality_score) (quality_level a.quality_score)

  abbrev faster : ModelRegistryEntry F → ModelRegistryEntry F → Bool
  faster a b = is_less a.latency_score b.latency_score

  -- Nothing that leads speaks for the other one.
  abbrev unopposed : ModelRegistryEntry F → ModelRegistryEntry F → Bool
  unopposed a b = not (cheaper b a) && not (better b a)

  -- Why one model is to be chosen rather than another: with cost in the lead, a lower cost, or a
  -- higher quality that costs no more; without, a higher quality, or a lower cost at no lower
  -- quality; in both, a lower latency that is not bought with cost or quality, or an earlier name
  -- where the other is ahead in none of the three.
  abbrev pub preferable : Bool → ModelRegistryEntry F → ModelRegistryEntry F → Bool
  preferable prefer_cheapest a b =
      (if prefer_cheapest
        then cheaper a b || (better a b && not (cheaper b a))
        else better a b || (cheaper a b && not (better b a)))
      || (unopposed a b
          && (faster a b || (not (faster b a) && not (text_le b.model_name a.model_name))))

  -- One of the candidates, to which none is preferable.
  abbrev pub IsBest : Bool → List (ModelRegistryEntry F) → Option (ModelRegistryEntry F) → Type ℓ
  IsBest prefer cs answer =
      (e : ModelRegistryEntry F) × (answer ≡ some e)
      × Mem e cs
      × All (λ x. preferable prefer x e ≡ false) cs

  less_lem : (a b : Option F) → below_unknown a b ≡ is_less a b
  less_lem none b = refl
  less_lem (some a) none = refl
  less_lem (some a) (some b) = refl

  known_lem : (a b : Option F) → (is_some a && is_none b) ≡ true → is_less a b ≡ true
  known_lem none b h = absurd (ground arith)
  known_lem (some a) none h = refl
  known_lem (some a) (some b) h = absurd (ground arith)

  quality_lem : (e : ModelRegistryEntry F) → quality_of e ≡ quality_level e.quality_score
  quality_lem e = elim (Option-cases e.quality_score) [ inl q ↦ rw q refl | inr (x, q) ↦ rw q refl ]

  module _ (o : IsOrdered F) where
    key_order-preferable :
        (prefer : Bool) (e x : ModelRegistryEntry F)
        → key_order prefer e x ≡ true
        → preferable prefer x e ≡ false
    unfolding key_order
    key_order-preferable true e x h = ground (
      arith,
      less_lem e.input_cost x.input_cost,
      less_lem x.input_cost e.input_cost,
      less_lem e.latency_score x.latency_score,
      less_lem x.latency_score e.latency_score,
      known_lem e.input_cost x.input_cost,
      known_lem x.input_cost e.input_cost,
      quality_lem e,
      quality_lem x,
      unknown_asymm o e.input_cost x.input_cost,
      unknown_asymm o x.input_cost e.input_cost,
      unknown_asymm o e.latency_score x.latency_score,
      lt_asymm o (quality_of e) (quality_of x),
      lt_asymm o (quality_of x) (quality_of e),
    )
    key_order-preferable false e x h = ground (
      arith,
      less_lem e.input_cost x.input_cost,
      less_lem x.input_cost e.input_cost,
      less_lem e.latency_score x.latency_score,
      less_lem x.latency_score e.latency_score,
      known_lem e.input_cost x.input_cost,
      known_lem x.input_cost e.input_cost,
      quality_lem e,
      quality_lem x,
      unknown_asymm o e.input_cost x.input_cost,
      unknown_asymm o x.input_cost e.input_cost,
      unknown_asymm o e.latency_score x.latency_score,
      lt_asymm o (quality_of e) (quality_of x),
      lt_asymm o (quality_of x) (quality_of e),
    )

    -- Over ordered floats, the model that is selected from candidates is one of them, and none is
    -- preferable to it. With cost in the lead, a model is preferable for a lower cost, or for a
    -- higher quality that costs no more; without, for a higher quality, or for a lower cost at no
    -- lower quality; in both, where the other has neither a lower cost nor a higher quality, for a
    -- lower latency, or for an earlier name at no higher latency. A known cost or latency is lower
    -- than an unknown one, and an unknown quality counts as 0.0.
    pub select_model-IsBest :
        (prefer : Bool) (c : ModelRegistryEntry F) (cs : List (ModelRegistryEntry F))
        → IsBest prefer (c ∷ cs) (select_model prefer (c ∷ cs))
    select_model-IsBest prefer c cs = best (select_model-IsLeast o prefer c cs)
      where
        best :
            IsLeast prefer (c ∷ cs) (select_model prefer (c ∷ cs))
            → IsBest prefer (c ∷ cs) (select_model prefer (c ∷ cs))
        best (e, chosen, m, least) = (
          e,
          chosen,
          m,
          All-of_mem _ (c ∷ cs) (λ x k. key_order-preferable prefer e x (least x k)),
        )
