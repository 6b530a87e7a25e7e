-- ===== src/Orchestrator/Selection/Order.antt =====
-- The order of `_select_model`'s sort keys is total and transitive.
use newchanges.Base.{◌≡◌, ◌⊎◌, refl, arith, Bool, true, false, Option, none, some}
use newchanges.Base.Float.{Float, IsOrdered}
use newchanges.Base.Sort.{text_le_total, text_le_trans}
use newchanges.Registry.{ModelRegistryEntry}
use newchanges.Orchestrator.Selection.{
  lex, below_unknown, cost_lt, latency_lt, known_lt, quality_of, quality_lt, name_order, key_order,
}

-- A strict comparison of one component.
pub record IsComparison {ℓ} {A : Type ℓ} (lt : A → A → Bool) : Type ℓ where
  pub asymm : (a b : A) → lt a b ≡ true → lt b a ≡ false
  pub apart : (a b c : A) → lt a b ≡ false → lt b c ≡ false → lt a c ≡ false

-- A total and transitive comparison.
pub record IsTotal {ℓ} {A : Type ℓ} (le : A → A → Bool) : Type ℓ where
  pub total : (a b : A) → (le a b ≡ true) ⊎ (le b a ≡ true)
  pub trans : (a b c : A) → le a b ≡ true → le b c ≡ true → le a c ≡ true

lex-IsTotal {ℓ} :
    {A : Type ℓ} (lt le : A → A → Bool) → IsComparison lt → IsTotal le → IsTotal (lex lt le)
lex-IsTotal lt le c t = record {
  total = λ a b. ground (arith, c.asymm a b, t.total a b);
  trans = λ x y z h k. ground (
    arith,
    c.asymm x y,
    c.asymm y x,
    c.asymm y z,
    c.asymm z y,
    c.apart x z y,
    c.apart z y x,
    c.apart y x z,
    c.apart x y z,
    c.apart y z x,
    c.apart z x y,
    t.trans x y z,
  );
}

-- Two that are below one another differ in no component, so the rest decides.
lex_rest {ℓ} :
    {A : Type ℓ} (lt le : A → A → Bool)
    → IsComparison lt
    → (a b : A) → lex lt le a b ≡ true
    → lex lt le b a ≡ true
    → le a b ≡ true
lex_rest lt le c a b h k = ground (arith, c.asymm a b, c.asymm b a)

module _ {ℓ} {F : Type ℓ} ⦃f : Float F⦄ (o : IsOrdered F) where
  pub lt_asymm : (a b : F) → f.lt a b ≡ true → f.lt b a ≡ false
  lt_asymm a b h = ground (arith, o.lt-eq-not-le a b, o.lt-eq-not-le b a, o.le_total a b)

  lt_apart : (a b c : F) → f.lt a b ≡ false → f.lt b c ≡ false → f.lt a c ≡ false
  lt_apart a b c h k =
      ground (arith, o.lt-eq-not-le a b, o.lt-eq-not-le b c, o.lt-eq-not-le a c, o.le_trans c b a)

  pub unknown_asymm : (a b : Option F) → below_unknown a b ≡ true → below_unknown b a ≡ false
  unknown_asymm none b h = cc
  unknown_asymm (some a) none h = refl
  unknown_asymm (some a) (some b) h = lt_asymm a b h

  unknown_apart :
      (a b c : Option F)
      → below_unknown a b ≡ false
      → below_unknown b c ≡ false
      → below_unknown a c ≡ false
  unknown_apart none b c h k = refl
  unknown_apart (some a) none c h k = cc
  unknown_apart (some a) (some b) none h k = cc
  unknown_apart (some a) (some b) (some c) h k = lt_apart a b c h k

  cost_lt-IsComparison : IsComparison (cost_lt {F = F})
  cost_lt-IsComparison = record {
    asymm = λ a b h. unknown_asymm a.input_cost b.input_cost h;
    apart = λ a b c h k. unknown_apart a.input_cost b.input_cost c.input_cost h k;
  }

  latency_lt-IsComparison : IsComparison (latency_lt {F = F})
  latency_lt-IsComparison = record {
    asymm = λ a b h. unknown_asymm a.latency_score b.latency_score h;
    apart = λ a b c h k. unknown_apart a.latency_score b.latency_score c.latency_score h k;
  }

  known_lt-IsComparison : IsComparison (known_lt {F = F})
  known_lt-IsComparison = record {
    asymm = λ a b h. ground arith;
    apart = λ a b c h k. ground arith;
  }

  quality_lt-IsComparison : IsComparison (quality_lt {F = F})
  quality_lt-IsComparison = record {
    asymm = λ a b h. lt_asymm (quality_of b) (quality_of a) h;
    apart = λ a b c h k. lt_apart (quality_of c) (quality_of b) (quality_of a) k h;
  }

  name_order-IsTotal : IsTotal (name_order {F = F})
  name_order-IsTotal = record {
    total = λ a b. text_le_total a.model_name b.model_name;
    trans = λ a b c h k. text_le_trans a.model_name b.model_name c.model_name h k;
  }

  pub key_order-IsTotal : (prefer : Bool) → IsTotal (key_order {F = F} prefer)
  unfolding key_order
  key_order-IsTotal true = lex-IsTotal _ _ known_lt-IsComparison (
      lex-IsTotal _ _ cost_lt-IsComparison (
        lex-IsTotal _ _ quality_lt-IsComparison
          (lex-IsTotal _ _ latency_lt-IsComparison name_order-IsTotal)))
  key_order-IsTotal false = lex-IsTotal _ _ quality_lt-IsComparison (
      lex-IsTotal _ _ known_lt-IsComparison (
        lex-IsTotal _ _ cost_lt-IsComparison
          (lex-IsTotal _ _ latency_lt-IsComparison name_order-IsTotal)))

  -- the components that both orders end with
  abbrev tail : ModelRegistryEntry F → ModelRegistryEntry F → Bool
  tail = lex latency_lt name_order

  cost_tail :
      (a b : ModelRegistryEntry F)
      → lex cost_lt tail a b ≡ true
      → lex cost_lt tail b a ≡ true
      → name_order a b ≡ true
  cost_tail a b h k =
      lex_rest latency_lt name_order latency_lt-IsComparison a b
        (lex_rest cost_lt tail cost_lt-IsComparison a b h k)
        (lex_rest cost_lt tail cost_lt-IsComparison b a k h)

  pub key_order-name :
      (prefer : Bool) (a b : ModelRegistryEntry F)
      → key_order prefer a b ≡ true
      → key_order prefer b a ≡ true
      → name_order a b ≡ true
  unfolding key_order
  key_order-name true a b h k =
      lex_rest latency_lt name_order latency_lt-IsComparison a b
        (lex_rest quality_lt tail quality_lt-IsComparison a b (after a b h k) (after b a k h))
        (lex_rest quality_lt tail quality_lt-IsComparison b a (after b a k h) (after a b h k))
    where
      rest : ModelRegistryEntry F → ModelRegistryEntry F → Bool
      rest = lex cost_lt (lex quality_lt tail)

      after :
          (x y : ModelRegistryEntry F)
          → lex known_lt (lex cost_lt (lex quality_lt tail)) x y ≡ true
          → lex known_lt (lex cost_lt (lex quality_lt tail)) y x ≡ true
          → lex quality_lt tail x y ≡ true
      after x y p q =
          lex_rest cost_lt (lex quality_lt tail) cost_lt-IsComparison x y
            (lex_rest known_lt rest known_lt-IsComparison x y p q)
            (lex_rest known_lt rest known_lt-IsComparison y x q p)
  key_order-name false a b h k =
      cost_tail a b
        (lex_rest known_lt (lex cost_lt tail) known_lt-IsComparison a b (strip a b h k)
          (strip b a k h))
        (lex_rest known_lt (lex cost_lt tail) known_lt-IsComparison b a (strip b a k h)
          (strip a b h k))
    where
      strip :
          (x y : ModelRegistryEntry F)
          → lex quality_lt (lex known_lt (lex cost_lt tail)) x y ≡ true
          → lex quality_lt (lex known_lt (lex cost_lt tail)) y x ≡ true
          → lex known_lt (lex cost_lt tail) x y ≡ true
      strip x y = lex_rest quality_lt (lex known_lt (lex cost_lt tail)) quality_lt-IsComparison x y
