-- ===== src/Orchestrator/Selection.antt =====
-- The choice of a model in app/orchestrator/orchestrator.py: `_effective_priority`, `_candidates`,
-- `_select_model`, `_context_limit` and `_fallback_model`.
pub mod Order
pub mod Choice
pub mod Best
use Prim.Native.Nat.{min}
use newchanges.Base.{
  ℕ, ltb, Bool, true, false, not, ◌&&◌, List, [], ◌∷◌, if◌then◌else◌, Option, none, some, String,
  str_eq, keep, is_none,
}
use newchanges.Base.Float.{Float}
use newchanges.Base.Sort.{text_le, sort_by}
use newchanges.Base.Text.{upper, strip}
use newchanges.Registry.{ModelRegistryEntry, is_some, has_known_pricing}
use newchanges.Registry.Workload.{Requirements, no_requirements, find_for_workload}
use newchanges.Orchestrator.Classification.{BusinessPriority, priority_index, priority_of}

-- the floor that a workload declares: an empty text and a text that is no priority are none
abbrev pub declared_floor : Option String → Option BusinessPriority
declared_floor none = none
declared_floor (some s) = if str_eq s "" then none else priority_of (upper (strip s))

unfoldable pub effective_priority : BusinessPriority → Option String → BusinessPriority
effective_priority requested declared = elim (declared_floor declared) [
  | none ↦ requested
  | some floor ↦ if ltb (priority_index requested) (priority_index floor) then floor else requested
]

-- The comparison of tuples, first component first: whether the one is less or greater there, and
-- how the rest compares.
abbrev pub lex {ℓ} : {A : Type ℓ} → (A → A → Bool) → (A → A → Bool) → A → A → Bool
lex lt rest a b = if lt a b then true else if lt b a then false else rest a b

module _ {ℓ} {F : Type ℓ} ⦃f : Float F⦄ where
  -- `float("inf")` stands for an unknown value, and is more than every known one.
  abbrev pub below_unknown : Option F → Option F → Bool
  below_unknown none o = false
  below_unknown (some a) none = true
  below_unknown (some a) (some b) = f.lt a b

  abbrev pub cost_lt : ModelRegistryEntry F → ModelRegistryEntry F → Bool
  cost_lt a b = below_unknown a.input_cost b.input_cost

  abbrev pub latency_lt : ModelRegistryEntry F → ModelRegistryEntry F → Bool
  latency_lt a b = below_unknown a.latency_score b.latency_score

  -- `0 if has_cost else 1`
  abbrev pub known_lt : ModelRegistryEntry F → ModelRegistryEntry F → Bool
  known_lt a b = is_some a.input_cost && is_none b.input_cost

  -- the quality, or 0.0 where it is unknown
  abbrev pub quality_of : ModelRegistryEntry F → F
  quality_of e = elim e.quality_score [ none ↦ f.nought | some q ↦ q ]

  -- the negated qualities compare the other way round
  abbrev pub quality_lt : ModelRegistryEntry F → ModelRegistryEntry F → Bool
  quality_lt a b = f.lt (quality_of b) (quality_of a)

  abbrev pub name_order : ModelRegistryEntry F → ModelRegistryEntry F → Bool
  name_order a b = text_le a.model_name b.model_name

  -- `sort_key(a) <= sort_key(b)`
  unfoldable pub key_order : Bool → ModelRegistryEntry F → ModelRegistryEntry F → Bool
  key_order prefer_cheapest =
      if prefer_cheapest
      then lex known_lt (lex cost_lt (lex quality_lt (lex latency_lt name_order)))
      else lex quality_lt (lex known_lt (lex cost_lt (lex latency_lt name_order)))

  abbrev pub first : List (ModelRegistryEntry F) → Option (ModelRegistryEntry F)
  first [] = none
  first (e ∷ es) = some e

  -- `_select_model`
  unfoldable pub select_model : Bool → List (ModelRegistryEntry F) → Option (ModelRegistryEntry F)
  unfolding key_order sort_by
  select_model prefer_cheapest candidates = first (sort_by (key_order prefer_cheapest) candidates)

  -- `_candidates`: with the policy's minimum quality and the model that it pins, if any
  unfoldable pub model_candidates :
      List (ModelRegistryEntry F) → String → Option F → Option String → List (ModelRegistryEntry F)
  unfolding find_for_workload
  model_candidates rows workload_type minimum pinned =
      let found =
        find_for_workload rows workload_type
          (record no_requirements { min_quality_score = minimum }) in
      elim pinned [
        | none ↦ found
        | some k ↦ if str_eq k "" then found else keep (λ e. str_eq e.id k) found
      ]

  -- `_fallback_model`
  unfoldable pub fallback_model :
      List (ModelRegistryEntry F) → String → Option String → Bool → Option (ModelRegistryEntry F)
  unfolding find_for_workload select_model
  fallback_model rows workload_type failed prefer_cheapest = select_model prefer_cheapest (
      keep (λ e. not (elim failed [ none ↦ false | some k ↦ str_eq e.id k ]))
        (find_for_workload rows workload_type no_requirements))

-- `_context_limit`
abbrev pub context_limit : Option ℕ → Option ℕ → Option ℕ
context_limit none model = model
context_limit (some n) none = some n
context_limit (some n) (some m) = some (min n m)

-- The unit in the second component of `_estimate_cost`; the first, the amount, is always `None`.
abbrev pub estimate_unit {ℓ} : {F : Type ℓ} → Option (ModelRegistryEntry F) → Option String
estimate_unit none = none
estimate_unit (some e) = if has_known_pricing e then e.cost_unit else none
