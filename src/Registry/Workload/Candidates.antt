-- ===== src/Registry/Workload/Candidates.antt =====
-- What `find_candidates` returns and `find_for_workload` gathers, by membership.
use mathlib.Core.List.{Mem, Mem-prop, mem-cons, mem-cons_self, mem-cons_of_mem, not-mem-nil}
use mathlib.Core.List.Perm
use mathlib.Core.Logic.Or
use mathlib.Core.Logic.{∥∥₁_elim}
use mathlib.Core.Bool.{Bool-set}
use mathlib.Core.Path.{subst}
use newchanges.Base.{
  suc, ◌+◌, ◌≤◌, ◌≡◌, inl, inr, sym, ap, ◌∙◌, arith, Bool, true, false, ◌&&◌, List, [], ◌∷◌, str_eq,
  holds_text, keep, length, length-keep-le, All, eq_iff, Bool-cases, leb,
}
use newchanges.Base.Float.{Float}
use newchanges.Base.Sort.{sort_by, sort_by-perm, length-sort_by}
use newchanges.Base.Membership.{mem_take, take_full, length-take-le, All-mem}
use newchanges.Registry.{
  Capability, capability_value, modality_value, ModelRegistryEntry, apply_filters, select_page,
  name_le, is_true, when, where_given, is_at_least, is_some,
}
use newchanges.Registry.Workload.{Requirements, store, store_all, candidate_query, find_candidates}

-- No two rows have the same id: `id` is the primary key.
abbrev pub HasUniqueIds {ℓ} : {F : Type ℓ} → List (ModelRegistryEntry F) → Type 0
HasUniqueIds [] = Unit
HasUniqueIds (e ∷ rows) = All (λ x. str_eq e.id x.id ≡ false) rows × HasUniqueIds rows

-- So two rows with one id are one row.
same_row {ℓ} :
    {F : Type ℓ} (rows : List (ModelRegistryEntry F)) (a b : ModelRegistryEntry F)
    → HasUniqueIds rows
    → Mem a rows
    → Mem b rows
    → str_eq a.id b.id ≡ true
    → ∥ (a ≡ b) ∥₁
same_row [] a b u m n h = absurd (not-mem-nil m)
same_row {F} (e ∷ rows) a b u m n h =
    Or.elim squash₁ (mem-cons.0 m)
      (λ p. Or.elim squash₁ (mem-cons.0 n) (λ q. ∣ p ∙ sym q ∣₁) (λ k. absurd (first p k)))
      (λ l.
        Or.elim squash₁ (mem-cons.0 n) (λ q. absurd (second l q))
          (λ k. same_row rows a b u.1 l k h))
  where
    apart : (x : ModelRegistryEntry F) → Mem x rows → str_eq e.id x.id ≡ false
    apart x k = All-mem (λ y. str_eq e.id y.id ≡ false) (λ y. Bool-set _ _) rows x u.0 k

    first : a ≡ e → Mem b rows → ⊥
    first p k = ground (arith, apart b k, ap (λ (x : ModelRegistryEntry F). str_eq x.id b.id) p)

    second : Mem a rows → b ≡ e → ⊥
    second l q = ground (
      arith,
      apart a l,
      ap (λ (x : ModelRegistryEntry F). x.id) q,
      eq_iff e.id a.id,
      eq_iff a.id e.id,
      eq_iff a.id b.id,
    )

module _ {ℓ} {F : Type ℓ} ⦃f : Float F⦄ where
  -- The context, quality and pricing that a caller asks for, which an unknown value never meets.
  abbrev pub meets : Requirements F → ModelRegistryEntry F → Bool
  meets r e =
      where_given (is_at_least leb e.max_context_tokens) r.min_context_tokens
      && (where_given (is_at_least f.le e.quality_score) r.min_quality_score
          && when r.require_known_pricing
              (is_some e.input_cost && (is_some e.output_cost && is_some e.cost_unit)))

  -- What the filters ask for besides the capability.
  abbrev pub serves : Requirements F → Bool → ModelRegistryEntry F → Bool
  serves r vision e =
      e.enabled
      && (when vision (is_true e.supports_vision)
          && (where_given (λ m. holds_text e.modality (modality_value m)) r.modality && meets r e))

  abbrev pub has : ModelRegistryEntry F → Capability → Bool
  has e c = str_eq e.capability (capability_value c)

  pub filters :
      (r : Requirements F) (vision : Bool) (c : Capability) (e : ModelRegistryEntry F)
      → apply_filters (candidate_query r vision c) e ≡ (has e c && serves r vision e)
  unfolding apply_filters
  filters r vision c e = ground arith

  module _ (rows : List (ModelRegistryEntry F)) (r : Requirements F) (vision : Bool) where
    -- The rows that one query keeps, before it sorts and cuts them.
    abbrev pub kept : Capability → List (ModelRegistryEntry F)
    kept c = keep (apply_filters (candidate_query r vision c)) rows

    pub length-find_candidates :
        (c : Capability) → length (find_candidates rows r vision c) ≤ length (kept c)
    unfolding find_candidates select_page
    length-find_candidates c =
        omega (
          arith,
          length-take-le r.limit (sort_by name_le (kept c)),
          length-sort_by name_le (kept c),
        )

    pub mem_found :
        (c : Capability) (e : ModelRegistryEntry F)
        → Mem e (find_candidates rows r vision c)
        → Mem e (kept c)
    unfolding find_candidates select_page
    mem_found c e m = (Perm.mem_iff (sort_by-perm name_le (kept c))).0 (mem_take r.limit _ e m)

    pub found_mem :
        (c : Capability) (e : ModelRegistryEntry F)
        → length rows ≤ r.limit
        → Mem e (kept c)
        → Mem e (find_candidates rows r vision c)
    unfolding find_candidates select_page
    found_mem c e h m =
        subst (Mem e) (sym (take_full r.limit (sort_by name_le (kept c)) fits))
          ((Perm.mem_iff (sort_by-perm name_le (kept c))).1 m)
      where
        fits : length (sort_by name_le (kept c)) ≤ r.limit
        fits = omega (
          arith,
          length-sort_by name_le (kept c),
          length-keep-le (apply_filters (candidate_query r vision c)) rows,
        )

  -- What `seen` holds.
  length-store :
      (e : ModelRegistryEntry F) (seen : List (ModelRegistryEntry F))
      → length (store e seen) ≤ suc (length seen)
  length-store e [] = omega arith
  length-store e (x ∷ seen) = ground (arith, length-store e seen)

  pub length-store_all :
      (es seen : List (ModelRegistryEntry F)) → length (store_all es seen) ≤ length es + length seen
  length-store_all [] seen = omega arith
  length-store_all (e ∷ es) seen =
      omega (arith, length-store_all es (store e seen), length-store e seen)

  module _ (P : ModelRegistryEntry F → Type ℓ) where
    store-All :
        (e : ModelRegistryEntry F) (seen : List (ModelRegistryEntry F))
        → P e
        → All P seen
        → All P (store e seen)
    store-All e [] p h = (p, tt)
    store-All e (x ∷ seen) p h = elim (Bool-cases (str_eq x.id e.id)) [
      | inl q ↦ rw q (p, h.1)
      | inr q ↦ rw q (h.0, store-All e seen p h.1)
    ]

    pub store_all-All :
        (es seen : List (ModelRegistryEntry F)) → All P es → All P seen → All P (store_all es seen)
    store_all-All [] seen k h = h
    store_all-All (e ∷ es) seen k h = store_all-All es (store e seen) k.1 (store-All e seen k.0 h)

  mem_store : (e : ModelRegistryEntry F) (seen : List (ModelRegistryEntry F)) → Mem e (store e seen)
  mem_store e [] = mem-cons_self
  mem_store e (x ∷ seen) = elim (Bool-cases (str_eq x.id e.id)) [
    | inl q ↦ rw q mem-cons_self
    | inr q ↦ rw q (mem-cons_of_mem x (mem_store e seen))
  ]

  -- An entry stays in `seen` unless another with its id takes its place.
  store_keeps :
      (e y : ModelRegistryEntry F) (seen : List (ModelRegistryEntry F))
      → (str_eq y.id e.id ≡ true → ∥ (y ≡ e) ∥₁)
      → Mem y seen
      → Mem y (store e seen)
  store_keeps e y [] same m = absurd (not-mem-nil m)
  store_keeps e y (x ∷ seen) same m = elim (Bool-cases (str_eq x.id e.id)) [
    | inl q ↦ rw q (
        Or.elim Mem-prop (mem-cons.0 m)
          (λ p.
            ∥∥₁_elim (same (ap (λ (z : ModelRegistryEntry F). str_eq z.id e.id) p ∙ q)) Mem-prop
              (λ w. subst (λ z. Mem z (e ∷ seen)) (sym w) mem-cons_self))
          (λ k. mem-cons_of_mem e k))
    | inr q ↦ rw q (
        Or.elim Mem-prop (mem-cons.0 m)
          (λ p. subst (λ z. Mem z (x ∷ store e seen)) (sym p) mem-cons_self)
          (λ k. mem-cons_of_mem x (store_keeps e y seen same k)))
  ]

  module _ (rows : List (ModelRegistryEntry F)) (unique : HasUniqueIds rows) where
    pub store_all_keeps :
        (y : ModelRegistryEntry F) (es seen : List (ModelRegistryEntry F))
        → Mem y rows
        → All (λ e. Mem e rows) es
        → Mem y seen
        → Mem y (store_all es seen)
    store_all_keeps y [] seen i h m = m
    store_all_keeps y (e ∷ es) seen i h m =
        store_all_keeps y es (store e seen) i h.1
          (store_keeps e y seen (same_row rows y e unique i h.0) m)

    pub mem_store_all :
        (y : ModelRegistryEntry F) (es seen : List (ModelRegistryEntry F))
        → Mem y rows
        → All (λ e. Mem e rows) es
        → Mem y es
        → Mem y (store_all es seen)
    mem_store_all y [] seen i h m = absurd (not-mem-nil m)
    mem_store_all y (e ∷ es) seen i h m =
        Or.elim Mem-prop (mem-cons.0 m)
          (λ p.
            store_all_keeps y es (store e seen) i h.1
              (subst (λ z. Mem z (store e seen)) (sym p) (mem_store e seen)))
          (mem_store_all y es (store e seen) i h.1)
