-- ===== src/Registry/Workload/Compatible.antt =====
-- `find_for_workload` against `is_compatible`: both decide by the workload's profile.
use mathlib.Core.List.{Mem, Mem-prop, not-mem-nil}
use mathlib.Core.List.Perm
use mathlib.Core.Bool.{Bool-set}
use newchanges.Base.{
  ◌≤◌, ◌≡◌, ◌↔◌, inl, inr, sym, ◌∙◌, arith, Bool, true, false, ◌&&◌, ◌||◌, List, [], Option, none,
  some, String, str_eq, take, length, All, All-of_mem, Bool-cases, eq_iff, if◌then◌else◌,
}
use mathlib.Core.HLevel.{×_prop}
use mathlib.Core.Path.{subst}
use newchanges.Base.Float.{Float}
use newchanges.Base.Sort.{sort_by, sort_by-perm, length-sort_by}
use newchanges.Base.Membership.{
  mem_take, take_full, mem-keep, keep_holds, mem-keep_of_mem, All-mem, length-keep_disjoint,
}
use newchanges.Registry.{Capability, ModelRegistryEntry, name_le, apply_filters}
use newchanges.Registry.Workload.{
  WorkloadCapabilityProfile, workload_profile, Requirements, store_all, find_candidates, gather,
  find_for_workload, is_compatible, find_by_profile, matches_profile, vision_profile,
  reasoning_profile, candidate_query,
}
use newchanges.Registry.Workload.Candidates.{
  HasUniqueIds, meets, serves, has, filters, kept, length-find_candidates, mem_found, found_mem,
  length-store_all, store_all-All, store_all_keeps, mem_store_all,
}

module _ {ℓ} {F : Type ℓ} ⦃f : Float F⦄ (rows : List (ModelRegistryEntry F))
    (r : Requirements F) where
  kept_lem :
      (vision : Bool) (c : Capability) (e : ModelRegistryEntry F)
      → Mem e (kept rows r vision c)
      → Mem e rows × (has e c && serves r vision e ≡ true)
  kept_lem vision c e m = (
    mem-keep (apply_filters (candidate_query r vision c)) rows e m,
    sym (filters r vision c e) ∙ keep_holds (apply_filters (candidate_query r vision c)) rows e m,
  )

  lem_kept :
      (vision : Bool) (c : Capability) (e : ModelRegistryEntry F)
      → Mem e rows
      → has e c && serves r vision e ≡ true
      → Mem e (kept rows r vision c)
  lem_kept vision c e m h =
      mem-keep_of_mem (apply_filters (candidate_query r vision c)) rows e m
        (filters r vision c e ∙ h)

  -- What a model is that serves one of two capabilities.
  abbrev Suits : Bool → Capability → Capability → ModelRegistryEntry F → Type ℓ
  Suits vision c d e = Mem e rows × ((has e c || has e d) && serves r vision e ≡ true)

  module _ (vision : Bool) (c d : Capability) where
    abbrev gathered : List (ModelRegistryEntry F)
    gathered =
        store_all (find_candidates rows r vision d) (store_all (find_candidates rows r vision c) [])

    All-Suits : All (Suits vision c d) gathered
    All-Suits =
        store_all-All (Suits vision c d) (find_candidates rows r vision d) _
          (All-of_mem (Suits vision c d) (find_candidates rows r vision d)
            (λ e m. second e (kept_lem vision d e (mem_found rows r vision d e m))))
          (store_all-All (Suits vision c d) (find_candidates rows r vision c) []
            (All-of_mem (Suits vision c d) (find_candidates rows r vision c)
              (λ e m. first e (kept_lem vision c e (mem_found rows r vision c e m))))
            tt)
      where
        first :
            (e : ModelRegistryEntry F)
            → Mem e rows × (has e c && serves r vision e ≡ true)
            → Suits vision c d e
        first e k = (k.0, ground arith)

        second :
            (e : ModelRegistryEntry F)
            → Mem e rows × (has e d && serves r vision e ≡ true)
            → Suits vision c d e
        second e k = (k.0, ground arith)

    gathered-Suits : (e : ModelRegistryEntry F) → Mem e gathered → Suits vision c d e
    gathered-Suits e m =
        All-mem (Suits vision c d) (λ x. ×_prop Mem-prop (Bool-set _ _)) gathered e All-Suits m

    found-Suits :
        (e : ModelRegistryEntry F)
        → Mem e (take r.limit (sort_by name_le gathered))
        → Suits vision c d e
    found-Suits e m =
        gathered-Suits e ((Perm.mem_iff (sort_by-perm name_le gathered)).0 (mem_take r.limit _ e m))

    module _ (unique : HasUniqueIds rows) (fits : length rows ≤ r.limit) where
      in_rows : (k : Capability) → All (λ e. Mem e rows) (find_candidates rows r vision k)
      in_rows k =
          All-of_mem (λ e. Mem e rows) (find_candidates rows r vision k)
            (λ e m. (kept_lem vision k e (mem_found rows r vision k e m)).0)

      suits_gathered : (e : ModelRegistryEntry F) → Suits vision c d e → Mem e gathered
      suits_gathered e s = elim (Bool-cases (has e d)) [
        | inl h ↦
            mem_store_all rows unique e (find_candidates rows r vision d) _ s.0 (in_rows d)
              (found_mem rows r vision d e fits (lem_kept vision d e s.0 (ground arith)))
        | inr h ↦
            store_all_keeps rows unique e (find_candidates rows r vision d) _ s.0 (in_rows d) (
              mem_store_all rows unique e (find_candidates rows r vision c) [] s.0 (in_rows c)
                (found_mem rows r vision c e fits (lem_kept vision c e s.0 (ground arith))))
      ]

      gathered_fits :
          ((e : ModelRegistryEntry F) → has e c ≡ true → has e d ≡ false)
          → length gathered ≤ r.limit
      gathered_fits apart = omega (
        arith,
        fits,
        length-store_all (find_candidates rows r vision d)
            (store_all (find_candidates rows r vision c) []),
        length-store_all (find_candidates rows r vision c) [],
        length-find_candidates rows r vision c,
        length-find_candidates rows r vision d,
        length-keep_disjoint (apply_filters (candidate_query r vision c))
            (apply_filters (candidate_query r vision d)) rows apart_filters,
      )
        where
          apart_filters :
              (e : ModelRegistryEntry F)
              → apply_filters (candidate_query r vision c) e ≡ true
              → apply_filters (candidate_query r vision d) e ≡ false
          apart_filters e h = ground (arith, filters r vision c e, filters r vision d e, apart e)

      -- back through the sort and the cut
      suits_found :
          ((e : ModelRegistryEntry F) → has e c ≡ true → has e d ≡ false)
          → (e : ModelRegistryEntry F) → Suits vision c d e
          → Mem e (take r.limit (sort_by name_le gathered))
      suits_found apart e s =
          subst (Mem e) (sym (take_full r.limit (sort_by name_le gathered) all_fit))
            ((Perm.mem_iff (sort_by-perm name_le gathered)).1 (suits_gathered e s))
        where
          all_fit : length (sort_by name_le gathered) ≤ r.limit
          all_fit = omega (arith, length-sort_by name_le gathered, gathered_fits apart)

  -- A property of the answer for a profile, which is one of three.
  by_profile :
      (P : Option WorkloadCapabilityProfile → Type ℓ)
      → P none
      → P (some vision_profile)
      → P (some reasoning_profile)
      → (workload_type : String) → P (workload_profile workload_type)
  by_profile P p q s workload_type =
      elim (str_eq workload_type "quality_check")
        as (λ a. P (
          if a
          then some vision_profile
          else if str_eq workload_type "predictive_maintenance"
          then some reasoning_profile
          else if str_eq workload_type "supply_chain"
          then some reasoning_profile
          else none)) [
            | true ↦ q
            | false ↦
                elim (str_eq workload_type "predictive_maintenance")
                  as (λ a. P (
                    if a
                    then some reasoning_profile
                    else if str_eq workload_type "supply_chain"
                    then some reasoning_profile
                    else none)) [
                      | true ↦ s
                      | false ↦
                          elim (str_eq workload_type "supply_chain")
                            as (λ a. P (if a then some reasoning_profile else none)) [
                              | true ↦ s
                              | false ↦ p
                            ]
                    ]
          ]

  module _ (e : ModelRegistryEntry F) where
    -- What an entry is that a profile asks for.
    abbrev Serves : Option WorkloadCapabilityProfile → Type ℓ
    Serves o = Mem e rows × (matches_profile e r.modality o && meets r e ≡ true)

    abbrev Answers : Option WorkloadCapabilityProfile → Type ℓ
    Answers o = Mem e (find_by_profile rows r o)

    none_sound : Answers none → Serves none
    none_sound m = absurd (not-mem-nil m)

    vision-Suits :
        Suits true Capability.vision Capability.multimodal e → Serves (some vision_profile)
    vision-Suits s = (s.0, ground arith)

    reasoning-Suits :
        Suits false Capability.reasoning Capability.text e → Serves (some reasoning_profile)
    reasoning-Suits s = (s.0, ground arith)

    vision_sound : Answers (some vision_profile) → Serves (some vision_profile)
    unfolding gather
    vision_sound m = vision-Suits (found-Suits true Capability.vision Capability.multimodal e m)

    reasoning_sound : Answers (some reasoning_profile) → Serves (some reasoning_profile)
    unfolding gather
    reasoning_sound m = reasoning-Suits (found-Suits false Capability.reasoning Capability.text e m)

    module _ (unique : HasUniqueIds rows) (fits : length rows ≤ r.limit) where
      none_complete : Serves none → Answers none
      none_complete k = absurd (ground arith)

      vision_complete : Serves (some vision_profile) → Answers (some vision_profile)
      unfolding gather
      vision_complete k =
          suits_found true Capability.vision Capability.multimodal unique fits apart e
            (k.0, ground arith)
        where
          apart :
              (x : ModelRegistryEntry F)
              → has x Capability.vision ≡ true
              → has x Capability.multimodal ≡ false
          apart x h = ground (
            arith,
            eq_iff x.capability "vision",
            eq_iff x.capability "multimodal",
            eq_iff "vision" "multimodal",
          )

      reasoning_complete : Serves (some reasoning_profile) → Answers (some reasoning_profile)
      unfolding gather
      reasoning_complete k =
          suits_found false Capability.reasoning Capability.text unique fits apart e
            (k.0, ground arith)
        where
          apart :
              (x : ModelRegistryEntry F)
              → has x Capability.reasoning ≡ true
              → has x Capability.text ≡ false
          apart x h = ground (
            arith,
            eq_iff x.capability "reasoning",
            eq_iff x.capability "text",
            eq_iff "reasoning" "text",
          )

  -- Without a limit on the rows: what is found serves the workload.
  pub find_for_workload_sound :
      (workload_type : String) (e : ModelRegistryEntry F)
      → Mem e (find_for_workload rows workload_type r)
      → Mem e rows × (is_compatible e workload_type r.modality && meets r e ≡ true)
  unfolding find_for_workload is_compatible
  find_for_workload_sound workload_type e =
      by_profile (λ o. Answers e o → Serves e o) (none_sound e) (vision_sound e) (reasoning_sound e)
        workload_type

  -- Of rows with distinct ids, no more than the limit: a model is found for a workload exactly when
  -- it is registered, the check in memory calls it compatible, and its context, quality and pricing
  -- are known to meet what was asked for.
  pub find_for_workload-is_compatible :
      HasUniqueIds rows
      → length rows ≤ r.limit
      → (workload_type : String) (e : ModelRegistryEntry F)
      → Mem e (find_for_workload rows workload_type r)
        ↔ (Mem e rows × (is_compatible e workload_type r.modality && meets r e ≡ true))
  unfolding find_for_workload is_compatible
  find_for_workload-is_compatible unique fits workload_type e = (
    by_profile (λ o. Answers e o → Serves e o) (none_sound e) (vision_sound e) (reasoning_sound e)
        workload_type,
    by_profile (λ o. Serves e o → Answers e o) (none_complete e unique fits)
        (vision_complete e unique fits) (reasoning_complete e unique fits) workload_type,
  )
