-- ===== src/Orchestrator/Selection/Choice.antt =====
-- The model that is chosen, the candidates and the fallback.
use mathlib.Core.List.{Mem, mem-cons_self, not-mem-nil, Perm}
use mathlib.Core.List.Perm
use mathlib.Core.Path.{subst}
use Prim.Native.Nat.{max}
use newchanges.Base.{
  ◌≤◌, ◌≡◌, inl, inr, refl, sym, ap, ◌∙◌, arith, Bool, true, false, not, ◌&&◌, List, [], ◌∷◌,
  Option, none, some, String, str_eq, keep, Bool-cases,
}
use newchanges.Base.Float.{Float, IsOrdered}
use newchanges.Base.Sort.{
  text_le_antisymm, sort_by, sort_by-perm, sort_by-IsSorted, IsSorted, head_below,
}
use newchanges.Base.Membership.{mem-keep, keep_holds}
use newchanges.Registry.{ModelRegistryEntry, where_given, is_at_least}
use newchanges.Registry.Workload.{no_requirements, find_for_workload, is_compatible}
use newchanges.Registry.Workload.Candidates.{meets}
use newchanges.Registry.Workload.Compatible.{find_for_workload_sound}
use newchanges.Orchestrator.Classification.{BusinessPriority, priority_index}
use newchanges.Orchestrator.Selection.{
  declared_floor, effective_priority, key_order, first, select_model, model_candidates,
  fallback_model,
}
use newchanges.Orchestrator.Selection.Order.{IsTotal, key_order-IsTotal, key_order-name}

pub effective_priority-max :
    (requested floor : BusinessPriority) (declared : Option String)
    → declared_floor declared ≡ some floor
    → (priority_index (effective_priority requested declared)
        ≡ max (priority_index requested) (priority_index floor))
      × ((stricter : BusinessPriority)
          → priority_index requested ≤ priority_index stricter
          → priority_index (effective_priority requested declared)
            ≤ priority_index (effective_priority stricter declared))
unfolding effective_priority
effective_priority-max requested floor declared e = (ground arith, λ stricter h. ground arith)

module _ {ℓ} {F : Type ℓ} ⦃f : Float F⦄ where
  -- An answer that is one of the candidates, and has a key at most that of each of them.
  abbrev pub IsLeast : Bool → List (ModelRegistryEntry F) → Option (ModelRegistryEntry F) → Type ℓ
  IsLeast prefer cs answer =
      (e : ModelRegistryEntry F) × (answer ≡ some e)
      × Mem e cs
      × ((x : ModelRegistryEntry F) → Mem x cs → key_order prefer e x ≡ true)

  -- the name that an answer selects
  abbrev pub name_of : Option (ModelRegistryEntry F) → Option String
  name_of none = none
  name_of (some e) = some e.model_name

  module _ (o : IsOrdered F) (prefer : Bool) where
    same_name :
        (a b : ModelRegistryEntry F)
        → key_order prefer a b ≡ true
        → key_order prefer b a ≡ true
        → a.model_name ≡ b.model_name
    same_name a b h k =
        text_le_antisymm a.model_name b.model_name (key_order-name o prefer a b h k)
          (key_order-name o prefer b a k h)

    least_lem :
        (es : List (ModelRegistryEntry F)) (c : ModelRegistryEntry F)
        (cs : List (ModelRegistryEntry F))
        → Perm es (c ∷ cs)
        → IsSorted (key_order prefer) es
        → IsLeast prefer (c ∷ cs) (first es)
    least_lem [] c cs p s =
        absurd (not-mem-nil ((Perm.mem_iff p).1 (mem-cons_self {a = c} {l = cs})))
    least_lem (e ∷ es) c cs p s = (
      e,
      refl,
      (Perm.mem_iff p).0 mem-cons_self,
      λ x m. head_below (key_order prefer) t.total t.trans e es x s ((Perm.mem_iff p).1 m),
    )
      where
        t : IsTotal (key_order {F = F} prefer)
        t = key_order-IsTotal o prefer

    pub select_model-IsLeast :
        (c : ModelRegistryEntry F) (cs : List (ModelRegistryEntry F))
        → IsLeast prefer (c ∷ cs) (select_model prefer (c ∷ cs))
    unfolding select_model
    select_model-IsLeast c cs =
        least_lem (sort_by (key_order prefer) (c ∷ cs)) c cs
          (sort_by-perm (key_order prefer) (c ∷ cs))
          (sort_by-IsSorted (key_order prefer) t.total t.trans (c ∷ cs))
      where
        t : IsTotal (key_order {F = F} prefer)
        t = key_order-IsTotal o prefer

    -- Over ordered floats, the name of the selected model does not depend on the order of the
    -- candidates.
    pub select_model-perm :
        (cs ds : List (ModelRegistryEntry F))
        → Perm cs ds
        → name_of (select_model prefer cs) ≡ name_of (select_model prefer ds)
    select_model-perm [] [] p = refl
    select_model-perm [] (d ∷ ds) p =
        absurd (not-mem-nil ((Perm.mem_iff p).1 (mem-cons_self {a = d} {l = ds})))
    select_model-perm (c ∷ cs) [] p =
        absurd (not-mem-nil ((Perm.mem_iff p).0 (mem-cons_self {a = c} {l = cs})))
    select_model-perm (c ∷ cs) (d ∷ ds) p =
        ap name_of x.1
        ∙ ap some (same_name x.0 y.0 (x.3 y.0 y_in) (y.3 x.0 x_in))
        ∙ sym (ap name_of y.1)
      where
        x : IsLeast prefer (c ∷ cs) (select_model prefer (c ∷ cs))
        x = select_model-IsLeast c cs

        y : IsLeast prefer (d ∷ ds) (select_model prefer (d ∷ ds))
        y = select_model-IsLeast d ds

        y_in : Mem y.0 (c ∷ cs)
        y_in = (Perm.mem_iff p).1 y.2

        x_in : Mem x.0 (d ∷ ds)
        x_in = (Perm.mem_iff p).0 x.2

  first_mem :
      (es : List (ModelRegistryEntry F)) (e : ModelRegistryEntry F) → first es ≡ some e → Mem e es
  first_mem [] e h = absurd (ground arith)
  first_mem (x ∷ es) e h =
      subst (λ y. Mem y (x ∷ es)) (ground arith) (mem-cons_self {a = x} {l = es})

  pub select_model_mem :
      (prefer : Bool) (cs : List (ModelRegistryEntry F)) (e : ModelRegistryEntry F)
      → select_model prefer cs ≡ some e
      → Mem e cs
  unfolding select_model
  select_model_mem prefer cs e h =
      (Perm.mem_iff (sort_by-perm (key_order prefer) cs)).0 (first_mem _ e h)

  -- A registered, enabled model that can serve the workload.
  abbrev pub IsAllowed : List (ModelRegistryEntry F) → String → ModelRegistryEntry F → Type ℓ
  IsAllowed rows workload_type e = Mem e rows × (is_compatible e workload_type none ≡ true)

  found-IsAllowed :
      (rows : List (ModelRegistryEntry F)) (workload_type : String) (minimum : Option F)
      (e : ModelRegistryEntry F)
      → Mem e (
          find_for_workload rows workload_type
            (record no_requirements { min_quality_score = minimum }))
      → IsAllowed rows workload_type e
        × (where_given (is_at_least f.le e.quality_score) minimum ≡ true)
  found-IsAllowed rows workload_type minimum e m = split (
      find_for_workload_sound rows (record no_requirements { min_quality_score = minimum })
        workload_type e m)
    where
      split :
          Mem e rows
            × (is_compatible e workload_type none
                  && meets (record no_requirements { min_quality_score = minimum }) e
                ≡ true)
          → IsAllowed rows workload_type e
            × (where_given (is_at_least f.le e.quality_score) minimum ≡ true)
      split k = ((k.0, ground arith), ground arith)

  pub model_candidates_sound :
      (rows : List (ModelRegistryEntry F)) (workload_type : String) (minimum : Option F)
      (pinned : Option String) (e : ModelRegistryEntry F)
      → Mem e (model_candidates rows workload_type minimum pinned)
      → IsAllowed rows workload_type e
        × (where_given (is_at_least f.le e.quality_score) minimum ≡ true)
        × ((k : String) → pinned ≡ some k → str_eq k "" ≡ false → str_eq e.id k ≡ true)
  unfolding model_candidates
  model_candidates_sound rows workload_type minimum none e m =
      (let s = found-IsAllowed rows workload_type minimum e m in
        (s.0, s.1, λ k p q. absurd (ground arith)))
  model_candidates_sound rows workload_type minimum (some p) e m = elim (Bool-cases (str_eq p "")) [
    | inl q ↦
        (let s = found-IsAllowed rows workload_type minimum e (rw q at m) in
          (s.0, s.1, λ k z n. absurd (ground arith)))
    | inr q ↦
        (let s =
            found-IsAllowed rows workload_type minimum e
              (mem-keep (λ x. str_eq x.id p) _ e (rw q at m)) in
          (s.0, s.1, λ k z n. ground (arith, keep_holds (λ x. str_eq x.id p) _ e (rw q at m))))
  ]

  pub fallback_model_sound :
      (rows : List (ModelRegistryEntry F)) (workload_type : String) (failed : Option String)
      (prefer : Bool) (e : ModelRegistryEntry F)
      → fallback_model rows workload_type failed prefer ≡ some e
      → IsAllowed rows workload_type e × ((k : String) → failed ≡ some k → str_eq e.id k ≡ false)
  unfolding fallback_model
  fallback_model_sound rows workload_type failed prefer e h = (
    (found-IsAllowed rows workload_type none e (mem-keep other _ e chosen)).0,
    λ k p. ground (arith, keep_holds other _ e chosen),
  )
    where
      other : ModelRegistryEntry F → Bool
      other x = not (elim failed [ none ↦ false | some k ↦ str_eq x.id k ])

      chosen : Mem e (keep other (find_for_workload rows workload_type no_requirements))
      chosen = select_model_mem prefer _ e h
