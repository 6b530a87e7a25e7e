-- ===== src/Guardrails/Context/Selection.antt =====
-- What the context guard admits.
use newchanges.Base.{
  ℕ, ◌+◌, true, false, not, ◌&&◌, if◌then◌else◌, Option, none, some, String, str_eq, eq_iff, List,
  [], ◌∷◌, ◌++◌, map, any, is_empty, All, All-append, ◌≡◌, refl, sym, ap, arith, Bool-cases,
  Option-cases, inl, inr,
}
use mathlib.Core.List.{Perm, perm_middle, append_assoc, append-nil}
use mathlib.Core.List.Perm
use mathlib.Core.Path.{subst}
use newchanges.Base.Audit.{ok, Trail}
use newchanges.Base.Float.{Float}
use newchanges.Security.Permission.{Permission}
use newchanges.Security.Principal.{Principal, ResourceScope}
use newchanges.Security.Scope.{
  AuthorizedScope, ScopeConstraint, covers, branch_covers, resolve_authorized_scope,
}
use newchanges.Security.Scope.Agreement.{OfTenant}
use newchanges.Security.Scope.Filter.{IsScopeOf, Resolves, resolve_authorized_scope-IsScopeOf}
use newchanges.Guardrails.Context.{
  ContextFragment, ContextDecision, ContextGuard, DropReason, context_budget_exhausted,
  within_scope, branch_within, scope_admits, classification_eq, tokens_of, over_limit,
  reject_reason, sort_fragment, filter_from, filter, enforce, accepted, context_rejected,
}

module _ {ℓ} {F : Type ℓ} where
  abbrev pub sum_tokens : List (ContextFragment F) → ℕ
  sum_tokens [] = 0
  sum_tokens (x ∷ xs) = tokens_of x + sum_tokens xs

  sum_tokens-append :
      (xs ys : List (ContextFragment F)) → sum_tokens (xs ++ ys) ≡ sum_tokens xs + sum_tokens ys
  sum_tokens-append [] ys = omega arith
  sum_tokens-append (x ∷ xs) ys = omega (arith, sum_tokens-append xs ys)

  map-append :
      (xs ys : List (ContextFragment F × DropReason))
      → map (λ y. y.0) (xs ++ ys) ≡ map (λ y. y.0) xs ++ map (λ y. y.0) ys
  map-append [] ys = refl
  map-append (x ∷ xs) ys = ap (λ l. x.0 ∷ l) (map-append xs ys)

  -- admitted or dropped
  abbrev pub considered : ContextDecision F → List (ContextFragment F)
  considered d = d.admitted ++ map (λ y. y.0) d.dropped

  admit-perm :
      (x : ContextFragment F) (ins outs seen : List (ContextFragment F))
      → Perm (ins ++ outs) seen
      → Perm ((ins ++ x ∷ []) ++ outs) (seen ++ x ∷ [])
  admit-perm x ins outs seen p =
      subst (λ l. Perm l (seen ++ x ∷ [])) (sym (append_assoc ins (x ∷ []) outs))
        (Perm.trans (perm_middle ins outs) (
          Perm.trans (Perm.cons x p) (
            Perm.symm (
              subst (λ l. Perm (seen ++ x ∷ []) (x ∷ l)) (append-nil seen) (perm_middle seen [])))))

  drop-perm :
      (x : ContextFragment F) (ins outs seen : List (ContextFragment F))
      → Perm (ins ++ outs) seen
      → Perm (ins ++ (outs ++ x ∷ [])) (seen ++ x ∷ [])
  drop-perm x ins outs seen p =
      subst (λ l. Perm l (seen ++ x ∷ [])) (append_assoc ins outs (x ∷ []))
        (Perm.append_right (x ∷ []) p)

module _ {ℓ} {F : Type ℓ} ⦃f : Float F⦄ (g : ContextGuard F) (p : Principal)
    (scope : Option AuthorizedScope) where
  -- What may be sent: the owner is known, of the caller's tenant and in the caller's scope, the
  -- classification is sendable, and the relevance is not below the floor.
  pub record IsSendable (x : ContextFragment F) : Type ℓ where
    pub owner :
        (r : ResourceScope) × (x.scope ≡ some r)
        × (r.tenant_id ≡ p.tenant_id)
        × (scope_admits r scope ≡ true)
    pub classified : any (classification_eq x.classification) g.sendable ≡ true
    pub relevant : f.lt x.relevance g.minimum_relevance ≡ false

  -- The decision on the fragments `seen`: each of them is admitted or dropped, once; those
  -- admitted may be sent, and their tokens are counted and under the ceiling.
  pub record IsSelection (d : ContextDecision F) (seen : List (ContextFragment F)) : Type ℓ where
    pub partition : Perm (considered d) seen
    pub counted : d.total_tokens ≡ sum_tokens d.admitted
    pub within : over_limit g.max_context_tokens d.total_tokens ≡ false
    pub sendable : All IsSendable d.admitted

  reject_reason-none : (x : ContextFragment F) → reject_reason g p scope x ≡ none → IsSendable x
  unfolding reject_reason
  reject_reason-none x e = elim (Option-cases x.scope) [
    | inl unknown ↦ ground (arith, unknown, e)
    | inr (r, known) ↦ record {
      owner = (
        r,
        known,
        ground (arith, known, e, eq_iff r.tenant_id p.tenant_id),
        ground (arith, known, e),
      );
      classified = ground (arith, known, e);
      relevant = ground (arith, known, e);
    }
  ]

  dropped-IsSelection :
      (d : ContextDecision F) (seen : List (ContextFragment F)) (x : ContextFragment F)
      (why : DropReason)
      → IsSelection d seen
      → IsSelection (record d { dropped = d.dropped ++ (x, why) ∷ [] }) (seen ++ x ∷ [])
  dropped-IsSelection d seen x why s = record {
    partition =
        rw (map-append d.dropped ((x, why) ∷ []))
          (drop-perm x d.admitted (map (λ y. y.0) d.dropped) seen s.partition);
    counted = s.counted;
    within = s.within;
    sendable = s.sendable;
  }

  sort_fragment-IsSelection :
      (d : ContextDecision F) (seen : List (ContextFragment F)) (x : ContextFragment F)
      → IsSelection d seen
      → IsSelection (sort_fragment g p scope x (reject_reason g p scope x) d) (seen ++ x ∷ [])
  sort_fragment-IsSelection d seen x s = elim (Option-cases (reject_reason g p scope x)) [
    | inr (why, e) ↦ rw e (dropped-IsSelection d seen x why s)
    | inl e ↦
        rw e (elim (Bool-cases (over_limit g.max_context_tokens (d.total_tokens + tokens_of x))) [
          | inl over ↦ rw over (dropped-IsSelection d seen x context_budget_exhausted s)
          | inr fits ↦ rw fits (record {
            partition = admit-perm x d.admitted (map (λ y. y.0) d.dropped) seen s.partition;
            counted = omega (arith, s.counted, sum_tokens-append d.admitted (x ∷ []));
            within = fits;
            sendable =
                All-append IsSendable d.admitted (x ∷ []) s.sendable (reject_reason-none x e, tt);
          })
        ])
  ]

  filter_from-IsSelection :
      (d : ContextDecision F) (seen xs : List (ContextFragment F))
      → IsSelection d seen
      → IsSelection (filter_from g p scope d xs) (seen ++ xs)
  unfolding filter_from
  filter_from-IsSelection d seen [] s = rw (append-nil seen) s
  filter_from-IsSelection d seen (x ∷ xs) s = rw (sym (append_assoc seen (x ∷ []) xs)) (
      filter_from-IsSelection (sort_fragment g p scope x (reject_reason g p scope x) d)
        (seen ++ x ∷ []) xs (sort_fragment-IsSelection d seen x s))

  -- The guard admits or drops each fragment once. What it admits has a known owner of the caller's
  -- tenant and in the caller's scope, a sendable classification and enough relevance; the admitted
  -- fragments' tokens are counted, and are under the ceiling where there is one.
  pub filter-IsSelection : (xs : List (ContextFragment F)) → IsSelection (filter g p scope xs) xs
  unfolding filter
  filter-IsSelection xs = filter_from-IsSelection _ [] xs (record {
    partition = Perm.refl [];
    counted = refl;
    within = start g.max_context_tokens;
    sendable = tt;
  })
    where
      start : (limit : Option ℕ) → over_limit limit 0 ≡ false
      start none = refl
      start (some n) = ground arith

  -- `enforce` answers the filter's decision unless there were fragments and none was admitted, in
  -- which case it rejects the context; it never finds the context too large.
  pub enforce-filter :
      (xs : List (ContextFragment F))
      → enforce g p scope xs ≡ (
          if not (is_empty xs) && is_empty (filter g p scope xs).admitted
          then context_rejected
          else accepted (filter g p scope xs))
  unfolding enforce
  enforce-filter xs = rw (filter-IsSelection xs).within refl

branches-cover :
    (t : String) (r : ResourceScope) (bs : List ScopeConstraint)
    → OfTenant t bs
    → (str_eq r.tenant_id t && any (branch_within r) bs) ≡ any (branch_covers r) bs
branches-cover t r [] h = ground arith
branches-cover t r (b ∷ bs) h =
    ground
      (arith, h.0, eq_iff r.tenant_id t, eq_iff r.tenant_id b.tenant_id, branches-cover t r bs h.1)

-- The guard's own test of a fragment against a resolved scope agrees with the scope's.
pub within_scope-eq-covers :
    (p : Principal) (permission : Permission) (tenant plant department : Option String) (t : Trail)
    (s : AuthorizedScope) (r : ResourceScope)
    → (resolve_authorized_scope p permission tenant plant department t).0 ≡ ok s
    → within_scope r s ≡ covers s r
unfolding within_scope covers
within_scope-eq-covers p permission tenant plant department t s r e =
    rw (shape.tenant) (branches-cover p.tenant_id r s.branches shape.branches_of)
  where
    shape : IsScopeOf p.tenant_id s
    shape =
        subst (Resolves p.tenant_id) e
          (resolve_authorized_scope-IsScopeOf p permission tenant plant department t)
