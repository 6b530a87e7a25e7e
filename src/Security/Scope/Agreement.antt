-- ===== src/Security/Scope/Agreement.antt =====
-- The query scope of app/security/scope.py, its SQL form, and the record check of
-- app/security/authorization.py admit the same rows.
use newchanges.Base.{
  ◌≡◌, refl, Bool, true, false, List, [], ◌∷◌, any, any-append, any_mono, any-keep, is_empty, arith,
  inl, inr, ◌||◌, ◌&&◌, ap, str_eq, eq_iff, Bool-cases, String, sym, ◌∙◌, Option, none, some, All,
  All-append,
}
use mathlib.Core.Path.{subst}
use newchanges.Base.Audit.{Trail, Result, ok, err}
use newchanges.Security.Permission.{Permission, grants}
use newchanges.Security.Principal.{
  Principal, RoleAssignment, ScopeType, ResourceScope, assignments_granting,
}
use newchanges.Security.Authorization.{assignment_covers, covers_at}
use newchanges.Security.Authorization.Decision.{is_permitted}
use newchanges.Security.Scope.{
  ScopeConstraint, AuthorizedScope, branch_covers, covers, scope_branches, branch_of, branch_eq,
  opt_text_eq, is_whole_tenant, distinct_from, distinct, collapse, granted_scope, make_scope,
}

-- Every branch is one of this tenant.
abbrev pub OfTenant : String → List ScopeConstraint → Type 0
OfTenant t = All (λ b. b.tenant_id ≡ t)

opt_text_eq→path : (a b : Option String) → opt_text_eq a b ≡ true → a ≡ b
opt_text_eq→path none none h = refl
opt_text_eq→path none (some b) h = cc
opt_text_eq→path (some a) none h = cc
opt_text_eq→path (some a) (some b) h = ap some ((eq_iff a b).0 h)

branch_eq→path : (a b : ScopeConstraint) → branch_eq a b ≡ true → a ≡ b
branch_eq→path a b h = ground (
  arith,
  eq_iff a.tenant_id b.tenant_id,
  opt_text_eq→path a.plant_id b.plant_id,
  opt_text_eq→path a.department_id b.department_id,
)

or_absorb : (s b l : Bool) → (b ≡ true → s ≡ true) → (s || l) ≡ (s || (b || l))
or_absorb s true l h = ground arith
or_absorb s false l h = refl

or_shift : (s b l m : Bool) → ((b || s) || l) ≡ ((b || s) || m) → (s || (b || l)) ≡ (s || (b || m))
or_shift s true l m h = refl
or_shift s false l m h = h

module _ (r : ResourceScope) where
  covers-branch_of :
      (t id : String) (kind : ScopeType)
      → any (branch_covers r) (branch_of t kind id) ≡ (str_eq r.tenant_id t && covers_at kind id r)
  covers-branch_of t id ScopeType.tenant =
      ground (arith, eq_iff r.tenant_id t, eq_iff id t, eq_iff id r.tenant_id)
  covers-branch_of t id _ = ground arith

  covers-scope_branches :
      (t : String) (l : List RoleAssignment)
      → any (branch_covers r) (scope_branches t l)
        ≡ (str_eq r.tenant_id t && any (assignment_covers r) l)
  unfolding scope_branches
  covers-scope_branches t [] = ground arith
  covers-scope_branches t (a ∷ l) =
      rw (any-append (branch_covers r) (branch_of t a.scope_type a.scope_id) (scope_branches t l))
        (rw (covers-branch_of t a.scope_id a.scope_type, covers-scope_branches t l) (ground arith))

  covers-tenant :
      (t : String) (l : List ScopeConstraint)
      → OfTenant t l
      → any (branch_covers r) l ≡ true
      → str_eq r.tenant_id t ≡ true
  covers-tenant t [] h c = cc
  covers-tenant t (b ∷ l) h c =
      ground (arith, covers-tenant t l h.1, eq_iff r.tenant_id t, eq_iff r.tenant_id b.tenant_id)

  covers-whole :
      (t : String) (l : List ScopeConstraint)
      → OfTenant t l
      → any is_whole_tenant l ≡ true
      → any (branch_covers r) l ≡ str_eq r.tenant_id t
  covers-whole t [] h w = cc
  covers-whole t (b ∷ l) h w = ground (
    arith,
    covers-tenant t l h.1,
    covers-whole t l h.1,
    eq_iff r.tenant_id t,
    eq_iff r.tenant_id b.tenant_id,
  )

  covers-collapse :
      (t : String) (l : List ScopeConstraint)
      → OfTenant t l
      → any (branch_covers r) (collapse t l) ≡ any (branch_covers r) l
  covers-collapse t l h = elim (Bool-cases (any is_whole_tenant l)) [
    | inl whole ↦ rw (whole, covers-whole t l h whole) (ground arith)
    | inr none_whole ↦ rw none_whole
  ]

  seen_covers :
      (b : ScopeConstraint) (seen : List ScopeConstraint)
      → any (branch_eq b) seen ≡ true
      → branch_covers r b ≡ true
      → any (branch_covers r) seen ≡ true
  seen_covers b seen h k =
      any_mono (branch_eq b) (branch_covers r) seen
        (λ c e. subst (λ d. branch_covers r d ≡ true) (branch_eq→path b c e) k) h

  covers-distinct_from :
      (seen l : List ScopeConstraint)
      → (any (branch_covers r) seen || any (branch_covers r) (distinct_from seen l))
        ≡ (any (branch_covers r) seen || any (branch_covers r) l)
  unfolding distinct_from
  covers-distinct_from seen [] = refl
  covers-distinct_from seen (b ∷ l) = elim (Bool-cases (any (branch_eq b) seen)) [
    | inl old ↦
        rw (old, covers-distinct_from seen l)
          (or_absorb (any (branch_covers r) seen) (branch_covers r b) (any (branch_covers r) l)
            (seen_covers b seen old))
    | inr new ↦ rw new (
        or_shift (any (branch_covers r) seen) (branch_covers r b)
          (any (branch_covers r) (distinct_from (b ∷ seen) l)) (any (branch_covers r) l)
          (covers-distinct_from (b ∷ seen) l))
  ]

  covers-distinct :
      (l : List ScopeConstraint) → any (branch_covers r) (distinct l) ≡ any (branch_covers r) l
  unfolding distinct
  covers-distinct l = covers-distinct_from [] l

pub OfTenant-scope_branches :
    (t : String) (l : List RoleAssignment) → OfTenant t (scope_branches t l)
unfolding scope_branches
OfTenant-scope_branches t [] = tt
OfTenant-scope_branches t (a ∷ l) =
    All-append (λ (b : ScopeConstraint). b.tenant_id ≡ t) (branch_of t a.scope_type a.scope_id)
      (scope_branches t l) (of_kind a.scope_id a.scope_type) (OfTenant-scope_branches t l)
  where
    of_kind : (id : String) (kind : ScopeType) → OfTenant t (branch_of t kind id)
    of_kind id ScopeType.tenant = ground arith
    of_kind id _ = ground arith

pub OfTenant-collapse :
    (t : String) (l : List ScopeConstraint) → OfTenant t l → OfTenant t (collapse t l)
OfTenant-collapse t l h = ground arith

pub OfTenant-distinct_from :
    (t : String) (seen l : List ScopeConstraint) → OfTenant t l → OfTenant t (distinct_from seen l)
unfolding distinct_from
OfTenant-distinct_from t seen [] h = tt
OfTenant-distinct_from t seen (b ∷ l) h =
    ground (arith, OfTenant-distinct_from t seen l h.1, OfTenant-distinct_from t (b ∷ seen) l h.1)

no_branches :
    (r : ResourceScope) (t : String) (bs : List ScopeConstraint)
    → is_empty bs ≡ true
    → any (branch_covers r) (distinct (collapse t bs)) ≡ false
unfolding distinct
no_branches r t [] h = refl
no_branches r t (b ∷ bs) h = cc

no_grants :
    (t : String) (l : List RoleAssignment)
    → is_empty l ≡ true
    → is_empty (scope_branches t l) ≡ true
unfolding scope_branches
no_grants t [] h = refl
no_grants t (a ∷ l) h = cc

-- What a resolution admits: the rows of the scope that it returns, and none when it refuses.
abbrev pub admits : Result AuthorizedScope → ResourceScope → Bool
admits (ok s) r = covers s r
admits (err e) r = false

pub admits-make_scope :
    (r : ResourceScope) (t : String) (bs : List ScopeConstraint) (trail : Trail)
    → admits (make_scope t bs trail).0 r ≡ any (branch_covers r) bs
unfolding covers
admits-make_scope r t [] trail = refl
admits-make_scope r t (b ∷ bs) trail = refl

module _ (p : Principal) (permission : Permission) (r : ResourceScope) (t : Trail) where
  -- the branches of the scope that is granted, as a disjunction over the assignments
  covers-granted_branches :
      any (branch_covers r) (
        distinct
          (collapse p.tenant_id (scope_branches p.tenant_id (assignments_granting p permission))))
      ≡ is_permitted p r permission
  covers-granted_branches =
      covers-distinct r (collapse p.tenant_id branches)
      ∙ covers-collapse r p.tenant_id branches
          (OfTenant-scope_branches p.tenant_id (assignments_granting p permission))
      ∙ covers-scope_branches r p.tenant_id (assignments_granting p permission)
      ∙ ap (λ b. str_eq r.tenant_id p.tenant_id && b)
          (any-keep (λ (a : RoleAssignment). grants a.role permission) (assignment_covers r)
            p.assignments)
    where
      branches : List ScopeConstraint
      branches = scope_branches p.tenant_id (assignments_granting p permission)

  -- Without client filters, the resolved scope admits a row exactly when the record check lets the
  -- caller through; where the resolution refuses, the record check refuses every row.
  pub granted_scope-agrees : admits (granted_scope p permission t).0 r ≡ is_permitted p r permission
  unfolding granted_scope
  granted_scope-agrees = elim (Bool-cases (is_empty granting)) [
    | inl e ↦ rw e (refused (no_grants p.tenant_id granting e))
    | inr some_grants ↦ rw some_grants (elim (Bool-cases (is_empty branches)) [
      | inl e ↦ rw e (refused e)
      | inr some_branches ↦ rw some_branches (
          admits-make_scope r p.tenant_id (distinct (collapse p.tenant_id branches)) t
          ∙ covers-granted_branches)
    ])
  ]
    where
      granting : List RoleAssignment
      granting = assignments_granting p permission

      branches : List ScopeConstraint
      branches = scope_branches p.tenant_id granting

      refused : is_empty branches ≡ true → false ≡ is_permitted p r permission
      refused e = sym (no_branches r p.tenant_id branches e) ∙ covers-granted_branches
