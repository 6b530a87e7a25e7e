-- ===== src/Security/Scope/Narrowing.antt =====
-- Client filters of app/security/scope.py: what each narrowing keeps, and the whole resolution.
use newchanges.Base.{
  ◌≡◌, refl, Bool, true, false, List, [], ◌∷◌, any, is_empty, arith, inl, inr, ◌&&◌, ap, str_eq,
  eq_iff, Bool-cases, Option-cases, String, sym, ◌∙◌, Option, none, some, holds_text,
}
use newchanges.Base.Audit.{Audited, Trail, Result, ok, err, ◌>>=◌}
use newchanges.Security.Permission.{Permission}
use newchanges.Security.Principal.{Principal, ResourceScope}
use newchanges.Security.Authorization.{require_tenant}
use newchanges.Security.Authorization.Decision.{is_permitted}
use newchanges.Security.Scope.{
  ScopeConstraint, AuthorizedScope, branch_covers, covers, level_ok, plant_branches,
  department_branches, narrowed_to_plant, narrowed_to_department, granted_scope,
  resolve_authorized_scope, when_given, client_filters, tenant_filter,
}
use newchanges.Security.Scope.Agreement.{admits, admits-make_scope, granted_scope-agrees}

-- A level pinned to `j` and asked for `k` admits a row of both, or of neither.
level_ok-narrow :
    (j k : String) (owned : Option String)
    → (holds_text owned j && holds_text owned k) ≡ (str_eq j k && holds_text owned j)
level_ok-narrow j k none = ground arith
level_ok-narrow j k (some x) = ground (arith, eq_iff x j, eq_iff x k, eq_iff j k)

module _ (r : ResourceScope) where
  covers-plant_branches :
      (k : String) (bs : List ScopeConstraint)
      → any (branch_covers r) (plant_branches k bs)
        ≡ (any (branch_covers r) bs && holds_text r.plant_id k)
  unfolding plant_branches
  covers-plant_branches k [] = refl
  covers-plant_branches k (b ∷ bs) = elim (Option-cases b.plant_id) [
    | inl e ↦ ground (arith, covers-plant_branches k bs)
    | inr (j, e) ↦ ground (arith, covers-plant_branches k bs, level_ok-narrow j k r.plant_id)
  ]

  covers-department_branches :
      (k : String) (bs : List ScopeConstraint)
      → any (branch_covers r) (department_branches k bs)
        ≡ (any (branch_covers r) bs && holds_text r.department_id k)
  unfolding department_branches
  covers-department_branches k [] = refl
  covers-department_branches k (b ∷ bs) = elim (Option-cases b.department_id) [
    | inl e ↦ ground (arith, covers-department_branches k bs)
    | inr (j, e) ↦
        ground (arith, covers-department_branches k bs, level_ok-narrow j k r.department_id)
  ]

  empty_admits : (bs : List ScopeConstraint) → is_empty bs ≡ true → any (branch_covers r) bs ≡ false
  empty_admits [] h = refl
  empty_admits (b ∷ bs) h = cc

  -- A plant filter keeps exactly the rows of that plant that the scope had.
  pub admits-narrowed_to_plant :
      (s : AuthorizedScope) (k : String) (t : Trail)
      → admits (narrowed_to_plant s k t).0 r ≡ (covers s r && holds_text r.plant_id k)
  unfolding narrowed_to_plant covers
  admits-narrowed_to_plant s k t = elim (Bool-cases (is_empty (plant_branches k s.branches))) [
    | inl e ↦
        rw e
          (sym (empty_admits (plant_branches k s.branches) e) ∙ covers-plant_branches k s.branches)
    | inr e ↦ rw e (
        admits-make_scope r s.tenant_id (plant_branches k s.branches) t
        ∙ covers-plant_branches k s.branches)
  ]

  pub admits-narrowed_to_department :
      (s : AuthorizedScope) (k : String) (t : Trail)
      → admits (narrowed_to_department s k t).0 r ≡ (covers s r && holds_text r.department_id k)
  unfolding narrowed_to_department covers
  admits-narrowed_to_department s k t =
      elim (Bool-cases (is_empty (department_branches k s.branches))) [
        | inl e ↦ rw e (
            sym (empty_admits (department_branches k s.branches) e)
            ∙ covers-department_branches k s.branches)
        | inr e ↦ rw e (
            admits-make_scope r s.tenant_id (department_branches k s.branches) t
            ∙ covers-department_branches k s.branches)
      ]

  -- A step that keeps the rows satisfying `c`, after a step that may refuse.
  admits-bind :
      (m : Result AuthorizedScope × Trail) (f : AuthorizedScope → Audited AuthorizedScope)
      (c : Bool)
      → ((s : AuthorizedScope) (t : Trail) → admits (f s t).0 r ≡ (covers s r && c))
      → admits (((λ t. m) >>= f) []).0 r ≡ (admits m.0 r && c)
  admits-bind (ok s, t) f c h = h s t
  admits-bind (err e, t) f c h = refl

  admits-when_plant :
      (filter : Option String) (s : AuthorizedScope) (t : Trail)
      → admits (when_given filter narrowed_to_plant s t).0 r
        ≡ (covers s r && level_ok filter r.plant_id)
  admits-when_plant none s t = ground arith
  admits-when_plant (some k) s t = admits-narrowed_to_plant s k t

  admits-when_department :
      (filter : Option String) (s : AuthorizedScope) (t : Trail)
      → admits (when_given filter narrowed_to_department s t).0 r
        ≡ (covers s r && level_ok filter r.department_id)
  admits-when_department none s t = ground arith
  admits-when_department (some k) s t = admits-narrowed_to_department s k t

-- The client named no tenant, or its own.
abbrev pub tenant_ok : Principal → Option String → Bool
tenant_ok p none = true
tenant_ok p (some t) = str_eq t p.tenant_id

module _ (p : Principal) (permission : Permission) (tenant plant department : Option String)
    (r : ResourceScope) (t : Trail) where
  -- The resolved scope admits exactly the rows that the record check lets the caller touch and that
  -- the client's tenant, plant and department filters ask for; a refused resolution admits none.
  pub resolve_authorized_scope-admits :
      admits (resolve_authorized_scope p permission tenant plant department t).0 r ≡ (
        tenant_ok p tenant
        && (is_permitted p r permission
            && (level_ok plant r.plant_id && level_ok department r.department_id)))
  unfolding resolve_authorized_scope require_tenant
  resolve_authorized_scope-admits =
      at_tenant tenant
      ∙ ap (λ b. tenant_ok p tenant && b)
          (ap (λ b. b && (level_ok plant r.plant_id && level_ok department r.department_id))
            (granted_scope-agrees p permission r t))
    where
      filtered : Bool
      filtered = level_ok plant r.plant_id && level_ok department r.department_id

      at_department :
          (s : AuthorizedScope) (t : Trail)
          → admits (client_filters plant department s t).0 r ≡ (covers s r && filtered)
      at_department s t = ground (
        arith,
        admits-bind r (when_given plant narrowed_to_plant s t)
            (when_given department narrowed_to_department) (level_ok department r.department_id)
            (admits-when_department r department),
        admits-when_plant r plant s t,
      )

      granted :
          (t : Trail)
          → admits ((granted_scope p permission >>= client_filters plant department) t).0 r
            ≡ (admits (granted_scope p permission t).0 r && filtered)
      granted t =
          admits-bind r (granted_scope p permission t) (client_filters plant department) filtered
            at_department

      at_tenant :
          (named : Option String)
          → admits
              ((tenant_filter p named >>= λ x.
                  granted_scope p permission >>= client_filters plant department)
                t).0
              r
            ≡ (tenant_ok p named && (admits (granted_scope p permission t).0 r && filtered))
      at_tenant none = granted t
      at_tenant (some named) = elim (Bool-cases (str_eq named p.tenant_id)) [
        | inl e ↦ rw (e, require_tenant) (granted t)
        | inr e ↦ rw (e, require_tenant)
      ]
