-- ===== src/Security/Authorization/Decision.antt =====
-- When the record check of app/security/authorization.py passes, and what it records.
use newchanges.Base.{
  ◌≡◌, refl, Bool, true, List, [], ◌∷◌, any, any-keep, arith, map, ◌||◌, ◌&&◌, ap, str_eq, ◌↔◌, ◌∙◌,
}
use newchanges.Base.Audit.{
  Trail, Result, ok, err, forbidden, cross_tenant, value_error, SecurityEvent, authorization_denied,
  tenant_isolation_violation,
}
use newchanges.Security.Permission.{Permission, grants}
use newchanges.Security.Permission.Duties.{permissions_for-any}
use newchanges.Security.Principal.{Principal, RoleAssignment, ResourceScope, has_permission, roles}
use newchanges.Security.Authorization.{
  authorize_resource_permission, can_access_resource_permission, assignment_covers,
}

-- The record check, as one condition on the caller and the record.
abbrev pub is_permitted : Principal → ResourceScope → Permission → Bool
is_permitted p r permission =
    str_eq r.tenant_id p.tenant_id
    && any (λ a. grants a.role permission && assignment_covers r a) p.assignments

pub has_permission-eq-any :
    (p : Principal) (permission : Permission)
    → has_permission p permission ≡ any (λ a. grants a.role permission) p.assignments
unfolding has_permission
has_permission-eq-any p permission =
    permissions_for-any (roles p) permission ∙ over_map p.assignments
  where
    over_map :
        (l : List RoleAssignment)
        → any (λ r. grants r permission) (map (λ (a : RoleAssignment). a.role) l)
          ≡ any (λ (a : RoleAssignment). grants a.role permission) l
    over_map [] = refl
    over_map (a ∷ l) = ap (λ b. grants a.role permission || b) (over_map l)

-- One event of this name stands before the events that were there.
abbrev Adds : SecurityEvent → Trail → Trail → Type 0
Adds name t [] = ⊥
Adds name t (e ∷ rest) = (e.name ≡ name) × (rest ≡ t)

abbrev pub Audits : Trail → Result (Unit {0}) × Trail → Type 0
Audits t (ok _, t') = t' ≡ t
Audits t (err forbidden, t') = Adds authorization_denied t t'
Audits t (err cross_tenant, t') = Adds tenant_isolation_violation t t'
Audits t (err value_error, t') = ⊥

module _ (p : Principal) (r : ResourceScope) (permission : Permission) (t : Trail) where
  any_both :
      (l : List RoleAssignment)
      → any (λ (a : RoleAssignment). grants a.role permission && assignment_covers r a) l ≡ true
      → any (λ (a : RoleAssignment). grants a.role permission) l ≡ true
  any_both [] h = h
  any_both (a ∷ l) h = ground (arith, any_both l)

  pub can_access-eq-is_permitted :
      (can_access_resource_permission p r permission t).0 ≡ ok (is_permitted p r permission)
  unfolding can_access_resource_permission
  can_access-eq-is_permitted = ground (
    arith,
    has_permission-eq-any p permission,
    any_both p.assignments,
    any-keep (λ (a : RoleAssignment). grants a.role permission) (assignment_covers r) p.assignments,
  )

  -- The record check passes exactly when the record is in the caller's tenant and one and the same
  -- assignment of the caller both grants the permission and covers the record.
  pub authorize_resource_permission_iff :
      ((authorize_resource_permission p r permission t).0 ≡ ok tt)
      ↔ (is_permitted p r permission ≡ true)
  unfolding can_access_resource_permission
  authorize_resource_permission_iff = (
    λ h. ground (arith, can_access-eq-is_permitted),
    λ h. ground (arith, can_access-eq-is_permitted),
  )

  -- A record check that passes records nothing; one that refuses adds exactly one event, a tenant
  -- violation for a record of another tenant and a denial in all other cases.
  pub authorize_resource_permission-Audits :
      Audits t (authorize_resource_permission p r permission t)
  unfolding authorize_resource_permission
  authorize_resource_permission-Audits = ground arith
