-- ===== src/Security/Principal.antt =====
-- app/security/principal.py: the authenticated caller, scoped role assignments, ownership of a
-- record; and the permission checks of app/security/permissions.py that read a principal.
use newchanges.Base.{
  ℕ, Bool, ◌&&◌, List, [], ◌∷◌, ◌==◌, any, if◌then◌else◌, Option, none, some, String, str_eq, keep,
  map,
}
use newchanges.Base.Audit.{Audited, pure, deny, forbidden, authorization_denied}
use newchanges.Security.Permission.{Role, Permission, role_eq, contains, grants, permissions_for}

pub data ScopeType : Type 0 where
  tenant plant department : ScopeType

abbrev scope_type_code : ScopeType → ℕ
scope_type_code ScopeType.tenant = 0
scope_type_code ScopeType.plant = 1
scope_type_code ScopeType.department = 2

abbrev pub scope_type_eq : ScopeType → ScopeType → Bool
scope_type_eq a b = scope_type_code a == scope_type_code b

pub record RoleAssignment : Type 0 where
  pub role : Role
  pub scope_type : ScopeType
  pub scope_id : String

pub record ResourceScope : Type 0 where
  pub tenant_id : String
  pub plant_id : Option String
  pub department_id : Option String

pub record Principal : Type 0 where
  pub subject : String
  pub tenant_id : String
  pub assignments : List RoleAssignment

-- The ownership columns that `getattr` reads: absent, or a text that may be empty.
pub record OwnedRecord : Type 0 where
  pub tenant_id : Option String
  pub plant_id : Option String
  pub department_id : Option String

-- `x if isinstance(x, str) and x else None`
abbrev pub text_or_none : Option String → Option String
text_or_none none = none
text_or_none (some x) = if str_eq x "" then none else some x

-- `none` is the `ValueError`.
unfoldable pub from_record : OwnedRecord → Option ResourceScope
from_record r = elim (text_or_none r.tenant_id) [
  | none ↦ none
  | some t ↦ some (record {
    tenant_id = t;
    plant_id = text_or_none r.plant_id;
    department_id = text_or_none r.department_id;
  })
]

-- the roles held, as a list; only membership is read
abbrev pub roles : Principal → List Role
roles p = map (λ a. a.role) p.assignments

-- `a.role in roles`
abbrev pub holds_one_of : List Role → RoleAssignment → Bool
holds_one_of wanted a = any (role_eq a.role) wanted

unfoldable pub has_role : Principal → List Role → Bool
has_role p wanted = any (holds_one_of wanted) p.assignments

unfoldable pub assignments_for : Principal → List Role → List RoleAssignment
assignments_for p [] = p.assignments
assignments_for p (r ∷ wanted) = keep (holds_one_of (r ∷ wanted)) p.assignments

unfoldable pub scope_ids : Principal → Role → ScopeType → List String
scope_ids p role kind =
    map (λ a. a.scope_id)
      (keep (λ a. role_eq a.role role && scope_type_eq a.scope_type kind) p.assignments)

unfoldable pub accessible_plant_ids : Principal → List Role → List String
unfolding assignments_for
accessible_plant_ids p wanted =
    map (λ a. a.scope_id)
      (keep (λ a. scope_type_eq a.scope_type ScopeType.plant) (assignments_for p wanted))

unfoldable pub has_tenant_wide_access : Principal → List Role → Bool
unfolding assignments_for
has_tenant_wide_access p wanted =
    any (λ a. scope_type_eq a.scope_type ScopeType.tenant && str_eq a.scope_id p.tenant_id)
      (assignments_for p wanted)

unfoldable pub principal_permissions : Principal → List Permission
unfolding permissions_for
principal_permissions p = permissions_for (roles p)

unfoldable pub has_permission : Principal → Permission → Bool
unfolding principal_permissions
has_permission p permission = contains (principal_permissions p) permission

-- the assignments whose role grants the permission
abbrev pub assignments_granting : Principal → Permission → List RoleAssignment
assignments_granting p permission = keep (λ a. grants a.role permission) p.assignments

unfoldable pub require_permission : Principal → Permission → Audited (Unit {0})
require_permission p permission =
    if has_permission p permission
    then pure tt
    else deny authorization_denied "permission_not_granted" forbidden
