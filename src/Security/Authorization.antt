-- ===== src/Security/Authorization.antt =====
-- app/security/authorization.py: the endpoint check and the check of one record.
pub mod Decision
use newchanges.Base.{
  Bool, true, false, List, any, if◌then◌else◌, Option, none, some, String, str_eq, is_empty,
  holds_text,
}
use newchanges.Base.Audit.{
  Audited, ok, err, pure, raise, deny, ◌>>◌, forbidden, cross_tenant, value_error,
  authorization_denied, tenant_isolation_violation,
}
use newchanges.Security.Permission.{Role, Permission}
use newchanges.Security.Principal.{
  Principal, RoleAssignment, ScopeType, ResourceScope, has_role, assignments_for,
  assignments_granting, require_permission,
}

unfoldable pub require_roles : Principal → List Role → Audited (Unit {0})
require_roles p wanted =
    if is_empty wanted
    then raise value_error
    else if has_role p wanted
    then pure tt
    else deny authorization_denied "role_not_held" forbidden

unfoldable pub require_tenant : Principal → String → Audited (Unit {0})
require_tenant p tenant_id =
    if str_eq tenant_id p.tenant_id
    then pure tt
    else deny tenant_isolation_violation "resource_belongs_to_another_tenant" cross_tenant

unfoldable pub reject_client_tenant_override : Principal → Option String → Audited String
reject_client_tenant_override p none = pure p.tenant_id
reject_client_tenant_override p (some claimed) =
    if str_eq claimed p.tenant_id
    then pure p.tenant_id
    else deny tenant_isolation_violation "client_supplied_tenant_override" cross_tenant

abbrev pub covers_at : ScopeType → String → ResourceScope → Bool
covers_at ScopeType.tenant id r = str_eq id r.tenant_id
covers_at ScopeType.plant id r = holds_text r.plant_id id
covers_at ScopeType.department id r = holds_text r.department_id id

-- `_assignment_covers`
abbrev pub assignment_covers : ResourceScope → RoleAssignment → Bool
assignment_covers r a = covers_at a.scope_type a.scope_id r

unfoldable pub authorize_resource : Principal → ResourceScope → List Role → Audited (Unit {0})
unfolding require_tenant
authorize_resource p r wanted = do
  require_tenant p r.tenant_id
  if is_empty wanted
      then raise value_error
      else if is_empty (assignments_for p wanted)
      then deny authorization_denied "role_not_held" forbidden
      else if any (assignment_covers r) (assignments_for p wanted)
      then pure tt
      else deny authorization_denied "resource_out_of_scope" forbidden

unfoldable pub authorize_resource_permission :
    Principal → ResourceScope → Permission → Audited (Unit {0})
unfolding require_tenant require_permission
authorize_resource_permission p r permission = do
  require_tenant p r.tenant_id
  require_permission p permission
  if any (assignment_covers r) (assignments_granting p permission)
      then pure tt
      else deny authorization_denied "resource_out_of_scope" forbidden

-- the `except (ForbiddenError, CrossTenantAccessError)`: any other exception goes on up
abbrev allowed : Audited (Unit {0}) → Audited Bool
allowed m t =
    let (r, t') = m t in
    elim r [
      | ok _ ↦ (ok true, t')
      | err forbidden ↦ (ok false, t')
      | err cross_tenant ↦ (ok false, t')
      | err value_error ↦ (err value_error, t')
    ]

unfoldable pub can_access_resource_permission :
    Principal → ResourceScope → Permission → Audited Bool
unfolding authorize_resource_permission
can_access_resource_permission p r permission =
    allowed (authorize_resource_permission p r permission)

unfoldable pub can_access_resource : Principal → ResourceScope → List Role → Audited Bool
unfolding authorize_resource
can_access_resource p r wanted = allowed (authorize_resource p r wanted)
