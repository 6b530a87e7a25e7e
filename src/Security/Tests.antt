-- ===== src/Security/Tests.antt =====
-- Runs of the security layer, and its theorems at concrete inputs.
use newchanges.Base.{◌≡◌, ◌↔◌, refl, true, ◌&&◌, [], ◌∷◌, none, some, String}
use newchanges.Base.Audit.{ok, err, forbidden}
use newchanges.Security.Permission.{Role, Permission, grants, role_permissions}
use newchanges.Security.Principal.{Principal, ResourceScope, ScopeType, has_permission}
use newchanges.Security.Authorization.{authorize_resource_permission}
use newchanges.Security.Authorization.Decision.{is_permitted, authorize_resource_permission_iff}
use newchanges.Security.Scope.{
  AuthorizedScope, resolve_authorized_scope, scope_filter, covers, distinct, scope_branches,
}
use newchanges.Security.Scope.Agreement.{admits}
use newchanges.Security.Scope.Narrowing.{resolve_authorized_scope-admits}
use newchanges.Security.Scope.Filter.{
  Resolves, resolve_authorized_scope-IsScopeOf, scope_filter-eq-covers,
}

-- A plant manager of plant-1 who is also an analyst of a department elsewhere.
abbrev manager : Principal
manager = record {
  subject = "maya";
  tenant_id = "acme";
  assignments =
      record { role = Role.plant_manager; scope_type = ScopeType.plant; scope_id = "plant-1" }
      ∷ record { role = Role.analyst; scope_type = ScopeType.department; scope_id = "dept-9" }
      ∷ [];
}

abbrev at_plant : String → ResourceScope
at_plant k = record { tenant_id = "acme"; plant_id = some k; department_id = some "dept-2" }

abbrev reads_cost : AuthorizedScope
reads_cost = record {
  tenant_id = "acme";
  branches =
      record { tenant_id = "acme"; plant_id = some "plant-1"; department_id = none }
      ∷ record { tenant_id = "acme"; plant_id = none; department_id = some "dept-9" }
      ∷ [];
}

resolve-manager :
    resolve_authorized_scope manager Permission.cost_read none none none [] ≡ (ok reads_cost, [])
unfolding resolve_authorized_scope distinct scope_branches grants role_permissions
resolve-manager = refl

authorize-other_plant :
    (authorize_resource_permission manager (at_plant "plant-2") Permission.cost_read []).0
    ≡ err forbidden
unfolding authorize_resource_permission has_permission grants role_permissions
authorize-other_plant = refl

authorize_resource_permission_iff_example :
    ((authorize_resource_permission manager (at_plant "plant-1") Permission.ai_execute []).0
      ≡ ok tt)
    ↔ (is_permitted manager (at_plant "plant-1") Permission.ai_execute ≡ true)
authorize_resource_permission_iff_example =
    authorize_resource_permission_iff manager (at_plant "plant-1") Permission.ai_execute []

resolve_authorized_scope-admits_example :
    admits
      (resolve_authorized_scope manager Permission.cost_read none (some "plant-1") none []).0
      (at_plant "plant-1")
    ≡ (true && (is_permitted manager (at_plant "plant-1") Permission.cost_read && (true && true)))
resolve_authorized_scope-admits_example =
    resolve_authorized_scope-admits manager Permission.cost_read none (some "plant-1") none
      (at_plant "plant-1") []

resolve_authorized_scope-IsScopeOf_example :
    Resolves "acme"
      (resolve_authorized_scope manager Permission.cost_read none none (some "dept-9") []).0
resolve_authorized_scope-IsScopeOf_example =
    resolve_authorized_scope-IsScopeOf manager Permission.cost_read none none (some "dept-9") []

scope_filter-eq-covers_example :
    scope_filter reads_cost (at_plant "plant-1") ≡ covers reads_cost (at_plant "plant-1")
unfolding resolve_authorized_scope distinct scope_branches grants role_permissions
scope_filter-eq-covers_example =
    scope_filter-eq-covers manager Permission.cost_read none none none [] reads_cost
      (at_plant "plant-1") refl
