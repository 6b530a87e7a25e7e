-- ===== src/Security/Permission.antt =====
-- app/security/permissions.py, and the roles of app/security/principal.py.
pub mod Duties
use newchanges.Base.{ℕ, Bool, List, [], ◌∷◌, ◌++◌, ◌==◌, any, if◌then◌else◌}

pub data Role : Type 0 where
  admin finops_manager ai_engineer plant_manager analyst viewer : Role

pub data Permission : Type 0 where
  ai_execute cost_read budget_read budget_manage forecast_read anomaly_read : Permission
  optimization_read optimization_analyze optimization_approve optimization_apply : Permission
  model_read model_manage workload_read organization_read policy_read : Permission
  approval_read approval_decide audit_read : Permission

abbrev role_code : Role → ℕ
role_code Role.admin = 0
role_code Role.finops_manager = 1
role_code Role.ai_engineer = 2
role_code Role.plant_manager = 3
role_code Role.analyst = 4
role_code Role.viewer = 5

-- `==` of two members of the enumeration
abbrev pub role_eq : Role → Role → Bool
role_eq a b = role_code a == role_code b

abbrev permission_code : Permission → ℕ
permission_code Permission.ai_execute = 0
permission_code Permission.cost_read = 1
permission_code Permission.budget_read = 2
permission_code Permission.budget_manage = 3
permission_code Permission.forecast_read = 4
permission_code Permission.anomaly_read = 5
permission_code Permission.optimization_read = 6
permission_code Permission.optimization_analyze = 7
permission_code Permission.optimization_approve = 8
permission_code Permission.optimization_apply = 9
permission_code Permission.model_read = 10
permission_code Permission.model_manage = 11
permission_code Permission.workload_read = 12
permission_code Permission.organization_read = 13
permission_code Permission.policy_read = 14
permission_code Permission.approval_read = 15
permission_code Permission.approval_decide = 16
permission_code Permission.audit_read = 17

abbrev pub permission_eq : Permission → Permission → Bool
permission_eq a b = permission_code a == permission_code b

-- `permission in granted`, for a frozenset written out as a list
abbrev pub contains : List Permission → Permission → Bool
contains granted p = any (permission_eq p) granted

abbrev pub read_only : List Permission
read_only =
    Permission.cost_read ∷ Permission.budget_read ∷ Permission.forecast_read
    ∷ Permission.anomaly_read ∷ Permission.optimization_read ∷ Permission.model_read
    ∷ Permission.workload_read ∷ Permission.organization_read ∷ Permission.policy_read ∷ []

-- `frozenset(Permission)`
abbrev every_permission : List Permission
every_permission =
    Permission.ai_execute ∷ Permission.cost_read ∷ Permission.budget_read ∷ Permission.budget_manage
    ∷ Permission.forecast_read ∷ Permission.anomaly_read ∷ Permission.optimization_read
    ∷ Permission.optimization_analyze ∷ Permission.optimization_approve
    ∷ Permission.optimization_apply ∷ Permission.model_read ∷ Permission.model_manage
    ∷ Permission.workload_read ∷ Permission.organization_read ∷ Permission.policy_read
    ∷ Permission.approval_read ∷ Permission.approval_decide ∷ Permission.audit_read ∷ []

unfoldable pub role_permissions : Role → List Permission
role_permissions Role.admin = every_permission
role_permissions Role.finops_manager =
    read_only
    ++ (Permission.budget_manage ∷ Permission.optimization_analyze ∷ Permission.optimization_approve
        ∷ Permission.approval_read ∷ Permission.approval_decide ∷ Permission.audit_read ∷ [])
role_permissions Role.ai_engineer =
    read_only
    ++ (Permission.ai_execute ∷ Permission.model_manage ∷ Permission.optimization_analyze
        ∷ Permission.optimization_apply ∷ Permission.approval_read ∷ [])
role_permissions Role.plant_manager =
    read_only
    ++ (Permission.ai_execute ∷ Permission.approval_read ∷ Permission.approval_decide ∷ [])
role_permissions Role.analyst =
    read_only ++ (Permission.optimization_analyze ∷ Permission.approval_read ∷ [])
role_permissions Role.viewer = read_only

-- `permission in ROLE_PERMISSIONS.get(role, frozenset())`; every role has a row
unfoldable pub grants : Role → Permission → Bool
grants role p = contains (role_permissions role) p

-- `permissions_for(*roles)`: the union over the roles
unfoldable pub permissions_for : List Role → List Permission
permissions_for [] = []
permissions_for (role ∷ roles) = role_permissions role ++ permissions_for roles

-- the dict's keys, in the order of the table
abbrev table_roles : List Role
table_roles =
    Role.admin ∷ Role.finops_manager ∷ Role.ai_engineer ∷ Role.plant_manager ∷ Role.analyst
    ∷ Role.viewer ∷ []

keep_granting : Permission → List Role → List Role
keep_granting p [] = []
keep_granting p (role ∷ roles) =
    if grants role p then role ∷ keep_granting p roles else keep_granting p roles

unfoldable pub roles_granting : Permission → List Role
unfolding keep_granting
roles_granting p = keep_granting p table_roles
