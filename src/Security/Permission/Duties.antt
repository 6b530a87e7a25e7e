-- ===== src/Security/Permission/Duties.antt =====
-- What the table of app/security/permissions.py keeps apart, and that its two directions agree.
use newchanges.Base.{◌≡◌, refl, true, List, [], ◌∷◌, any, any-append, ◌||◌, ap}
use newchanges.Security.Permission.{
  Role, Permission, contains, grants, role_permissions, permissions_for, permission_eq,
}

-- A role that may both approve an optimization and apply one is ADMIN.
pub approve_apply_apart :
    (role : Role)
    → grants role Permission.optimization_approve ≡ true
    → grants role Permission.optimization_apply ≡ true
    → role ≡ Role.admin
unfolding grants role_permissions
approve_apply_apart Role.admin h k = refl
approve_apply_apart Role.finops_manager h k = cc
approve_apply_apart Role.ai_engineer h k = cc
approve_apply_apart _ h k = cc

-- A permission is in the union over some roles exactly when one of the roles grants it.
pub permissions_for-any :
    (roles : List Role) (p : Permission)
    → contains (permissions_for roles) p ≡ any (λ r. grants r p) roles
unfolding permissions_for grants
permissions_for-any [] p = refl
permissions_for-any (r ∷ rs) p =
    rw (any-append (permission_eq p) (role_permissions r) (permissions_for rs))
      (ap (λ b. contains (role_permissions r) p || b) (permissions_for-any rs p))
