-- ===== src/Security/Scope.antt =====
-- app/security/scope.py: the rows that a caller may see, as a disjunction of constraints; and the
-- predicate that app/repositories/scope_filter.py makes of it.
pub mod Agreement
pub mod Narrowing
pub mod Filter
use newchanges.Base.{
  ℕ, ◌+◌, Bool, true, false, not, ◌&&◌, ◌||◌, List, [], ◌∷◌, ◌++◌, ◌==◌, any, if◌then◌else◌, Option,
  none, some, String, str_eq, keep, is_empty, is_none, map, holds_text,
}
use newchanges.Base.Audit.{
  Audited, Error, Result, ok, err, pure, raise, deny, ◌>>=◌, ◌>>◌, SecurityEvent, forbidden,
  cross_tenant, value_error, authorization_denied, tenant_isolation_violation,
}
use newchanges.Security.Permission.{Role, Permission}
use newchanges.Security.Principal.{
  Principal, RoleAssignment, ScopeType, ResourceScope, has_role, assignments_for,
  assignments_granting, require_permission,
}
use newchanges.Security.Authorization.{require_tenant}

pub record ScopeConstraint : Type 0 where
  pub tenant_id : String
  pub plant_id : Option String
  pub department_id : Option String

-- `constraint is None or owned == constraint`
abbrev pub level_ok : Option String → Option String → Bool
level_ok none owned = true
level_ok (some k) owned = holds_text owned k

-- `ScopeConstraint.covers`
abbrev pub branch_covers : ResourceScope → ScopeConstraint → Bool
branch_covers r b =
    str_eq r.tenant_id b.tenant_id
    && (level_ok b.plant_id r.plant_id && level_ok b.department_id r.department_id)

-- `ScopeConstraint.is_tenant_wide`
abbrev pub is_whole_tenant : ScopeConstraint → Bool
is_whole_tenant b = is_none b.plant_id && is_none b.department_id

pub record AuthorizedScope : Type 0 where
  pub tenant_id : String
  pub branches : List ScopeConstraint

-- `AuthorizedScope.__post_init__`
abbrev make_scope : String → List ScopeConstraint → Audited AuthorizedScope
make_scope t [] = raise value_error
make_scope t (b ∷ bs) = pure (record { tenant_id = t; branches = b ∷ bs })

unfoldable pub is_tenant_wide : AuthorizedScope → Bool
is_tenant_wide s = any is_whole_tenant s.branches

unfoldable pub covers : AuthorizedScope → ResourceScope → Bool
covers s r = any (branch_covers r) s.branches

-- The branches that a `plant_id` filter leaves, each narrowed to that plant.
unfoldable pub plant_branches : String → List ScopeConstraint → List ScopeConstraint
plant_branches k [] = []
plant_branches k (b ∷ bs) =
    let rest = plant_branches k bs in
    elim b.plant_id [
      | none ↦
          record { tenant_id = b.tenant_id; plant_id = some k; department_id = b.department_id }
          ∷ rest
      | some j ↦ if str_eq j k then b ∷ rest else rest
    ]

unfoldable pub narrowed_to_plant : AuthorizedScope → String → Audited AuthorizedScope
narrowed_to_plant s k =
    if is_empty (plant_branches k s.branches)
    then deny authorization_denied "plant_out_of_scope" forbidden
    else make_scope s.tenant_id (plant_branches k s.branches)

unfoldable pub department_branches : String → List ScopeConstraint → List ScopeConstraint
department_branches k [] = []
department_branches k (b ∷ bs) =
    let rest = department_branches k bs in
    elim b.department_id [
      | none ↦
          record { tenant_id = b.tenant_id; plant_id = b.plant_id; department_id = some k } ∷ rest
      | some j ↦ if str_eq j k then b ∷ rest else rest
    ]

unfoldable pub narrowed_to_department : AuthorizedScope → String → Audited AuthorizedScope
narrowed_to_department s k =
    if is_empty (department_branches k s.branches)
    then deny authorization_denied "department_out_of_scope" forbidden
    else make_scope s.tenant_id (department_branches k s.branches)

-- the `match` on an assignment's scope type
abbrev branch_of : String → ScopeType → String → List ScopeConstraint
branch_of t ScopeType.tenant id =
    if str_eq id t then record { tenant_id = t; plant_id = none; department_id = none } ∷ [] else []
branch_of t ScopeType.plant id =
    record { tenant_id = t; plant_id = some id; department_id = none } ∷ []
branch_of t ScopeType.department id =
    record { tenant_id = t; plant_id = none; department_id = some id } ∷ []

unfoldable pub scope_branches : String → List RoleAssignment → List ScopeConstraint
scope_branches t [] = []
scope_branches t (a ∷ rest) = branch_of t a.scope_type a.scope_id ++ scope_branches t rest

abbrev opt_text_eq : Option String → Option String → Bool
opt_text_eq none none = true
opt_text_eq none (some _) = false
opt_text_eq (some _) none = false
opt_text_eq (some a) (some b) = str_eq a b

abbrev branch_eq : ScopeConstraint → ScopeConstraint → Bool
branch_eq a b =
    str_eq a.tenant_id b.tenant_id
    && (opt_text_eq a.plant_id b.plant_id && opt_text_eq a.department_id b.department_id)

-- `tuple(dict.fromkeys(branches))`: the first of equal branches, in order of insertion
pub distinct_from : List ScopeConstraint → List ScopeConstraint → List ScopeConstraint
distinct_from seen [] = []
distinct_from seen (b ∷ bs) =
    let fresh = b ∷ distinct_from (b ∷ seen) bs in
    let rest = distinct_from seen bs in if any (branch_eq b) seen then rest else fresh

unfoldable pub distinct : List ScopeConstraint → List ScopeConstraint
unfolding distinct_from
distinct = distinct_from []

abbrev collapse : String → List ScopeConstraint → List ScopeConstraint
collapse t bs =
    if any is_whole_tenant bs
    then record { tenant_id = t; plant_id = none; department_id = none } ∷ []
    else bs

abbrev when_given {ℓ} : {A : Type ℓ} → Option String → (A → String → Audited A) → A → Audited A
when_given none f a = pure a
when_given (some k) f a = f a k

abbrev tenant_filter : Principal → Option String → Audited (Unit {0})
tenant_filter p none = pure tt
tenant_filter p (some t) = require_tenant p t

-- The scope before any client filter.
unfoldable pub granted_scope : Principal → Permission → Audited AuthorizedScope
granted_scope p permission =
    let grants = assignments_granting p permission in
    let branches = scope_branches p.tenant_id grants in
    if is_empty grants
    then deny authorization_denied "permission_not_granted" forbidden
    else if is_empty branches
    then deny authorization_denied "permission_held_at_no_usable_scope" forbidden
    else make_scope p.tenant_id (distinct (collapse p.tenant_id branches))

-- The client's filters, where it gives them.
abbrev client_filters : Option String → Option String → AuthorizedScope → Audited AuthorizedScope
client_filters plant department scope = do
  at_plant ← when_given plant narrowed_to_plant scope
  when_given department narrowed_to_department at_plant

unfoldable pub resolve_authorized_scope :
    Principal → Permission → Option String → Option String → Option String → Audited AuthorizedScope
unfolding granted_scope
resolve_authorized_scope p permission tenant plant department = do
  tenant_filter p tenant
  scope ← granted_scope p permission
  client_filters plant department scope

-- `authorized_scope_filter` as the truth of the predicate at one row: `tenant = T`, and for each
-- branch the conjunction of the levels that it constrains. A tenant-wide branch ends the loop.
branch_predicates : ResourceScope → List ScopeConstraint → Bool
branch_predicates r [] = false
branch_predicates r (b ∷ bs) =
    let rest =
      (level_ok b.plant_id r.plant_id && level_ok b.department_id r.department_id)
      || branch_predicates r bs in
    if is_whole_tenant b then true else rest

unfoldable pub scope_filter : AuthorizedScope → ResourceScope → Bool
unfolding branch_predicates
scope_filter s r = str_eq r.tenant_id s.tenant_id && branch_predicates r s.branches
