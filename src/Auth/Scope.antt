-- ===== src/Auth/Scope.antt =====
-- `org_scope`, `authorize_project` and `require_admin` of auth.py.
pub mod Reach
pub mod Grants
use capstone_nps.Base.Errors.{
  ◌>>=◌, ◌>>◌, Result, raise_if, raise, auth_forbidden, resource_not_found, err, other, ok,
}
use capstone_nps.Contracts.Equality.{role_eq}
use capstone_nps.Base.{
  List, ℕ, Option, Bool, true, if◌then◌else◌, map, none, ◌==◌, some, suc, false, ◌&&◌, nat_eq, not,
  length, contains, ◌∷◌, [], ◌++◌, zero, ◌||◌,
}
use capstone_nps.Auth.Accounts.{Accounts, User, ProjectMember, OrganizationUnit, Project}
use capstone_nps.Contracts.{Role, org_admin, system_admin}
use capstone_nps.Base.Rows.{select, first}

-- An organization that `expanded` adds to `allowed`.
unfoldable pub is_new_child : List ℕ → OrganizationUnit → Bool
is_new_child allowed o =
    elim o.parent_id [ none ↦ false | some p ↦ contains p allowed ] && not (contains o.id allowed)

unfoldable pub new_children : List ℕ → List OrganizationUnit → List ℕ
unfolding is_new_child
new_children allowed rows =
    map (λ (o : OrganizationUnit). o.id) (select (is_new_child allowed) rows)

-- The `while` loop, on fuel: `expanded == allowed` when there is nothing new.
unfoldable pub grow : (fuel : ℕ) → List OrganizationUnit → List ℕ → Option (List ℕ)
unfolding new_children
grow zero rows allowed = none
grow (suc n) rows allowed = elim (new_children allowed rows) [
  | [] ↦ some allowed
  | c ∷ cs ↦ grow n rows (allowed ++ c ∷ cs)
]

abbrev pub is_system : Role → Bool
is_system system_admin = true
is_system _ = false

abbrev pub is_admin : Role → Bool
is_admin org_admin = true
is_admin system_admin = true
is_admin _ = false

abbrev is_org_admin : Role → Bool
is_org_admin org_admin = true
is_org_admin _ = false

unfoldable pub org_scope : Accounts → User → Option (List ℕ)
unfolding grow
org_scope accounts user =
    if is_system user.role
    then some (map (λ (o : OrganizationUnit). o.id) accounts.organizations)
    else if is_org_admin user.role
    then grow (suc (length accounts.organizations)) accounts.organizations (user.org_id ∷ [])
    else some (user.org_id ∷ [])

abbrev pub is_member : (project_id user_id : ℕ) → ProjectMember → Bool
is_member project_id user_id m = m.project_id == project_id && m.user_id == user_id

unfoldable pub authorize_project :
    Accounts → User → (project_id : ℕ) → List Role → (owner : Bool) → Result Project
unfolding role_eq org_scope
authorize_project accounts user project_id roles owner =
    elim (first (λ (p : Project). p.id == project_id) accounts.projects) [
      | none ↦ raise resource_not_found 404
      | some project ↦ elim (org_scope accounts user) [
        | none ↦ err other
        | some scope ↦ do
          raise_if
              (not (contains project.org_id scope)
                || elim (first (is_member project.id user.id) accounts.members) [
                  | none ↦ true
                  | some m ↦ false
                ])
              auth_forbidden 403
          raise_if (elim roles [ [] ↦ false | r ∷ rs ↦ not (contains user.role (r ∷ rs)) ])
              auth_forbidden 403
          raise_if (owner && not (project.owner_id == user.id) && not (is_admin user.role))
              auth_forbidden 403
          ok project
      ]
    ]

unfoldable pub require_admin : User → (system : Bool) → Result (Unit {0})
require_admin user system =
    raise_if (not (if system then is_system user.role else is_admin user.role)) auth_forbidden 403
