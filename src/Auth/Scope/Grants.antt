-- ===== src/Auth/Scope/Grants.antt =====
-- Who `authorize_project` lets in.

use capstone_nps.Base.Errors.{ok}
use capstone_nps.Auth.Accounts.{Accounts, User, Project, ProjectMember}
use capstone_nps.Auth.Scope.{authorize_project, org_scope, is_member, is_admin}
use capstone_nps.Base.{
  List, ℕ, Bool, ◌≡◌, ◌==◌, Option-cases, some, inl, arith, contains, true, inr, [], false, ◌⊎◌,
  ◌∷◌, nat_eq, not, refl, ◌∙◌, ap, subst, nat_beq_iff,
}
use capstone_nps.Contracts.{Role}
use capstone_nps.Base.Rows.{first}
use capstone_nps.Contracts.Equality.{role_eq}

-- What a granted access has shown.
pub record IsGranted (accounts : Accounts) (user : User) (project_id : ℕ) (roles : List Role)
    (owner : Bool) (project : Project) : Type 0 where
  pub found : first (λ (p : Project). p.id == project_id) accounts.projects ≡ some project
  pub scope : List ℕ
  pub scoped : org_scope accounts user ≡ some scope
  pub in_scope : contains project.org_id scope ≡ true
  pub member :
      (m : ProjectMember) × (first (is_member project.id user.id) accounts.members ≡ some m)
  pub role : (roles ≡ []) ⊎ (contains user.role roles ≡ true)
  pub ownership : owner ≡ true → (project.owner_id ≡ user.id) ⊎ (is_admin user.role ≡ true)

-- The second condition, apart from the list of roles.
role_test :
    (user : User) (roles : List Role)
    → elim roles [ [] ↦ false | r ∷ rs ↦ not (contains user.role (r ∷ rs)) ] ≡ false
    → (roles ≡ []) ⊎ (contains user.role roles ≡ true)
role_test user [] h = inl refl
role_test user (r ∷ rs) h = inr (ground arith)

-- Access to a project is granted only to its members, of an organization in the user's scope, with one of
-- the roles that are asked for, if any are; and where the owner is asked for, only to the owner or an
-- administrator. The role of an administrator replaces neither membership nor scope.
pub authorize_project-IsGranted :
    (accounts : Accounts) (user : User) (project_id : ℕ) (roles : List Role) (owner : Bool)
    {project : Project}
    → authorize_project accounts user project_id roles owner ≡ ok project
    → IsGranted accounts user project_id roles owner project
unfolding authorize_project
authorize_project-IsGranted accounts user project_id roles owner {project} h =
    elim (Option-cases (first (λ (p : Project). p.id == project_id) accounts.projects)) [
      | inl gone ↦ absurd (ground arith)
      | inr (p, there) ↦ elim (Option-cases (org_scope accounts user)) [
        | inl endless ↦ absurd (ground arith)
        | inr (scope, scoped) ↦
            elim (Option-cases (first (is_member p.id user.id) accounts.members)) [
              | inl stranger ↦ absurd (ground arith)
              | inr (m, joined) ↦
                  let it : p ≡ project = ground arith in
                  record {
                    found = there ∙ ap some it;
                    scope = scope;
                    scoped = scoped;
                    in_scope = ground arith;
                    member = (
                      m,
                      subst
                          (λ (q : Project).
                            first (is_member q.id user.id) accounts.members ≡ some m)
                          it joined,
                    );
                    role = role_test user roles (ground arith);
                    ownership = λ asked. ground (arith, nat_beq_iff p.owner_id user.id);
                  }
            ]
      ]
    ]
