-- ===== src/Api/Effects.antt =====
-- What each route of api.py that is granted leaves of the accounts.
use capstone_nps.Base.{
  ℕ, Bool, ◌≡◌, ◌++◌, Option-cases, ◌⊎◌, ◌∷◌, ◌==◌, [], inl, true, ◌≢◌, arith, inr, nat_eq, ==_refl,
  nat_beq_iff,
}
use capstone_nps.Api.Users.{change_role}
use capstone_nps.Api.Projects.{
  add_member, create_project, update_project, remove_member, write_project,
}
use capstone_nps.Routes.{Call}
use capstone_nps.Contracts.{Role}
use capstone_nps.Api.{ProjectInput, check_template}
use capstone_nps.Models.{Db}
use capstone_nps.Auth.Accounts.{Accounts, ProjectMember, Project, User, find_user}
use capstone_nps.Base.Errors.{ok, Result-cases}
use capstone_nps.Base.Rows.{update, first, remove_first}
use capstone_nps.Auth.Scope.{authorize_project, is_member, org_scope}

pub create_project-accounts :
    (call : Call) (project_id : ℕ) (input : ProjectInput) (db : Db) {project : Project}
    {accounts' : Accounts} {db' : Db}
    → create_project call project_id input db ≡ ok (project, accounts', db')
    → (m : ProjectMember) × (accounts'.projects ≡ call.accounts.projects ++ project ∷ [])
      × (accounts'.members ≡ call.accounts.members ++ m ∷ [])
      × (is_member project.id project.owner_id m ≡ true)
unfolding create_project
create_project-accounts call project_id input db h =
    elim (Result-cases (check_template input.template_id call.user.org_id db)) [
      | inl (e, refused) ↦ absurd (ground arith)
      | inr (_, passed) ↦ (
        record { project_id = project_id; user_id = call.user.id; role = call.user.role },
        ground arith,
        ground arith,
        ground (arith, ==_refl project_id, ==_refl call.user.id),
      )
    ]

pub update_project-accounts :
    (call : Call) (project_id : ℕ) (input : ProjectInput) (db : Db) {project : Project}
    {accounts' : Accounts} {db' : Db}
    → update_project call project_id input db ≡ ok (project, accounts', db')
    → (id : ℕ) × (accounts'.projects
        ≡ update (λ (p : Project). p.id == id) (write_project input) call.accounts.projects)
      × (accounts'.members ≡ call.accounts.members)
unfolding update_project
update_project-accounts call project_id input db h =
    elim (Result-cases (authorize_project call.accounts call.user project_id [] true)) [
      | inl (e, refused) ↦ absurd (ground arith)
      | inr (project, granted) ↦
          elim (Result-cases (check_template input.template_id call.user.org_id db)) [
            | inl (e, refused) ↦ absurd (ground arith)
            | inr (_, passed) ↦ (project.id, ground arith, ground arith)
          ]
    ]

pub add_member-accounts :
    (call : Call) (project_id user_id : ℕ) (role : Role) (db : Db) {member : ProjectMember}
    {accounts' : Accounts} {db' : Db}
    → add_member call project_id user_id role db ≡ ok (member, accounts', db')
    → (accounts'.projects ≡ call.accounts.projects)
      × ((accounts'.members ≡ call.accounts.members)
          ⊎ (accounts'.members ≡ call.accounts.members ++ member ∷ []))
unfolding add_member
add_member-accounts call project_id user_id role db h =
    elim (Result-cases (authorize_project call.accounts call.user project_id [] true)) [
      | inl (e, refused) ↦ absurd (ground arith)
      | inr (project, granted) ↦ elim (Option-cases (find_user user_id call.accounts)) [
        | inl gone ↦ absurd (ground arith)
        | inr (target, there) ↦
            elim (Option-cases (first (is_member project.id target.id) call.accounts.members)) [
              | inl fresh ↦ (ground arith, inr (ground arith))
              | inr (old, joined_before) ↦ (ground arith, inl (ground arith))
            ]
      ]
    ]

pub remove_member-accounts :
    (call : Call) (project_id user_id : ℕ) (db : Db) {accounts' : Accounts} {db' : Db}
    → remove_member call project_id user_id db ≡ ok (accounts', db')
    → (project : Project) × (authorize_project call.accounts call.user project_id [] true
        ≡ ok project)
      × (project.owner_id ≢ user_id)
      × (accounts'.projects ≡ call.accounts.projects)
      × (accounts'.members ≡ remove_first (is_member project.id user_id) call.accounts.members)
unfolding remove_member
remove_member-accounts call project_id user_id db h =
    elim (Result-cases (authorize_project call.accounts call.user project_id [] true)) [
      | inl (e, refused) ↦ absurd (ground arith)
      | inr (project, granted) ↦ (
        project,
        granted,
        ground (arith, nat_beq_iff user_id project.owner_id),
        ground arith,
        ground arith,
      )
    ]

pub change_role-accounts :
    (call : Call) (user_id : ℕ) (role : Role) (active : Bool) (db : Db) {user : User}
    {accounts' : Accounts} {db' : Db}
    → change_role call user_id role active db ≡ ok (user, accounts', db')
    → (accounts'.projects ≡ call.accounts.projects) × (accounts'.members ≡ call.accounts.members)
unfolding change_role
change_role-accounts call user_id role active db h =
    elim (Option-cases (find_user user_id call.accounts)) [
      | inl gone ↦ absurd (ground arith)
      | inr (target, there) ↦ elim (Option-cases (org_scope call.accounts call.user)) [
        | inl endless ↦ absurd (ground arith)
        | inr (scope, scoped_at) ↦ (ground arith, ground arith)
      ]
    ]
