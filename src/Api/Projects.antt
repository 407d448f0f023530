-- ===== src/Api/Projects.antt =====
-- The routes of projects and their members in api.py.
use capstone_nps.Base.{
  ℕ, none, some, Bool, [], List, ◌==◌, false, ◌&&◌, true, ◌++◌, nat_eq, map, contains, ◌∷◌, any,
  not,
}
use capstone_nps.Base.Errors.{
  ◌>>=◌, ◌>>◌, Result, err, ok, other, raise, raise_if, auth_forbidden, project_owner_required,
}
use capstone_nps.Api.{ProjectInput, check_template, Tables}
use capstone_nps.Routes.{Call}
use capstone_nps.Auth.Accounts.{Project, User, find_user, ProjectMember, Accounts}
use capstone_nps.Auth.Scope.{org_scope, authorize_project, is_member}
use capstone_nps.Contracts.Equality.{role_eq}
use capstone_nps.Auth.Audit.{audit}
use capstone_nps.Models.{Db}
use capstone_nps.Contracts.{Role}
use capstone_nps.Base.Words.{Text, text}
use capstone_nps.Base.Rows.{update, select, first, remove_first}

-- `select(Project).join(ProjectMember)`; the table has one row at most for a project and a user.
unfoldable pub projects : Call → Result (List Project)
unfolding org_scope
projects call = elim (org_scope call.accounts call.user) [
  | none ↦ err other
  | some scope ↦ ok (
      select
        (λ (p : Project).
          contains p.org_id scope && any (is_member p.id call.user.id) call.accounts.members)
        call.accounts.projects)
]

unfoldable pub create_project :
    Call → (project_id : ℕ) → ProjectInput → Db → Result (Project × Accounts × Db)
unfolding check_template audit
create_project call project_id input db = do
  check_template input.template_id call.user.org_id db
  let project : Project = record {
    id = project_id;
    org_id = call.user.org_id;
    owner_id = call.user.id;
    name = input.name;
    description = input.description;
    security_class = input.security_class;
    template_id = input.template_id;
  }
  ok (
    project,
    record call.accounts {
      projects = call.accounts.projects ++ project ∷ [];
      members =
          call.accounts.members
          ++ record { project_id = project.id; user_id = call.user.id; role = call.user.role } ∷ [];
    },
    audit call.user.id (text "PROJECT_CREATE") project.id project.id [] db,
  )

abbrev pub project_detail : Call → (project_id : ℕ) → Result Project
project_detail call project_id = authorize_project call.accounts call.user project_id [] false

abbrev pub write_project : ProjectInput → Project → Project
write_project input p = record p {
  name = input.name;
  description = input.description;
  security_class = input.security_class;
  template_id = input.template_id;
}

unfoldable pub update_project :
    Call → (project_id : ℕ) → ProjectInput → Db → Result (Project × Accounts × Db)
unfolding authorize_project check_template audit
update_project call project_id input db = do
  project ← authorize_project call.accounts call.user project_id [] true
  check_template input.template_id call.user.org_id db
  ok (
    write_project input project,
    record call.accounts {
      projects =
          update (λ (p : Project). p.id == project.id) (write_project input) call.accounts.projects;
    },
    audit call.user.id (text "PROJECT_UPDATE") project.id project.id [] db,
  )

unfoldable pub members : Call → (project_id : ℕ) → Result (List ProjectMember)
unfolding authorize_project
members call project_id = do
  project ← authorize_project call.accounts call.user project_id [] false
  ok (select (λ (m : ProjectMember). m.project_id == project.id) call.accounts.members)

abbrev is_reviewer_of : Project → User → Bool
is_reviewer_of project u = u.org_id == project.org_id && u.role == Role.reviewer && u.active

unfoldable pub reviewer_candidates : Call → (project_id : ℕ) → Result (List (ℕ × Text))
unfolding authorize_project role_eq
reviewer_candidates call project_id = do
  project ← authorize_project call.accounts call.user project_id [] true
  ok (map (λ (u : User). (u.id, u.username)) (select (is_reviewer_of project) call.accounts.users))

unfoldable pub add_member :
    Call → (project_id user_id : ℕ) → Role → Db → Result (ProjectMember × Accounts × Db)
unfolding authorize_project find_user audit
add_member call project_id user_id role db = do
  project ← authorize_project call.accounts call.user project_id [] true
  elim (find_user user_id call.accounts) [
    | none ↦ raise auth_forbidden 403
    | some target ↦ do
      raise_if (not (target.org_id == project.org_id)) auth_forbidden 403
      elim (first (is_member project.id target.id) call.accounts.members) [
        | some existing ↦ ok (existing, call.accounts, db)
        | none ↦
            let member : ProjectMember = record {
              project_id = project.id;
              user_id = target.id;
              role = role;
            } in
            ok (
              member,
              record call.accounts { members = call.accounts.members ++ member ∷ [] },
              audit call.user.id (text "PROJECT_MEMBER_ADD") target.id project.id [] db,
            )
      ]
  ]

-- The row that the SELECT returns, if there is one, is deleted; the audit is written either way.
unfoldable pub remove_member : Call → (project_id user_id : ℕ) → Db → Result Tables
unfolding authorize_project audit
remove_member call project_id user_id db = do
  project ← authorize_project call.accounts call.user project_id [] true
  raise_if (user_id == project.owner_id) project_owner_required 409
  ok (
    record call.accounts {
      members = remove_first (is_member project.id user_id) call.accounts.members;
    },
    audit call.user.id (text "PROJECT_MEMBER_REMOVE") user_id project.id [] db,
  )
