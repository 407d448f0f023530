-- ===== src/Api/Users.antt =====
-- The routes of administrators in api.py.
use capstone_nps.Base.{
  ℕ, none, some, Bool, List, true, ◌∷◌, false, [], contains, not, nat_eq, ◌&&◌, ◌||◌, ◌==◌,
}
use capstone_nps.Base.Errors.{◌>>◌, Result, err, other, raise, ok, auth_forbidden, raise_if}
use capstone_nps.Auth.Accounts.{User, find_user, OrganizationUnit, system_id, Accounts}
use capstone_nps.Contracts.{Role}
use capstone_nps.Auth.Scope.{require_admin, org_scope, is_system}
use capstone_nps.Base.Words.{Text, text}
use capstone_nps.Models.{Detail, Db}
use capstone_nps.Contracts.Equality.{role_eq}
use capstone_nps.Routes.{Call}
use capstone_nps.Auth.Audit.{audit}
use capstone_nps.Base.Rows.{select, update}

abbrev role_name : Role → Text
role_name Role.user = text "User"
role_name Role.reviewer = text "Reviewer"
role_name Role.org_admin = text "OrgAdmin"
role_name Role.system_admin = text "SystemAdmin"

abbrev flag : Bool → Detail
flag true = Detail.number 1
flag false = Detail.number 0

abbrev pub write_role : Role → (active : Bool) → User → User
write_role role active u = record u { role = role; active = active }

-- The detail of the audit; its truth values are written as numbers.
abbrev role_change : User → Role → (active : Bool) → List (Text × Detail)
role_change target role active =
    (text "old_role", Detail.words (role_name target.role))
    ∷ (text "new_role", Detail.words (role_name role))
    ∷ (text "old_active", flag target.active)
    ∷ (text "new_active", flag active)
    ∷ []

unfoldable pub change_role :
    Call → (user_id : ℕ) → Role → (active : Bool) → Db → Result (User × Accounts × Db)
unfolding require_admin find_user org_scope role_eq audit
change_role call user_id role active db = do
  require_admin call.user false
  elim (find_user user_id call.accounts) [
    | none ↦ raise auth_forbidden 403
    | some target ↦ elim (org_scope call.accounts call.user) [
      | none ↦ err other
      | some scope ↦ do
        raise_if (not (contains target.org_id scope)) auth_forbidden 403
        raise_if (not (is_system call.user.role) && (is_system role || is_system target.role))
            auth_forbidden 403
        ok (
          write_role role active target,
          record call.accounts {
            users =
                update (λ (u : User). u.id == target.id) (write_role role active)
                  call.accounts.users;
          },
          audit call.user.id (text "USER_ROLE_CHANGE") target.id system_id
              (role_change target role active) db,
        )
    ]
  ]

-- `order_by(User.username)` is the order of the database, and is left out.
unfoldable pub admin_users : Call → Result (List User)
unfolding require_admin org_scope
admin_users call = do
  require_admin call.user false
  elim (org_scope call.accounts call.user) [
    | none ↦ err other
    | some scope ↦ ok (select (λ (u : User). contains u.org_id scope) call.accounts.users)
  ]

unfoldable pub organizations : Call → Result (List OrganizationUnit)
unfolding require_admin org_scope
organizations call = do
  require_admin call.user false
  elim (org_scope call.accounts call.user) [
    | none ↦ err other
    | some scope ↦
        ok (select (λ (o : OrganizationUnit). contains o.id scope) call.accounts.organizations)
  ]
