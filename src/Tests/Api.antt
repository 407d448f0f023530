-- ===== src/Tests/Api.antt =====
-- Projects, members and roles at concrete inputs.
use capstone_nps.Contracts.{Role}
use capstone_nps.Base.{
  none, some, ℕ, Option, true, ◌≡◌, ◌∷◌, List, refl, ◌≢◌, [], contains, false, nat_eq,
}
use capstone_nps.Auth.Accounts.{find_user, User, Accounts}
use capstone_nps.Api.Users.{change_role}
use capstone_nps.Api.Owners.{OwnersAreMembers, Change-OwnersAreMembers, removed}
use capstone_nps.Auth.Scope.{is_admin, org_scope, is_system}
use capstone_nps.Models.{Db, Template}
use capstone_nps.Api.Projects.{remove_member}
use capstone_nps.Routes.{Call}
use capstone_nps.Base.Words.{text, Text}
use capstone_nps.Tests.Samples.{from_ok, config, empty_db, digest_of, no_theme}
use capstone_nps.Tests.Auth.{admin, accounts}
use capstone_nps.Base.Errors.{ok, raise, project_owner_required, auth_forbidden}
use capstone_nps.Api.Privileges.{change_role-contained}
use capstone_nps.Base.{◌≢◌}
use capstone_nps.Api.Membership.{holds, delete, holds-promised, MembersDiffer}

-- The owner of project 7 is the user 8, who is a member; the administrator is one too.
abbrev owned : Accounts
owned = record accounts {
  users = record admin { id = 8; role = Role.user; org_id = 3 } ∷ accounts.users;
  members = record { project_id = 7; user_id = 8; role = Role.user } ∷ accounts.members;
}

abbrev pub call : Call
call = record {
  config = config;
  sha256 = digest_of;
  accounts = owned;
  user = admin;
  new_id = 50;
  new_key = text "v";
  now = 60;
  others = [];
}

abbrev left_over : Accounts × Db
left_over = from_ok (owned, empty_db) (remove_member call 7 3 empty_db)

left_over_lem : remove_member call 7 3 empty_db ≡ ok left_over
unfolding remove_member
left_over_lem = refl

owner_refused : remove_member call 7 8 empty_db ≡ raise project_owner_required 409
unfolding remove_member
owner_refused = refl

Change-OwnersAreMembers_example : OwnersAreMembers left_over.0
Change-OwnersAreMembers_example =
    Change-OwnersAreMembers call empty_db left_over.0 (tt, tt) (refl, tt)
      (removed 7 3 left_over.0 left_over.1 left_over_lem)

owned_differ : MembersDiffer owned.members
owned_differ = (refl, (refl, tt))

-- The removed pair, and no other, is gone from the set.
holds-promised_example : holds left_over.0 ≡ delete 7 3 (holds owned)
holds-promised_example =
    holds-promised call empty_db left_over.0 owned_differ
      (removed 7 3 left_over.0 left_over.1 left_over_lem)

abbrev promoted : User × Accounts × Db
promoted = from_ok (admin, owned, empty_db) (change_role call 8 Role.reviewer true empty_db)

promoted_lem : change_role call 8 Role.reviewer true empty_db ≡ ok promoted
unfolding change_role
promoted_lem = refl

escalation : change_role call 8 Role.system_admin true empty_db ≡ raise auth_forbidden 403
unfolding change_role
escalation = refl

abbrev member : User
member = record admin { id = 8; role = Role.user; org_id = 3 }

member_found : find_user 8 owned ≡ some member
unfolding find_user
member_found = refl

change_role-contained_example :
    (is_admin admin.role ≡ true)
    × (u' : User) × (find_user 8 promoted.1 ≡ some u')
    × (◌≢◌ {A = ℕ} 8 8 → u' ≡ member)
    × (◌≡◌ {A = ℕ} 8 8 → u' ≡ record member { role = Role.reviewer; active = true })
    × (◌≡◌ {A = ℕ} 8 8
        → (scope : List ℕ) × (org_scope owned admin ≡ some scope) × (contains 3 scope ≡ true))
    × (is_system admin.role ≡ false → is_system u'.role ≡ is_system member.role)
change_role-contained_example =
    change_role-contained call 8 Role.reviewer true empty_db 8 member promoted_lem member_found

-- Themes.
abbrev theme : (id : ℕ) → Option ℕ → List Text → Template
theme id org_id tags = record {
  id = id;
  created_at = id;
  org_id = org_id;
  name = text "t";
  version = text "2.0";
  config = record no_theme { tags = tags };
  storage_key = none;
  official_flag = false;
}

-- Of three themes the first belongs to another organization, and the second fits the title.
abbrev theme_db : Db
theme_db = record empty_db {
  templates =
      theme 1 (some 9) (text "p" ∷ []) ∷ theme 2 none (text "p" ∷ []) ∷ theme 3 (some 3) [] ∷ [];
}
