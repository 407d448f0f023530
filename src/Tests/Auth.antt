-- ===== src/Tests/Auth.antt =====
-- Scopes, grants and refresh tokens at concrete inputs.
use mathlib.Core.Option.{none, some}
use capstone_nps.Base.Words.{text}
use capstone_nps.Auth.Sessions.{consume_refresh, consume_refresh_once}
use capstone_nps.Base.{List, [], ◌≡◌, false, ℕ, ◌∷◌, contains, true, refl, nat_eq, none, some}
use capstone_nps.Auth.Scope.{authorize_project, org_scope}
use capstone_nps.Auth.Accounts.{Accounts, Project, User, RefreshSession, find_user}
use capstone_nps.Contracts.{org_admin}
use capstone_nps.Base.Errors.{ok, raise, auth_refresh_invalid}
use capstone_nps.Auth.Scope.Reach.{Below, org_scope_iff}

abbrev pub admin : User
admin = record {
  id = 3;
  username = text "a";
  password_hash = [];
  role = org_admin;
  org_id = 1;
  active = true;
}

abbrev session : RefreshSession
session = record { user_id = 3; token_hash = 99; expires_at = 1000; revoked = false }

abbrev pub project : Project
project = record {
  id = 7;
  org_id = 3;
  owner_id = 8;
  name = text "p";
  description = [];
  security_class = text "synthetic";
  template_id = none;
}

-- Organization 2 is below 1, and 3 below 2.
abbrev pub accounts : Accounts
accounts = record {
  organizations =
      record { id = 3; parent_id = some 2 }
      ∷ record { id = 1; parent_id = none }
      ∷ record { id = 2; parent_id = some 1 }
      ∷ [];
  users = admin ∷ [];
  sessions = session ∷ [];
  projects = project ∷ [];
  members = record { project_id = 7; user_id = 3; role = org_admin } ∷ [];
}

scope_run : org_scope accounts admin ≡ some (1 ∷ 2 ∷ 3 ∷ [])
unfolding org_scope
scope_run = refl

org_scope_iff_example :
    (scope : List ℕ) × (org_scope accounts admin ≡ some scope)
    × ((k : ℕ) → contains k scope ≡ true → Below accounts.organizations 1 k)
    × ((k : ℕ) → Below accounts.organizations 1 k → contains k scope ≡ true)
org_scope_iff_example = org_scope_iff accounts admin refl

granted : authorize_project accounts admin 7 (org_admin ∷ []) true ≡ ok project
unfolding authorize_project
granted = refl

abbrev spent : Accounts
unfolding consume_refresh find_user
spent = (consume_refresh 500 99 accounts).1

consumed : consume_refresh 500 99 accounts ≡ (ok admin, spent)
unfolding consume_refresh find_user
consumed = refl

consume_refresh_once_example :
    consume_refresh 600 99 spent ≡ (raise auth_refresh_invalid 401, spent)
consume_refresh_once_example = consume_refresh_once 500 600 99 accounts consumed
