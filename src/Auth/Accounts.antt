-- ===== src/Auth/Accounts.antt =====
-- The tables of models.py that auth.py reads.
use capstone_nps.Base.{List, ℕ, Option, Bool, ◌==◌, nat_eq}
use capstone_nps.Base.Words.{Text}
use capstone_nps.Base.Rows.{first}
use capstone_nps.Contracts.{Role}

-- The texts "system" and "anonymous" where the id of a row may stand; no row has this id.
abbrev pub system_id : ℕ
system_id = 0

-- `code` and `name` are only shown.
pub record OrganizationUnit : Type 0 where
  pub id : ℕ
  pub parent_id : Option ℕ

pub record User : Type 0 where
  pub id : ℕ
  pub username : Text
  pub password_hash : Text
  pub role : Role
  pub org_id : ℕ
  pub active : Bool

pub record RefreshSession : Type 0 where
  pub user_id : ℕ
  pub token_hash : ℕ
  pub expires_at : ℕ
  pub revoked : Bool

pub record Project : Type 0 where
  pub id : ℕ
  pub org_id : ℕ
  pub owner_id : ℕ
  pub name : Text
  pub description : Text
  pub security_class : Text
  pub template_id : Option ℕ

pub record ProjectMember : Type 0 where
  pub project_id : ℕ
  pub user_id : ℕ
  pub role : Role

pub record Accounts : Type 0 where
  pub organizations : List OrganizationUnit
  pub users : List User
  pub sessions : List RefreshSession
  pub projects : List Project
  pub members : List ProjectMember

-- `db.get(User, id)`
unfoldable pub find_user : ℕ → Accounts → Option User
find_user id accounts = first (λ u. u.id == id) accounts.users
