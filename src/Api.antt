-- ===== src/Api.antt =====
-- apps/api/nps/api.py: sign-in, projects, members and users. The actor and the accounts are those of a
-- `Call`; what a request commits is returned.
pub mod Login
pub mod Projects
pub mod Users
pub mod Effects
pub mod Owners
pub mod Privileges
pub mod Membership
use capstone_nps.Base.{ℕ, none, some, Option}
use capstone_nps.Base.Errors.{◌>>=◌, ◌>>◌, Result, ok}
use capstone_nps.Auth.Accounts.{Accounts}
use capstone_nps.Base.Words.{Text}
use capstone_nps.Themes.{scoped_template}
use capstone_nps.Models.{Db}

-- The rows of one commit.
abbrev pub Tables : Type 0
Tables = Accounts × Db

pub record ProjectInput : Type 0 where
  pub name : Text
  pub description : Text
  pub security_class : Text
  pub template_id : Option ℕ

-- `if data.template_id: scoped_template(…)`
unfoldable pub check_template : Option ℕ → (org_id : ℕ) → Db → Result (Unit {0})
unfolding scoped_template
check_template none org_id db = ok tt
check_template (some template_id) org_id db = do
  template ← scoped_template db template_id org_id
  ok tt
