-- ===== src/Api/Privileges.antt =====
-- What `change_role` may grant and take.
use mathlib.Core.Option
use capstone_nps.Base.{
  ℕ, some, Bool, List, ◌≡◌, ◌==◌, true, Option-cases, inl, ◌≢◌, contains, if◌then◌else◌, arith, inr,
  ◌∷◌, nat_eq, false, [], nat_beq_iff, Bool-cases, refl, subst, ◌∙◌, sym,
}
use capstone_nps.Auth.Accounts.{find_user, Accounts, User}
use capstone_nps.Api.Users.{change_role, write_role}
use capstone_nps.Contracts.{Role}
use capstone_nps.Routes.{Call}
use capstone_nps.Auth.Scope.{require_admin, is_admin, org_scope, is_system}
use capstone_nps.Models.{Db}
use capstone_nps.Base.Rows.{first, update, first_selected}
use capstone_nps.Base.Errors.{ok}

-- The rows of a granted change, and why it was granted.
pub record IsRoleChange (call : Call) (user_id : ℕ) (role : Role) (active : Bool)
    (accounts' : Accounts) : Type 0 where
  pub target : User
  pub found : find_user user_id call.accounts ≡ some target
  pub admin : is_admin call.user.role ≡ true
  pub in_scope :
      (scope : List ℕ) × (org_scope call.accounts call.user ≡ some scope)
      × (contains target.org_id scope ≡ true)
  pub system :
      is_system call.user.role ≡ false → (is_system role ≡ false) × (is_system target.role ≡ false)
  pub written :
      accounts'.users
      ≡ update (λ (u : User). u.id == target.id) (write_role role active) call.accounts.users

change_role-IsRoleChange :
    (call : Call) (user_id : ℕ) (role : Role) (active : Bool) (db : Db) {user : User}
    {accounts' : Accounts} {db' : Db}
    → change_role call user_id role active db ≡ ok (user, accounts', db')
    → IsRoleChange call user_id role active accounts'
unfolding change_role require_admin
change_role-IsRoleChange call user_id role active db h =
    elim (Option-cases (find_user user_id call.accounts)) [
      | inl gone ↦ absurd (ground arith)
      | inr (target, there) ↦ elim (Option-cases (org_scope call.accounts call.user)) [
        | inl endless ↦ absurd (ground arith)
        | inr (scope, scoped_at) ↦ record {
          target = target;
          found = there;
          admin = ground arith;
          in_scope = (scope, scoped_at, ground arith);
          system = λ plain. ground arith;
          written = ground arith;
        }
      ]
    ]

-- A user as read after the change.
find_user-written :
    (k id : ℕ) (role : Role) (active : Bool) (users : List User)
    → first
        (λ (u : User). u.id == k)
        (update (λ (u : User). u.id == id) (write_role role active) users)
      ≡ (if k == id
          then Option.map (write_role role active) (first (λ (u : User). u.id == k) users)
          else first (λ (u : User). u.id == k) users)
find_user-written k id role active [] = ground arith
find_user-written k id role active (u ∷ users) =
    ground (arith, find_user-written k id role active users)

find_user-id :
    (user_id : ℕ) (accounts : Accounts) (target : User)
    → find_user user_id accounts ≡ some target
    → target.id ≡ user_id
unfolding find_user
find_user-id user_id accounts target found =
    (nat_beq_iff target.id user_id).0
      (first_selected (λ (v : User). v.id == user_id) accounts.users target found)

-- Two reads that give users of one id give one user.
same_user :
    (k user_id : ℕ) (accounts : Accounts) (u target : User)
    → find_user user_id accounts ≡ some target
    → find_user k accounts ≡ some u
    → k ≡ target.id
    → target ≡ u
unfolding find_user
same_user k user_id accounts u target found there same =
    let own =
      (nat_beq_iff target.id user_id).0
        (first_selected (λ (v : User). v.id == user_id) accounts.users target found) in
    let read : find_user user_id accounts ≡ some u =
      subst (λ n. find_user n accounts ≡ some u) (same ∙ own) there in
    cc

find_user-change :
    (k id : ℕ) (role : Role) (active : Bool) (accounts accounts' : Accounts) (u : User)
    → accounts'.users ≡ update (λ (v : User). v.id == id) (write_role role active) accounts.users
    → find_user k accounts ≡ some u
    → find_user k accounts' ≡ some (if k == id then write_role role active u else u)
unfolding find_user
find_user-change k id role active accounts accounts' u written there =
    rw (written, find_user-written k id role active accounts.users, there)
      (elim (Bool-cases (k == id)) [ inl same ↦ rw same refl | inr differ ↦ rw differ refl ])

-- Roles grow no wider than the one who grants them: a granted change of a role was asked for by an
-- administrator, for a user of an organization in the administrator's scope; that user has the new role and
-- activity and nothing else new, and every other user is left as it was; and unless the administrator is a
-- SystemAdmin, every user is a SystemAdmin afterwards exactly if it was one before.
pub change_role-contained :
    (call : Call) (user_id : ℕ) (role : Role) (active : Bool) (db : Db) {user : User}
    {accounts' : Accounts} {db' : Db} (k : ℕ) (u : User)
    → change_role call user_id role active db ≡ ok (user, accounts', db')
    → find_user k call.accounts ≡ some u
    → (is_admin call.user.role ≡ true)
      × (u' : User) × (find_user k accounts' ≡ some u')
      × (k ≢ user_id → u' ≡ u)
      × (k ≡ user_id → u' ≡ record u { role = role; active = active })
      × (k ≡ user_id
          → (scope : List ℕ) × (org_scope call.accounts call.user ≡ some scope)
            × (contains u.org_id scope ≡ true))
      × (is_system call.user.role ≡ false → is_system u'.role ≡ is_system u.role)
change_role-contained call user_id role active db {user} {accounts'} k u h there =
    let it = change_role-IsRoleChange call user_id role active db {user = user} h in
    let target_id = find_user-id user_id call.accounts it.target it.found in
    (
      it.admin,
      (if k == it.target.id then write_role role active u else u),
      find_user-change k it.target.id role active call.accounts accounts' u it.written there,
      (λ another. elim (Bool-cases (k == it.target.id)) [
        | inl same ↦ absurd (another ((nat_beq_iff k it.target.id).0 same ∙ target_id))
        | inr differ ↦ rw differ refl
      ]),
      (λ named. rw ((nat_beq_iff k it.target.id).1 (named ∙ sym target_id)) refl),
      (λ named.
          let (scope, at, inside) = it.in_scope in
          (
            scope,
            at,
            subst (λ (v : User). contains v.org_id scope ≡ true)
                (same_user k user_id call.accounts u it.target it.found there
                  (named ∙ sym target_id))
                inside,
          )),
      (λ plain. elim (Bool-cases (k == it.target.id)) [
        | inl same ↦
            let (new, old) = it.system plain in
            let was : is_system u.role ≡ false =
              subst (λ (v : User). is_system v.role ≡ false)
                (same_user k user_id call.accounts u it.target it.found there
                  ((nat_beq_iff k it.target.id).0 same))
                old in
            rw same (new ∙ sym was)
        | inr differ ↦ rw differ refl
      ]),
    )
