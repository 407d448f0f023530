-- ===== src/Api/Membership.antt =====
-- The members of projects as an abstract set, which forgets the order of the rows and their roles.
use capstone_nps.Base.{
  ℕ, some, Bool, ◌||◌, ◌&&◌, List, ◌==◌, not, any, nat_eq, ◌++◌, ◌≡◌, arith, ◌∷◌, true, [], fun_ext,
  Bool-cases, nat_beq_iff, inl, ◌⊎◌, inr, Option-cases, ap, sym, ◌∙◌, subst, refl, false,
}
use capstone_nps.Auth.Accounts.{Accounts, ProjectMember, find_user, Project, User}
use capstone_nps.Routes.{Call}
use capstone_nps.Models.{Db}
use capstone_nps.Base.Rows.{first, first_selected, remove_first}
use capstone_nps.Api.Owners.{created, Change, updated, joined, removed, changed}
use capstone_nps.Auth.Scope.{is_member, authorize_project}
use capstone_nps.Api.Projects.{add_member, create_project}
use capstone_nps.Contracts.{Role}
use capstone_nps.Base.Errors.{ok, Result-cases}
use capstone_nps.Auth.Scope.Grants.{authorize_project-IsGranted}
use capstone_nps.Api.Effects.{update_project-accounts, remove_member-accounts, change_role-accounts}
use capstone_nps.Api.{ProjectInput, check_template}

abbrev pub MemberSet : Type 0
MemberSet = (project_id user_id : ℕ) → Bool

abbrev pub holds : Accounts → MemberSet
holds accounts = λ p u. any (is_member p u) accounts.members

abbrev pub insert : (project_id user_id : ℕ) → MemberSet → MemberSet
insert i j s = λ p u. s p u || (i == p && j == u)

abbrev pub delete : (project_id user_id : ℕ) → MemberSet → MemberSet
delete i j s = λ p u. s p u && not (i == p && j == u)

-- What each route promises of the set.
abbrev pub promised :
    (call : Call) (db : Db) (accounts' : Accounts)
    → Change call db accounts'
    → MemberSet
    → MemberSet
promised call db accounts' (created project_id input project _ db' h) s =
    insert project_id call.user.id s
promised call db accounts' (updated project_id input project _ db' h) s = s
promised call db accounts' (joined project_id user_id role member _ db' h) s =
    insert project_id user_id s
promised call db accounts' (removed project_id user_id _ db' h) s = delete project_id user_id s
promised call db accounts' (changed user_id role active user _ db' h) s = s

any-append_one :
    (p u : ℕ) (ms : List ProjectMember) (m : ProjectMember)
    → any (is_member p u) (ms ++ m ∷ [])
      ≡ (any (is_member p u) ms || (m.project_id == p && m.user_id == u))
any-append_one p u [] m = ground arith
any-append_one p u (x ∷ ms) m = ground (arith, any-append_one p u ms m)

both : (i j p u : ℕ) → (i == p && j == u) ≡ true → (i ≡ p) × (j ≡ u)
both i j p u h = (ground (arith, nat_beq_iff i p), ground (arith, nat_beq_iff j u))

-- The table has one row at most for a project and a user: its unique constraint.
abbrev pub MembersDiffer : List ProjectMember → Type 0
MembersDiffer [] = Unit
MembersDiffer (m ∷ ms) = (any (is_member m.project_id m.user_id) ms ≡ false) × MembersDiffer ms

any-other_names :
    (i j : ℕ) (m : ProjectMember) (ms : List ProjectMember)
    → is_member i j m ≡ true
    → any (is_member m.project_id m.user_id) ms ≡ false
    → any (is_member i j) ms ≡ false
any-other_names i j m ms h k =
    let a : m.project_id ≡ i = ground (arith, nat_beq_iff m.project_id i) in
    let b : m.user_id ≡ j = ground (arith, nat_beq_iff m.user_id j) in
    subst (λ n. any (is_member i n) ms ≡ false) b
      (subst (λ n. any (is_member n m.user_id) ms ≡ false) a k)

any-deleted :
    (i j p u : ℕ) (ms : List ProjectMember)
    → MembersDiffer ms
    → any (is_member p u) (remove_first (is_member i j) ms)
      ≡ (any (is_member p u) ms && not (i == p && j == u))
any-deleted i j p u [] differ = ground arith
any-deleted i j p u (m ∷ ms) differ = elim (Bool-cases (is_member i j m)) [
  | inl hit ↦
      let gone : any (is_member i j) ms ≡ false = any-other_names i j m ms hit differ.0 in
      rw hit (elim (Bool-cases (i == p && j == u)) [
        | inl same ↦
            let (a, b) = both i j p u same in
            let none_left : any (is_member p u) ms ≡ false =
              subst (λ n. any (is_member p n) ms ≡ false) b
                (subst (λ n. any (is_member n j) ms ≡ false) a gone) in
            ground (arith, none_left, same)
        | inr other ↦ ground (arith, hit, other)
      ])
  | inr miss ↦ ground (arith, miss, any-deleted i j p u ms differ.1)
]

any-first :
    (p u : ℕ) (ms : List ProjectMember) (m : ProjectMember)
    → first (is_member p u) ms ≡ some m
    → any (is_member p u) ms ≡ true
any-first p u [] m h = cc
any-first p u (x ∷ ms) m h = ground (arith, any-first p u ms m)

project_id_of :
    (call : Call) (project_id : ℕ) (project : Project)
    → authorize_project call.accounts call.user project_id [] true ≡ ok project
    → project.id ≡ project_id
project_id_of call project_id project granted = (nat_beq_iff project.id project_id).0 (
    first_selected (λ (p : Project). p.id == project_id) call.accounts.projects project
      (authorize_project-IsGranted call.accounts call.user project_id [] true granted).found)

user_id_of :
    (user_id : ℕ) (accounts : Accounts) (u : User)
    → find_user user_id accounts ≡ some u
    → u.id ≡ user_id
unfolding find_user
user_id_of user_id accounts u h =
    (nat_beq_iff u.id user_id).0 (first_selected (λ (v : User). v.id == user_id) accounts.users u h)

-- The rows that `add_member` leaves.
add_member-rows :
    (call : Call) (project_id user_id : ℕ) (role : Role) (db : Db) {member : ProjectMember}
    {accounts' : Accounts} {db' : Db}
    → add_member call project_id user_id role db ≡ ok (member, accounts', db')
    → ((accounts'.members ≡ call.accounts.members)
        × (any (is_member project_id user_id) call.accounts.members ≡ true))
      ⊎ ((accounts'.members ≡ call.accounts.members ++ member ∷ [])
          × (member.project_id ≡ project_id)
          × (member.user_id ≡ user_id))
unfolding add_member
add_member-rows call project_id user_id role db {member} h =
    elim (Result-cases (authorize_project call.accounts call.user project_id [] true)) [
      | inl (e, refused) ↦ absurd (ground arith)
      | inr (project, granted) ↦ elim (Option-cases (find_user user_id call.accounts)) [
        | inl gone ↦ absurd (ground arith)
        | inr (target, there) ↦
            let own = project_id_of call project_id project granted in
            let known = user_id_of user_id call.accounts target there in
            let made : ProjectMember = record {
              project_id = project.id;
              user_id = target.id;
              role = role;
            } in
            elim (Option-cases (first (is_member project.id target.id) call.accounts.members)) [
              | inl fresh ↦
                  let it : made ≡ member = ground arith in
                  inr (
                    ground arith,
                    ap (λ (m : ProjectMember). m.project_id) (sym it) ∙ own,
                    ap (λ (m : ProjectMember). m.user_id) (sym it) ∙ known,
                  )
              | inr (old, joined_before) ↦ inl (
                ground arith,
                subst (λ n. any (is_member n user_id) call.accounts.members ≡ true) own
                    (subst (λ n. any (is_member project.id n) call.accounts.members ≡ true) known
                      (any-first project.id target.id call.accounts.members old joined_before)),
              )
            ]
      ]
    ]

already_inserted : (i j : ℕ) (s : MemberSet) → s i j ≡ true → s ≡ insert i j s
already_inserted i j s h = fun_ext (λ p. fun_ext (λ u. elim (Bool-cases (i == p && j == u)) [
  | inl same ↦ (let (e, f) = both i j p u same in rw (sym e, sym f, h) refl)
  | inr differ ↦ ground (arith, differ)
]))

create_project-rows :
    (call : Call) (project_id : ℕ) (input : ProjectInput) (db : Db) {project : Project}
    {accounts' : Accounts} {db' : Db}
    → create_project call project_id input db ≡ ok (project, accounts', db')
    → accounts'.members
      ≡ call.accounts.members
        ++ record { project_id = project_id; user_id = call.user.id; role = call.user.role } ∷ []
unfolding create_project
create_project-rows call project_id input db h =
    elim (Result-cases (check_template input.template_id call.user.org_id db)) [
      | inl (e, refused) ↦ absurd (ground arith)
      | inr (_, passed) ↦ ground arith
    ]

holds-append :
    (accounts accounts' : Accounts) (m : ProjectMember)
    → accounts'.members ≡ accounts.members ++ m ∷ []
    → holds accounts' ≡ insert m.project_id m.user_id (holds accounts)
holds-append accounts accounts' m e =
    rw e (fun_ext (λ p. fun_ext (λ u. any-append_one p u accounts.members m)))

-- The routes of projects and users implement the operations of a set of members, whatever the rows look like
-- beyond the table's unique constraint: a granted creation inserts the creator into the new project, a granted addition inserts the user, also where
-- a row was there already; a granted removal deletes exactly that pair, and changes of projects and roles leave
-- the set as it is.
pub holds-promised :
    (call : Call) (db : Db) (accounts' : Accounts)
    → MembersDiffer call.accounts.members
    → (change : Change call db accounts')
    → holds accounts' ≡ promised call db accounts' change (holds call.accounts)
holds-promised call db accounts' differ (created project_id input project _ db' h) =
    holds-append call.accounts accounts' _
      (create_project-rows call project_id input db {project = project} h)
holds-promised call db accounts' differ (updated project_id input project _ db' h) =
    let (_, _, same) = update_project-accounts call project_id input db {project = project} h in
    rw same refl
holds-promised call db accounts' differ (joined project_id user_id role member _ db' h) =
    elim (add_member-rows call project_id user_id role db {member = member} h) [
      | inl (same, has) ↦ rw same (already_inserted project_id user_id (holds call.accounts) has)
      | inr (more, own, known) ↦
          holds-append call.accounts accounts' member more
          ∙ ap (λ n. insert n member.user_id (holds call.accounts)) own
          ∙ ap (λ n. insert project_id n (holds call.accounts)) known
    ]
holds-promised call db accounts' differ (removed project_id user_id _ db' h) =
    let (project, granted, _, _, fewer) = remove_member-accounts call project_id user_id db h in
    rw fewer (
      fun_ext (λ p. fun_ext (λ u. any-deleted project.id user_id p u call.accounts.members differ))
      ∙ ap (λ n. delete n user_id (holds call.accounts))
          (project_id_of call project_id project granted))
holds-promised call db accounts' differ (changed user_id role active user _ db' h) =
    let (_, same) = change_role-accounts call user_id role active db {user = user} h in rw same refl
