-- ===== src/Api/Owners.antt =====
-- The owner of a project stays among its members, whatever the routes of projects do.
use capstone_nps.Base.{
  ℕ, List, All, ◌≡◌, ◌++◌, any, Bool, ◌≢◌, ◌∷◌, true, [], ◌||◌, arith, refl, inl, inr, nat_eq, some,
  ◌==◌, nat_beq_iff, Bool-cases, ◌∙◌, sym, subst,
}
use capstone_nps.Base.Errors.{ok}
use capstone_nps.Api.Projects.{
  create_project, update_project, add_member, remove_member, write_project,
}
use capstone_nps.Auth.Accounts.{Accounts, Project, ProjectMember, User}
use capstone_nps.Routes.{Call}
use capstone_nps.Models.{Db}
use capstone_nps.Api.{ProjectInput}
use capstone_nps.Auth.Scope.{is_member}
use capstone_nps.Contracts.{Role}
use capstone_nps.Base.Rows.{update, first, first_selected, remove_first}
use capstone_nps.Api.Users.{change_role}
use capstone_nps.Base.Membership.{All-weaken, All-append}
use capstone_nps.Auth.Scope.Grants.{authorize_project-IsGranted}
use capstone_nps.Api.Effects.{
  create_project-accounts, update_project-accounts, add_member-accounts, remove_member-accounts,
  change_role-accounts,
}

-- The owner of every project is one of its members.
abbrev pub HasOwner : List ProjectMember → Project → Type 0
HasOwner members p = any (is_member p.id p.owner_id) members ≡ true

abbrev pub OwnersAreMembers : Accounts → Type 0
OwnersAreMembers accounts = All (HasOwner accounts.members) accounts.projects

-- What a route of projects leaves of the accounts.
pub data Change (call : Call) (db : Db) : Accounts → Type 0 where
  created :
      (project_id : ℕ) (input : ProjectInput) (project : Project) (accounts' : Accounts) (db' : Db)
      → create_project call project_id input db ≡ ok (project, accounts', db')
      → Change call db accounts'
  updated :
      (project_id : ℕ) (input : ProjectInput) (project : Project) (accounts' : Accounts) (db' : Db)
      → update_project call project_id input db ≡ ok (project, accounts', db')
      → Change call db accounts'
  joined :
      (project_id user_id : ℕ) (role : Role) (member : ProjectMember) (accounts' : Accounts)
      (db' : Db)
      → add_member call project_id user_id role db ≡ ok (member, accounts', db')
      → Change call db accounts'
  removed :
      (project_id user_id : ℕ) (accounts' : Accounts) (db' : Db)
      → remove_member call project_id user_id db ≡ ok (accounts', db')
      → Change call db accounts'
  changed :
      (user_id : ℕ) (role : Role) (active : Bool) (user : User) (accounts' : Accounts) (db' : Db)
      → change_role call user_id role active db ≡ ok (user, accounts', db')
      → Change call db accounts'

any-append :
    (p : ProjectMember → Bool) (ms : List ProjectMember) (m : ProjectMember)
    → any p (ms ++ m ∷ []) ≡ (any p ms || p m)
any-append p [] m = ground arith
any-append p (x ∷ ms) m = ground (arith, any-append p ms m)

HasOwner-append :
    (ms : List ProjectMember) (m : ProjectMember) (p : Project)
    → HasOwner ms p
    → HasOwner (ms ++ m ∷ []) p
HasOwner-append ms m p h = rw (any-append (is_member p.id p.owner_id) ms m, h) refl

-- The owner is not the one whose row is removed.
any-remove_other :
    (project_id user_id : ℕ) (p : Project) (ms : List ProjectMember)
    → (p.id ≡ project_id → p.owner_id ≢ user_id)
    → any (is_member p.id p.owner_id) ms ≡ true
    → any (is_member p.id p.owner_id) (remove_first (is_member project_id user_id) ms) ≡ true
any-remove_other project_id user_id p [] other h = h
any-remove_other project_id user_id p (m ∷ ms) other h =
    ground (arith, any-remove_other project_id user_id p ms other)

-- No two projects share an id: the primary key.
abbrev pub IdsDiffer : List Project → Type 0
IdsDiffer [] = Unit
IdsDiffer (p ∷ ps) = All (λ (q : Project). q.id ≢ p.id) ps × IdsDiffer ps

only_one :
    (id : ℕ) (ps : List Project) (project : Project)
    → IdsDiffer ps
    → first (λ (p : Project). p.id == id) ps ≡ some project
    → All (λ (p : Project). p.id ≡ id → p ≡ project) ps
only_one id [] project u h = tt
only_one id (p ∷ ps) project u h = elim (Bool-cases (p.id == id)) [
  | inl hit ↦ (
    (λ e. ground arith),
    All-weaken (λ (q : Project). q.id ≢ p.id) (λ (q : Project). q.id ≡ id → q ≡ project)
        (λ q differ e. absurd (differ (e ∙ sym ((nat_beq_iff p.id id).0 hit)))) ps u.0,
  )
  | inr miss ↦ (
    (λ e. absurd (ground (arith, nat_beq_iff p.id id))),
    only_one id ps project u.1 (ground arith),
  )
]

All-both :
    (P Q : Project → Type 0) (ps : List Project) → All P ps → All Q ps → All (λ p. P p × Q p) ps
All-both P Q [] h k = tt
All-both P Q (p ∷ ps) h k = ((h.0, k.0), All-both P Q ps h.1 k.1)

All-update :
    (P : Project → Type 0) (id : ℕ) (input : ProjectInput) (ps : List Project)
    → ((p : Project) → P p → P (write_project input p))
    → All P ps
    → All P (update (λ (p : Project). p.id == id) (write_project input) ps)
All-update P id input [] keep h = tt
All-update P id input (p ∷ ps) keep h = elim (Bool-cases (p.id == id)) [
  | inl hit ↦ rw hit (keep p h.0, All-update P id input ps keep h.1)
  | inr miss ↦ rw miss (h.0, All-update P id input ps keep h.1)
]

-- Creating and changing projects, adding and removing members and changing roles all keep the owner of every
-- project among its members, as long as no two projects share an id.
pub Change-OwnersAreMembers :
    (call : Call) (db : Db) (accounts' : Accounts)
    → IdsDiffer call.accounts.projects
    → OwnersAreMembers call.accounts
    → Change call db accounts'
    → OwnersAreMembers accounts'
Change-OwnersAreMembers call db accounts' u owners (created project_id input project _ db' h) =
    let (m, more_projects, more_members, own) =
      create_project-accounts call project_id input db {project = project} h in
    rw (more_projects, more_members)
      (All-append (HasOwner (call.accounts.members ++ m ∷ [])) call.accounts.projects (project ∷ [])
        (All-weaken (HasOwner call.accounts.members) (HasOwner (call.accounts.members ++ m ∷ []))
          (λ p. HasOwner-append call.accounts.members m p) call.accounts.projects owners)
        (
          any-append (is_member project.id project.owner_id) call.accounts.members m
              ∙ ground (arith, own),
          tt,
        ))
Change-OwnersAreMembers call db accounts' u owners (updated project_id input project _ db' h) =
    let (id, written, same_members) =
      update_project-accounts call project_id input db {project = project} h in
    rw (written, same_members)
      (All-update (HasOwner call.accounts.members) id input call.accounts.projects (λ p has. has)
        owners)
Change-OwnersAreMembers call db accounts' u owners (joined project_id user_id role member _ db' h) =
    let (same_projects, more) =
      add_member-accounts call project_id user_id role db {member = member} h in
    elim more [
      | inl same_members ↦ rw (same_projects, same_members) owners
      | inr more_members ↦
          rw (same_projects, more_members)
            (All-weaken (HasOwner call.accounts.members)
              (HasOwner (call.accounts.members ++ member ∷ []))
              (λ p. HasOwner-append call.accounts.members member p) call.accounts.projects owners)
    ]
Change-OwnersAreMembers call db accounts' u owners (removed project_id user_id _ db' h) =
    let (project, granted, other, same_projects, fewer) =
      remove_member-accounts call project_id user_id db h in
    let found =
      (authorize_project-IsGranted call.accounts call.user project_id [] true granted).found in
    rw (same_projects, fewer)
      (All-weaken _ _
        (λ p (has, same).
          any-remove_other project.id user_id p call.accounts.members
            (λ e.
              subst (λ (q : Project). q.owner_id ≢ user_id)
                (sym (
                  same (
                    e
                    ∙ (nat_beq_iff project.id project_id).0 (
                        first_selected (λ (q : Project). q.id == project_id) call.accounts.projects
                          project found))))
                other)
            has)
        call.accounts.projects
        (All-both (HasOwner call.accounts.members)
          (λ (p : Project). p.id ≡ project_id → p ≡ project) call.accounts.projects owners
          (only_one project_id call.accounts.projects project u found)))
Change-OwnersAreMembers call db accounts' u owners (changed user_id role active user _ db' h) =
    let (same_projects, same_members) =
      change_role-accounts call user_id role active db {user = user} h in
    rw (same_projects, same_members) owners
