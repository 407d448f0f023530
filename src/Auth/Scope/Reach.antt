-- ===== src/Auth/Scope/Reach.antt =====
-- The organizations that `org_scope` gives to an OrgAdmin: all below the own one.

use mathlib.Core.List.{Memᴰ}
use capstone_nps.Auth.Scope.{new_children, grow, is_new_child, org_scope}
use capstone_nps.Base.{
  ℕ, List, contains, ◌∷◌, ◌<◌, ◌++◌, ◌≤◌, ◌≡◌, if◌then◌else◌, true, any, some, length, ◌||◌, suc,
  not, arith, [], nat_eq, ◌&&◌, Bool-cases, refl, inl, inr, List-cases, subst, All, sym, zero, ◌==◌,
  Option-cases, nat_beq_iff,
}
use capstone_nps.Auth.Accounts.{OrganizationUnit, Accounts, User}
use capstone_nps.Base.Membership.{All-mem}
use capstone_nps.Contracts.{org_admin}

-- The organization `k` is `root` or below it.
pub data Below (rows : List OrganizationUnit) (root : ℕ) : ℕ → Type 0 where
  self : Below rows root root
  child :
      (o : OrganizationUnit) (p : ℕ)
      → Memᴰ o rows
      → o.parent_id ≡ some p
      → Below rows root p
      → Below rows root o.id

contains-append :
    (k : ℕ) (xs ys : List ℕ) → contains k (xs ++ ys) ≡ (contains k xs || contains k ys)
contains-append k [] ys = refl
contains-append k (x ∷ xs) ys = ground (arith, contains-append k xs ys)

-- How many organizations are not yet in.
abbrev missing : List ℕ → List OrganizationUnit → ℕ
missing allowed [] = 0
missing allowed (o ∷ rest) =
    let more = missing allowed rest in if contains o.id allowed then more else suc more

missing_le_length : (a : List ℕ) (rows : List OrganizationUnit) → missing a rows ≤ length rows
missing_le_length a [] = omega arith
missing_le_length a (o ∷ rest) = ground (arith, missing_le_length a rest)

module _ (a b : List ℕ) (sub : (k : ℕ) → contains k a ≡ true → contains k b ≡ true) where
  missing_mono : (rows : List OrganizationUnit) → missing b rows ≤ missing a rows
  missing_mono [] = omega arith
  missing_mono (o ∷ rest) = ground (arith, sub o.id, missing_mono rest)

  missing_drops :
      (rows : List OrganizationUnit)
      → any (λ (o : OrganizationUnit). not (contains o.id a) && contains o.id b) rows ≡ true
      → missing b rows < missing a rows
  missing_drops [] h = cc
  missing_drops (o ∷ rest) h = ground (arith, sub o.id, missing_mono rest, missing_drops rest)

new_id :
    (a : List ℕ) (c : ℕ) (cs : List ℕ) (rows : List OrganizationUnit)
    → new_children a rows ≡ c ∷ cs
    → any (λ (o : OrganizationUnit). not (contains o.id a) && contains o.id (a ++ c ∷ cs)) rows
      ≡ true
unfolding new_children
new_id a c cs [] h = cc
new_id a c cs (o ∷ rest) h = elim (Bool-cases (is_new_child a o)) [
  | inl new ↦
      let it : o.id ≡ c = ground arith in ground (arith, contains-append o.id a (c ∷ cs), it)
  | inr old ↦ ground (arith, new_id a c cs rest)
]

-- The loop ends within as many rounds as organizations are missing.
grow_ends :
    (n : ℕ) (rows : List OrganizationUnit) (a : List ℕ)
    → missing a rows < n
    → (r : List ℕ) × (grow n rows a ≡ some r)
unfolding grow
grow_ends zero rows a h = absurd (omega arith)
grow_ends (suc n) rows a h = elim (List-cases (new_children a rows)) [
  | inl e ↦ (a, rw (grow, e))
  | inr (c, cs, e) ↦
      let fewer : missing (a ++ c ∷ cs) rows < missing a rows =
        missing_drops a (a ++ c ∷ cs) (λ k k_in. ground (arith, contains-append k a (c ∷ cs))) rows
          (new_id a c cs rows e) in
      let (r, there) = grow_ends n rows (a ++ c ∷ cs) (omega (arith, fewer, h)) in
      (r, rw (grow, e) there)
]

module _ (rows : List OrganizationUnit) (root : ℕ) where
  children-Below :
      (a : List ℕ) (suffix : List OrganizationUnit) (k : ℕ)
      → All (λ (o : OrganizationUnit). Memᴰ o rows) suffix
      → ((p : ℕ) → contains p a ≡ true → Below rows root p)
      → contains k (new_children a suffix) ≡ true
      → Below rows root k
  unfolding new_children
  children-Below a [] k m known h = cc
  children-Below a (o ∷ rest) k m known h = elim (Bool-cases (is_new_child a o)) [
    | inr old ↦ children-Below a rest k m.1 known (ground arith)
    | inl new ↦ elim (Bool-cases (k == o.id)) [
      | inr differ ↦ children-Below a rest k m.1 known (ground arith)
      | inl same ↦ elim (Option-cases o.parent_id) [
        | inl top ↦ absurd (ground arith)
        | inr (p, above) ↦
            subst (Below rows root) (sym ((nat_beq_iff k o.id).0 same))
              (child o p m.0 above (known p (ground arith)))
      ]
    ]
  ]

  grow-Below :
      (n : ℕ) (a : List ℕ) {r : List ℕ}
      → grow n rows a ≡ some r
      → ((p : ℕ) → contains p a ≡ true → Below rows root p)
      → (k : ℕ) → contains k r ≡ true
      → Below rows root k
  unfolding grow
  grow-Below zero a h known k k_in = cc
  grow-Below (suc n) a {r} h known k k_in = elim (List-cases (new_children a rows)) [
    | inl e ↦
        let it : a ≡ r = ground arith in known k (subst (λ x. contains k x ≡ true) (sym it) k_in)
    | inr (c, cs, e) ↦
        grow-Below n (a ++ c ∷ cs) {r = r} (ground arith)
          (λ p p_in. elim (Bool-cases (contains p a)) [
            | inl old ↦ known p old
            | inr new ↦
                children-Below a rows p (All-mem rows) known
                  (rw e (ground (arith, contains-append p a (c ∷ cs))))
          ])
          k k_in
  ]

  -- The loop stops at a set that holds what it began with and has nothing more to add.
  grow_closed :
      (n : ℕ) (a : List ℕ) {r : List ℕ}
      → grow n rows a ≡ some r
      → (new_children r rows ≡ []) × ((k : ℕ) → contains k a ≡ true → contains k r ≡ true)
  unfolding grow
  grow_closed zero a h = cc
  grow_closed (suc n) a {r} h = elim (List-cases (new_children a rows)) [
    | inl e ↦
        let it : a ≡ r = ground arith in
        (
          subst (λ x. new_children x rows ≡ []) it e,
          λ k k_in. subst (λ x. contains k x ≡ true) it k_in,
        )
    | inr (c, cs, e) ↦
        let (closed, kept) = grow_closed n (a ++ c ∷ cs) {r = r} (ground arith) in
        (closed, λ k k_in. kept k (ground (arith, contains-append k a (c ∷ cs))))
  ]

  head_settled :
      (r : List ℕ) (x : OrganizationUnit) (rest : List OrganizationUnit) (p : ℕ)
      → new_children r (x ∷ rest) ≡ []
      → x.parent_id ≡ some p
      → contains p r ≡ true
      → contains x.id r ≡ true
  unfolding new_children
  head_settled r x rest p e above p_in = ground arith

  nothing_new :
      (r : List ℕ) (suffix : List OrganizationUnit) (o : OrganizationUnit) (p : ℕ)
      → new_children r suffix ≡ []
      → Memᴰ o suffix
      → o.parent_id ≡ some p
      → contains p r ≡ true
      → contains o.id r ≡ true
  unfolding new_children
  nothing_new r [] o p e m above p_in = elim m [ ]
  nothing_new r (x ∷ rest) o p e (Memᴰ.head same) above p_in =
      subst (λ (y : OrganizationUnit). contains y.id r ≡ true) (sym same)
        (head_settled r x rest p e
          (subst (λ (y : OrganizationUnit). y.parent_id ≡ some p) same above) p_in)
  nothing_new r (x ∷ rest) o p e (Memᴰ.tail m) above p_in =
      nothing_new r rest o p (ground arith) m above p_in

  Below-contains :
      (r : List ℕ) (k : ℕ)
      → new_children r rows ≡ []
      → contains root r ≡ true
      → Below rows root k
      → contains k r ≡ true
  Below-contains r k closed start self = start
  Below-contains r k closed start (child o p m above b) =
      nothing_new r rows o p closed m above (Below-contains r p closed start b)

-- For an OrgAdmin the loop of `org_scope` ends, and the scope then holds exactly the own organization and
-- those below it.
pub org_scope_iff :
    (accounts : Accounts) (user : User)
    → user.role ≡ org_admin
    → (scope : List ℕ) × (org_scope accounts user ≡ some scope)
      × ((k : ℕ) → contains k scope ≡ true → Below accounts.organizations user.org_id k)
      × ((k : ℕ) → Below accounts.organizations user.org_id k → contains k scope ≡ true)
unfolding org_scope
org_scope_iff accounts user admin =
    let rows = accounts.organizations in
    let start : List ℕ = user.org_id ∷ [] in
    let (scope, there) =
      grow_ends (suc (length rows)) rows start (omega (arith, missing_le_length start rows)) in
    let (closed, kept) = grow_closed rows user.org_id (suc (length rows)) start {r = scope} there in
    (
      scope,
      rw (org_scope, admin) there,
      grow-Below rows user.org_id (suc (length rows)) start {r = scope} there (λ p p_in.
          let it : p ≡ user.org_id = (nat_beq_iff p user.org_id).0 (ground arith) in
          subst (Below rows user.org_id) (sym it) self),
      λ k b.
          Below-contains rows user.org_id scope k closed
            (kept user.org_id (ground (arith, (nat_beq_iff user.org_id user.org_id).1 refl))) b,
    )
