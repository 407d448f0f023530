-- ===== src/Plans/Versions.antt =====
-- The version of each slide under `update_plan`, and the history of slides.

use mathlib.Core.List.{Memᴰ}
use capstone_nps.Base.{
  List, ℕ, ◌≡◌, none, some, refl, Bool-cases, ◌≢◌, ◌∷◌, ◌==◌, ◌+◌, Option-cases, inl, arith, ==_iff,
  inr, ap, ◌∙◌, nat_beq_iff, [], nat_eq, true, All, ◌<◌, subst, sym,
}
use capstone_nps.Plans.Edit.{get_slide, next_version, renumbered, unversioned, is_version}
use capstone_nps.Contracts.Equality.{planned_slide_eq}
use capstone_nps.Contracts.{PlannedSlide}
use capstone_nps.Models.{Db}
use capstone_nps.Base.Rows.{first}
use capstone_nps.Plans.History.{IsRecorded, Fits}
use capstone_nps.Base.Membership.{mem-All}

get_slide-Memᴰ :
    (id : ℕ) (slides : List PlannedSlide) (o : PlannedSlide)
    → get_slide id slides ≡ some o
    → Memᴰ o slides × (o.slide_id ≡ id)
unfolding get_slide
get_slide-Memᴰ id [] o h = cc
get_slide-Memᴰ id (d ∷ rest) o h = elim (Option-cases (get_slide id rest)) [
  | inl gone ↦ elim (Bool-cases (d.slide_id == id)) [
    | inl same ↦
        let it : o ≡ d = ground arith in
        (
          Memᴰ.head it,
          ap (λ (x : PlannedSlide). x.slide_id) it ∙ (nat_beq_iff d.slide_id id).0 same,
        )
    | inr differ ↦ absurd (ground arith)
  ]
  | inr (later, there) ↦
      let it : later ≡ o = ground arith in
      let (m, e) = get_slide-Memᴰ id rest o (ground arith) in (Memᴰ.tail m, e)
]

-- An edited slide beside the slide `o` that had its id.
pub data Renumbered (old : List PlannedSlide) (s o : PlannedSlide) : Type 0 where
  kept : renumbered old s ≡ o → Renumbered old s o
  changed :
      unversioned s ≢ unversioned o
      → (renumbered old s).version ≡ o.version + 1
      → Renumbered old s o

-- An edited slide whose id the plan had keeps its version when nothing but the version differs, and is
-- then the old slide; otherwise it gets the next version.
pub renumbered-Renumbered :
    (old : List PlannedSlide) (s o : PlannedSlide)
    → get_slide s.slide_id old ≡ some o
    → Renumbered old s o
unfolding next_version planned_slide_eq
renumbered-Renumbered old s o h = elim (Bool-cases (unversioned s == unversioned o)) [
  | inl same ↦
      let alike : unversioned s ≡ unversioned o = (==_iff (unversioned s) (unversioned o)).0 same in
      let version : next_version old s ≡ o.version = rw (next_version, h, same) in
      kept (rw version (ap (λ (x : PlannedSlide). record x { version = o.version }) alike))
  | inr differ ↦
      changed
        (λ e.
          let alike : (unversioned s == unversioned o) ≡ true =
            (==_iff (unversioned s) (unversioned o)).1 e in
          cc)
        (rw (next_version, h, differ) refl)
]

renumbered_new :
    (old : List PlannedSlide) (s : PlannedSlide)
    → get_slide s.slide_id old ≡ none
    → (renumbered old s).version ≡ 1
unfolding next_version
renumbered_new old s h = rw (next_version, h) refl

-- No row of the slide has a later version.
abbrev pub IsNewest : (plan_id : ℕ) → Db → PlannedSlide → Type 0
IsNewest p db s = (v : ℕ) → s.version < v → first (is_version p s.slide_id v) db.slides ≡ none

-- An edited slide is one that the plan has, or one without any row: no slide comes back that an earlier
-- edit took out.
abbrev pub NoReturn : (plan_id : ℕ) → List PlannedSlide → Db → PlannedSlide → Type 0
NoReturn p old db s =
    get_slide s.slide_id old ≡ none → (v : ℕ) → first (is_version p s.slide_id v) db.slides ≡ none

module _ (p : ℕ) (old : List PlannedSlide) (db : Db) (recorded : All (IsRecorded p db) old)
    (newest : All (IsNewest p db) old) where
  pub renumbered-Fits : (s : PlannedSlide) → NoReturn p old db s → Fits p db (renumbered old s)
  renumbered-Fits s new = elim (Option-cases (get_slide s.slide_id old)) [
    | inl gone ↦ inr (new gone (next_version old s))
    | inr (o, there) ↦
        let (m, same) = get_slide-Memᴰ s.slide_id old o there in
        elim (renumbered-Renumbered old s o there) [
          | kept e ↦
              inl (subst (IsRecorded p db) (sym e) (mem-All (IsRecorded p db) o old recorded m))
          | changed differ next ↦ inr (
              subst (λ k. first (is_version p k (next_version old s)) db.slides ≡ none) same
                (mem-All (IsNewest p db) o old newest m (next_version old s) (omega (arith, next))))
        ]
  ]

  pub renumbered-IsNewest :
      (s : PlannedSlide) → NoReturn p old db s → IsNewest p db (renumbered old s)
  renumbered-IsNewest s new v above = elim (Option-cases (get_slide s.slide_id old)) [
    | inl gone ↦ new gone v
    | inr (o, there) ↦
        let (m, same) = get_slide-Memᴰ s.slide_id old o there in
        elim (renumbered-Renumbered old s o there) [
          | kept e ↦ subst (IsNewest p db) (sym e) (mem-All (IsNewest p db) o old newest m) v above
          | changed differ next ↦
              subst (λ k. first (is_version p k v) db.slides ≡ none) same
                (mem-All (IsNewest p db) o old newest m v (omega (arith, next, above)))
        ]
  ]
