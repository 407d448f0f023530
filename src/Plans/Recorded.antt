-- ===== src/Plans/Recorded.antt =====
-- The history of slides over an edit of their plan.

use mathlib.Core.List.{Memᴰ}
use capstone_nps.Base.{
  List, ℕ, contains, length, map, ◌≡◌, false, ◌≤◌, ◌∷◌, [], Bool-cases, All, arith, ◌≢◌, inl, ◌==◌,
  nat_eq, nat_beq_iff, subst, true, sym, inr, refl, ◌∙◌, ◌<◌, ◌⊎◌, ◌&&◌, ap,
}
use capstone_nps.Contracts.{PlannedSlide, SlidePlanContract}
use capstone_nps.Contracts.Validation.{set_of, is_valid}
use capstone_nps.Plans.History.{
  IdsDistinct, IsRecorded, save_rows-absent, Fits, save_rows-IsRecorded,
}
use capstone_nps.Models.{Db, SlidePlan}
use capstone_nps.Plans.Edit.{
  renumbered, save_rows, update_plan, updated_contents, save_slides, is_version,
}
use capstone_nps.Base.Membership.{All-weaken, mem-All, All-mem}
use capstone_nps.Plans.Versions.{IsNewest, NoReturn, renumbered-Fits, renumbered-IsNewest}
use capstone_nps.Base.Errors.{ok}
use capstone_nps.Plans.Approval.{update_plan-IsEdit}
use capstone_nps.Base.Rows.{first}

contains-set_of : (x : ℕ) (xs : List ℕ) → contains x (set_of xs) ≡ contains x xs
contains-set_of x [] = refl
contains-set_of x (y ∷ ys) = elim (Bool-cases (contains y (set_of ys))) [
  | inl there ↦ elim (Bool-cases (x == y)) [
    | inl same ↦
        let it : x ≡ y = (nat_beq_iff x y).0 same in
        ground
          (arith, contains-set_of x ys, subst (λ z. contains z (set_of ys) ≡ true) (sym it) there)
    | inr differ ↦ ground (arith, contains-set_of x ys)
  ]
  | inr new ↦ ground (arith, contains-set_of x ys)
]

length-set_of : (xs : List ℕ) → length (set_of xs) ≤ length xs
length-set_of [] = omega arith
length-set_of (x ∷ xs) = ground (arith, length-set_of xs)

abbrev ids : List PlannedSlide → List ℕ
ids slides = map (λ (s : PlannedSlide). s.slide_id) slides

length-ids : (slides : List PlannedSlide) → length (ids slides) ≡ length slides
length-ids [] = refl
length-ids (s ∷ rest) = omega (arith, length-ids rest)

absent_ids :
    (k : ℕ) (slides : List PlannedSlide)
    → contains k (ids slides) ≡ false
    → All (λ (x : PlannedSlide). x.slide_id ≢ k) slides
absent_ids k [] h = tt
absent_ids k (s ∷ rest) h = (ground arith, absent_ids k rest (ground arith))

-- What `unique_slides` says of the ids.
distinct_of_set :
    (slides : List PlannedSlide) → length (set_of (ids slides)) ≡ length slides → IdsDistinct slides
distinct_of_set [] h = tt
distinct_of_set (s ∷ rest) h =
    let short : length (set_of (ids rest)) ≤ length rest =
      omega (arith, length-set_of (ids rest), length-ids rest) in
    elim (Bool-cases (contains s.slide_id (set_of (ids rest)))) [
      | inl again ↦ absurd (ground arith)
      | inr new ↦ (
        absent_ids s.slide_id rest (sym (contains-set_of s.slide_id (ids rest)) ∙ new),
        distinct_of_set rest (ground arith),
      )
    ]

is_valid-IdsDistinct : (plan : SlidePlanContract) → is_valid plan ≡ true → IdsDistinct plan.slides
unfolding is_valid
is_valid-IdsDistinct plan h =
    distinct_of_set plan.slides
      ((nat_beq_iff (length (set_of (ids plan.slides))) (length plan.slides)).0 (ground arith))

-- Among slides with different ids, one shares its id with itself alone.
alone_in :
    (slides : List PlannedSlide) (s : PlannedSlide)
    → IdsDistinct slides
    → Memᴰ s slides
    → All (λ (x : PlannedSlide). (x.slide_id ≢ s.slide_id) ⊎ (x ≡ s)) slides
alone_in [] s d m = elim m [ ]
alone_in (x ∷ rest) s d (Memᴰ.head e) = (
  inr (sym e),
  All-weaken _ (λ (y : PlannedSlide). (y.slide_id ≢ s.slide_id) ⊎ (y ≡ s))
      (λ y n. inl (λ same. n (same ∙ ap (λ (z : PlannedSlide). z.slide_id) e))) rest d.0,
)
alone_in (x ∷ rest) s d (Memᴰ.tail m) = (
  inl (λ same. mem-All (λ (y : PlannedSlide). y.slide_id ≢ x.slide_id) s rest d.0 m (sym same)),
  alone_in rest s d.1 m,
)

other_version :
    (x s : PlannedSlide) (v : ℕ)
    → s.version < v
    → (x.slide_id ≢ s.slide_id) ⊎ (x ≡ s)
    → (x.slide_id == s.slide_id && x.version == v) ≡ false
other_version x s v above (inl differ) = ground arith
other_version x s v above (inr same) = rw same (ground arith)

save_rows-IsNewest :
    (p : ℕ) (slides : List PlannedSlide) (db : Db) (s : PlannedSlide)
    → IdsDistinct slides
    → Memᴰ s slides
    → IsNewest p db s
    → IsNewest p (save_rows p slides db) s
save_rows-IsNewest p slides db s d m newest v above =
    save_rows-absent p slides db s.slide_id v
      (All-weaken _ _ (λ x. other_version x s v above) slides (alone_in slides s d m))
      (newest v above)

All-renumbered :
    (P : PlannedSlide → Type 0) (Q : PlannedSlide → Type 0) (old edit : List PlannedSlide)
    → ((s : PlannedSlide) → Q s → P (renumbered old s))
    → All Q edit
    → All P (map (renumbered old) edit)
All-renumbered P Q old [] f h = tt
All-renumbered P Q old (s ∷ rest) f h = (f s h.0, All-renumbered P Q old rest f h.1)

-- The history of slides, kept by every granted edit that brings no removed slide back: for each slide of
-- the plan the table holds its present contents at its version, and nothing at a later version.
pub update_plan-history :
    (user : ℕ) (plan : SlidePlan) (edit : SlidePlanContract) (db : Db) {plan' : SlidePlan}
    {db' : Db}
    → All (IsRecorded plan.id db) plan.contents.slides
    → All (IsNewest plan.id db) plan.contents.slides
    → All (NoReturn plan.id plan.contents.slides db) edit.slides
    → update_plan user plan edit db ≡ ok (plan', db')
    → All (IsRecorded plan.id db') plan'.contents.slides
      × All (IsNewest plan.id db') plan'.contents.slides
unfolding save_slides
update_plan-history user plan edit db {plan'} {db'} recorded newest new h =
    let e = update_plan-IsEdit user plan edit db {plan' = plan'} {db' = db'} h in
    let old = plan.contents.slides in
    let slides = map (renumbered old) edit.slides in
    let distinct : IdsDistinct slides =
      is_valid-IdsDistinct (updated_contents plan.contents edit)
        (subst (λ (q : SlidePlan). is_valid q.contents ≡ true) e.result e.valid) in
    let fits =
      All-renumbered (Fits plan.id db) (NoReturn plan.id old db) old edit.slides
        (renumbered-Fits plan.id old db recorded newest) new in
    let latest =
      All-renumbered (IsNewest plan.id db) (NoReturn plan.id old db) old edit.slides
        (renumbered-IsNewest plan.id old db recorded newest) new in
    let saved : db'.slides ≡ (save_rows plan.id slides db).slides =
      e.slides ∙ ap (λ (q : SlidePlan). (save_slides q db).slides) e.result in
    subst
      (λ (q : SlidePlan).
        All (IsRecorded plan.id db') q.contents.slides
        × All (IsNewest plan.id db') q.contents.slides)
      (sym e.result)
      (
        All-weaken (IsRecorded plan.id (save_rows plan.id slides db)) (IsRecorded plan.id db')
            (λ s r. ap (first (is_version plan.id s.slide_id s.version)) saved ∙ r) slides
            (save_rows-IsRecorded plan.id slides db distinct fits),
        All-weaken (λ s. Memᴰ s slides) (IsNewest plan.id db')
            (λ s m v above.
              ap (first (is_version plan.id s.slide_id v)) saved
              ∙ save_rows-IsNewest plan.id slides db s distinct m
                  (mem-All (IsNewest plan.id db) s slides latest m) v above)
            slides (All-mem slides),
      )
