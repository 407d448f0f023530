-- ===== src/Jobs/Leases/Expired.antt =====
-- `recover_expired`, job by job: which are failed, and that the others are untouched.
use mathlib.Core.Option
use capstone_nps.Jobs.Leases.Recovery.{lost, expire-eq-ok}
use capstone_nps.Models.{GenerationJob, Db, find_job, keep_job}
use capstone_nps.Base.{
  ℕ, List, Option, ◌∷◌, some, All, ◌==◌, ◌+◌, ◌≡◌, none, ◌≢◌, if◌then◌else◌, [], nat_eq, arith,
  Bool-cases, inl, inr, Bool, subst, false, nat_beq_iff, refl, ◌∙◌, ap,
}
use capstone_nps.Jobs.Leases.{expire_all, expire, is_expired, recover_expired}
use capstone_nps.Base.Rows.{first, select, select_hit, select_miss}
use capstone_nps.Base.Errors.{ok, >>=-eq-ok}
use capstone_nps.Models.Reads.{find_job-update_step, find_job-update_job}
use capstone_nps.Base.Membership.{All-weaken, All-select}

-- The primary key of the table.
abbrev pub IdsUnique : List GenerationJob → Type 0
IdsUnique [] = Unit
IdsUnique (j ∷ js) = (first (λ x. x.id == j.id) js ≡ none) × IdsUnique js

-- The rounds to come are for different jobs, each as it stands in the table.
abbrev Loaded : List GenerationJob → Db → Type 0
Loaded js db = IdsUnique js × All (λ j. find_job j.id db ≡ some j) js

find_job-expire :
    (k : ℕ) (j : GenerationJob) (db : Db) {db' : Db}
    → expire j db ≡ ok db'
    → find_job k db' ≡ (
        if k == j.id
        then Option.map (keep_job (lost (j.seq + 1))) (find_job k db)
        else find_job k db)
find_job-expire k j db e =
    rw ((expire-eq-ok j db e).written, find_job-update_step) (find_job-update_job k j.id _ db)

pub absent_ne :
    (j : GenerationJob) (js : List GenerationJob)
    → first (λ x. x.id == j.id) js ≡ none
    → All (λ x. x.id ≢ j.id) js
absent_ne j [] h = tt
absent_ne j (x ∷ js) h = (ground arith, absent_ne j js (ground arith))

still_loaded :
    (j : GenerationJob) (js : List GenerationJob) (db : Db) {db' : Db}
    → expire j db ≡ ok db'
    → All (λ x. x.id ≢ j.id) js
    → All (λ x. find_job x.id db ≡ some x) js
    → All (λ x. find_job x.id db' ≡ some x) js
still_loaded j [] db e n h = tt
still_loaded j (x ∷ js) db e n h =
    (ground (arith, find_job-expire x.id j db e), still_loaded j js db e n.1 h.1)

-- The row after the rounds.
abbrev after : Option GenerationJob → Option GenerationJob → Option GenerationJob
after none row = row
after (some j) row = some (lost (j.seq + 1) j)

own_row :
    (j : GenerationJob) (js : List GenerationJob) (db d : Db) {found : Option GenerationJob}
    → find_job j.id d ≡ (
        if j.id == j.id
        then Option.map (keep_job (lost (j.seq + 1))) (find_job j.id db)
        else find_job j.id db)
    → found ≡ after (first (λ x. x.id == j.id) js) (find_job j.id d)
    → first (λ x. x.id == j.id) js ≡ none
    → find_job j.id db ≡ some j
    → found ≡ after (first (λ x. x.id == j.id) (j ∷ js)) (find_job j.id db)
own_row j js db d now ih alone there = ground arith

other_row :
    (k : ℕ) (j : GenerationJob) (js : List GenerationJob) (db d : Db) {found : Option GenerationJob}
    → find_job k d ≡ (
        if k == j.id
        then Option.map (keep_job (lost (j.seq + 1))) (find_job k db)
        else find_job k db)
    → found ≡ after (first (λ x. x.id == k) js) (find_job k d)
    → (j.id == k) ≡ false
    → found ≡ after (first (λ x. x.id == k) (j ∷ js)) (find_job k db)
other_row k j js db d now ih differ = ground arith

find_job-expire_all :
    (k : ℕ) (js : List GenerationJob) (db : Db) {db' : Db}
    → Loaded js db
    → expire_all js db ≡ ok db'
    → find_job k db' ≡ after (first (λ j. j.id == k) js) (find_job k db)
unfolding expire_all
find_job-expire_all k [] db {db'} l e = let same : db ≡ db' = cc in rw same
find_job-expire_all k (j ∷ js) db {db'} l e =
    let (d, one, rest) = >>=-eq-ok (expire j db) (expire_all js) e in
    let loaded : Loaded js d = (l.0.1, still_loaded j js db one (absent_ne j js l.0.0) l.1.1) in
    elim (Bool-cases (j.id == k)) [
      | inl same ↦
          subst (λ n. find_job n db' ≡ after (first (λ x. x.id == n) (j ∷ js)) (find_job n db))
            ((nat_beq_iff j.id k).0 same)
            (own_row j js db d (find_job-expire j.id j db one)
              (find_job-expire_all j.id js d loaded rest) l.0.0 l.1.0)
      | inr differ ↦
          other_row k j js db d (find_job-expire k j db one)
            (find_job-expire_all k js d loaded rest) differ
    ]

module _ (p : GenerationJob → Bool) where
  first-select-none :
      (q : GenerationJob → Bool) (js : List GenerationJob)
      → first q js ≡ none
      → first q (select p js) ≡ none
  first-select-none q [] h = refl
  first-select-none q (j ∷ js) h = elim (Bool-cases (p j)) [
    | inl hit ↦ rw (select_hit p j js hit) (ground (arith, first-select-none q js))
    | inr miss ↦ rw (select_miss p j js miss) (first-select-none q js (ground arith))
  ]

  select-IdsUnique : (js : List GenerationJob) → IdsUnique js → IdsUnique (select p js)
  select-IdsUnique [] u = tt
  select-IdsUnique (j ∷ js) u = elim (Bool-cases (p j)) [
    | inl hit ↦
        rw (select_hit p j js hit)
          (first-select-none (λ x. x.id == j.id) js u.0, select-IdsUnique js u.1)
    | inr miss ↦ rw (select_miss p j js miss) (select-IdsUnique js u.1)
  ]

  -- Among the rows that a condition selects, the row of an id is the table's.
  abbrev kept : Option GenerationJob → Option GenerationJob
  kept none = none
  kept (some a) = if p a then some a else none

  first-select :
      (k : ℕ) (js : List GenerationJob)
      → IdsUnique js
      → first (λ x. x.id == k) (select p js) ≡ kept (first (λ x. x.id == k) js)
  first-select k [] u = refl
  first-select k (j ∷ js) u = elim (Bool-cases (p j)) [
    | inl hit ↦ rw hit (ground (arith, first-select k js u.1))
    | inr miss ↦ rw miss (elim (Bool-cases (j.id == k)) [
      | inl same ↦
          let gone : first (λ x. x.id == k) js ≡ none =
            subst (λ n. first (λ x. x.id == n) js ≡ none) ((nat_beq_iff j.id k).0 same) u.0 in
          ground (arith, first-select-none (λ x. x.id == k) js gone)
      | inr differ ↦ ground (arith, first-select k js u.1)
    ])
  ]

abbrev IsFound : List GenerationJob → GenerationJob → Type 0
IsFound js x = first (λ y. y.id == x.id) js ≡ some x

cons-IsFound :
    (j : GenerationJob) (js rows : List GenerationJob)
    → All (λ x. x.id ≢ j.id) rows
    → All (IsFound js) rows
    → All (IsFound (j ∷ js)) rows
cons-IsFound j js [] n h = tt
cons-IsFound j js (x ∷ rows) n h = (ground arith, cons-IsFound j js rows n.1 h.1)

pub all-IsFound : (js : List GenerationJob) → IdsUnique js → All (IsFound js) js
all-IsFound [] u = tt
all-IsFound (j ∷ js) u =
    (ground arith, cons-IsFound j js js (absent_ne j js u.0) (all-IsFound js u.1))

Loaded-of_table :
    (now : ℕ) (db : Db) → IdsUnique db.jobs → Loaded (select (is_expired now) db.jobs) db
unfolding find_job
Loaded-of_table now db u = (
  select-IdsUnique (is_expired now) db.jobs u,
  All-weaken _ _ (λ j h. h.0) (select (is_expired now) db.jobs)
      (All-select (IsFound db.jobs) (is_expired now) db.jobs (all-IsFound db.jobs u)),
)

-- The row of a job after `recover_expired`.
abbrev pub recovered : (now : ℕ) → GenerationJob → GenerationJob
recovered now a = if is_expired now a then lost (a.seq + 1) a else a

after_kept :
    (now : ℕ) (row : Option GenerationJob)
    → after (kept (is_expired now) row) row ≡ Option.map (recovered now) row
after_kept now none = refl
after_kept now (some a) = ground arith

-- Where no two jobs share an id and `recover_expired` succeeds, a job whose lease had run out is FAILED
-- with WORKER_LOST, without worker and lease and with the next event number, and every other job is as it
-- was.
pub find_job-recover_expired :
    (now k : ℕ) (db : Db) {db' : Db}
    → IdsUnique db.jobs
    → recover_expired now db ≡ ok db'
    → find_job k db' ≡ Option.map (recovered now) (find_job k db)
unfolding recover_expired find_job
find_job-recover_expired now k db u e =
    find_job-expire_all k (select (is_expired now) db.jobs) db (Loaded-of_table now db u) e
    ∙ (ap (λ o. after o (find_job k db)) (first-select (is_expired now) k db.jobs u)
        ∙ after_kept now (find_job k db))
