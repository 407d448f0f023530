-- ===== src/Jobs/Leases/Recovery.antt =====
-- `recover_expired`: after it no job is running under a lease that has run out.
use capstone_nps.Jobs.Leases.{expire, expire_all, recover_expired, is_expired}
use capstone_nps.Models.{JobStep, GenerationJob, Db, update_job, update_step, find_step, keep_job}
use capstone_nps.Base.{
  ℕ, List, some, ◌≡◌, All, false, none, ◌∷◌, ◌+◌, ◌⊎◌, [], Option-cases, ◌==◌, inl, any, true,
  arith, nat_eq, inr, subst, Bool-cases, sym,
}
use capstone_nps.Contracts.{failed}
use capstone_nps.Base.Errors.{worker_lost, ok, >>=-eq-ok}
use capstone_nps.Base.Rows.{update, select, select_hit, select_miss}
use capstone_nps.Base.Membership.{All-weaken}

abbrev pub lost : (seq : ℕ) → GenerationJob → GenerationJob
lost seq row = record row {
  error_code = some worker_lost;
  state = failed;
  seq = seq;
  worker_id = none;
  lease_until = none;
}

abbrev lost_step : JobStep → JobStep
lost_step s = record s { state = failed; error_code = some worker_lost }

-- What one round has found and written.
pub record IsExpiry (j : GenerationJob) (db db' : Db) : Type 0 where
  pub has_row : (row : JobStep) × (find_step j.id j.step db ≡ some row)
  pub written : db' ≡ update_step j.id j.step lost_step (update_job j.id (lost (j.seq + 1)) db)

pub expire-eq-ok :
    (j : GenerationJob) (db : Db) {db' : Db} → expire j db ≡ ok db' → IsExpiry j db db'
unfolding expire
expire-eq-ok j db h = elim (Option-cases (find_step j.id j.step db)) [
  | inl gone ↦ absurd (ground arith)
  | inr (row, there) ↦ record { has_row = (row, there); written = ground arith }
]

module _ (now : ℕ) where
  -- A row is not expired, or one of the rounds to come is for its id.
  abbrev Covered : List GenerationJob → GenerationJob → Type 0
  Covered js row = (is_expired now row ≡ false) ⊎ (any (λ j. j.id == row.id) js ≡ true)

  abbrev Covers : List GenerationJob → Db → Type 0
  Covers js db = All (Covered js) db.jobs

  Covered-lost :
      (j : GenerationJob) (js rows : List GenerationJob)
      → All (Covered (j ∷ js)) rows
      → All (Covered js) (update (λ r. r.id == j.id) (keep_job (lost (j.seq + 1))) rows)
  unfolding is_expired
  Covered-lost j js [] h = tt
  Covered-lost j js (r ∷ rows) h = (ground arith, Covered-lost j js rows h.1)

  expire-Covers :
      (j : GenerationJob) (js : List GenerationJob) (db : Db) {db' : Db}
      → Covers (j ∷ js) db
      → expire j db ≡ ok db'
      → Covers js db'
  unfolding update_job update_step
  expire-Covers j js db h e = rw (expire-eq-ok j db e).written (Covered-lost j js db.jobs h)

  expire_all-Covers :
      (js : List GenerationJob) (db : Db) {db' : Db}
      → Covers js db
      → expire_all js db ≡ ok db'
      → Covers [] db'
  unfolding expire_all
  expire_all-Covers [] db {db'} h e = let same : db ≡ db' = cc in subst (Covers []) same h
  expire_all-Covers (j ∷ js) db h e =
      let (d, one, rest) = >>=-eq-ok (expire j db) (expire_all js) e in
      expire_all-Covers js d (expire-Covers j js db h one) rest

  Covered-cons :
      (j : GenerationJob) (js : List GenerationJob) (row : GenerationJob)
      → Covered js row
      → Covered (j ∷ js) row
  Covered-cons j js row h = ground arith

  Covers-select : (rows : List GenerationJob) → All (Covered (select (is_expired now) rows)) rows
  Covers-select [] = tt
  Covers-select (r ∷ rows) = elim (Bool-cases (is_expired now r)) [
    | inl hit ↦
        subst (λ js. All (Covered js) (r ∷ rows)) (sym (select_hit (is_expired now) r rows hit))
          (
            inr (ground arith),
            All-weaken _ _ (Covered-cons r (select (is_expired now) rows)) rows
                (Covers-select rows),
          )
    | inr live ↦
        subst (λ js. All (Covered js) (r ∷ rows)) (sym (select_miss (is_expired now) r rows live))
          (inl live, Covers-select rows)
  ]

  -- When the round of `recover_expired` succeeds, no job is left running under a lease that ended before
  -- `now`.
  pub recover_expired-none_left :
      (db : Db) {db' : Db}
      → recover_expired now db ≡ ok db'
      → All (λ j. is_expired now j ≡ false) db'.jobs
  unfolding recover_expired
  recover_expired-none_left db {db'} h =
      All-weaken _ _ (λ j c. not_covered j c) db'.jobs
        (expire_all-Covers (select (is_expired now) db.jobs) db (Covers-select db.jobs) h)
    where
      not_covered : (j : GenerationJob) → Covered [] j → is_expired now j ≡ false
      not_covered j c = ground arith
