-- ===== src/Jobs/Leases/Exclusive.antt =====
-- `claim`: a job goes to one worker, and only to one that may run it.
use capstone_nps.Jobs.Leases.{claim_loop, lease, cancel_candidate, is_open}
use capstone_nps.Base.{
  ℕ, List, ◌≡◌, none, ◌==◌, some, ◌∷◌, arith, nat_eq, ◌+◌, [], Bool-cases, false, refl, inl, inr,
  Option-cases, ◌≢◌, true, subst, sym, ◌∙◌,
}
use capstone_nps.Models.{Db, update_job, GenerationJob, keep_job}
use capstone_nps.Base.Rows.{first, update, first_selected}
use capstone_nps.Base.Errors.{ok, Result-cases}
use capstone_nps.Contracts.{cancelled}

abbrev pub NotOpen : ℕ → Db → Type 0
NotOpen id db = first (is_open id) db.jobs ≡ none

update-NotOpen :
    (id worker_id until : ℕ) (js : List GenerationJob)
    → first (is_open id) (update (is_open id) (lease worker_id until) js) ≡ none
unfolding lease
update-NotOpen id worker_id until [] = refl
update-NotOpen id worker_id until (j ∷ js) = ground (arith, update-NotOpen id worker_id until js)

cancel-NotOpen :
    (id k seq : ℕ) (js : List GenerationJob)
    → first (is_open id) js ≡ none
    → first
        (is_open id)
        (update (λ j. j.id == k) (keep_job (λ row. record row { state = cancelled; seq = seq })) js)
      ≡ none
cancel-NotOpen id k seq [] h = refl
cancel-NotOpen id k seq (j ∷ js) h = ground (arith, cancel-NotOpen id k seq js)

abbrev pub withdrawn : (seq : ℕ) → GenerationJob → GenerationJob
withdrawn seq row = record row { state = cancelled; seq = seq }

pub cancel_candidate-eq-ok :
    (j : GenerationJob) (db : Db) {db' : Db}
    → cancel_candidate j db ≡ ok db'
    → db' ≡ update_job j.id (withdrawn (j.seq + 1)) db
unfolding cancel_candidate
cancel_candidate-eq-ok j db h = ground arith

cancel_candidate-NotOpen :
    (id : ℕ) (j : GenerationJob) (db : Db) {db' : Db}
    → NotOpen id db
    → cancel_candidate j db ≡ ok db'
    → NotOpen id db'
unfolding update_job
cancel_candidate-NotOpen id j db h e =
    rw (cancel_candidate-eq-ok j db e) (cancel-NotOpen id j.id (j.seq + 1) db.jobs h)

-- No other session commits while the loop runs.
abbrev pub alone : ℕ → Db → Db
alone id db = db

-- What a successful round of the loop has done with the candidate `j`.
pub data Round (worker_id until : ℕ) (j : GenerationJob) (js : List GenerationJob) (db : Db)
    (a : GenerationJob) (db' : Db) : Type 0 where
  skipped :
      (d : Db)
      → cancel_candidate j db ≡ ok d
      → claim_loop worker_id until alone js d ≡ (ok (some a), db')
      → Round worker_id until j js db a db'
  missed :
      j.cancel_requested ≡ false
      → first (is_open j.id) db.jobs ≡ none
      → claim_loop worker_id until alone js db ≡ (ok (some a), db')
      → Round worker_id until j js db a db'
  took :
      (row : GenerationJob)
      → j.cancel_requested ≡ false
      → first (is_open j.id) db.jobs ≡ some row
      → a ≡ lease worker_id until row
      → db' ≡ record db { jobs = update (is_open j.id) (lease worker_id until) db.jobs }
      → Round worker_id until j js db a db'

module _ (worker_id until : ℕ) where
  pub Round-cases :
      (j : GenerationJob) (js : List GenerationJob) (db : Db) {a : GenerationJob} {db' : Db}
      → claim_loop worker_id until alone (j ∷ js) db ≡ (ok (some a), db')
      → Round worker_id until j js db a db'
  unfolding claim_loop
  Round-cases j js db h = elim (Bool-cases j.cancel_requested) [
    | inl asked ↦ elim (Result-cases (cancel_candidate j db)) [
      | inl (e, bad) ↦ absurd (ground arith)
      | inr (d, done) ↦ skipped d done (ground arith)
    ]
    | inr wanted ↦ elim (Option-cases (first (is_open j.id) db.jobs)) [
      | inl gone ↦ missed wanted gone (ground arith)
      | inr (row, there) ↦ took row wanted there (ground arith) (ground arith)
    ]
  ]

  id-lease :
      (row : GenerationJob) (id : ℕ) → is_open id row ≡ true → (lease worker_id until row).id ≡ id
  unfolding lease
  id-lease row id h = ground arith

  taken_id :
      (j row a : GenerationJob) (db : Db)
      → first (is_open j.id) db.jobs ≡ some row
      → a ≡ lease worker_id until row
      → a.id ≡ j.id
  taken_id j row a db there made =
      rw made (id-lease row j.id (first_selected (is_open j.id) db.jobs row there))

  claim_loop-NotOpen :
      (js : List GenerationJob) (db : Db) {a : GenerationJob} {db' : Db}
      → claim_loop worker_id until alone js db ≡ (ok (some a), db')
      → NotOpen a.id db'
  unfolding claim_loop
  claim_loop-NotOpen [] db h = cc
  claim_loop-NotOpen (j ∷ js) db h = elim (Round-cases j js db h) [
    | skipped d done rest ↦ claim_loop-NotOpen js d rest
    | missed wanted gone rest ↦ claim_loop-NotOpen js db rest
    | took row wanted there made written ↦
        rw (written, taken_id j row _ db there made) (update-NotOpen j.id worker_id until db.jobs)
  ]

  not_claimed :
      (id : ℕ) (js : List GenerationJob) (db : Db) {a : GenerationJob} {db' : Db}
      → NotOpen id db
      → claim_loop worker_id until alone js db ≡ (ok (some a), db')
      → a.id ≢ id
  unfolding claim_loop
  not_claimed id [] db shut h = cc
  not_claimed id (j ∷ js) db shut h = elim (Round-cases j js db h) [
    | skipped d done rest ↦ not_claimed id js d (cancel_candidate-NotOpen id j db shut done) rest
    | missed wanted gone rest ↦ not_claimed id js db shut rest
    | took row wanted there made written ↦ λ same.
        let gone : first (is_open j.id) db.jobs ≡ none =
          subst (λ n. NotOpen n db) (sym same ∙ taken_id j row _ db there made) shut in
        cc
  ]

-- Once a worker's loop has taken a job, no loop that starts from the tables as they then are takes the
-- same one, whatever list of candidates it goes through, also one selected before; in both loops no other
-- session commits in between.
pub claim_loop_exclusive :
    (worker until : ℕ) (js : List GenerationJob) (worker' until' : ℕ) (ks : List GenerationJob)
    (db : Db) {a b : GenerationJob} {db' db'' : Db}
    → claim_loop worker until alone js db ≡ (ok (some a), db')
    → claim_loop worker' until' alone ks db' ≡ (ok (some b), db'')
    → b.id ≢ a.id
claim_loop_exclusive worker until js worker' until' ks db {db' = db'} h k =
    not_claimed worker' until' _ ks db' (claim_loop-NotOpen worker until js db h) k
