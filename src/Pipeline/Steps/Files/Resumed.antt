-- ===== src/Pipeline/Steps/Files/Resumed.antt =====
-- A PARSE that is run again.
use capstone_nps.Base.{
  ℕ, none, some, ◌≡◌, ◌++◌, ◌∷◌, [], Option-cases, ◌==◌, inl, arith, nat_beq_iff, inr, refl, ◌∙◌,
  nat_eq, true, subst, ◌⊎◌,
}
use capstone_nps.Pipeline.Steps.Files.{parse_step}
use capstone_nps.Models.{ParseResult, Db, GenerationJob, find_version, DocumentVersion}
use capstone_nps.Pipeline.Steps.{Handlers, StepDraw, parse_of, StepOutput, parse_reused, parsed}
use capstone_nps.Base.Errors.{ok, Result-cases}
use capstone_nps.Base.Rows.{first-append_none}
use capstone_nps.Config.{Settings}
use capstone_nps.Auth.Accounts.{Accounts}
use capstone_nps.Base.Words.{text}
use capstone_nps.Routes.Documents.{is_clean}

parse_of-append :
    (version_id : ℕ) (row : ParseResult) (db : Db)
    → parse_of version_id db ≡ none
    → row.document_version_id ≡ version_id
    → parse_of version_id (record db { parses = db.parses ++ row ∷ [] }) ≡ some row
parse_of-append version_id row db h e =
    first-append_none (λ (p : ParseResult). p.document_version_id == version_id) db.parses
      (row ∷ []) h
    ∙ ground (arith, nat_beq_iff row.document_version_id version_id)

-- A version that has its parse result.
parse_reuses :
    (config : Settings) (accounts : Accounts) (h : Handlers) (draw : StepDraw) (job : GenerationJob)
    (db : Db) (version_id : ℕ) (version : DocumentVersion) (p : ParseResult)
    → job.payload.version_id ≡ some version_id
    → find_version version_id db ≡ some version
    → is_clean version.scan_status ≡ true
    → parse_of version.id db ≡ some p
    → parse_step config h draw accounts job db ≡ ok (parse_reused p.id, db)
unfolding parse_step
parse_reuses config accounts h draw job db version_id version p named there clean has = ground arith

find_version-add_parse :
    (id : ℕ) (row : ParseResult) (db : Db)
    → find_version id (record db { parses = db.parses ++ row ∷ [] }) ≡ find_version id db
unfolding find_version
find_version-add_parse id row db = refl

-- Running PARSE again after it has committed, as a retried or a recovered job does, adds nothing: whatever
-- the parser would answer now and whatever ids are drawn, the step returns the id of the version's
-- result that is there, which is the one that the first run has returned.
pub parse_step_again :
    (config : Settings) (accounts : Accounts) (h h' : Handlers) (draw draw' : StepDraw)
    (job : GenerationJob) (db : Db) {out : StepOutput} {db' : Db}
    → parse_step config h draw accounts job db ≡ ok (out, db')
    → (version_id : ℕ) × (version : DocumentVersion) × (p : ParseResult) × (job.payload.version_id
        ≡ some version_id)
      × (find_version version_id db' ≡ some version)
      × (parse_of version.id db' ≡ some p)
      × (parse_step config h' draw' accounts job db' ≡ ok (parse_reused p.id, db'))
      × ((out ≡ parse_reused p.id) ⊎ (out ≡ parsed p.id p.contents.warnings))
unfolding parse_step
parse_step_again config accounts h h' draw draw' job db {out} {db'} done =
    elim (Option-cases job.payload.version_id) [
      | inl without ↦ absurd (ground arith)
      | inr (version_id, named) ↦ elim (Option-cases (find_version version_id db)) [
        | inl gone ↦ absurd (ground arith)
        | inr (version, there) ↦
            let clean : is_clean version.scan_status ≡ true = ground arith in
            elim (Option-cases (parse_of version.id db)) [
              | inr (old, has) ↦
                  let same : db ≡ db' = ground arith in
                  let reused : out ≡ parse_reused old.id = ground arith in
                  (
                    version_id,
                    version,
                    old,
                    named,
                    subst (λ d. find_version version_id d ≡ some version) same there,
                    subst (λ d. parse_of version.id d ≡ some old) same has,
                    subst
                        (λ d.
                          parse_step config h' draw' accounts job d ≡ ok (parse_reused old.id, d))
                        same
                        (parse_reuses config accounts h' draw' job db version_id version old named
                          there clean has),
                    inl reused,
                  )
              | inl fresh ↦
                  elim (Result-cases (h.safe_parse version.storage_key version.extension)) [
                    | inl (e, refused) ↦ absurd (ground arith)
                    | inr (document, made) ↦ elim (Result-cases (h.write_json (text "parsed"))) [
                      | inl (e, refused) ↦ absurd (ground arith)
                      | inr (key, saved) ↦
                          let row : ParseResult = record {
                            id = draw.new_id;
                            document_version_id = version.id;
                            contents = document;
                            storage_key = key;
                          } in
                          let after : Db = record db { parses = db.parses ++ row ∷ [] } in
                          let same : after ≡ db' = ground arith in
                          let told : out ≡ parsed row.id document.warnings = ground arith in
                          let found = find_version-add_parse version_id row db ∙ there in
                          let has = parse_of-append version.id row db fresh refl in
                          (
                            version_id,
                            version,
                            row,
                            named,
                            subst (λ d. find_version version_id d ≡ some version) same found,
                            subst (λ d. parse_of version.id d ≡ some row) same has,
                            subst
                                (λ d.
                                  parse_step config h' draw' accounts job d
                                  ≡ ok (parse_reused row.id, d))
                                same
                                (parse_reuses config accounts h' draw' job after version_id version
                                  row named found clean has),
                            inr told,
                          )
                    ]
                  ]
            ]
      ]
    ]
