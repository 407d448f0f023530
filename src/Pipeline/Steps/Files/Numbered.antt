-- ===== src/Pipeline/Steps/Files/Numbered.antt =====
-- The numbers of document versions.
use capstone_nps.Base.{
  ℕ, List, ◌∷◌, All, ◌≡◌, ◌≢◌, ◌≤◌, [], ◌++◌, arith, nat_beq_iff, sym, some, ◌+◌, inl, inr,
  Option-cases, refl, ◌∙◌, subst, ◌⊎◌, ap, ◌==◌, nat_eq, ◌<◌, Bool-cases,
}
use capstone_nps.Models.{
  Kind, DocumentVersion, GenerationJob, Db, ScanStatus, find_document, Document,
}
use capstone_nps.Pipeline.Steps.Files.{latest_version, scan_step, add_version, add_template}
use capstone_nps.Base.Membership.{All-append, All-weaken}
use capstone_nps.Config.{Settings}
use capstone_nps.Pipeline.Steps.{Handlers, StepDraw, StepOutput, scanned}
use capstone_nps.Auth.Accounts.{Accounts}
use capstone_nps.Upload.Scan.{ScanReport}
use capstone_nps.Base.Errors.{ok, Result-cases, Result}
use capstone_nps.Base.Rows.{first_selected}

-- No two versions of a document share a number: the table's unique constraint.
abbrev pub VersionsDiffer : List DocumentVersion → Type 0
VersionsDiffer [] = Unit
VersionsDiffer (v ∷ vs) =
    All (λ (w : DocumentVersion). w.document_id ≡ v.document_id → w.version ≢ v.version) vs
    × VersionsDiffer vs

latest_version-bound :
    (document_id : ℕ) (vs : List DocumentVersion)
    → All
        (λ (w : DocumentVersion).
          w.document_id ≡ document_id → w.version ≤ latest_version document_id vs)
        vs
latest_version-bound document_id [] = tt
latest_version-bound document_id (v ∷ vs) = (
  (λ e. ground (arith, nat_beq_iff v.document_id document_id)),
  All-weaken
      (λ (w : DocumentVersion).
        w.document_id ≡ document_id → w.version ≤ latest_version document_id vs)
      (λ (w : DocumentVersion).
        w.document_id ≡ document_id → w.version ≤ latest_version document_id (v ∷ vs))
      (λ w h e. ground (arith, h e)) vs (latest_version-bound document_id vs),
)

latest_version-least :
    (document_id n : ℕ) (vs : List DocumentVersion)
    → All (λ (w : DocumentVersion). w.document_id ≡ document_id → w.version ≤ n) vs
    → latest_version document_id vs ≤ n
latest_version-least document_id n [] h = ground arith
latest_version-least document_id n (v ∷ vs) h =
    let later = latest_version-least document_id n vs h.1 in
    elim (Bool-cases (v.document_id == document_id)) [
      | inr other_document ↦ rw other_document later
      | inl same ↦
          let below = h.0 ((nat_beq_iff v.document_id document_id).0 same) in
          rw same (ground (arith, below, later))
    ]

VersionsDiffer-append :
    (v : DocumentVersion) (vs : List DocumentVersion)
    → VersionsDiffer vs
    → All (λ (w : DocumentVersion). w.document_id ≡ v.document_id → w.version ≢ v.version) vs
    → VersionsDiffer (vs ++ v ∷ [])
VersionsDiffer-append v [] u h = (tt, tt)
VersionsDiffer-append v (w ∷ vs) u h = (
  All-append (λ (x : DocumentVersion). x.document_id ≡ w.document_id → x.version ≢ w.version) vs
      (v ∷ []) u.0 ((λ e same. h.0 (sym e) (sym same)), tt),
  VersionsDiffer-append v vs u.1 h.1,
)

find_document_id :
    (id : ℕ) (db : Db) (doc : Document) → find_document id db ≡ some doc → doc.id ≡ id
unfolding find_document
find_document_id id db doc h =
    (nat_beq_iff doc.id id).0 (first_selected (λ (d : Document). d.id == id) db.documents doc h)

-- The three kinds of scans.
kind_outcome :
    (k : Kind) (x y z r : Result (StepOutput × Db))
    → elim k [ Kind.design_reference ↦ x | Kind.template ↦ y | _ ↦ z ] ≡ r
    → (x ≡ r) ⊎ ((y ≡ r) ⊎ (z ≡ r))
kind_outcome Kind.upload x y z r h = inr (inr h)
kind_outcome Kind.analyze x y z r h = inr (inr h)
kind_outcome Kind.plan x y z r h = inr (inr h)
kind_outcome Kind.ppt x y z r h = inr (inr h)
kind_outcome Kind.image x y z r h = inr (inr h)
kind_outcome Kind.video x y z r h = inr (inr h)
kind_outcome Kind.template x y z r h = inr (inl h)
kind_outcome Kind.design_reference x y z r h = inl h

module _ (config : Settings) (h : Handlers) (draw : StepDraw) (accounts : Accounts)
    (job : GenerationJob) (report : ScanReport) (db : Db) where
  pub versions-add_version :
      {out : StepOutput} {db' : Db}
      → add_version config h draw accounts job report db ≡ ok (out, db')
      → (v : DocumentVersion) × (db'.versions ≡ db.versions ++ v ∷ [])
        × (v.version ≡ latest_version v.document_id db.versions + 1)
        × (job.payload.document_id ≡ some v.document_id)
        × (v.scan_status ≡ ScanStatus.clean)
        × (v.sha256 ≡ report.sha256)
  unfolding add_version
  versions-add_version {out} {db'} done = elim (Option-cases job.payload.document_id) [
    | inl without ↦ absurd (ground arith)
    | inr (document_id, named) ↦ elim (Option-cases (find_document document_id db)) [
      | inl gone ↦ absurd (ground arith)
      | inr (doc, there) ↦ elim (Option-cases job.payload.size) [
        | inl e ↦ absurd (ground arith)
        | inr (size, sized) ↦ elim (Option-cases job.payload.mime) [
          | inl e ↦ absurd (ground arith)
          | inr (mime, typed) ↦ elim (Option-cases job.payload.extension) [
            | inl e ↦ absurd (ground arith)
            | inr (extension, ended) ↦ (
              record {
                id = draw.new_id;
                document_id = doc.id;
                version = latest_version doc.id db.versions + 1;
                sha256 = report.sha256;
                size = size;
                mime = mime;
                extension = extension;
                storage_key = report.storage_key;
                scan_status = ScanStatus.clean;
                scan_mode = report.scan_mode;
              },
              ground arith,
              refl,
              named ∙ ap some (sym (find_document_id document_id db doc there)),
              refl,
              refl,
            )
          ]
        ]
      ]
    ]
  ]

  versions-add_template :
      {out : StepOutput} {db' : Db}
      → add_template config h draw accounts job report db ≡ ok (out, db')
      → db'.versions ≡ db.versions
  unfolding add_template
  versions-add_template {out} {db'} done = ground arith

-- A scan keeps the numbers of versions apart: whatever the job uploads, no two versions of a document share a
-- number afterwards, if they did not before. A granted scan either adds no version, or it adds one version of
-- the document that the job names, with the number after that document's highest: it is above the numbers of
-- all its others, and at most one above anything that bounds these.
pub scan_step-VersionsDiffer :
    (config : Settings) (h : Handlers) (draw : StepDraw) (accounts : Accounts) (job : GenerationJob)
    (db : Db) {out : StepOutput} {db' : Db}
    → VersionsDiffer db.versions
    → scan_step config h draw accounts job db ≡ ok (out, db')
    → VersionsDiffer db'.versions
      × ((db'.versions ≡ db.versions)
          ⊎ ((v : DocumentVersion) × (db'.versions ≡ db.versions ++ v ∷ [])
              × (job.payload.document_id ≡ some v.document_id)
              × (v.version ≡ latest_version v.document_id db.versions + 1)
              × All
                  (λ (w : DocumentVersion). w.document_id ≡ v.document_id → w.version < v.version)
                  db.versions
              × ((n : ℕ)
                  → All
                      (λ (w : DocumentVersion). w.document_id ≡ v.document_id → w.version ≤ n)
                      db.versions
                  → v.version ≤ n + 1)))
unfolding scan_step
scan_step-VersionsDiffer config h draw accounts job db {out} {db'} u done =
    elim (Result-cases (h.security_scan job.payload)) [
      | inl (e, refused) ↦ absurd (ground arith)
      | inr (report, scanned_it) ↦
          elim (kind_outcome job.kind (ok (scanned report, db))
            (add_template config h draw accounts job report db)
            (add_version config h draw accounts job report db) (ok (out, db')) (ground arith)) [
              | inl kept ↦
                  let same : db ≡ db' = ground arith in
                  (
                    subst (λ (d : Db). VersionsDiffer d.versions) same u,
                    inl (ap (λ (d : Db). d.versions) (sym same)),
                  )
              | inr (inl templated) ↦
                  let same =
                    versions-add_template config h draw accounts job report db {out = out}
                      templated in
                  (rw same u, inl same)
              | inr (inr added) ↦
                  let (v, more, number, named, _, _) =
                    versions-add_version config h draw accounts job report db {out = out} added in
                  let below =
                    All-weaken
                      (λ (w : DocumentVersion).
                        w.document_id ≡ v.document_id
                        → w.version ≤ latest_version v.document_id db.versions)
                      (λ (w : DocumentVersion).
                        w.document_id ≡ v.document_id → w.version < v.version)
                      (λ w bound e. ground (arith, bound e)) db.versions
                      (latest_version-bound v.document_id db.versions) in
                  (
                    rw more (
                        VersionsDiffer-append v db.versions u (
                          All-weaken
                            (λ (w : DocumentVersion).
                              w.document_id ≡ v.document_id → w.version < v.version)
                            (λ (w : DocumentVersion).
                              w.document_id ≡ v.document_id → w.version ≢ v.version)
                            (λ w less e same. ground (arith, less e)) db.versions below)),
                    inr (
                      v,
                      more,
                      named,
                      number,
                      below,
                      (λ n bounded.
                          let least = latest_version-least v.document_id n db.versions bounded in
                          ground (arith, least)),
                    ),
                  )
            ]
    ]
