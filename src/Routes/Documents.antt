-- ===== src/Routes/Documents.antt =====
-- The routes of documents in work_api.py. The file of an upload has been quarantined already: the routes
-- take the payload that `quarantine_upload` returns, or what it raises.
use mathlib.Core.Option
use capstone_nps.Base.{
  ℕ, List, Option, none, some, ◌∷◌, Bool, true, false, if◌then◌else◌, [], leb, map, ◌==◌, nat_eq,
  ◌++◌, ◌&&◌, not,
}
use capstone_nps.Models.{
  Payload, Kind, Extension, Db, SlidePlan, find_version, find_document, ScanMode, ParseResult,
  Chunk,
}
use capstone_nps.Routes.{scoped, Call, submit, empty_payload}
use capstone_nps.Auth.Scope.{authorize_project}
use capstone_nps.Models.{DocumentVersion, Document, ScanStatus}
use capstone_nps.Base.Words.{Text, text}
use capstone_nps.Base.Errors.{
  ◌>>=◌, ◌>>◌, Result, ok, raise_if, raise, auth_forbidden, doc_not_clean, resource_not_found,
  parse_required, err, other,
}
use capstone_nps.Jobs.Broker.{Broker}
use capstone_nps.Contracts.{NormalizedDocument, SemanticChunk}
use capstone_nps.Jobs.Snapshot.{Snapshot}
use capstone_nps.Base.Rows.{select, first, update}
use capstone_nps.Auth.Audit.{audit}

-- The columns that `serialize` shows of a version: all but its storage key.
pub record VersionView : Type 0 where
  pub id : ℕ
  pub document_id : ℕ
  pub version : ℕ
  pub sha256 : ℕ
  pub size : ℕ
  pub mime : Text
  pub extension : Extension
  pub scan_status : ScanStatus
  pub scan_mode : ScanMode

abbrev pub version_view : DocumentVersion → VersionView
version_view v = record {
  id = v.id;
  document_id = v.document_id;
  version = v.version;
  sha256 = v.sha256;
  size = v.size;
  mime = v.mime;
  extension = v.extension;
  scan_status = v.scan_status;
  scan_mode = v.scan_mode;
}

abbrev pub scoped_document : Call → (document_id : ℕ) → (owner : Bool) → Db → Result Document
scoped_document call document_id owner db =
    scoped call (λ (d : Document). d.project_id) (find_document document_id db) [] owner

-- `db.get(DocumentVersion, doc.current_version_id)`
abbrev pub version_of : Option ℕ → Db → Option DocumentVersion
version_of none db = none
version_of (some id) db = find_version id db

unfoldable pub documents : Call → (project_id : ℕ) → Db → Result (List Document)
unfolding authorize_project
documents call project_id db = do
  project ← authorize_project call.accounts call.user project_id [] false
  ok (select (λ (d : Document). d.project_id == project_id && not d.deleted) db.documents)

-- `new_document` is the id of the new row. Next to the snapshot of the job the answer repeats that id, with
-- the constant "PENDING".
unfoldable pub upload :
    Call
    → (project_id new_document : ℕ) → (title : Text) → Result Payload
    → Db
    → Broker
    → Result (Snapshot × Db × Broker)
unfolding submit authorize_project
upload call project_id new_document title quarantined db b = do
  project ← authorize_project call.accounts call.user project_id [] false
  payload ← quarantined
  let doc : Document = record {
    id = new_document;
    project_id = project.id;
    title = title;
    current_version_id = none;
    deleted = false;
  }
  submit call project.id Kind.upload (record payload { document_id = some doc.id }) none
      (record db { documents = db.documents ++ doc ∷ [] }) b

unfoldable pub upload_version :
    Call → (document_id : ℕ) → Result Payload → Db → Broker → Result (Snapshot × Db × Broker)
unfolding submit scoped
upload_version call document_id quarantined db b = do
  doc ← scoped_document call document_id false db
  payload ← quarantined
  submit call doc.project_id Kind.upload (record payload { document_id = some doc.id }) none db b

unfoldable pub document_detail :
    Call → (document_id : ℕ) → Db → Result (Document × Option VersionView)
unfolding scoped
document_detail call document_id db = do
  doc ← scoped_document call document_id false db
  raise_if doc.deleted resource_not_found 404
  ok (doc, Option.map version_view (version_of doc.current_version_id db))

-- `order_by(DocumentVersion.version)`, with equal versions in the order of insertion.
abbrev pub place_version : DocumentVersion → List DocumentVersion → List DocumentVersion
place_version v [] = v ∷ []
place_version v (w ∷ rest) =
    let later = place_version v rest in if leb v.version w.version then v ∷ w ∷ rest else w ∷ later

abbrev pub by_version : List DocumentVersion → List DocumentVersion
by_version [] = []
by_version (v ∷ rest) = place_version v (by_version rest)

unfoldable pub document_versions : Call → (document_id : ℕ) → Db → Result (List VersionView)
unfolding scoped
document_versions call document_id db = do
  doc ← scoped_document call document_id false db
  ok (
      map version_view
        (by_version (select (λ (v : DocumentVersion). v.document_id == doc.id) db.versions)))

-- The key and the version's number and extension, of which the answer is made.
unfoldable pub document_download :
    Call → (document_id : ℕ) → (version_id : Option ℕ) → Db → Result (DocumentVersion × Db)
unfolding scoped
document_download call document_id version_id db = do
  doc ← scoped_document call document_id false db
  let wanted : Option ℕ = elim version_id [ none ↦ doc.current_version_id | some id ↦ some id ]
  elim (version_of wanted db) [
    | none ↦ raise auth_forbidden 403
    | some version ↦ do
      raise_if (not (version.document_id == doc.id)) auth_forbidden 403
      ok (version, audit call.user.id (text "DOCUMENT_DOWNLOAD") doc.id doc.project_id [] db)
  ]

abbrev pub mark_deleted : Document → Document
mark_deleted doc = record doc { deleted = true }

unfoldable pub delete_document : Call → (document_id : ℕ) → Db → Result Db
unfolding scoped
delete_document call document_id db = do
  doc ← scoped_document call document_id true db
  ok (
      audit call.user.id (text "DOCUMENT_DELETE") doc.id doc.project_id [] (record db {
        documents = update (λ (d : Document). d.id == doc.id) mark_deleted db.documents;
      }))

abbrev pub is_clean : ScanStatus → Bool
is_clean ScanStatus.clean = true
is_clean ScanStatus.unclean = false

abbrev pub document_payload : (document_id version_id : ℕ) → Payload
document_payload document_id version_id = record empty_payload {
  document_id = some document_id;
  version_id = some version_id;
}

-- A current version without its row raises.
unfoldable pub analyze_start :
    Call → Document → Kind → (key : Option Text) → Db → Broker → Result (Snapshot × Db × Broker)
unfolding submit
analyze_start call doc kind key db b = elim doc.current_version_id [
  | none ↦ raise doc_not_clean 409
  | some version_id ↦ do
    raise_if doc.deleted doc_not_clean 409
    elim (find_version version_id db) [
      | none ↦ err other
      | some version ↦ do
        raise_if (not (is_clean version.scan_status)) doc_not_clean 409
        submit call doc.project_id kind (document_payload doc.id version.id) key db b
    ]
]

unfoldable pub analyze :
    Call → (document_id : ℕ) → (key : Option Text) → Db → Broker → Result (Snapshot × Db × Broker)
unfolding analyze_start scoped
analyze call document_id key db b = do
  doc ← scoped_document call document_id false db
  analyze_start call doc Kind.analyze key db b

unfoldable pub new_plan :
    Call → (document_id : ℕ) → (key : Option Text) → Db → Broker → Result (Snapshot × Db × Broker)
unfolding analyze_start scoped
new_plan call document_id key db b = do
  doc ← scoped_document call document_id false db
  analyze_start call doc Kind.plan key db b

-- `column == id` in SQL: NULL equals nothing.
abbrev pub equals_column : Option ℕ → ℕ → Bool
equals_column none id = false
equals_column (some wanted) id = id == wanted

unfoldable pub parse_result : Call → (document_id : ℕ) → Db → Result NormalizedDocument
unfolding scoped
parse_result call document_id db = do
  doc ← scoped_document call document_id false db
  elim (first (λ (p : ParseResult). equals_column doc.current_version_id p.document_version_id)
      db.parses) [ none ↦ raise parse_required 409 | some result ↦ ok result.contents ]

unfoldable pub chunks : Call → (document_id : ℕ) → Db → Result (List SemanticChunk)
unfolding scoped
chunks call document_id db = do
  doc ← scoped_document call document_id false db
  ok (
      map (λ (c : Chunk). c.contents)
        (select (λ (c : Chunk). equals_column doc.current_version_id c.version_id) db.chunks))

unfoldable pub plans : Call → (document_id : ℕ) → Db → Result (List SlidePlan)
unfolding scoped
plans call document_id db = do
  doc ← scoped_document call document_id false db
  ok (select (λ (p : SlidePlan). p.document_id == doc.id) db.plans)
