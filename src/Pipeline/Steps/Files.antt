-- ===== src/Pipeline/Steps/Files.antt =====
-- The steps of `do_step` on files: SECURITY_SCAN, PARSE and CHUNK.
pub mod Numbered
pub mod Resumed
use capstone_nps.Base.{
  ℕ, none, some, List, Bool, ◌∷◌, any, if◌then◌else◌, ◌==◌, max, ◌&&◌, [], nat_eq, ◌+◌, not, false,
  length, ◌++◌, map,
}
use capstone_nps.Base.Errors.{
  ◌>>=◌, ◌>>◌, Result, raise_if, raise, parse_required, doc_not_clean, template_invalid, ok,
}
use capstone_nps.Contracts.{SemanticChunk}
use capstone_nps.Config.{Settings}
use capstone_nps.Models.{
  Kind, Db, ScanMode, Document, Chunk, DocumentVersion, clamav, find_version, GenerationJob,
  find_document, ScanStatus, Template, Detail, ParseResult,
}
use capstone_nps.Pipeline.Steps.{
  Handlers, StepDraw, StepOutput, require, parse_of, chunks_of, parse_reused, version_made,
  chunks_reused, template_made, parsed, chunked, scanned,
}
use capstone_nps.Base.Words.{Text, text}
use capstone_nps.Auth.Accounts.{Accounts}
use capstone_nps.Auth.Audit.{audit}
use capstone_nps.Upload.Scan.{ScanReport}
use capstone_nps.Chunking.Document.{chunk_document}
use capstone_nps.Routes.Documents.{is_clean}
use capstone_nps.Routes.Plans.{find_project}
use capstone_nps.Base.Rows.{update}

-- `func.max(version) or 0`
abbrev pub latest_version : (document_id : ℕ) → List DocumentVersion → ℕ
latest_version document_id [] = 0
latest_version document_id (v ∷ rest) =
    let later = latest_version document_id rest in
    if v.document_id == document_id then max v.version later else later

-- Whether a version of the project has the digest.
abbrev is_duplicate : (project_id sha256 : ℕ) → Db → Bool
is_duplicate project_id sha256 db =
    any
      (λ (v : DocumentVersion).
        v.sha256 == sha256
        && any (λ (d : Document). d.id == v.document_id && d.project_id == project_id) db.documents)
      db.versions

abbrev mode_name : ScanMode → Text
mode_name ScanMode.mock = text "mock"
mode_name clamav = text "clamav"

abbrev pub set_current : (version_id : ℕ) → Document → Document
set_current version_id d = record d { current_version_id = some version_id }

-- The new version of the job's document.
abbrev chunk_row : (version_id : ℕ) → SemanticChunk → Chunk
chunk_row version_id c = record { id = c.chunk_id; version_id = version_id; contents = c }

module _ (config : Settings) (h : Handlers) (draw : StepDraw) (accounts : Accounts) where
  unfoldable pub add_template : GenerationJob → ScanReport → Db → Result (StepOutput × Db)
  unfolding audit
  add_template job report db = do
    raise_if (not (h.opens report.storage_key)) template_invalid 422
    let template : Template = record {
      id = draw.new_id;
      created_at = draw.now;
      org_id = none;
      name = h.template_name job.payload;
      version = text "1.0";
      config = h.template_config job.payload;
      storage_key = some report.storage_key;
      official_flag = false;
    }
    ok (
      template_made template.id report.scan_mode,
      audit job.requested_by (text "TEMPLATE_CHANGE") template.id job.project_id []
          (record db { templates = db.templates ++ template ∷ [] }),
    )

  unfoldable pub add_version : GenerationJob → ScanReport → Db → Result (StepOutput × Db)
  unfolding audit find_document
  add_version job report db = do
    document_id ← require job.payload.document_id
    doc ← require (find_document document_id db)
    size ← require job.payload.size
    mime ← require job.payload.mime
    extension ← require job.payload.extension
    let number = latest_version doc.id db.versions + 1
    let version : DocumentVersion = record {
      id = draw.new_id;
      document_id = doc.id;
      version = number;
      sha256 = report.sha256;
      size = size;
      mime = mime;
      extension = extension;
      storage_key = report.storage_key;
      scan_status = ScanStatus.clean;
      scan_mode = report.scan_mode;
    }
    ok (
      version_made doc.id version.id (is_duplicate job.project_id report.sha256 db)
          report.scan_mode,
      audit job.requested_by (text "DOCUMENT_UPLOAD") doc.id job.project_id
          ((text "version", Detail.number number)
            ∷ (text "mode", Detail.words (mode_name report.scan_mode))
            ∷ [])
          (record db {
            versions = db.versions ++ version ∷ [];
            documents =
                update (λ (d : Document). d.id == doc.id) (set_current version.id) db.documents;
          }),
    )

  unfoldable pub scan_step : GenerationJob → Db → Result (StepOutput × Db)
  unfolding add_template add_version
  scan_step job db = do
    report ← h.security_scan job.payload
    elim job.kind [
      | Kind.design_reference ↦ ok (scanned report, db)
      | Kind.template ↦ add_template job report db
      | _ ↦ add_version job report db
    ]

  unfoldable pub parse_step : GenerationJob → Db → Result (StepOutput × Db)
  unfolding find_version
  parse_step job db = do
    version_id ← require job.payload.version_id
    elim (find_version version_id db) [
      | none ↦ raise doc_not_clean 409
      | some version ↦ do
        raise_if (not (is_clean version.scan_status)) doc_not_clean 409
        elim (parse_of version.id db) [
          | some existing ↦ ok (parse_reused existing.id, db)
          | none ↦ do
            document ← h.safe_parse version.storage_key version.extension
            key ← h.write_json (text "parsed")
            let row : ParseResult = record {
              id = draw.new_id;
              document_version_id = version.id;
              contents = document;
              storage_key = key;
            }
            ok (parsed row.id document.warnings, record db { parses = db.parses ++ row ∷ [] })
        ]
    ]

  unfoldable pub chunk_step : GenerationJob → Db → Result (StepOutput × Db)
  unfolding find_version chunk_document
  chunk_step job db = do
    version_id ← require job.payload.version_id
    version ← require (find_version version_id db)
    elim (parse_of version.id db) [
      | none ↦ raise parse_required 409
      | some parse ↦ elim (chunks_of version.id db) [
        | c ∷ cs ↦ ok (chunks_reused (length (c ∷ cs)), db)
        | [] ↦ do
          project ← require (find_project job.project_id accounts)
          made ←
              chunk_document config.chunk_tokens version.document_id version.id
                project.security_class draw.chunk_ids draw.image_words parse.contents
          key ← h.write_json (text "chunks")
          ok (
            chunked (length made),
            record db { chunks = db.chunks ++ map (chunk_row version.id) made },
          )
      ]
    ]
