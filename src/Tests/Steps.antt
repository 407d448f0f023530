-- ===== src/Tests/Steps.antt =====
-- Steps of uploads at concrete inputs.
use capstone_nps.Models.{
  Kind, Document, Db, GenerationJob, ScanMode, docx, DocumentVersion, ParseResult, find_version,
}
use capstone_nps.Base.{
  none, some, ℕ, [], false, true, ◌∷◌, ◌≡◌, refl, ◌⊎◌, ◌++◌, ◌+◌, All, ◌<◌, ◌≤◌,
}
use capstone_nps.Pipeline.Steps.Files.{scan_step, parse_step, latest_version}
use capstone_nps.Pipeline.Steps.{
  Handlers, StepOutput, StepDraw, staged, parse_reused, parse_of, parsed,
}
use capstone_nps.Contracts.{NormalizedDocument}
use capstone_nps.Pipeline.Steps.Files.Numbered.{VersionsDiffer, scan_step-VersionsDiffer}
use capstone_nps.Upload.Scan.{ScanReport}
use capstone_nps.Base.Words.{text}
use capstone_nps.Tests.Samples.{config, job, from_ok, empty_db, no_payload, no_theme}
use capstone_nps.Base.Errors.{ok, err, other}
use capstone_nps.Tests.Auth.{accounts}
use capstone_nps.Pipeline.Steps.Files.Resumed.{parse_step_again}

abbrev report : ScanReport
report = record { sha256 = 5; storage_key = text "originals/a.bin"; scan_mode = ScanMode.mock }

abbrev document : Document
document = record {
  id = 5;
  project_id = 2;
  title = text "t";
  current_version_id = none;
  deleted = false;
}

abbrev parsed_document : NormalizedDocument
parsed_document = record { sections = []; parser_version = []; warnings = [] }

-- Handlers that succeed.
abbrev handlers : Handlers
handlers = record {
  load = λ output. none;
  security_scan = λ payload. ok report;
  opens = λ key. true;
  safe_parse = λ key extension. ok parsed_document;
  write_json = λ namespace. ok (text "parsed/b.json");
  generate = λ step payload. ok (staged []);
  safe_extract = λ key. err other;
  with_theme = λ theme contents. contents;
  lower = λ t. t;
  render = λ step job plan db. err other;
  template_name = λ payload. [];
  template_config = λ payload. no_theme;
}

abbrev draw : StepDraw
draw = record { new_id = 6; chunk_ids = λ n. n; image_words = λ n. []; now = 1 }

abbrev upload_job : GenerationJob
upload_job = record job {
  kind = Kind.upload;
  payload = record no_payload {
    document_id = some 5;
    extension = some docx;
    mime = some (text "x");
    size = some 8;
  };
}

abbrev upload_db : Db
upload_db = record empty_db { documents = document ∷ [] }

abbrev added : StepOutput × Db
added =
    from_ok (staged [], upload_db) (scan_step config handlers draw accounts upload_job upload_db)

added_lem : scan_step config handlers draw accounts upload_job upload_db ≡ ok added
unfolding scan_step
added_lem = refl

scan_step-VersionsDiffer_example :
    VersionsDiffer added.1.versions
    × ((added.1.versions ≡ upload_db.versions)
        ⊎ ((v : DocumentVersion) × (added.1.versions ≡ upload_db.versions ++ v ∷ [])
            × (upload_job.payload.document_id ≡ some v.document_id)
            × (v.version ≡ latest_version v.document_id upload_db.versions + 1)
            × All
                (λ (w : DocumentVersion). w.document_id ≡ v.document_id → w.version < v.version)
                upload_db.versions
            × ((n : ℕ)
                → All
                    (λ (w : DocumentVersion). w.document_id ≡ v.document_id → w.version ≤ n)
                    upload_db.versions
                → v.version ≤ n + 1)))
scan_step-VersionsDiffer_example =
    scan_step-VersionsDiffer config handlers draw accounts upload_job upload_db tt added_lem

abbrev parsed_once : StepOutput × Db
parsed_once = from_ok added (parse_step config handlers draw accounts job added.1)

parsed_once_lem : parse_step config handlers draw accounts job added.1 ≡ ok parsed_once
unfolding parse_step scan_step
parsed_once_lem = refl

parse_step_again_example :
    (version_id : ℕ) × (version : DocumentVersion) × (p : ParseResult) × (job.payload.version_id
      ≡ some version_id)
    × (find_version version_id parsed_once.1 ≡ some version)
    × (parse_of version.id parsed_once.1 ≡ some p)
    × (parse_step config handlers draw accounts job parsed_once.1
        ≡ ok (parse_reused p.id, parsed_once.1))
    × ((parsed_once.0 ≡ parse_reused p.id) ⊎ (parsed_once.0 ≡ parsed p.id p.contents.warnings))
parse_step_again_example =
    parse_step_again config accounts handlers handlers draw draw job added.1 parsed_once_lem
