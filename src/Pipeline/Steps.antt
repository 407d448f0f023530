-- ===== src/Pipeline/Steps.antt =====
-- `do_step` of apps/api/nps/pipeline.py, which `execute_step` runs: what each step reads and writes. The
-- calls of other programs and of the drawing code are the fields of `Handlers`.
pub mod Files
pub mod Stages
use capstone_nps.Base.{ℕ, none, some, Option, List, Bool, ◌==◌, nat_eq, if◌then◌else◌, map, []}
use capstone_nps.Base.Errors.{◌>>=◌, ◌>>◌, Result, raise, err, other, parse_required, ok}
use capstone_nps.Base.Words.{Text}
use capstone_nps.Upload.Scan.{ScanReport}
use capstone_nps.Models.{
  Output, find_document, Db, ParseResult, GenerationJob, ScanMode, Payload, Step, Chunk, find_step,
  Extension, ThemeConfig, Template, SlidePlan,
}
use capstone_nps.Contracts.Equality.{job_state_eq}
use capstone_nps.Contracts.{NormalizedDocument, SemanticChunk, SlidePlanContract, succeeded}
use capstone_nps.Base.Rows.{first, select}

-- A step's output by the shape that the code gives it. `rendered` is what a drawing handler returns.
pub data StepOutput : Type 0 where
  scanned : ScanReport → StepOutput
  template_made : (template_id : ℕ) (scan_mode : ScanMode) → StepOutput
  version_made : (document_id version_id : ℕ) (duplicate : Bool) (scan_mode : ScanMode) → StepOutput
  parsed : (parse_result_id : ℕ) (warnings : List Text) → StepOutput
  parse_reused : (parse_result_id : ℕ) → StepOutput
  chunked : (chunk_count : ℕ) → StepOutput
  chunks_reused : (chunk_count : ℕ) → StepOutput
  staged : (stage : Text) → StepOutput
  planned : SlidePlanContract → StepOutput
  learned : (template_id slides : ℕ) → StepOutput
  learned_before : (template_id : ℕ) → StepOutput
  plan_made : (plan_id : ℕ) → StepOutput
  rendered : Output → StepOutput

-- The arguments of a model call.
pub record LlmPayload : Type 0 where
  pub normalized : NormalizedDocument
  pub document_title : Text
  pub chunks : List SemanticChunk
  pub previous_stages : List (Step × Option StepOutput)

-- `load` reads the JSON column that a step's output was written to. `generate` is the model's answer after
-- its validation: of the step LLM a plan, of the others a text. `render` is any of the drawing handlers.
pub record Handlers : Type 0 where
  pub load : Output → Option StepOutput
  pub security_scan : Payload → Result ScanReport
  pub opens : (storage_key : Text) → Bool
  pub safe_parse : (storage_key : Text) → Extension → Result NormalizedDocument
  pub write_json : (namespace : Text) → Result Text
  pub generate : Step → LlmPayload → Result StepOutput
  pub safe_extract : (storage_key : Text) → Result (ThemeConfig × ℕ)
  pub with_theme : Template → SlidePlanContract → SlidePlanContract
  pub lower : Text → Text
  pub render : Step → GenerationJob → SlidePlan → Db → Result (StepOutput × Db)
  pub template_name : Payload → Text
  pub template_config : Payload → ThemeConfig

-- What one call draws from outside: the id of its new row, the ids of its chunks
-- and the words that stand in for their images, and the time.
pub record StepDraw : Type 0 where
  pub new_id : ℕ
  pub chunk_ids : ℕ → ℕ
  pub image_words : ℕ → Text
  pub now : ℕ

abbrev pub require {ℓ} : {A : Type ℓ} → Option A → Result A
require none = err other
require (some a) = ok a

-- The output of a step that has succeeded, and the empty dict otherwise.
unfoldable pub result_for : Handlers → Db → GenerationJob → Step → Option StepOutput
unfolding job_state_eq
result_for h db job name = elim (find_step job.id name db) [
  | none ↦ none
  | some row ↦ if row.state == succeeded then h.load row.output else none
]

abbrev pub parse_of : (version_id : ℕ) → Db → Option ParseResult
parse_of version_id db = first (λ (p : ParseResult). p.document_version_id == version_id) db.parses

abbrev pub chunks_of : (version_id : ℕ) → Db → List Chunk
chunks_of version_id db = select (λ (c : Chunk). c.version_id == version_id) db.chunks

unfoldable pub llm_payload : Db → GenerationJob → Result LlmPayload
unfolding find_document
llm_payload db job = do
  version_id ← require job.payload.version_id
  elim (parse_of version_id db) [
    | none ↦ raise parse_required 409
    | some parse ↦ do
      document_id ← require job.payload.document_id
      doc ← require (find_document document_id db)
      ok (record {
        normalized = parse.contents;
        document_title = doc.title;
        chunks = map (λ (c : Chunk). c.contents) (chunks_of version_id db);
        previous_stages = [];
      })
  ]
