-- ===== src/Chunking/Evidence.antt =====
-- `validate_evidence` of chunking.py: every reference of a plan points into a chunk of the plan's
-- documents.
pub mod Grounded
use capstone_nps.Base.Words.{text_eq}
use capstone_nps.Contracts.{SlidePlanContract, PlannedSlide, ContentBlock, Evidence, SemanticChunk}
use capstone_nps.Base.{
  List, ℕ, ◌∷◌, ◌++◌, Option, option_eq, none, [], some, if◌then◌else◌, length, ◌==◌, nat_eq, not,
  ◌||◌, contains, any,
}
use capstone_nps.Base.Errors.{Result, ok, ◌>>◌, raise, evidence_invalid, raise_if}

-- `index.get(id)`: of two chunks with one id, the dict holds the later.
unfoldable pub get_chunk : (chunk_id : ℕ) → List SemanticChunk → Option SemanticChunk
get_chunk id [] = none
get_chunk id (c ∷ rest) = elim (get_chunk id rest) [
  | some later ↦ some later
  | none ↦ if c.chunk_id == id then some c else none
]

-- The references of a slide, its own and those of its blocks.
abbrev pub block_refs : List ContentBlock → List Evidence
block_refs [] = []
block_refs (b ∷ rest) = b.source_refs ++ block_refs rest

abbrev pub refs_of : PlannedSlide → List Evidence
refs_of slide = slide.source_refs ++ block_refs slide.content_blocks

module _ (plan : SlidePlanContract) (chunks : List SemanticChunk) where
  unfoldable pub check_ref : Evidence → Result (Unit {0})
  unfolding get_chunk option_eq
  check_ref ref = elim (get_chunk ref.chunk_id chunks) [
    | none ↦ raise evidence_invalid 422
    | some chunk ↦ do
      raise_if
          (not (chunk.version_id == ref.document_version_id)
            || not (text_eq.beq chunk.section_id ref.section))
          evidence_invalid 422
      raise_if
          (not (contains ref.document_version_id plan.document_versions)
            || not (ref.page == chunk.source_location.page))
          evidence_invalid 422
      raise_if (any (λ n. not (contains n (chunk.table_refs ++ chunk.image_refs))) ref.node_ids)
          evidence_invalid 422
  ]

  unfoldable pub check_refs : List Evidence → Result (Unit {0})
  check_refs [] = ok tt
  check_refs (ref ∷ rest) = check_ref ref >> check_refs rest

  unfoldable pub check_slides : List PlannedSlide → Result (Unit {0})
  check_slides [] = ok tt
  check_slides (slide ∷ rest) = check_refs (refs_of slide) >> check_slides rest

-- The result is the number of slides; its `status` is always PASS.
unfoldable pub validate_evidence : SlidePlanContract → List SemanticChunk → Result ℕ
unfolding check_slides check_refs check_ref
validate_evidence plan chunks = do check_slides plan chunks plan.slides; ok (length plan.slides)
