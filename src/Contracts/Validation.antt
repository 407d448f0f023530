-- ===== src/Contracts/Validation.antt =====
-- The bounds and validators of contracts.py, as the test that `model_validate` makes; a document that
-- fails it raises pydantic's ValidationError, which is no `DomainError`.
use capstone_nps.Base.Words.{Text, text_eq}
use capstone_nps.Contracts.{ContentBlock, BlockType, SlidePlanContract, PlannedSlide, Node}
use capstone_nps.Base.{
  List, Bool, ℕ, leb, true, ◌∷◌, [], false, not, map, length, max, if◌then◌else◌, ◌&&◌, ◌||◌, suc,
  ◌==◌, contains, all, nat_eq, ◌+◌, zero,
}
use capstone_nps.Base.Errors.{Result, ok, err, other}

-- `min_length=low, max_length=high`
abbrev within : (low high n : ℕ) → Bool
within low high n = leb low n && leb n high

-- `table_shape`
abbrev is_grid : BlockType → Bool
is_grid BlockType.table = true
is_grid BlockType.chart = true
is_grid _ = false

abbrev has_shape : List (List Text) → Bool
has_shape [] = false
has_shape (row ∷ rows) =
    within 1 8 (length row)
    && all (λ r. length r == length row) (row ∷ rows)
    && all (λ r. all (λ c. leb (length c) 120) r) (row ∷ rows)

abbrev pub table_shape : ContentBlock → Bool
table_shape block = not (is_grid block.type) || has_shape block.cells

abbrev pub is_block : ContentBlock → Bool
is_block block =
    leb (length block.text) 600
    && leb (length block.cells) 12
    && leb 1 (length block.source_refs)
    && table_shape block

abbrev pub is_slide : PlannedSlide → Bool
is_slide slide =
    leb 1 slide.order
    && within 1 80 (length slide.title)
    && within 1 5 (length slide.content_blocks)
    && all is_block slide.content_blocks
    && leb 1 (length slide.source_refs)
    && leb (length slide.visual_plan.prompt) 1000

-- The elements of a set built from a list.
abbrev pub set_of : List ℕ → List ℕ
set_of [] = []
set_of (x ∷ xs) = let rest = set_of xs in if contains x rest then rest else x ∷ rest

-- `list(range(first, first + n))`
abbrev pub range : (start n : ℕ) → List ℕ
range start zero = []
range start (suc n) = start ∷ range (start + 1) n

abbrev ids_of : List PlannedSlide → List ℕ
ids_of slides = map (λ (s : PlannedSlide). s.slide_id) slides

-- `unique_slides`
unfoldable pub unique_slides : List PlannedSlide → Bool
unique_slides slides =
    length (set_of (ids_of slides)) == length slides
    && text_eq.beq (map (λ (s : PlannedSlide). s.order) slides) (range 1 (length slides))

unfoldable pub is_valid : SlidePlanContract → Bool
unfolding unique_slides
is_valid plan =
    leb 1 (length plan.document_versions)
    && within 1 120 (length plan.title)
    && within 1 40 (length plan.slides)
    && all is_slide plan.slides
    && unique_slides plan.slides

unfoldable pub model_validate : SlidePlanContract → Result SlidePlanContract
unfolding is_valid
model_validate plan = if is_valid plan then ok plan else err other

-- `dimensions`: the validator of `Node` sets the size from the cells.
unfoldable pub dimensions : Node → Node
dimensions node = record node { rows = length node.cells; cols = widest node.cells }
  where
    widest : List (List Text) → ℕ
    widest [] = 0
    widest (row ∷ rows) = max (length row) (widest rows)
