-- ===== src/Chunking/Document.antt =====
-- `chunk_document` of chunking.py. The ids of the chunks and the words that stand in for an image without a
-- text are drawn from outside.
pub mod Budget
pub mod Links
use capstone_nps.Base.{
  none, some, List, Bool, ℕ, Option, ◌++◌, ◌∷◌, true, length, if◌then◌else◌, [], false, ltb, not,
  ◌==◌, ◌&&◌, any, nat_eq,
}
use capstone_nps.Base.Words.{Text}
use capstone_nps.Chunking.Tokens.{token_count}
use capstone_nps.Contracts.{
  NodeType, Node, Section, SourceLocation, NormalizedDocument, SemanticChunk,
}
use capstone_nps.Chunking.Tokens.{sentences, pieces}
use capstone_nps.Base.Errors.{Result, err, other, ok}

-- `"\n".join(parts)`
abbrev pub join_lines : List Text → Text
join_lines [] = []
join_lines (p ∷ []) = p
join_lines (p ∷ q ∷ rest) = p ++ 10 ∷ join_lines (q ∷ rest)

-- The chunks so far, and `pending` with `pending_loc`: both are set together and cleared together.
pub record Progress : Type 0 where
  pub result : List SemanticChunk
  pub pending : Option (SourceLocation × List Text)

abbrev pub is_block_node : NodeType → Bool
is_block_node NodeType.table = true
is_block_node NodeType.image = true
is_block_node _ = false

abbrev pub has_sentences : Node → Bool
has_sentences node = not (is_block_node node.type)

abbrev pub refs_if : Bool → ℕ → List ℕ
refs_if true id = id ∷ []
refs_if false id = []

module _ (limit : ℕ) (document_id version_id : ℕ) (security_class : Text) (new_id : ℕ → ℕ)
    (image_words : ℕ → Text) where
  -- A chunk; the links are set in the end.
  abbrev pub chunk_of :
      (n : ℕ) (section_id words : Text) → SourceLocation → (tables images : List ℕ) → SemanticChunk
  chunk_of n section_id words location tables images = record {
    chunk_id = new_id n;
    document_id = document_id;
    version_id = version_id;
    section_id = section_id;
    text = words;
    token_count = token_count words;
    source_location = location;
    previous_chunk_id = none;
    next_chunk_id = none;
    table_refs = tables;
    image_refs = images;
    security_class = security_class;
  }

  unfoldable pub flush : (section_id : Text) → Progress → Progress
  flush section_id st = elim st.pending [
    | none ↦ st
    | some (location, parts) ↦ record {
      result =
          st.result
          ++ chunk_of (length st.result) section_id (join_lines parts) location [] [] ∷ [];
      pending = none;
    }
  ]

  abbrev pub parts_of : Option (SourceLocation × List Text) → List Text
  parts_of none = []
  parts_of (some (location, parts)) = parts

  -- `pending_loc = pending_loc or node.source_location; pending.append(piece)`
  abbrev pub append_piece : SourceLocation → Text → Progress → Progress
  append_piece location piece st = record st {
    pending = elim st.pending [
      | none ↦ some (location, piece ∷ [])
      | some (start, parts) ↦ some (start, parts ++ piece ∷ [])
    ];
  }

  unfoldable pub add_piece : (section_id : Text) → SourceLocation → Text → Progress → Progress
  unfolding flush token_count
  add_piece section_id location piece st = append_piece location piece (
      if ltb limit (token_count (join_lines (parts_of st.pending ++ piece ∷ [])))
      then flush section_id st
      else st)

  unfoldable pub add_pieces : (section_id : Text) → SourceLocation → List Text → Progress → Progress
  unfolding add_piece
  add_pieces section_id location [] st = st
  add_pieces section_id location (p ∷ rest) st =
      add_pieces section_id location rest (add_piece section_id location p st)

  unfoldable pub add_sentences :
      (section_id : Text) → SourceLocation → List Text → Progress → Progress
  unfolding add_pieces pieces
  add_sentences section_id location [] st = st
  add_sentences section_id location (s ∷ rest) st =
      add_sentences section_id location rest (add_pieces section_id location (pieces limit s) st)

  abbrev words_of : Node → Text
  words_of node = elim node.text [ [] ↦ image_words node.node_id | c ∷ cs ↦ c ∷ cs ]

  abbrev is_table : NodeType → Bool
  is_table NodeType.table = true
  is_table _ = false

  -- The chunk of a table or an image.
  abbrev pub add_block : (section_id : Text) → Node → Progress → Progress
  add_block section_id node st = record st {
    result =
        st.result
        ++ chunk_of (length st.result) section_id (words_of node) node.source_location
            (refs_if (is_table node.type) node.node_id)
            (refs_if (not (is_table node.type)) node.node_id)
          ∷ [];
  }

  unfoldable pub add_node : (section_id : Text) → Node → Progress → Progress
  unfolding flush add_sentences sentences
  add_node section_id node st =
      if is_block_node node.type
      then add_block section_id node (flush section_id st)
      else add_sentences section_id node.source_location (sentences node.text) st

  unfoldable pub add_nodes : (section_id : Text) → List Node → Progress → Progress
  unfolding add_node
  add_nodes section_id [] st = st
  add_nodes section_id (n ∷ rest) st = add_nodes section_id rest (add_node section_id n st)

  unfoldable pub add_sections : List Section → List SemanticChunk → List SemanticChunk
  unfolding add_nodes flush
  add_sections [] result = result
  add_sections (s ∷ rest) result =
      add_sections rest
        (flush s.section_id
          (add_nodes s.section_id s.nodes (record { result = result; pending = none }))).result

  abbrev pub first_id : List SemanticChunk → Option ℕ
  first_id [] = none
  first_id (c ∷ rest) = some c.chunk_id

  -- The last loop: each chunk gets the ids of its neighbours.
  unfoldable pub link : (previous : Option ℕ) → List SemanticChunk → List SemanticChunk
  link previous [] = []
  link previous (c ∷ rest) =
      record c { previous_chunk_id = previous; next_chunk_id = first_id rest }
      ∷ link (some c.chunk_id) rest

  -- `range` refuses the step 0, as soon as there is a sentence to cut.
  unfoldable pub chunk_document : NormalizedDocument → Result (List SemanticChunk)
  unfolding add_sections link
  chunk_document document =
      if limit == 0 && any (λ (s : Section). any has_sentences s.nodes) document.sections
      then err other
      else ok (link none (add_sections document.sections []))
