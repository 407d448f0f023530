-- ===== src/Tests/Chunking.antt =====
-- A document with two sentences and a table, in chunks of at most twenty tokens.
use capstone_nps.Base.{
  none, some, List, ℕ, ◌≡◌, ◌+◌, ◌∷◌, map, [], false, All, refl, arith, get_elem?,
}
use capstone_nps.Base.Words.{text, Text}
use capstone_nps.Contracts.{Node, NormalizedDocument, SourceLocation, NodeType, SemanticChunk}
use capstone_nps.Chunking.Tokens.{sentences, token_count}
use capstone_nps.Chunking.Document.{chunk_document, chunk_of}
use capstone_nps.Tests.Samples.{from_ok}
use capstone_nps.Base.Errors.{ok}
use capstone_nps.Chunking.Document.Budget.{InBudget, chunk_document-InBudget}
use capstone_nps.Chunking.Document.Links.{chunk_document_linked}

abbrev here : SourceLocation
here = record { page = some 1; section = text "s"; paragraph = none; table = none; sheet = none }

abbrev paragraph : Node
paragraph = record {
  node_id = 1;
  type = NodeType.paragraph;
  text = text "One two. Three four five.";
  source_location = here;
  cells = [];
  rows = 0;
  cols = 0;
  header = false;
  image_key = none;
  image_sha256 = none;
}

abbrev table : Node
table = record paragraph { node_id = 2; type = NodeType.table; text = text "a|b" }

abbrev document : NormalizedDocument
document = record {
  sections =
      record { section_id = text "s"; heading = text "h"; nodes = paragraph ∷ table ∷ [] } ∷ [];
  parser_version = text "1";
  warnings = [];
}

abbrev numbered : ℕ → ℕ
numbered n = n + 70

abbrev image_name : ℕ → Text
image_name id = text "image"

sentence_split :
    sentences (text "One two. Three four five.") ≡ text "One two." ∷ text "Three four five." ∷ []
unfolding sentences
sentence_split = refl

counted : token_count (text "One two.") ≡ 3
unfolding token_count
counted = refl

abbrev chunks : List SemanticChunk
chunks = from_ok [] (chunk_document 20 5 6 (text "c") numbered image_name document)

chunks_lem : chunk_document 20 5 6 (text "c") numbered image_name document ≡ ok chunks
unfolding chunk_document
chunks_lem = refl

texts :
    map (λ (c : SemanticChunk). c.text) chunks ≡ text "One two.\nThree four five." ∷ text "a|b" ∷ []
unfolding chunk_document
texts = refl

chunk_document-InBudget_example :
    (cs : List SemanticChunk) × (chunk_document 20 5 6 (text "c") numbered image_name document
      ≡ ok cs)
    × All (InBudget 20) cs
chunk_document-InBudget_example =
    chunk_document-InBudget 20 5 6 (text "c") numbered image_name (omega arith) document

abbrev text_chunk : SemanticChunk
text_chunk =
    record (chunk_of 20 5 6 (text "c") numbered image_name 0 (text "s")
      (text "One two.\nThree four five.") here [] []) { next_chunk_id = some 71 }

abbrev table_chunk : SemanticChunk
table_chunk =
    record (chunk_of 20 5 6 (text "c") numbered image_name 1 (text "s") (text "a|b") here (2 ∷ [])
      []) { previous_chunk_id = some 70 }

first_chunk : get_elem? chunks 0 ≡ some text_chunk
unfolding chunk_document
first_chunk = refl

second_chunk : get_elem? chunks 1 ≡ some table_chunk
unfolding chunk_document
second_chunk = refl

chunk_document_linked_example :
    (text_chunk.next_chunk_id ≡ some 71) × (table_chunk.previous_chunk_id ≡ some 70)
chunk_document_linked_example =
    chunk_document_linked 20 5 6 (text "c") numbered image_name document 0 text_chunk table_chunk
      chunks_lem first_chunk second_chunk
