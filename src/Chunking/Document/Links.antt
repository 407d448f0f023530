-- ===== src/Chunking/Document/Links.antt =====
-- The links between chunks.
use capstone_nps.Base.{
  none, some, ℕ, Option, List, ◌≡◌, get_elem?, suc, ◌∷◌, [], arith, ap, sym, ◌∙◌, zero, subst,
}
use capstone_nps.Base.Words.{Text}
use capstone_nps.Chunking.Document.{chunk_document, link, first_id, add_sections}
use capstone_nps.Contracts.{NormalizedDocument, SemanticChunk}
use capstone_nps.Base.Errors.{ok}

module _ (limit : ℕ) (document_id version_id : ℕ) (security_class : Text) (new_id : ℕ → ℕ)
    (image_words : ℕ → Text) where
  first-link :
      (previous : Option ℕ) (xs : List SemanticChunk) (b : SemanticChunk)
      → get_elem?
          (link limit document_id version_id security_class new_id image_words previous xs)
          0
        ≡ some b
      → (first_id limit document_id version_id security_class new_id image_words xs
          ≡ some b.chunk_id)
        × (b.previous_chunk_id ≡ previous)
  unfolding link
  first-link previous [] b h = cc
  first-link previous (x ∷ rest) b h = ground arith

  link_neighbours :
      (previous : Option ℕ) (xs : List SemanticChunk) (i : ℕ) (a b : SemanticChunk)
      → get_elem?
          (link limit document_id version_id security_class new_id image_words previous xs)
          i
        ≡ some a
      → get_elem?
          (link limit document_id version_id security_class new_id image_words previous xs)
          (suc i)
        ≡ some b
      → (a.next_chunk_id ≡ some b.chunk_id) × (b.previous_chunk_id ≡ some a.chunk_id)
  unfolding link
  link_neighbours previous [] i a b h k = cc
  link_neighbours previous (x ∷ rest) zero a b h k =
      let (next, back) = first-link (some x.chunk_id) rest b k in
      let it : record x {
        previous_chunk_id = previous;
        next_chunk_id =
            first_id limit document_id version_id security_class new_id image_words rest;
      }
          ≡ a =
        ground arith in
      (
        ap (λ (c : SemanticChunk). c.next_chunk_id) (sym it) ∙ next,
        back ∙ ap (λ (c : SemanticChunk). some c.chunk_id) it,
      )
  link_neighbours previous (x ∷ rest) (suc i) a b h k =
      link_neighbours (some x.chunk_id) rest i a b h k

  -- In the chunks of a document, each chunk names the next one as its successor, which names it as its
  -- predecessor.
  pub chunk_document_linked :
      (document : NormalizedDocument) (i : ℕ) (a b : SemanticChunk) {chunks : List SemanticChunk}
      → chunk_document limit document_id version_id security_class new_id image_words document
        ≡ ok chunks
      → get_elem? chunks i ≡ some a
      → get_elem? chunks (suc i) ≡ some b
      → (a.next_chunk_id ≡ some b.chunk_id) × (b.previous_chunk_id ≡ some a.chunk_id)
  unfolding chunk_document
  chunk_document_linked document i a b {chunks} made h k =
      let it : link limit document_id version_id security_class new_id image_words none (
            add_sections limit document_id version_id security_class new_id image_words
              document.sections [])
          ≡ chunks =
        ground arith in
      link_neighbours none
        (add_sections limit document_id version_id security_class new_id image_words
          document.sections [])
        i a b (subst (λ cs. get_elem? cs i ≡ some a) (sym it) h)
        (subst (λ cs. get_elem? cs (suc i) ≡ some b) (sym it) k)
