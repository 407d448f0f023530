-- ===== src/Chunking/Document/Budget.antt =====
-- The token budget of chunks: `chunk_tokens` bounds every chunk of running text.
use capstone_nps.Base.{
  none, some, ℕ, Option, ◌≡◌, All, ◌≤◌, List, [], refl, length, Bool-cases, ◌++◌, arith, ◌∷◌, ltb,
  inl, inr, false, Bool, not, true, ◌==◌, nat_eq,
}
use capstone_nps.Chunking.Tokens.{token_count, token_count_le, pieces, pieces_short, sentences}
use capstone_nps.Chunking.Document.{
  Progress, flush, join_lines, add_piece, parts_of, append_piece, add_sections, add_pieces,
  add_node, link, add_nodes, chunk_document, add_sentences, refs_if, is_block_node,
}
use capstone_nps.Contracts.{SemanticChunk, SourceLocation, Node, Section, NormalizedDocument}
use capstone_nps.Base.Words.{Text}
use capstone_nps.Base.Membership.{All-append}
use capstone_nps.Base.Errors.{ok}

-- A chunk of running text, which stands for no table and no image, keeps to the budget.
abbrev pub InBudget : (limit : ℕ) → SemanticChunk → Type 0
InBudget limit c = c.table_refs ≡ [] → c.image_refs ≡ [] → c.token_count ≤ limit

abbrev PendingFits : (limit : ℕ) → Option (SourceLocation × List Text) → Type 0
PendingFits limit none = Unit
PendingFits limit (some (location, parts)) = token_count (join_lines parts) ≤ limit

abbrev Fitting : (limit : ℕ) → Progress → Type 0
Fitting limit st = All (InBudget limit) st.result × PendingFits limit st.pending

le_of_ltb : (a b : ℕ) → ltb a b ≡ false → b ≤ a
le_of_ltb a b h = ground arith

not_zero : (a : ℕ) → 1 ≤ a → (a == 0) ≡ false
not_zero a h = ground arith

module _ (limit : ℕ) (document_id version_id : ℕ) (security_class : Text) (new_id : ℕ → ℕ)
    (image_words : ℕ → Text) (positive : 1 ≤ limit) where
  flush-Fitting :
      (section_id : Text) (st : Progress)
      → Fitting limit st
      → Fitting limit
          (flush limit document_id version_id security_class new_id image_words section_id st)
  unfolding flush
  flush-Fitting section_id st h = by_pending st.pending st.result h
    where
      by_pending :
          (pending : Option (SourceLocation × List Text)) (result : List SemanticChunk)
          → Fitting limit (record { result = result; pending = pending })
          → Fitting limit (
              flush limit document_id version_id security_class new_id image_words section_id
                (record { result = result; pending = pending }))
      by_pending none result g = g
      by_pending (some (location, parts)) result g =
          (All-append (InBudget limit) result _ g.0 ((λ t i. g.1), tt), tt)

  piece_fits : (piece : Text) → length piece ≤ limit → token_count piece ≤ limit
  piece_fits piece short = omega (arith, token_count_le piece, short, positive)

  -- Putting a piece behind what is pending, when it is within the budget or nothing is pending.
  append_piece-Fitting :
      (location : SourceLocation) (piece : Text) (result : List SemanticChunk)
      (pending : Option (SourceLocation × List Text))
      → All (InBudget limit) result
      → token_count (
          join_lines (
            parts_of limit document_id version_id security_class new_id image_words pending
            ++ piece ∷ []))
        ≤ limit
      → Fitting limit (
          append_piece limit document_id version_id security_class new_id image_words location piece
            (record { result = result; pending = pending }))
  append_piece-Fitting location piece result none h fits = (h, fits)
  append_piece-Fitting location piece result (some (start, parts)) h fits = (h, fits)

  flush-pending :
      (section_id : Text) (st : Progress)
      → (flush limit document_id version_id security_class new_id image_words section_id st).pending
        ≡ none
  unfolding flush
  flush-pending section_id st = by_pending st.pending st.result
    where
      by_pending :
          (pending : Option (SourceLocation × List Text)) (result : List SemanticChunk)
          → (flush limit document_id version_id security_class new_id image_words section_id
              (record { result = result; pending = pending })).pending
            ≡ none
      by_pending none result = refl
      by_pending (some (location, parts)) result = refl

  add_piece-Fitting :
      (section_id : Text) (location : SourceLocation) (piece : Text) (st : Progress)
      → length piece ≤ limit
      → Fitting limit st
      → Fitting limit (
          add_piece limit document_id version_id security_class new_id image_words section_id
            location piece st)
  unfolding add_piece
  add_piece-Fitting section_id location piece st short h =
      elim (Bool-cases (
        ltb limit (
          token_count (
            join_lines (
              parts_of limit document_id version_id security_class new_id image_words st.pending
              ++ piece ∷ []))))) [
                | inl full ↦
                    let st' =
                      flush limit document_id version_id security_class new_id image_words
                        section_id st in
                    let empty = flush-pending section_id st in
                    rw full (
                      append_piece-Fitting location piece st'.result st'.pending
                        (flush-Fitting section_id st h).0 (rw empty (piece_fits piece short)))
                | inr room ↦ rw room (
                    append_piece-Fitting location piece st.result st.pending h.0
                      (le_of_ltb limit _ room))
              ]

  add_pieces-Fitting :
      (section_id : Text) (location : SourceLocation) (ps : List Text) (st : Progress)
      → All (λ p. length p ≤ limit) ps
      → Fitting limit st
      → Fitting limit (
          add_pieces limit document_id version_id security_class new_id image_words section_id
            location ps st)
  unfolding add_pieces
  add_pieces-Fitting section_id location [] st short h = h
  add_pieces-Fitting section_id location (p ∷ rest) st short h =
      add_pieces-Fitting section_id location rest _ short.1
        (add_piece-Fitting section_id location p st short.0 h)

  add_sentences-Fitting :
      (section_id : Text) (location : SourceLocation) (ss : List Text) (st : Progress)
      → Fitting limit st
      → Fitting limit (
          add_sentences limit document_id version_id security_class new_id image_words section_id
            location ss st)
  unfolding add_sentences
  add_sentences-Fitting section_id location [] st h = h
  add_sentences-Fitting section_id location (s ∷ rest) st h =
      add_sentences-Fitting section_id location rest _
        (add_pieces-Fitting section_id location (pieces limit s) st (pieces_short limit s) h)

  -- The chunk of a table or an image has a reference, so that no budget is asked of it.
  block_refs_set : (table : Bool) (id : ℕ) → refs_if table id ≡ [] → refs_if (not table) id ≡ [] → ⊥
  block_refs_set true id h k = cc
  block_refs_set false id h k = cc

  add_node-Fitting :
      (section_id : Text) (node : Node) (st : Progress)
      → Fitting limit st
      → Fitting limit (
          add_node limit document_id version_id security_class new_id image_words section_id node
            st)
  unfolding add_node
  add_node-Fitting section_id node st h = elim (Bool-cases (is_block_node node.type)) [
    | inr running_text ↦
        rw running_text
          (add_sentences-Fitting section_id node.source_location (sentences node.text) st h)
    | inl a_block ↦
        let g = flush-Fitting section_id st h in
        rw a_block (
          All-append (InBudget limit) _ _ g.0
              ((λ t i. absurd (block_refs_set _ node.node_id t i)), tt),
          g.1,
        )
  ]

  add_nodes-Fitting :
      (section_id : Text) (nodes : List Node) (st : Progress)
      → Fitting limit st
      → Fitting limit (
          add_nodes limit document_id version_id security_class new_id image_words section_id nodes
            st)
  unfolding add_nodes
  add_nodes-Fitting section_id [] st h = h
  add_nodes-Fitting section_id (n ∷ rest) st h =
      add_nodes-Fitting section_id rest _ (add_node-Fitting section_id n st h)

  add_sections-InBudget :
      (sections : List Section) (result : List SemanticChunk)
      → All (InBudget limit) result
      → All (InBudget limit) (
          add_sections limit document_id version_id security_class new_id image_words sections
            result)
  unfolding add_sections
  add_sections-InBudget [] result h = h
  add_sections-InBudget (s ∷ rest) result h =
      add_sections-InBudget rest _
        (flush-Fitting s.section_id _ (
          add_nodes-Fitting s.section_id s.nodes (record { result = result; pending = none })
            (h, tt))).0

  link-InBudget :
      (previous : Option ℕ) (chunks : List SemanticChunk)
      → All (InBudget limit) chunks
      → All
          (InBudget limit)
          (link limit document_id version_id security_class new_id image_words previous chunks)
  unfolding link
  link-InBudget previous [] h = tt
  link-InBudget previous (c ∷ rest) h = (h.0, link-InBudget (some c.chunk_id) rest h.1)

  -- With a positive budget `chunk_document` returns, and no chunk of running text in its result has more
  -- than `chunk_tokens` tokens.
  pub chunk_document-InBudget :
      (document : NormalizedDocument)
      → (chunks : List SemanticChunk) × (chunk_document limit document_id version_id security_class
            new_id image_words document
          ≡ ok chunks)
        × All (InBudget limit) chunks
  unfolding chunk_document
  chunk_document-InBudget document = (
    link limit document_id version_id security_class new_id image_words none (
        add_sections limit document_id version_id security_class new_id image_words
          document.sections []),
    rw (not_zero limit positive),
    link-InBudget none _ (add_sections-InBudget document.sections [] tt),
  )
