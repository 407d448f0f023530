-- ===== src/Chunking/Evidence/Grounded.antt =====
-- What `validate_evidence` accepts.
use mathlib.Core.List.{Memᴰ}
use capstone_nps.Base.{option_eq, length, ◌↔◌}
use capstone_nps.Base.Words.{text_eq, text_beq_iff}
use capstone_nps.Contracts.{SlidePlanContract, SemanticChunk, Evidence, PlannedSlide, ContentBlock}
use capstone_nps.Base.{
  List, ℕ, All, contains, any, not, ◌≡◌, ◌∷◌, ◌≢◌, true, false, [], none, some, ◌++◌, Option-cases,
  subst, arith, Bool-cases, ◌==◌, nat_beq_iff, sym, nat_eq, inl, refl, inr, ap, ==_iff, ◌∙◌,
}
use capstone_nps.Chunking.Evidence.{
  get_chunk, check_ref, check_refs, check_slides, validate_evidence, refs_of, block_refs,
}
use capstone_nps.Base.Errors.{ok}
use capstone_nps.Base.Membership.{append-All, All-append}

-- The reference names a chunk, of a document version of the plan, in the section and on the page that it
-- says, and nodes that the chunk holds.
pub record Grounded (plan : SlidePlanContract) (chunks : List SemanticChunk) (ref : Evidence)
    : Type 0 where
  pub chunk : SemanticChunk
  pub stored : Memᴰ chunk chunks
  pub identity : chunk.chunk_id ≡ ref.chunk_id
  pub version : chunk.version_id ≡ ref.document_version_id
  pub in_plan : Memᴰ ref.document_version_id plan.document_versions
  pub section : chunk.section_id ≡ ref.section
  pub page : ref.page ≡ chunk.source_location.page
  pub nodes : All (λ n. Memᴰ n (chunk.table_refs ++ chunk.image_refs)) ref.node_ids

abbrev pub SlideGrounded : SlidePlanContract → List SemanticChunk → PlannedSlide → Type 0
SlideGrounded plan chunks slide =
    All (Grounded plan chunks) slide.source_refs
    × All (λ (b : ContentBlock). All (Grounded plan chunks) b.source_refs) slide.content_blocks

-- No two chunks share an id: the primary key of their table.
abbrev pub ChunksUnique : List SemanticChunk → Type 0
ChunksUnique [] = Unit
ChunksUnique (c ∷ rest) =
    All (λ (d : SemanticChunk). d.chunk_id ≢ c.chunk_id) rest × ChunksUnique rest

contains-Memᴰ : (n : ℕ) (ns : List ℕ) → contains n ns ≡ true → Memᴰ n ns
contains-Memᴰ n [] h = cc
contains-Memᴰ n (m ∷ ns) h = elim (Bool-cases (n == m)) [
  | inl same ↦ Memᴰ.head ((nat_beq_iff n m).0 same)
  | inr differ ↦ Memᴰ.tail (contains-Memᴰ n ns (ground arith))
]

Memᴰ-contains : (n : ℕ) (ns : List ℕ) → Memᴰ n ns → contains n ns ≡ true
Memᴰ-contains n [] m = elim m [ ]
Memᴰ-contains n (k ∷ ns) (Memᴰ.head e) = ground (arith, (nat_beq_iff n k).1 e)
Memᴰ-contains n (k ∷ ns) (Memᴰ.tail m) = ground (arith, Memᴰ-contains n ns m)

none_outside :
    (ns refs : List ℕ) → any (λ n. not (contains n refs)) ns ≡ false → All (λ n. Memᴰ n refs) ns
none_outside [] refs h = tt
none_outside (n ∷ ns) refs h =
    (contains-Memᴰ n refs (ground arith), none_outside ns refs (ground arith))

none_outside_back :
    (ns refs : List ℕ) → All (λ n. Memᴰ n refs) ns → any (λ n. not (contains n refs)) ns ≡ false
none_outside_back [] refs h = refl
none_outside_back (n ∷ ns) refs h =
    ground (arith, Memᴰ-contains n refs h.0, none_outside_back ns refs h.1)

get_chunk-Memᴰ :
    (id : ℕ) (chunks : List SemanticChunk) (c : SemanticChunk)
    → get_chunk id chunks ≡ some c
    → Memᴰ c chunks × (c.chunk_id ≡ id)
unfolding get_chunk
get_chunk-Memᴰ id [] c h = cc
get_chunk-Memᴰ id (d ∷ rest) c h = elim (Option-cases (get_chunk id rest)) [
  | inl gone ↦ elim (Bool-cases (d.chunk_id == id)) [
    | inl same ↦
        let it : c ≡ d = ground arith in
        (
          Memᴰ.head it,
          ap (λ (x : SemanticChunk). x.chunk_id) it ∙ (nat_beq_iff d.chunk_id id).0 same,
        )
    | inr differ ↦ absurd (ground arith)
  ]
  | inr (later, there) ↦
      let it : later ≡ c = ground arith in
      let (m, e) = get_chunk-Memᴰ id rest c (ground arith) in (Memᴰ.tail m, e)
]

get_chunk_absent :
    (id : ℕ) (chunks : List SemanticChunk)
    → All (λ (d : SemanticChunk). d.chunk_id ≢ id) chunks
    → get_chunk id chunks ≡ none
unfolding get_chunk
get_chunk_absent id [] h = refl
get_chunk_absent id (d ∷ rest) h = ground (arith, get_chunk_absent id rest h.1, h.0)

Memᴰ-get_chunk :
    (chunks : List SemanticChunk) (c : SemanticChunk)
    → ChunksUnique chunks
    → Memᴰ c chunks
    → get_chunk c.chunk_id chunks ≡ some c
unfolding get_chunk
Memᴰ-get_chunk [] c u m = elim m [ ]
Memᴰ-get_chunk (d ∷ rest) c u (Memᴰ.head e) =
    subst (λ x. get_chunk x.chunk_id (d ∷ rest) ≡ some x) (sym e)
      (ground (arith, get_chunk_absent d.chunk_id rest u.0))
Memᴰ-get_chunk (d ∷ rest) c u (Memᴰ.tail m) = rw (Memᴰ-get_chunk rest c u.1 m)

module _ (plan : SlidePlanContract) (chunks : List SemanticChunk) where
  check_ref-Grounded :
      (ref : Evidence) → check_ref plan chunks ref ≡ ok tt → Grounded plan chunks ref
  unfolding check_ref option_eq
  check_ref-Grounded ref h = elim (Option-cases (get_chunk ref.chunk_id chunks)) [
    | inl gone ↦ absurd (ground arith)
    | inr (c, there) ↦
        let (m, e) = get_chunk-Memᴰ ref.chunk_id chunks c there in
        record {
          chunk = c;
          stored = m;
          identity = e;
          version = ground arith;
          in_plan = contains-Memᴰ ref.document_version_id plan.document_versions (ground arith);
          section = (text_beq_iff c.section_id ref.section).0 (ground arith);
          page = (==_iff ref.page c.source_location.page).0 (ground arith);
          nodes = none_outside ref.node_ids (c.table_refs ++ c.image_refs) (ground arith);
        }
  ]

  Grounded-check_ref :
      (ref : Evidence)
      → ChunksUnique chunks
      → Grounded plan chunks ref
      → check_ref plan chunks ref ≡ ok tt
  unfolding check_ref option_eq
  Grounded-check_ref ref u g =
      let found : get_chunk ref.chunk_id chunks ≡ some g.chunk =
        subst (λ id. get_chunk id chunks ≡ some g.chunk) g.identity
          (Memᴰ-get_chunk chunks g.chunk u g.stored) in
      ground (
        arith,
        found,
        (nat_beq_iff g.chunk.version_id ref.document_version_id).1 g.version,
        (text_beq_iff g.chunk.section_id ref.section).1 g.section,
        Memᴰ-contains ref.document_version_id plan.document_versions g.in_plan,
        (==_iff ref.page g.chunk.source_location.page).1 g.page,
        none_outside_back ref.node_ids (g.chunk.table_refs ++ g.chunk.image_refs) g.nodes,
      )

module _ (plan : SlidePlanContract) (chunks : List SemanticChunk) where
  check_refs-Grounded :
      (refs : List Evidence) → check_refs plan chunks refs ≡ ok tt → All (Grounded plan chunks) refs
  unfolding check_refs
  check_refs-Grounded [] h = tt
  check_refs-Grounded (ref ∷ rest) h =
      (check_ref-Grounded plan chunks ref (ground arith), check_refs-Grounded rest (ground arith))

  Grounded-check_refs :
      (refs : List Evidence)
      → ChunksUnique chunks
      → All (Grounded plan chunks) refs
      → check_refs plan chunks refs ≡ ok tt
  unfolding check_refs
  Grounded-check_refs [] u g = refl
  Grounded-check_refs (ref ∷ rest) u g =
      rw (Grounded-check_ref plan chunks ref u g.0) (Grounded-check_refs rest u g.1)

  -- The references of a slide, as one list and by block.
  refs-SlideGrounded :
      (slide : PlannedSlide)
      → All (Grounded plan chunks) (refs_of slide)
      → SlideGrounded plan chunks slide
  refs-SlideGrounded slide h =
      let (own, rest) = append-All (Grounded plan chunks) slide.source_refs _ h in
      (own, of_blocks slide.content_blocks rest)
    where
      of_blocks :
          (blocks : List ContentBlock)
          → All (Grounded plan chunks) (block_refs blocks)
          → All (λ (b : ContentBlock). All (Grounded plan chunks) b.source_refs) blocks
      of_blocks [] g = tt
      of_blocks (b ∷ bs) g =
          let (here, later) = append-All (Grounded plan chunks) b.source_refs _ g in
          (here, of_blocks bs later)

  SlideGrounded-refs :
      (slide : PlannedSlide)
      → SlideGrounded plan chunks slide
      → All (Grounded plan chunks) (refs_of slide)
  SlideGrounded-refs slide h =
      All-append (Grounded plan chunks) slide.source_refs _ h.0 (of_blocks slide.content_blocks h.1)
    where
      of_blocks :
          (blocks : List ContentBlock)
          → All (λ (b : ContentBlock). All (Grounded plan chunks) b.source_refs) blocks
          → All (Grounded plan chunks) (block_refs blocks)
      of_blocks [] g = tt
      of_blocks (b ∷ bs) g =
          All-append (Grounded plan chunks) b.source_refs _ g.0 (of_blocks bs g.1)

  check_slides-Grounded :
      (slides : List PlannedSlide)
      → check_slides plan chunks slides ≡ ok tt
      → All (SlideGrounded plan chunks) slides
  unfolding check_slides
  check_slides-Grounded [] h = tt
  check_slides-Grounded (s ∷ rest) h = (
    refs-SlideGrounded s (check_refs-Grounded (refs_of s) (ground arith)),
    check_slides-Grounded rest (ground arith),
  )

  Grounded-check_slides :
      (slides : List PlannedSlide)
      → ChunksUnique chunks
      → All (SlideGrounded plan chunks) slides
      → check_slides plan chunks slides ≡ ok tt
  unfolding check_slides
  Grounded-check_slides [] u g = refl
  Grounded-check_slides (s ∷ rest) u g =
      rw (Grounded-check_refs (refs_of s) u (SlideGrounded-refs s g.0))
        (Grounded-check_slides rest u g.1)

  -- Among chunks with different ids, a plan is accepted exactly when every reference of its slides and of
  -- their blocks names a chunk of a document version of the plan, the section and the page that chunk is
  -- from, and nodes that the chunk holds; the result is then the number of slides.
  pub validate_evidence_iff :
      ChunksUnique chunks
      → (validate_evidence plan chunks ≡ ok (length plan.slides))
        ↔ All (SlideGrounded plan chunks) plan.slides
  unfolding validate_evidence
  validate_evidence_iff u = (
    λ h. check_slides-Grounded plan.slides (ground arith),
    λ g. rw (Grounded-check_slides plan.slides u g),
  )

  pub validate_evidence-eq-ok :
      {n : ℕ} → validate_evidence plan chunks ≡ ok n → All (SlideGrounded plan chunks) plan.slides
  unfolding validate_evidence
  validate_evidence-eq-ok h = check_slides-Grounded plan.slides (ground arith)
