-- ===== src/Hwp/Parse/Sections.antt =====
-- The sections that the reader of HWP files makes of the streams, within the limits.
use capstone_nps.Base.{
  ℕ, none, some, List, Option, ◌∷◌, length, ◌+◌, ◌≤◌, [], Bool-cases, arith, ltb, suc, ◌==◌, ◌++◌,
  inr, ◌-◌, inl, take, if◌then◌else◌, zero, nat_eq, ◌||◌, not, All,
}
use capstone_nps.Base.Errors.{◌>>=◌, doc_resource_limit, raise, ok, doc_malformed}
use capstone_nps.Config.{Settings}
use capstone_nps.Hwp.Records.{Bytes, Record, next_record}
use capstone_nps.Contracts.{Section, Node}
use capstone_nps.Hwp.Parse.{
  Inflated, read_sections, read_nodes, node_of, decompress_section, read_body, BodyStream,
  section_of, section_id_of, has_flag,
}
use capstone_nps.Base.Words.{Text, text_eq}
use capstone_nps.Base.Answers.{Answers, Answers-raise_if, Answers-bind, Answers-option, Answers-if}
use capstone_nps.Hwp.Parse.Rounds.{next_record-Answers, paragraph_text-Answers}
use capstone_nps.Hwp.Paragraphs.{paragraph_text}

-- olefile does not raise `OSError` on the stream.
abbrev pub IsReadableStream : BodyStream → Type 0
IsReadableStream s =
    Answers (λ (size : ℕ). Unit) s.size × Answers (λ (contents : Bytes). Unit) s.contents

-- The nodes of a document.
abbrev pub total_nodes : List Section → ℕ
total_nodes [] = 0
total_nodes (s ∷ rest) = length s.nodes + total_nodes rest

-- The nodes after a record: one more, within the limit, or as many.
abbrev FitsWith : Settings → (node_count : ℕ) → Option Node → Type 0
FitsWith config node_count none = Unit
FitsWith config node_count (some kept) = node_count + 1 ≤ config.max_cells

module _ (config : Settings) (inflate : Bytes → (limit : ℕ) → Option Inflated) (uuid4 : ℕ → ℕ) where
  node_of-Answers :
      (sid : Text) (node_count index : ℕ) (found : Record)
      → Answers
          (FitsWith config node_count)
          (node_of config inflate uuid4 sid node_count index found)
  unfolding node_of
  node_of-Answers sid node_count index found = elim (Bool-cases (found.tag == 67)) [
    | inr another ↦ rw (node_of, another) tt
    | inl paragraph ↦
        rw (node_of, paragraph)
          (Answers-bind (λ (words : Text). Unit) (FitsWith config node_count)
            (paragraph_text found.payload) _ (paragraph_text-Answers found.payload)
            (λ words none_needed. elim (Bool-cases (words == [])) [
              | inl blank ↦ rw blank tt
              | inr said ↦ rw said (
                  Answers-raise_if (FitsWith config node_count)
                    (ltb config.max_cells (node_count + 1)) doc_resource_limit 422 _
                    (λ fits. ground arith))
            ]))
  ]

  read_nodes-Answers :
      (fuel : ℕ) (sid : Text) (node_count index : ℕ) (xs : Bytes)
      → length xs ≤ fuel
      → node_count ≤ config.max_cells
      → Answers
          (λ (nodes : List Node). node_count + length nodes ≤ config.max_cells)
          (read_nodes config inflate uuid4 fuel sid node_count index xs)
  unfolding read_nodes
  read_nodes-Answers fuel sid node_count index [] enough room = ground arith
  read_nodes-Answers zero sid node_count index (x ∷ rest) enough room = absurd (ground arith)
  read_nodes-Answers (suc n) sid node_count index (x ∷ rest) enough room =
      Answers-bind (λ (found : Record × Bytes). length found.1 + 4 ≤ length (x ∷ rest))
        (λ (nodes : List Node). node_count + length nodes ≤ config.max_cells)
        (next_record config index (x ∷ rest)) _ (next_record-Answers config index (x ∷ rest))
        (λ found shorter.
          Answers-bind (FitsWith config node_count)
            (λ (nodes : List Node). node_count + length nodes ≤ config.max_cells)
            (node_of config inflate uuid4 sid node_count index found.0) _
            (node_of-Answers sid node_count index found.0)
            (Answers-option (FitsWith config node_count)
              (λ (nodes : List Node). node_count + length nodes ≤ config.max_cells)
              (read_nodes config inflate uuid4 n sid node_count (index + 1) found.1)
              (λ kept. do
                more ← read_nodes config inflate uuid4 n sid (node_count + 1) (index + 1) found.1
                ok (kept ∷ more))
              (λ nothing.
                read_nodes-Answers n sid node_count (index + 1) found.1 (ground arith) room)
              (λ kept fits.
                Answers-bind
                  (λ (nodes : List Node). node_count + 1 + length nodes ≤ config.max_cells)
                  (λ (nodes : List Node). node_count + length nodes ≤ config.max_cells)
                  (read_nodes config inflate uuid4 n sid (node_count + 1) (index + 1) found.1) _
                  (read_nodes-Answers n sid (node_count + 1) (index + 1) found.1 (ground arith)
                    fits)
                  (λ more below. ground arith))))

  decompress_section-Answers :
      (compressed : Bytes) (limit : ℕ)
      → Answers (λ (body : Bytes). Unit) (decompress_section inflate compressed limit)
  unfolding decompress_section
  decompress_section-Answers compressed limit =
      Answers-raise_if (λ (body : Bytes). Unit) (limit == 0) doc_resource_limit 422 _
        (λ some_left.
          Answers-option (λ (found : Option Inflated). Unit) (λ (body : Bytes). Unit)
            (raise doc_malformed 422) _ (λ nothing. tt)
            (λ found anything.
              Answers-raise_if (λ (body : Bytes). Unit)
                (ltb limit (length found.body) || found.has_tail) doc_resource_limit 422 _
                (λ fits.
                  Answers-raise_if (λ (body : Bytes). Unit) (not found.is_eof) doc_malformed 422
                    (ok found.body) (λ whole. tt)))
            (inflate compressed (limit + 1)) tt)

  read_body-Answers :
      (flags total_bytes : ℕ) (stream : BodyStream)
      → IsReadableStream stream
      → Answers
          (λ (got : Bytes × ℕ). got.1 ≤ config.archive_max_bytes)
          (read_body config inflate uuid4 flags total_bytes stream)
  unfolding read_body
  read_body-Answers flags total_bytes stream (sized, filled) =
      let remaining = config.archive_max_bytes - total_bytes in
      Answers-bind (λ (size : ℕ). Unit) (λ (got : Bytes × ℕ). got.1 ≤ config.archive_max_bytes)
        stream.size _ sized
        (λ size anything.
          Answers-raise_if (λ (got : Bytes × ℕ). got.1 ≤ config.archive_max_bytes)
            (ltb remaining size) doc_resource_limit 422 _
            (λ fits.
              Answers-bind (λ (contents : Bytes). Unit)
                (λ (got : Bytes × ℕ). got.1 ≤ config.archive_max_bytes) stream.contents _ filled
                (λ contents anything.
                  let raw = take (remaining + 1) contents in
                  Answers-bind (λ (body : Bytes). Unit)
                    (λ (got : Bytes × ℕ). got.1 ≤ config.archive_max_bytes)
                    (if has_flag 1 flags then decompress_section inflate raw remaining else ok raw)
                    _
                    (Answers-if (λ (body : Bytes). Unit) (has_flag 1 flags)
                      (decompress_section inflate raw remaining) (ok raw)
                      (decompress_section-Answers raw remaining) tt)
                    (λ body anything.
                      Answers-raise_if (λ (got : Bytes × ℕ). got.1 ≤ config.archive_max_bytes)
                        (ltb config.archive_max_bytes (total_bytes + length body))
                        doc_resource_limit 422 (ok (body, total_bytes + length body))
                        (λ small. ground arith)))))

  section_of-fits :
      (sid : Text) (node_count : ℕ) (nodes : List Node) (more : List Section) (bound : ℕ)
      → (node_count + length nodes + total_nodes more ≤ config.max_cells) × (length more ≤ bound)
      → (node_count + total_nodes (section_of config inflate uuid4 sid nodes ++ more)
          ≤ config.max_cells)
        × (length (section_of config inflate uuid4 sid nodes ++ more) ≤ suc bound)
  section_of-fits sid node_count [] more bound (few, short) = (ground arith, ground arith)
  section_of-fits sid node_count (n ∷ ns) more bound (few, short) = (ground arith, ground arith)

  pub read_sections-Answers :
      (flags total_bytes node_count : ℕ) (streams : List BodyStream)
      → All IsReadableStream streams
      → node_count ≤ config.max_cells
      → Answers
          (λ (sections : List Section).
            (node_count + total_nodes sections ≤ config.max_cells)
            × (length sections ≤ length streams))
          (read_sections config inflate uuid4 flags total_bytes node_count streams)
  unfolding read_sections
  read_sections-Answers flags total_bytes node_count [] readable room = (ground arith, ground arith)
  read_sections-Answers flags total_bytes node_count (stream ∷ rest) readable room =
      Answers-bind (λ (got : Bytes × ℕ). got.1 ≤ config.archive_max_bytes)
        (λ (sections : List Section).
          (node_count + total_nodes sections ≤ config.max_cells)
          × (length sections ≤ length (stream ∷ rest)))
        (read_body config inflate uuid4 flags total_bytes stream) _
        (read_body-Answers flags total_bytes stream readable.0)
        (λ got small.
          Answers-bind (λ (nodes : List Node). node_count + length nodes ≤ config.max_cells)
            (λ (sections : List Section).
              (node_count + total_nodes sections ≤ config.max_cells)
              × (length sections ≤ length (stream ∷ rest)))
            (read_nodes config inflate uuid4 (length got.0) (section_id_of stream) node_count 0
              got.0)
            _
            (read_nodes-Answers (length got.0) (section_id_of stream) node_count 0 got.0
              (ground arith) room)
            (λ nodes below.
              Answers-bind
                (λ (sections : List Section).
                  (node_count + length nodes + total_nodes sections ≤ config.max_cells)
                  × (length sections ≤ length rest))
                (λ (sections : List Section).
                  (node_count + total_nodes sections ≤ config.max_cells)
                  × (length sections ≤ length (stream ∷ rest)))
                (read_sections config inflate uuid4 flags got.1 (node_count + length nodes) rest) _
                (read_sections-Answers flags got.1 (node_count + length nodes) rest readable.1
                  below)
                (λ more both.
                  section_of-fits (section_id_of stream) node_count nodes more (length rest) both)))
