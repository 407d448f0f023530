-- ===== src/Hwp/Parse/Answers.antt =====
-- The reader of HWP files comes to an end, and what it accepts is bounded.
use capstone_nps.Hwp.Parse.{
  parse, BodyStream, place_stream, sorted_streams, Inflated, check_header, OleFile, byte_at,
  has_flag, read_sections, flags_of, check_size, section_number,
}
use capstone_nps.Base.Answers.{Answers, Answers-option, Answers-raise_if, Answers-bind}
use capstone_nps.Base.{
  List, length, ℕ, Option, ◌≡◌, suc, ◌∷◌, arith, [], ◌≤◌, refl, ltb, not, ◌||◌, ◌==◌, ◌++◌, ◌+◌,
  nat_eq, none, some, All, Bool-cases, leb, inl, inr,
}
use capstone_nps.Config.{Settings}
use capstone_nps.Hwp.Records.{Bytes}
use capstone_nps.Contracts.{NormalizedDocument, Section}
use capstone_nps.Base.Errors.{
  raise, doc_malformed, hwp_adapter_disabled, doc_resource_limit, hwp_format_unsupported, doc_empty,
  hwp_version_unsupported, doc_encrypted, hwp_distribution_unsupported, hwp_drm_unsupported, ok,
  Result,
}
use capstone_nps.Hwp.Parse.Sections.{total_nodes, read_sections-Answers, IsReadableStream}
use capstone_nps.Base.Words.{starts_with, text}

module _ (config : Settings) where
  check_size-Answers :
      (ole : OleFile) (size : ℕ)
      → Answers (λ (header : Bytes). Unit) ole.header
      → Answers (λ (flags : ℕ). Unit) (check_size config ole size)
  unfolding check_size
  check_size-Answers ole size read_it =
      Answers-raise_if (λ (flags : ℕ). Unit) (ltb 4096 size) doc_resource_limit 422 _
        (λ a.
          Answers-bind (λ (header : Bytes). Unit) (λ (flags : ℕ). Unit) ole.header _ read_it
            (λ header anything.
              Answers-raise_if (λ (flags : ℕ). Unit)
                (ltb (length header) 256
                  || not (starts_with (text "HWP Document File" ++ 0 ∷ []) header))
                doc_malformed 422 _
                (λ b.
                  Answers-raise_if (λ (flags : ℕ). Unit) (not (byte_at 35 header == 5))
                    hwp_version_unsupported 422 _
                    (λ c.
                      Answers-raise_if (λ (flags : ℕ). Unit) (has_flag 2 (flags_of header))
                        doc_encrypted 422 _
                        (λ d.
                          Answers-raise_if (λ (flags : ℕ). Unit) (has_flag 4 (flags_of header))
                            hwp_distribution_unsupported 422 _
                            (λ e.
                              Answers-raise_if (λ (flags : ℕ). Unit)
                                (has_flag 16 (flags_of header)
                                  || has_flag 256 (flags_of header)
                                  || has_flag 1024 (flags_of header))
                                hwp_drm_unsupported 422 _
                                (λ g.
                                  Answers-raise_if (λ (flags : ℕ). Unit)
                                    (ltb config.archive_max_entries ole.entries) doc_resource_limit
                                    422 (ok (flags_of header)) (λ i. tt))))))))

  check_header-Answers :
      (ole : OleFile)
      → Answers (λ (size : Option ℕ). Unit) ole.header_size
      → Answers (λ (header : Bytes). Unit) ole.header
      → Answers (λ (flags : ℕ). Unit) (check_header config ole)
  unfolding check_header
  check_header-Answers ole sized read_it =
      Answers-bind (λ (size : Option ℕ). Unit) (λ (flags : ℕ). Unit) ole.header_size _ sized
        (λ size anything.
          Answers-option (λ (size : Option ℕ). Unit) (λ (flags : ℕ). Unit) (raise doc_malformed 422)
            (λ found. check_size config ole found) (λ nothing. tt)
            (λ found anything. check_size-Answers ole found read_it) size tt)

length-place_stream :
    (s : BodyStream) (streams : List BodyStream)
    → length (place_stream s streams) ≡ suc (length streams)
length-place_stream s [] = refl
length-place_stream s (t ∷ rest) = ground (arith, length-place_stream s rest)

length-sorted_streams :
    (streams : List BodyStream) → length (sorted_streams streams) ≡ length streams
length-sorted_streams [] = refl
length-sorted_streams (s ∷ rest) =
    ground (arith, length-sorted_streams rest, length-place_stream s (sorted_streams rest))

All-place_stream :
    (P : BodyStream → Type 0) (s : BodyStream) (streams : List BodyStream)
    → P s
    → All P streams
    → All P (place_stream s streams)
All-place_stream P s [] p h = (p, tt)
All-place_stream P s (t ∷ rest) p h =
    elim (Bool-cases (leb (section_number s) (section_number t))) [
      | inl here ↦ rw here (p, h)
      | inr later ↦ rw later (h.0, All-place_stream P s rest p h.1)
    ]

All-sorted_streams :
    (P : BodyStream → Type 0) (streams : List BodyStream)
    → All P streams
    → All P (sorted_streams streams)
All-sorted_streams P [] h = tt
All-sorted_streams P (s ∷ rest) h =
    All-place_stream P s (sorted_streams rest) h.0 (All-sorted_streams P rest h.1)

-- olefile does not raise `OSError` on the file: neither when it is opened, nor at one of the reads.
abbrev pub IsReadable : Option (Result OleFile) → Type 0
IsReadable none = Unit
IsReadable (some opened) =
    Answers
      (λ (ole : OleFile).
        Answers (λ (size : Option ℕ). Unit) ole.header_size
        × Answers (λ (header : Bytes). Unit) ole.header
        × All IsReadableStream ole.streams)
      opened

-- The reader comes to an end on every file on which olefile raises no `OSError`, whatever its bytes are and
-- whatever zlib makes of them: the fuel of its loops never runs out, and it returns a document or raises a
-- `DomainError`. A document that it returns has a section, no more sections than `max_pages`, and no more
-- nodes than `max_cells`.
pub parse-Answers :
    (config : Settings) (inflate : Bytes → (limit : ℕ) → Option Inflated) (uuid4 : ℕ → ℕ)
    (file : Option (Result OleFile))
    → IsReadable file
    → Answers
        (λ (document : NormalizedDocument).
          (1 ≤ length document.sections)
          × (length document.sections ≤ config.max_pages)
          × (total_nodes document.sections ≤ config.max_cells))
        (parse config inflate uuid4 file)
unfolding parse
parse-Answers config inflate uuid4 file readable =
    let Bounded : NormalizedDocument → Type 0 = λ (document : NormalizedDocument).
      (1 ≤ length document.sections)
      × (length document.sections ≤ config.max_pages)
      × (total_nodes document.sections ≤ config.max_cells) in
    Answers-raise_if Bounded (not config.hwp_enabled) hwp_adapter_disabled 422 _ (λ enabled.
      Answers-option IsReadable Bounded (raise hwp_format_unsupported 422) _ (λ nothing. tt)
        (λ opened opens.
          Answers-bind
            (λ (ole : OleFile).
              Answers (λ (size : Option ℕ). Unit) ole.header_size
              × Answers (λ (header : Bytes). Unit) ole.header
              × All IsReadableStream ole.streams)
            Bounded opened _ opens
            (λ ole reads.
              Answers-bind (λ (flags : ℕ). Unit) Bounded (check_header config ole) _
                (check_header-Answers config ole reads.0 reads.1)
                (λ flags checked.
                  Answers-raise_if Bounded (length ole.streams == 0) doc_empty 422 _ (λ some_stream.
                    Answers-raise_if Bounded (ltb config.max_pages (length ole.streams))
                      doc_resource_limit 422 _
                      (λ few.
                        Answers-bind
                          (λ (sections : List Section).
                            (0 + total_nodes sections ≤ config.max_cells)
                            × (length sections ≤ length (sorted_streams ole.streams)))
                          Bounded
                          (read_sections config inflate uuid4 flags 0 0
                            (sorted_streams ole.streams))
                          _
                          (read_sections-Answers config inflate uuid4 flags 0 0
                            (sorted_streams ole.streams)
                            (All-sorted_streams IsReadableStream ole.streams reads.2)
                            (ground arith))
                          (λ sections bounds.
                            Answers-raise_if Bounded (length sections == 0) doc_empty 422 _
                              (λ content. (
                                ground arith,
                                ground (arith, length-sorted_streams ole.streams),
                                ground arith,
                              ))))))))
        file readable)
