-- ===== src/Hwp/Parse.antt =====
-- `decompress_section` and `HWPParser.parse` of hwp.py. What olefile and zlib read is given.
pub mod Answers
pub mod Rounds
pub mod Sections
use capstone_nps.Base.{
  ℕ, none, some, Bool, Option, List, ◌+◌, get_elem?, ◌∷◌, if◌then◌else◌, ◌*◌, ◌++◌, [], ◌-◌, ltb,
  false, not, take, ◌==◌, leb, length, nat_eq, ◌||◌, suc, zero, ◌/◌, ◌%◌,
}
use capstone_nps.Base.Errors.{
  ◌>>=◌, ◌>>◌, Result, ok, raise_if, raise, err, doc_malformed, other, hwp_adapter_disabled,
  doc_resource_limit, hwp_format_unsupported, doc_empty, hwp_version_unsupported, doc_encrypted,
  hwp_distribution_unsupported, hwp_drm_unsupported,
}
use capstone_nps.Hwp.Records.{Bytes, next_record, Record}
use capstone_nps.Base.Words.{Text, text, starts_with, text_eq}
use capstone_nps.Config.{Settings}
use capstone_nps.Contracts.{SourceLocation, Node, NodeType, Section, NormalizedDocument}
use capstone_nps.Hwp.Paragraphs.{paragraph_text}

-- What `decompressobj(-15).decompress(data, limit + 1)` returns: the body, whether input is left over, and
-- whether the stream is at its end.
pub record Inflated : Type 0 where
  pub body : Bytes
  pub has_tail : Bool
  pub is_eof : Bool

-- A stream of the folder `BodyText`: the digits after `Section`, and what `get_size` and `read` of it return or
-- raise.
pub record BodyStream : Type 0 where
  pub number : Text
  pub size : Result ℕ
  pub contents : Result Bytes

-- An opened file. `header_size` is `get_size("FileHeader")` where `exists` says so, and `header` what its first
-- 256 bytes are; olefile raises `OSError` on either, as on any stream of a malformed file. `entries` is the
-- length of `listdir()`, and `streams` its entries that the pattern selects.
pub record OleFile : Type 0 where
  pub header_size : Result (Option ℕ)
  pub header : Result Bytes
  pub entries : ℕ
  pub streams : List BodyStream

-- `inflate` is none where zlib raises. The limit is not negative.
unfoldable pub decompress_section :
    (inflate : Bytes → (limit : ℕ) → Option Inflated) → Bytes → (limit : ℕ) → Result Bytes
decompress_section inflate compressed limit = do
  raise_if (limit == 0) doc_resource_limit 422
  elim (inflate compressed (limit + 1)) [
    | none ↦ raise doc_malformed 422
    | some found ↦ do
      raise_if (ltb limit (length found.body) || found.has_tail) doc_resource_limit 422
      raise_if (not found.is_eof) doc_malformed 422
      ok found.body
  ]

-- `header[35]`, and the flags at 36, of a header of 256 bytes.
abbrev pub byte_at : ℕ → Bytes → ℕ
byte_at i bytes = elim (get_elem? bytes i) [ none ↦ 0 | some b ↦ b ]

abbrev pub flags_of : Bytes → ℕ
flags_of header =
    byte_at 36 header
    + 256 * byte_at 37 header
    + 65536 * byte_at 38 header
    + 16777216 * byte_at 39 header

-- `flags & (1 << n)`, for 2 ^ n
abbrev pub has_flag : (power flags : ℕ) → Bool
has_flag zero flags = false
has_flag (suc p) flags = flags / suc p % 2 == 1

-- From the size of the header on.
unfoldable pub check_size : Settings → OleFile → (size : ℕ) → Result ℕ
check_size config ole size = do
  raise_if (ltb 4096 size) doc_resource_limit 422
  header ← ole.header
  raise_if
      (ltb (length header) 256 || not (starts_with (text "HWP Document File" ++ 0 ∷ []) header))
      doc_malformed 422
  raise_if (not (byte_at 35 header == 5)) hwp_version_unsupported 422
  raise_if (has_flag 2 (flags_of header)) doc_encrypted 422
  raise_if (has_flag 4 (flags_of header)) hwp_distribution_unsupported 422
  raise_if
      (has_flag 16 (flags_of header)
        || has_flag 256 (flags_of header)
        || has_flag 1024 (flags_of header))
      hwp_drm_unsupported 422
  raise_if (ltb config.archive_max_entries ole.entries) doc_resource_limit 422
  ok (flags_of header)

unfoldable pub check_header : Settings → OleFile → Result ℕ
unfolding check_size
check_header config ole = do
  found ← ole.header_size
  elim found [ none ↦ raise doc_malformed 422 | some size ↦ check_size config ole size ]

-- `int(n[1][7:])`, of ASCII digits.
abbrev number_from : (acc : ℕ) → Text → ℕ
number_from acc [] = acc
number_from acc (c ∷ rest) = number_from (acc * 10 + (c - 48)) rest

abbrev pub section_number : BodyStream → ℕ
section_number s = number_from 0 s.number

abbrev pub place_stream : BodyStream → List BodyStream → List BodyStream
place_stream s [] = s ∷ []
place_stream s (t ∷ rest) =
    let later = place_stream s rest in
    if leb (section_number s) (section_number t) then s ∷ t ∷ rest else t ∷ later

abbrev pub sorted_streams : List BodyStream → List BodyStream
sorted_streams [] = []
sorted_streams (s ∷ rest) = place_stream s (sorted_streams rest)

-- `"hwp-" + name.lower()`
abbrev pub section_id_of : BodyStream → Text
section_id_of s = text "hwp-section" ++ s.number

abbrev location : (sid : Text) → (index : ℕ) → SourceLocation
location sid index = record {
  page = none;
  section = sid;
  paragraph = some index;
  table = none;
  sheet = none;
}

-- `fresh` is the `node_id` that the default of the field draws.
abbrev paragraph_node : (fresh : ℕ) → (sid : Text) → (index : ℕ) → Text → Node
paragraph_node fresh sid index words = record {
  node_id = fresh;
  type = NodeType.paragraph;
  text = words;
  source_location = location sid index;
  cells = [];
  rows = 0;
  cols = 0;
  header = false;
  image_key = none;
  image_sha256 = none;
}

module _ (config : Settings) (inflate : Bytes → (limit : ℕ) → Option Inflated) (uuid4 : ℕ → ℕ) where
  -- The node of a record, if it has one.
  unfoldable pub node_of : (sid : Text) → (node_count index : ℕ) → Record → Result (Option Node)
  unfolding paragraph_text
  node_of sid node_count index found =
      if not (found.tag == 67)
      then ok none
      else (paragraph_text found.payload >>= λ words.
          if words == []
          then ok none
          else (raise_if (ltb config.max_cells (node_count + 1)) doc_resource_limit 422
              >> ok (some (paragraph_node (uuid4 node_count) sid index words))))

  -- The loop over the records of a section, on fuel like `records`: the nodes, in order.
  unfoldable pub read_nodes :
      (fuel : ℕ) → (sid : Text) → (node_count index : ℕ) → Bytes → Result (List Node)
  unfolding node_of next_record
  read_nodes fuel sid node_count index [] = ok []
  read_nodes zero sid node_count index (x ∷ rest) = err other
  read_nodes (suc n) sid node_count index (x ∷ rest) = do
    found ← next_record config index (x ∷ rest)
    node ← node_of sid node_count index found.0
    elim node [
      | none ↦ read_nodes n sid node_count (index + 1) found.1
      | some kept ↦ do
        more ← read_nodes n sid (node_count + 1) (index + 1) found.1
        ok (kept ∷ more)
    ]

  -- `[:80]` of the first node's text
  abbrev pub section_of : (sid : Text) → List Node → List Section
  section_of sid [] = []
  section_of sid (n ∷ ns) =
      record { section_id = sid; heading = take 80 n.text; nodes = n ∷ ns } ∷ []

  -- The body of a stream, and the total after it.
  unfoldable pub read_body : (flags total_bytes : ℕ) → BodyStream → Result (Bytes × ℕ)
  unfolding decompress_section
  read_body flags total_bytes stream = do
    let remaining = config.archive_max_bytes - total_bytes
    size ← stream.size
    raise_if (ltb remaining size) doc_resource_limit 422
    contents ← stream.contents
    let raw = take (remaining + 1) contents
    body ← if has_flag 1 flags then decompress_section inflate raw remaining else ok raw
    raise_if (ltb config.archive_max_bytes (total_bytes + length body)) doc_resource_limit 422
    ok (body, total_bytes + length body)

  unfoldable pub read_sections :
      (flags total_bytes node_count : ℕ) → List BodyStream → Result (List Section)
  unfolding read_body read_nodes
  read_sections flags total_bytes node_count [] = ok []
  read_sections flags total_bytes node_count (stream ∷ rest) = (do
    got ← read_body flags total_bytes stream
    nodes ← read_nodes (length got.0) (section_id_of stream) node_count 0 got.0
    more ← read_sections flags got.1 (node_count + length nodes) rest
    ok (section_of (section_id_of stream) nodes ++ more))

  -- None: the file is no OLE file; otherwise what `OleFileIO` returns, or raises. The metadata is carried along, and left out.
  unfoldable pub parse : Option (Result OleFile) → Result NormalizedDocument
  unfolding check_header read_sections
  parse file = do
    raise_if (not config.hwp_enabled) hwp_adapter_disabled 422
    elim file [
      | none ↦ raise hwp_format_unsupported 422
      | some opened ↦ do
        ole ← opened
        flags ← check_header config ole
        raise_if (length ole.streams == 0) doc_empty 422
        raise_if (ltb config.max_pages (length ole.streams)) doc_resource_limit 422
        sections ← read_sections flags 0 0 (sorted_streams ole.streams)
        raise_if (length sections == 0) doc_empty 422
        ok (record {
          sections = sections;
          parser_version = text "hwp5-native-1.0";
          warnings = text "HWP_TABLE_IMAGE_STRUCTURE_NOT_AVAILABLE_REVIEW_REQUIRED" ∷ [];
        })
    ]
