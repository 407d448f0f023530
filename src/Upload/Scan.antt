-- ===== src/Upload/Scan.antt =====
-- `validate_file`, the scanners and `security_scan` of upload.py.
pub mod Sliding
use capstone_nps.Base.{
  ℕ, none, some, List, Bool, Option, leb, ◌==◌, ◌∷◌, false, [], true, if◌then◌else◌, ◌&&◌, ◌/◌,
  length, ◌%◌, not, ◌||◌, ◌++◌, take, nat_eq, contains, any, ltb, reverse,
}
use capstone_nps.Base.Errors.{
  ◌>>=◌, ◌>>◌, Result, ok, raise_if, raise, doc_scan_unavailable, err, other, doc_malformed,
  doc_mime_mismatch, doc_malware, doc_too_large,
}
use capstone_nps.Models.{Extension, ScanMode, Payload, clamav, pdf, hwpx, docx, xlsx, hwp}
use capstone_nps.Config.{Settings, Environment}
use capstone_nps.Base.Words.{Text, text, starts_with, occurs, text_eq}
use capstone_nps.Upload.Archive.{archive_guard, Entry}
use capstone_nps.Base.Search.{last_n}

-- A quarantined file: its bytes, and what the libraries read in it. `entries` is what `zipfile` lists,
-- `mimetype` the archive's entry of that name, and `ole_header` the start of the OLE stream `FileHeader`;
-- none where the library raises.
pub record StoredFile : Type 0 where
  pub contents : Text
  pub sha256 : ℕ
  pub entries : Option (List Entry)
  pub mimetype : Text
  pub ole_header : Option Text

abbrev pub mimes : Extension → List Text
mimes pdf = text "application/pdf" ∷ []
mimes docx = text "application/vnd.openxmlformats-officedocument.wordprocessingml.document" ∷ []
mimes xlsx = text "application/vnd.openxmlformats-officedocument.spreadsheetml.sheet" ∷ []
mimes hwpx =
    text "application/hwp+zip" ∷ text "application/vnd.hancom.hwpx" ∷ text "application/zip" ∷ []
mimes hwp =
    text "application/x-hwp"
    ∷ text "application/haansofthwp"
    ∷ text "application/vnd.hancom.hwp"
    ∷ []
mimes Extension.pptx =
    text "application/vnd.openxmlformats-officedocument.presentationml.presentation" ∷ []

-- The part that an office archive must have.
abbrev pub required : Extension → Option Text
required docx = some (text "word/document.xml")
required xlsx = some (text "xl/workbook.xml")
required Extension.pptx = some (text "ppt/presentation.xml")
required _ = none

abbrev is_hwpx : Extension → Bool
is_hwpx hwpx = true
is_hwpx _ = false

-- `words.endswith(suffix)`
abbrev ends_with : (suffix words : Text) → Bool
ends_with suffix words = starts_with (reverse suffix) (reverse words)

abbrev is_section_name : Text → Bool
is_section_name n = starts_with (text "Contents/section") n && ends_with (text ".xml") n

-- `strip()` of bytes.
abbrev is_blank : ℕ → Bool
is_blank c = leb 9 c && leb c 13 || c == 32

abbrev lstrip : Text → Text
lstrip [] = []
lstrip (c ∷ rest) = let later = lstrip rest in if is_blank c then later else c ∷ rest

abbrev strip : Text → Text
strip words = reverse (lstrip (reverse (lstrip words)))

-- `b"\xd0\xcf\x11\xe0\xa1\xb1\x1a\xe1"` and `b"PK\x03\x04"`
abbrev pub ole_magic : Text
ole_magic = 208 ∷ 207 ∷ 17 ∷ 224 ∷ 161 ∷ 177 ∷ 26 ∷ 225 ∷ []

abbrev pub zip_magic : Text
zip_magic = 80 ∷ 75 ∷ 3 ∷ 4 ∷ []

unfoldable pub check_ole : StoredFile → Result (Unit {0})
check_ole file = do
  raise_if (not (take 8 file.contents == ole_magic)) doc_mime_mismatch 400
  elim file.ole_header [
    | none ↦ raise doc_malformed 400
    | some header ↦
        raise_if (not (starts_with (text "HWP Document File") header)) doc_mime_mismatch 400
  ]

-- Whether the names lack what the extension asks for.
abbrev lacks_required : Extension → List Text → Bool
lacks_required extension names = elim (required extension) [
  | none ↦ false
  | some part ↦ not (contains part names && contains (text "[Content_Types].xml") names)
]

abbrev lacks_sections : Extension → List Text → Bool
lacks_sections extension names =
    is_hwpx extension && (not (contains (text "mimetype") names) || not (any is_section_name names))

unfoldable pub check_archive : Settings → StoredFile → Extension → Result (Unit {0})
unfolding archive_guard
check_archive config file extension = do
  raise_if (not (starts_with zip_magic (take 8 file.contents))) doc_mime_mismatch 400
  names ← archive_guard config file.entries
  raise_if (lacks_required extension names) doc_mime_mismatch 400
  raise_if (lacks_sections extension names) doc_mime_mismatch 400
  raise_if (is_hwpx extension && not (strip file.mimetype == text "application/hwp+zip"))
      doc_mime_mismatch 400

unfoldable pub check_contents : Settings → StoredFile → Extension → Result (Unit {0})
unfolding check_ole check_archive
check_contents config file pdf =
    raise_if (not (starts_with (text "%PDF-") (take 8 file.contents))) doc_mime_mismatch 400
check_contents config file hwp = check_ole file
check_contents config file docx = check_archive config file docx
check_contents config file xlsx = check_archive config file xlsx
check_contents config file hwpx = check_archive config file hwpx
check_contents config file Extension.pptx = check_archive config file Extension.pptx

unfoldable pub validate_file : Settings → StoredFile → Extension → (mime : Text) → Result ℕ
unfolding check_contents
validate_file config file extension mime = do
  raise_if (length file.contents == 0) doc_malformed 400
  raise_if (ltb config.upload_max_bytes (length file.contents)) doc_too_large 413
  raise_if (not (contains mime (mimes extension ++ text "application/octet-stream" ∷ [])))
      doc_mime_mismatch 400
  check_contents config file extension
  ok file.sha256

abbrev pub signature : Text
signature = text "EICAR-STANDARD-ANTIVIRUS-TEST-FILE"

-- The loop of `MockScanner.scan` over the blocks that `read` returns.
unfoldable pub scan_blocks : (tail : Text) → (blocks : List Text) → Result (Unit {0})
scan_blocks tail [] = ok tt
scan_blocks tail ([] ∷ rest) = ok tt
scan_blocks tail ((c ∷ block) ∷ rest) =
    let later = scan_blocks (last_n 80 (tail ++ c ∷ block)) rest in
    if occurs signature (tail ++ c ∷ block) then raise doc_malware 400 else later

-- `struct.pack("!I", n)`
abbrev pub pack_be : ℕ → Text
pack_be n = n / 16777216 % 256 ∷ n / 65536 % 256 ∷ n / 256 % 256 ∷ n % 256 ∷ []

-- What `ClamAVScanner.scan` sends.
abbrev pub frames : (blocks : List Text) → Text
frames [] = pack_be 0
frames ([] ∷ rest) = pack_be 0
frames ((c ∷ block) ∷ rest) = pack_be (length (c ∷ block)) ++ (c ∷ block) ++ frames rest

abbrev pub instream : (blocks : List Text) → Text
instream blocks = text "zINSTREAM" ++ 0 ∷ frames blocks

-- The loop that collects the parts of the answer.
unfoldable pub response_of : (response : Text) → (parts_received : List Text) → Text
response_of response [] = response
response_of response (part ∷ rest) =
    let later = response_of (response ++ part) rest in
    if contains 0 response || leb 4096 (length response)
    then response
    else if part == []
    then response
    else later

-- `response.strip(b"\0\r\n")`
abbrev is_frame_end : ℕ → Bool
is_frame_end c = c == 0 || c == 13 || c == 10

abbrev ltrim : Text → Text
ltrim [] = []
ltrim (c ∷ rest) = let later = ltrim rest in if is_frame_end c then later else c ∷ rest

abbrev trim : Text → Text
trim words = reverse (ltrim (reverse (ltrim words)))

-- `received` is what `recv` returns, or none where the socket raises.
unfoldable pub clamav_scan : (received : Option (List Text)) → Result (Unit {0})
unfolding response_of
clamav_scan none = raise doc_scan_unavailable 503
clamav_scan (some received) = do
  let response = response_of [] received
  raise_if (occurs (text "FOUND") response) doc_malware 400
  raise_if (not (trim response == text "stream: OK")) doc_scan_unavailable 503

abbrev is_development : Environment → Bool
is_development Environment.dev = true
is_development _ = false

unfoldable pub scanner : Settings → Result ScanMode
scanner config =
    if config.scan_mode == text "mock" && is_development config.environment
    then ok ScanMode.mock
    else if config.scan_mode == text "clamav"
    then ok clamav
    else raise doc_scan_unavailable 503

abbrev pub scan_with :
    ScanMode → (blocks : List Text) → (received : Option (List Text)) → Result (Unit {0})
scan_with ScanMode.mock blocks received = scan_blocks [] blocks
scan_with clamav blocks received = clamav_scan received

pub record ScanReport : Type 0 where
  pub sha256 : ℕ
  pub storage_key : Text
  pub scan_mode : ScanMode

-- A key of the payload that is missing raises. `path_of` is `storage.path`, `stored` the file under it,
-- with its bytes in the blocks that a scanner reads, and `promote` is that of the storage.
unfoldable pub security_scan :
    Settings
    → {P : Type 0} → (path_of : Text → Result P) → (stored : P → StoredFile)
    → (blocks : P → List Text) → (received : Option (List Text)) → (promote : Text → Result Text)
    → Payload
    → Result ScanReport
unfolding validate_file scanner scan_blocks clamav_scan
security_scan config path_of stored blocks received promote payload = elim payload.quarantine_key [
  | none ↦ err other
  | some key ↦ do
    place ← path_of key
    elim payload.extension [
      | none ↦ err other
      | some extension ↦ elim payload.mime [
        | none ↦ err other
        | some mime ↦ do
          digest ← validate_file config (stored place) extension mime
          mode ← scanner config
          scan_with mode (blocks place) received
          promoted ← promote key
          ok (record { sha256 = digest; storage_key = promoted; scan_mode = mode })
      ]
    ]
]
