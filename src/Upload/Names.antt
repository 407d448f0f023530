-- ===== src/Upload/Names.antt =====
-- `extension_for` and `quarantine_upload` of upload.py. Bytes are numbers.
use capstone_nps.Base.{
  ℕ, none, some, Option, if◌then◌else◌, List, Bool, ◌∷◌, true, ◌==◌, [], ◌||◌, length, false,
  nat_eq, ◌+◌, ◌++◌, contains, ltb, ◌&&◌, not,
}
use capstone_nps.Base.Errors.{
  ◌>>◌, Result, ok, raise, doc_unsafe_filename, ◌>>=◌, raise_if, err, doc_too_large,
  doc_unsupported,
}
use capstone_nps.Base.Words.{Text, text, occurs, text_eq}
use capstone_nps.Config.{Settings}
use capstone_nps.Models.{Extension, pdf, Payload, docx, xlsx, hwpx, hwp}
use capstone_nps.Routes.{empty_payload}
use capstone_nps.Upload.Archive.{lower}

abbrev pub is_unsafe_filename : Text → Bool
is_unsafe_filename name =
    name == []
    || occurs (text "/") name
    || occurs (text "\\") name
    || occurs (text ":") name
    || contains 0 name
    || name == text "."
    || name == text ".."

-- From the last dot on; `none` without a dot.
abbrev pub from_last_dot : Text → Option Text
from_last_dot [] = none
from_last_dot (c ∷ rest) = elim (from_last_dot rest) [
  | some found ↦ some found
  | none ↦ if c == 46 then some (c ∷ rest) else none
]

-- `PurePosixPath(name).suffix` of a name without slashes: no suffix for a dot at either end.
unfoldable pub suffix : Text → Text
suffix [] = []
suffix (c ∷ rest) = elim (from_last_dot rest) [
  | none ↦ []
  | some found ↦ if length found == 1 then [] else found
]

-- The keys of `MIMES`.
unfoldable pub extension_of : Text → Option Extension
extension_of ext =
    if ext == text ".pdf"
    then some pdf
    else if ext == text ".docx"
    then some docx
    else if ext == text ".xlsx"
    then some xlsx
    else if ext == text ".hwpx"
    then some hwpx
    else if ext == text ".hwp"
    then some hwp
    else if ext == text ".pptx"
    then some Extension.pptx
    else none

abbrev pub is_presentation : Extension → Bool
is_presentation Extension.pptx = true
is_presentation _ = false

unfoldable pub extension_for : (filename : Option Text) → (template : Bool) → Result Extension
unfolding extension_of suffix
extension_for none template = raise doc_unsafe_filename 400
extension_for (some name) template = do
  raise_if (is_unsafe_filename name) doc_unsafe_filename 400
  elim (extension_of (lower (suffix name))) [
    | none ↦ raise doc_unsupported 400
    | some ext ↦ do raise_if (is_presentation ext && not template) doc_unsupported 400; ok ext
  ]

-- What the client sends; the file is read in blocks, up to the first empty one.
pub record UploadFile : Type 0 where
  pub filename : Option Text
  pub content_type : Option Text
  pub blocks : List Text

-- The `while` loop: the size, and what has been written when it ends or raises.
unfoldable pub read_blocks : (limit size : ℕ) → (written : Text) → List Text → Result ℕ × Text
read_blocks limit size written [] = (ok size, written)
read_blocks limit size written ([] ∷ rest) = (ok size, written)
read_blocks limit size written ((c ∷ block) ∷ rest) =
    let later = read_blocks limit (size + length (c ∷ block)) (written ++ c ∷ block) rest in
    if ltb limit (size + length (c ∷ block)) then (raise doc_too_large 413, written) else later

-- `file.content_type or "application/octet-stream"`
abbrev pub mime_of : Option Text → Text
mime_of none = text "application/octet-stream"
mime_of (some []) = text "application/octet-stream"
mime_of (some (c ∷ rest)) = c ∷ rest

-- The answer, and the file that the call leaves in quarantine: none when it raises.
unfoldable pub quarantine_upload :
    Settings → (key : Text) → UploadFile → (template : Bool) → Result Payload × Option Text
unfolding read_blocks extension_for
quarantine_upload config key file template =
    let (sized, written) = read_blocks config.upload_max_bytes 0 [] file.blocks in
    elim (sized >>= λ size.
    (extension_for file.filename template >>= λ ext. ok (record empty_payload {
      quarantine_key = some key;
      extension = some ext;
      mime = some (mime_of file.content_type);
      size = some size;
    }))) [ err e ↦ (err e, none) | ok payload ↦ (ok payload, some written) ]
