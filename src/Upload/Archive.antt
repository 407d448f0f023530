-- ===== src/Upload/Archive.antt =====
-- `archive_guard` of upload.py, on the entries that `zipfile` lists.
pub mod Safe
use capstone_nps.Base.{
  none, some, ℕ, Bool, List, map, ◌%◌, ◌∷◌, ◌/◌, ◌||◌, Option, ltb, true, if◌then◌else◌, ◌*◌, leb,
  false, contains, [], ◌==◌, ◌&&◌, max, nat_eq, length, ◌+◌,
}
use capstone_nps.Base.Errors.{
  ◌>>=◌, ◌>>◌, Result, ok, raise, raise_if, doc_malformed, doc_archive_unsafe, doc_encrypted,
  doc_archive_bomb, doc_embedded_active_content,
}
use capstone_nps.Base.Words.{Text, text, text_eq, occurs, starts_with}
use capstone_nps.Config.{Settings}

-- The fields of `ZipInfo` that the guard reads.
pub record Entry : Type 0 where
  pub filename : Text
  pub flag_bits : ℕ
  pub file_size : ℕ
  pub compress_size : ℕ
  pub external_attr : ℕ

-- The parts of a path, between its slashes; `PurePosixPath` drops the empty ones and the single dots.
abbrev pub parts : Text → List Text
parts [] = [] ∷ []
parts (c ∷ rest) = elim (parts rest) [
  | [] ↦ [] ∷ []
  | p ∷ ps ↦ if c == 47 then [] ∷ p ∷ ps else (c ∷ p) ∷ ps
]

-- `lower`, as far as the two patterns below can tell: no other character becomes one of theirs.
abbrev pub lower : Text → Text
lower words = map (λ c. if leb 65 c && leb c 90 then c + 32 else c) words

unfoldable pub is_unsafe_name : Text → Bool
is_unsafe_name name =
    starts_with (text "/") name
    || starts_with (text "\\") name
    || contains (text "..") (parts name)
    || occurs (text "\\") name
    || occurs (text ":") name

-- `flag_bits & 1`
abbrev pub is_encrypted : Entry → Bool
is_encrypted item = item.flag_bits % 2 == 1

-- `((external_attr >> 16) & 0o170000) == 0o120000`
abbrev pub is_symlink : Entry → Bool
is_symlink item = item.external_attr / 268435456 % 16 == 10

-- The quotient of sizes below 2 ^ 53 exceeds an integer when the product does.
abbrev pub is_bomb : Settings → (total : ℕ) → Entry → Bool
is_bomb config total item =
    ltb config.archive_max_bytes total
    || ltb (config.archive_max_ratio * max 1 item.compress_size) item.file_size

unfoldable pub is_active : Text → Bool
is_active name =
    occurs (text "vbaproject") (lower name) || occurs (text "/embeddings/") (lower name)

module _ (config : Settings) where
  -- One round of the loop: the total after it.
  unfoldable pub check_entry : (names : List Text) → (total : ℕ) → Entry → Result ℕ
  unfolding is_unsafe_name is_active
  check_entry names total item = do
    raise_if (is_unsafe_name item.filename || contains item.filename names) doc_archive_unsafe 400
    raise_if (is_encrypted item) doc_encrypted 400
    raise_if (is_bomb config (total + item.file_size) item) doc_archive_bomb 400
    raise_if (is_symlink item) doc_archive_unsafe 400
    raise_if (is_active item.filename) doc_embedded_active_content 400
    ok (total + item.file_size)

  unfoldable pub check_entries : (names : List Text) → (total : ℕ) → List Entry → Result (List Text)
  unfolding check_entry
  check_entries names total [] = ok names
  check_entries names total (item ∷ rest) = do
    total' ← check_entry names total item
    check_entries (item.filename ∷ names) total' rest

  -- No list of entries: `zipfile` found no archive.
  unfoldable pub archive_guard : Option (List Entry) → Result (List Text)
  unfolding check_entries
  archive_guard none = raise doc_malformed 400
  archive_guard (some entries) = do
    raise_if (ltb config.archive_max_entries (length entries)) doc_archive_bomb 400
    check_entries [] 0 entries
