-- ===== src/Upload/Archive/Safe.antt =====
-- What an archive that passes the guard is.
use capstone_nps.Base.{
  some, List, ℕ, ◌∷◌, ◌≡◌, ◌+◌, ◌≤◌, contains, false, arith, length, All, [], ◌*◌, max,
}
use capstone_nps.Base.Words.{Text, text_eq}
use capstone_nps.Config.{Settings}
use capstone_nps.Upload.Archive.{
  archive_guard, check_entry, Entry, check_entries, is_unsafe_name, is_encrypted, is_symlink,
  is_active,
}
use capstone_nps.Base.Errors.{ok, >>=-eq-ok}

-- An entry without its place among the others.
pub record IsSafeEntry (config : Settings) (item : Entry) : Type 0 where
  pub name : is_unsafe_name item.filename ≡ false
  pub plain : is_encrypted item ≡ false
  pub regular : is_symlink item ≡ false
  pub inert : is_active item.filename ≡ false
  pub ratio : item.file_size ≤ config.archive_max_ratio * max 1 item.compress_size

abbrev pub total_size : List Entry → ℕ
total_size [] = 0
total_size (item ∷ rest) = item.file_size + total_size rest

-- No entry's name is among the names given or among those of earlier entries.
abbrev pub NamesFresh : List Text → List Entry → Type 0
NamesFresh names [] = Unit
NamesFresh names (item ∷ rest) =
    (contains item.filename names ≡ false) × NamesFresh (item.filename ∷ names) rest

module _ (config : Settings) where
  check_entry-eq-ok :
      (names : List Text) (total : ℕ) (item : Entry) {n : ℕ}
      → check_entry config names total item ≡ ok n
      → IsSafeEntry config item
        × (contains item.filename names ≡ false)
        × (n ≡ total + item.file_size)
        × (n ≤ config.archive_max_bytes)
  unfolding check_entry
  check_entry-eq-ok names total item h = (
    record {
      name = ground arith;
      plain = ground arith;
      regular = ground arith;
      inert = ground arith;
      ratio = ground arith;
    },
    ground arith,
    ground arith,
    ground arith,
  )

  check_entries-eq-ok :
      (names : List Text) (total : ℕ) (entries : List Entry) {found : List Text}
      → total ≤ config.archive_max_bytes
      → check_entries config names total entries ≡ ok found
      → All (IsSafeEntry config) entries
        × NamesFresh names entries
        × (total + total_size entries ≤ config.archive_max_bytes)
  unfolding check_entries
  check_entries-eq-ok names total [] room h = (tt, tt, omega (arith, room))
  check_entries-eq-ok names total (item ∷ rest) room h =
      let (n, one, more) =
        >>=-eq-ok (check_entry config names total item)
          (λ n. check_entries config (item.filename ∷ names) n rest) h in
      let (safe, fresh, sum, small) = check_entry-eq-ok names total item one in
      let (all_safe, all_fresh, bound) =
        check_entries-eq-ok (item.filename ∷ names) n rest small more in
      ((safe, all_safe), (fresh, all_fresh), omega (arith, bound, sum))

  -- An archive that passes the guard has no more entries and no more bytes, unpacked, than the settings
  -- allow; no two entries share a name; and each entry has a relative name without `..`, backslash or colon,
  -- is not encrypted, is no symbolic link, holds no macros or embedded objects by its name, and unpacks to
  -- at most the allowed multiple of its size.
  pub archive_guard-IsSafeEntry :
      (entries : List Entry) {names : List Text}
      → archive_guard config (some entries) ≡ ok names
      → (length entries ≤ config.archive_max_entries)
        × (total_size entries ≤ config.archive_max_bytes)
        × NamesFresh [] entries
        × All (IsSafeEntry config) entries
  unfolding archive_guard
  archive_guard-IsSafeEntry entries {names} h =
      let (safe, fresh, bound) =
        check_entries-eq-ok [] 0 entries {found = names} (omega arith) (ground arith) in
      (ground arith, omega (arith, bound), fresh, safe)
