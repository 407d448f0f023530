-- ===== src/Storage.antt =====
-- apps/api/nps/storage.py: the keys of `FileStorage`. A path is the list of its parts below the root of the
-- file system. `root` is the resolved storage root, and `resolve` is where the links of the file system
-- lead, which is not the code's.
pub mod Keys
use mathlib.Core.Option
use capstone_nps.Base.{
  none, some, List, Option, ◌++◌, Bool, ◌&&◌, ◌∷◌, false, not, true, any, if◌then◌else◌, contains,
  ◌==◌, [], ◌||◌,
}
use capstone_nps.Base.Errors.{◌>>=◌, ◌>>◌, Result, ok, raise_if, err, other, storage_invalid_key}
use capstone_nps.Base.Words.{Text, text, split_on, starts_with, occurs, text_eq}
use capstone_nps.Base.Rows.{select, first}

abbrev pub namespaces : List Text
namespaces =
    text "quarantine"
    ∷ text "originals"
    ∷ text "parsed"
    ∷ text "chunks"
    ∷ text "visuals"
    ∷ text "artifacts"
    ∷ text "qa"
    ∷ text "templates"
    ∷ []

abbrev pub suffixes : List Text
suffixes = text ".bin" ∷ text ".json" ∷ text ".pptx" ∷ text ".mp4" ∷ text ".png" ∷ []

-- What `PurePosixPath` keeps of the parts between slashes.
abbrev pub is_part : Text → Bool
is_part p = not (p == []) && not (p == text ".")

-- `PurePosixPath(key).parts`: an absolute path has its slash as the first part.
unfoldable pub parts_of_key : Text → List Text
parts_of_key key =
    let below = select is_part (split_on 47 key) in
    if starts_with (text "/") key then text "/" ∷ below else below

abbrev pub has_namespace : List Text → Bool
has_namespace [] = false
has_namespace (p ∷ ps) = contains p namespaces

unfoldable pub is_valid_key : Text → Bool
unfolding parts_of_key
is_valid_key key =
    has_namespace (parts_of_key key)
    && not (any (λ p. contains p (text ".." ∷ text "." ∷ [])) (parts_of_key key))
    && not (occurs (text "\\") key)
    && not (occurs (text ":") key)

-- `target.is_relative_to(root)`
abbrev pub is_below : (root target : List Text) → Bool
is_below [] target = true
is_below (r ∷ root) [] = false
is_below (r ∷ root) (t ∷ target) = r == t && is_below root target

abbrev path_eq : (p q : List Text) → Bool
path_eq p q = is_below p q && is_below q p

-- Files by their paths: a write of an existing file raises, and so does a read of a missing one.
abbrev pub Files : Type 0
Files = List (List Text × Text)

abbrev pub read_file : List Text → Files → Option Text
read_file p files =
    Option.map (λ (q, contents). contents) (first (λ (q, contents). path_eq q p) files)

-- `path.open("x")` and the write.
unfoldable pub write_new : List Text → (contents : Text) → Files → Result Files
write_new p contents files = elim (read_file p files) [
  | some old ↦ err other
  | none ↦ ok ((p, contents) ∷ files)
]

-- `f"{namespace}/{uid()}{suffix}"`
abbrev pub key_for : (namespace uid suffix : Text) → Text
key_for namespace uid suffix = namespace ++ (47 ∷ (uid ++ suffix))

module _ (root : List Text) (resolve : List Text → List Text) where
  unfoldable pub path : (key : Text) → Result (List Text)
  unfolding is_valid_key
  path key = do
    raise_if (not (is_valid_key key)) storage_invalid_key 400
    let target = resolve (root ++ parts_of_key key)
    raise_if (not (is_below root target)) storage_invalid_key 400
    ok target

  unfoldable pub allocate : (uid namespace suffix : Text) → Result (Text × List Text)
  unfolding path
  allocate uid namespace suffix = do
    raise_if (not (contains namespace namespaces) || not (contains suffix suffixes))
        storage_invalid_key 400
    target ← path (key_for namespace uid suffix)
    ok (key_for namespace uid suffix, target)

  -- `dumped` is the serialised data.
  unfoldable pub write_json : (uid namespace dumped : Text) → Files → Result (Text × Files)
  unfolding allocate write_new
  write_json uid namespace dumped files = do
    made ← allocate uid namespace (text ".json")
    files' ← write_new made.1 dumped files
    ok (made.0, files')

  unfoldable pub promote : (uid quarantine_key : Text) → Files → Result (Text × Files)
  unfolding allocate write_new path
  promote uid quarantine_key files = do
    source ← path quarantine_key
    made ← allocate uid (text "originals") (text ".bin")
    elim (read_file source files) [
      | none ↦ err other
      | some contents ↦ do files' ← write_new made.1 contents files; ok (made.0, files')
    ]
