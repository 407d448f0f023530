-- ===== src/Storage/Keys.antt =====
-- The keys that `allocate` makes, and how `path` reads them.
use capstone_nps.Base.{
  ℕ, Bool, contains, not, ◌&&◌, ◌≡◌, ◌∷◌, List, ◌++◌, [], all, false, nat_eq, leb, ◌||◌, ◌==◌,
  arith, true, length, Bool-cases, refl, inl, inr, ==_refl, ap, ◌≤◌, ◌∙◌, any,
}
use capstone_nps.Base.Words.{
  Text, occurs, split_on, text, text_eq, text_beq, text_beq_iff, starts_with,
}
use capstone_nps.Storage.{
  parts_of_key, key_for, suffixes, path, is_valid_key, namespaces, allocate, is_below,
  has_namespace,
}
use capstone_nps.Base.Errors.{ok}

-- No character that `path` refuses or that separates parts.
abbrev pub is_plain : Text → Bool
is_plain w = not (contains 47 w) && not (contains 92 w) && not (contains 58 w)

-- A part that is no dot.
abbrev is_name : Text → Bool
is_name w = is_plain w && not (w == []) && not (w == text ".") && not (w == text "..")

abbrev is_suffix : Text → Bool
is_suffix w = is_plain w && leb 3 (length w)

all-contains :
    (p : Text → Bool) (xs : List Text) (a : Text)
    → all p xs ≡ true
    → contains a xs ≡ true
    → p a ≡ true
all-contains p [] a h k = cc
all-contains p (x ∷ xs) a h k = elim (Bool-cases (text_beq a x)) [
  | inl same ↦ rw ((text_beq_iff a x).0 same) (ground (arith, h))
  | inr differ ↦ all-contains p xs a (ground (arith, h)) (ground (arith, k, differ))
]

split_on-plain : (c : ℕ) (w : Text) → contains c w ≡ false → split_on c w ≡ w ∷ []
split_on-plain c [] h = refl
split_on-plain c (x ∷ w) h = rw (split_on-plain c w (ground (arith, h))) (ground (arith, h))

split_on-cons : (c : ℕ) (w : Text) → (p : Text) × (ps : List Text) × (split_on c w ≡ p ∷ ps)
split_on-cons c [] = ([], [], refl)
split_on-cons c (x ∷ w) =
    let (p, ps, e) = split_on-cons c w in
    elim (Bool-cases (x == c)) [
      | inl same ↦ ([], p ∷ ps, rw (e, same) refl)
      | inr differ ↦ (x ∷ p, ps, rw (e, differ) refl)
    ]

split_on-append :
    (c : ℕ) (w rest : Text)
    → contains c w ≡ false
    → split_on c (w ++ c ∷ rest) ≡ w ∷ split_on c rest
split_on-append c [] rest h = let (p, ps, e) = split_on-cons c rest in rw (e, ==_refl c) refl
split_on-append c (x ∷ w) rest h =
    rw (split_on-append c w rest (ground (arith, h))) (ground (arith, h))

occurs-char : (c : ℕ) (w : Text) → occurs (c ∷ []) w ≡ contains c w
occurs-char c [] = refl
occurs-char c (x ∷ w) = ground (arith, occurs-char c w)

contains-append : (c : ℕ) (v w : Text) → contains c (v ++ w) ≡ (contains c v || contains c w)
contains-append c [] w = refl
contains-append c (x ∷ v) w = ground (arith, contains-append c v w)

first_char : (w rest : Text) → is_name w ≡ true → starts_with (text "/") (w ++ rest) ≡ false
first_char [] rest h = cc
first_char (c ∷ w) rest h = ground (arith, h)

long_name :
    (v w : Text)
    → 3 ≤ length w
    → (text_beq (v ++ w) [] ≡ false)
      × (text_beq (v ++ w) (text ".") ≡ false)
      × (text_beq (v ++ w) (text "..") ≡ false)
long_name [] [] h = absurd (ground arith)
long_name [] (a ∷ []) h = absurd (ground arith)
long_name [] (a ∷ b ∷ []) h = absurd (ground arith)
long_name [] (a ∷ b ∷ c ∷ w) h = ground arith
long_name (x ∷ []) [] h = absurd (ground arith)
long_name (x ∷ []) (a ∷ []) h = absurd (ground arith)
long_name (x ∷ []) (a ∷ b ∷ w) h = ground arith
long_name (x ∷ y ∷ []) [] h = absurd (ground arith)
long_name (x ∷ y ∷ []) (a ∷ w) h = ground arith
long_name (x ∷ y ∷ z ∷ v) w h = ground arith

module _ (namespace uid suffix : Text) where
  abbrev name : Text
  name = uid ++ suffix

  split_on-key_for :
      contains 47 namespace ≡ false
      → contains 47 name ≡ false
      → split_on 47 (key_for namespace uid suffix) ≡ namespace ∷ name ∷ []
  split_on-key_for h k =
      rw (split_on-append 47 namespace name h)
        (ap (λ ps. namespace ∷ ps) (split_on-plain 47 name k))

  starts_with-key_for :
      is_name namespace ≡ true → starts_with (text "/") (key_for namespace uid suffix) ≡ false
  starts_with-key_for h = first_char namespace (47 ∷ name) h

  name-plain : is_plain uid ≡ true → is_suffix suffix ≡ true → is_name name ≡ true
  name-plain h k =
      let long = long_name uid suffix (ground (arith, k)) in
      ground (
        arith,
        long.0,
        long.1,
        long.2,
        contains-append 47 uid suffix,
        contains-append 92 uid suffix,
        contains-append 58 uid suffix,
      )

  parts_of_key-key_for :
      is_name namespace ≡ true
      → is_name name ≡ true
      → parts_of_key (key_for namespace uid suffix) ≡ namespace ∷ name ∷ []
  unfolding parts_of_key
  parts_of_key-key_for h k =
      rw (starts_with-key_for h, split_on-key_for (ground (arith, h)) (ground (arith, k)))
        (ground (arith, h, k))

  has_no :
      (c : ℕ)
      → contains c namespace ≡ false
      → contains c name ≡ false
      → contains c (47 ∷ []) ≡ false
      → occurs (c ∷ []) (key_for namespace uid suffix) ≡ false
  has_no c h k l =
      occurs-char c (key_for namespace uid suffix)
      ∙ contains-append c namespace (47 ∷ name)
      ∙ ground (arith, h, k, l)

  is_valid_key-key_for :
      contains namespace namespaces ≡ true
      → is_name namespace ≡ true
      → is_name name ≡ true
      → is_valid_key (key_for namespace uid suffix) ≡ true
  unfolding is_valid_key
  is_valid_key-key_for known h k =
      rw
        (
          parts_of_key-key_for h k,
          has_no 92 (ground (arith, h)) (ground (arith, k)) refl,
          has_no 58 (ground (arith, h)) (ground (arith, k)) refl,
        )
        (ground (arith, known, h, k))

namespaces-names : all is_name namespaces ≡ true
namespaces-names = refl

suffixes-plain : all is_suffix suffixes ≡ true
suffixes-plain = refl

-- Every key that is allocated is read back as the two parts that it was made of: for each namespace and
-- suffix of the storage and a fresh name without slash, backslash or colon, `allocate` succeeds, and gives
-- the key and the place of that file in that namespace, as long as the links of the file system do not lead
-- out of the root.
pub allocate-eq-ok :
    (root : List Text) (resolve : List Text → List Text) (uid namespace suffix : Text)
    → is_plain uid ≡ true
    → contains namespace namespaces ≡ true
    → contains suffix suffixes ≡ true
    → is_below root (resolve (root ++ namespace ∷ (uid ++ suffix) ∷ [])) ≡ true
    → allocate root resolve uid namespace suffix
      ≡ ok (key_for namespace uid suffix, resolve (root ++ namespace ∷ (uid ++ suffix) ∷ []))
unfolding allocate path
allocate-eq-ok root resolve uid namespace suffix plain known allowed stays =
    let named = all-contains is_name namespaces namespace namespaces-names known in
    let long =
      name-plain namespace uid suffix plain
        (all-contains is_suffix suffixes suffix suffixes-plain allowed) in
    rw
      (
        known,
        allowed,
        is_valid_key-key_for namespace uid suffix known named long,
        parts_of_key-key_for namespace uid suffix named long,
        stays,
      )
      refl

-- A path that is granted lies below the root, whatever the links of the file system do, and its key names a
-- namespace of the storage and no parent folder.
pub path-eq-ok :
    (root : List Text) (resolve : List Text → List Text) (key : Text) {target : List Text}
    → path root resolve key ≡ ok target
    → (is_below root target ≡ true)
      × (has_namespace (parts_of_key key) ≡ true)
      × (any (λ p. contains p (text ".." ∷ text "." ∷ [])) (parts_of_key key) ≡ false)
unfolding path is_valid_key
path-eq-ok root resolve key h = ground arith
