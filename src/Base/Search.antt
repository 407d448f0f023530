-- ===== src/Base/Search.antt =====
-- The search for a pattern in a text that comes in pieces.
use capstone_nps.Base.{
  ℕ, List, length, ◌++◌, ◌∷◌, if◌then◌else◌, [], ◌≡◌, ◌≤◌, Bool-cases, false, leb, arith, true, inl,
  refl, inr, length-append,
}
use capstone_nps.Base.Words.{Text, starts_with, occurs}

-- `data[-n:]`
abbrev pub last_n : ℕ → Text → Text
last_n n [] = []
last_n n (c ∷ rest) = if leb (length (c ∷ rest)) n then c ∷ rest else last_n n rest

abbrev pub concat : List Text → Text
concat [] = []
concat (block ∷ rest) = block ++ concat rest

starts_with-nil : (p xs ys : Text) → starts_with p [] ≡ true → starts_with p ys ≡ true
starts_with-nil [] xs ys h = refl
starts_with-nil (c ∷ p) xs ys h = cc

starts_with-append : (p xs ys : Text) → starts_with p xs ≡ true → starts_with p (xs ++ ys) ≡ true
starts_with-append [] xs ys h = refl
starts_with-append (c ∷ p) [] ys h = cc
starts_with-append (c ∷ p) (x ∷ xs) ys h = ground (arith, starts_with-append p xs ys)

starts_with-append_long :
    (p xs ys : Text) → length p ≤ length xs → starts_with p (xs ++ ys) ≡ starts_with p xs
starts_with-append_long [] xs ys h = refl
starts_with-append_long (c ∷ p) [] ys h = ground arith
starts_with-append_long (c ∷ p) (x ∷ xs) ys h = ground (arith, starts_with-append_long p xs ys)

occurs-starts : (p xs : Text) → starts_with p xs ≡ true → occurs p xs ≡ true
occurs-starts p [] h = h
occurs-starts p (x ∷ xs) h = ground arith

pub occurs-append : (p xs ys : Text) → occurs p xs ≡ true → occurs p (xs ++ ys) ≡ true
occurs-append p [] ys h = occurs-starts p ys (starts_with-nil p [] ys h)
occurs-append p (x ∷ xs) ys h =
    ground (arith, occurs-append p xs ys, starts_with-append p (x ∷ xs) ys)

-- Where the pattern does not occur in the first piece, the end of that piece is enough.
pub occurs-last_n :
    (p : Text) (n : ℕ) (xs ys : Text)
    → length p ≤ n
    → occurs p xs ≡ false
    → occurs p (last_n n xs ++ ys) ≡ occurs p (xs ++ ys)
occurs-last_n p n [] ys h k = refl
occurs-last_n p n (x ∷ xs) ys h k = elim (Bool-cases (leb (length (x ∷ xs)) n)) [
  | inl short ↦ rw short refl
  | inr long ↦
      ground (arith, long, occurs-last_n p n xs ys h, starts_with-append_long p (x ∷ xs) ys)
]

pub last_n-append : (n : ℕ) (xs ys : Text) → last_n n (last_n n xs ++ ys) ≡ last_n n (xs ++ ys)
last_n-append n [] ys = refl
last_n-append n (x ∷ xs) ys = elim (Bool-cases (leb (length (x ∷ xs)) n)) [
  | inl short ↦ rw short refl
  | inr long ↦ ground (arith, long, last_n-append n xs ys, length-append xs ys)
]
