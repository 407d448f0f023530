-- ===== src/Chunking/Tokens.antt =====
-- `token_count` of chunking.py, and the splitting of a text into sentences and pieces.
use capstone_nps.Base.Words.{Text}
use capstone_nps.Base.{
  Bool, Option, ◌≤◌, List, ℕ, false, [], ◌==◌, ◌||◌, max, none, ◌∷◌, leb, All, length, true, some,
  arith, ◌&&◌, suc, List-cases, nat_eq, take, drop, inl, zero, if◌then◌else◌, inr, subst,
}

abbrev between : (low high c : ℕ) → Bool
between low high c = leb low c && leb c high

-- `[가-힣]`
abbrev is_hangul : ℕ → Bool
is_hangul c = between 44032 55203 c

-- `[A-Za-z0-9]`
abbrev is_word : ℕ → Bool
is_word c = between 65 90 c || between 97 122 c || between 48 57 c

-- `\s`, as Python's `str.isspace` has it.
abbrev pub is_space : ℕ → Bool
is_space c =
    between 9 13 c
    || between 28 32 c
    || c == 133
    || c == 160
    || c == 5760
    || between 8192 8202 c
    || between 8232 8233 c
    || c == 8239
    || c == 8287
    || c == 12288

-- The matches of the pattern from here on; `in_word` says whether a match of `[A-Za-z0-9]+` is open.
unfoldable pub matches : (in_word : Bool) → Text → ℕ
matches in_word [] = 0
matches in_word (c ∷ rest) =
    let closed = matches false rest in
    let opened = matches true rest in
    if is_hangul c
    then suc closed
    else if is_word c
    then (if in_word then opened else suc opened)
    else if is_space c
    then closed
    else suc closed

unfoldable pub token_count : Text → ℕ
unfolding matches
token_count words = max 1 (matches false words)

-- `[.!?。]`
abbrev ends_sentence : ℕ → Bool
ends_sentence c = c == 46 || c == 33 || c == 63 || c == 12290

-- Where the split stands: in a sentence after the given character, or in a separator, of white space or
-- of newlines.
pub data Place : Type 0 where
  in_sentence : (previous : Option ℕ) → Place
  in_space in_newlines : Place

abbrev splits : Option ℕ → ℕ → Bool
splits none c = false
splits (some p) c = ends_sentence p && is_space c

abbrev pub prepend : ℕ → List Text → List Text
prepend c [] = (c ∷ []) ∷ []
prepend c (s ∷ rest) = (c ∷ s) ∷ rest

-- `re.split(r"(?<=[.!?。])\s+|\n+", text)`
unfoldable pub split : Place → Text → List Text
split place [] = [] ∷ []
split (in_sentence previous) (c ∷ rest) =
    let spaced = [] ∷ split in_space rest in
    let broken = [] ∷ split in_newlines rest in
    let same = prepend c (split (in_sentence (some c)) rest) in
    if splits previous c then spaced else if c == 10 then broken else same
split in_space (c ∷ rest) =
    let more = split in_space rest in
    let next = prepend c (split (in_sentence (some c)) rest) in if is_space c then more else next
split in_newlines (c ∷ rest) =
    let more = split in_newlines rest in
    let next = prepend c (split (in_sentence (some c)) rest) in if c == 10 then more else next

unfoldable pub sentences : Text → List Text
unfolding split
sentences words = split (in_sentence none) words

-- `[sentence[i : i + n] for i in range(0, len(sentence), n)]`, on fuel for the length of the sentence.
unfoldable pub slices : (fuel n : ℕ) → Text → List Text
slices zero n words = []
slices (suc fuel) n [] = []
slices (suc fuel) n (c ∷ rest) = take n (c ∷ rest) ∷ slices fuel n (drop n (c ∷ rest))

-- `… or [""]`
unfoldable pub pieces : (n : ℕ) → Text → List Text
unfolding slices
pieces n words = elim (slices (length words) n words) [ [] ↦ [] ∷ [] | p ∷ ps ↦ p ∷ ps ]

matches_le_length : (in_word : Bool) (words : Text) → matches in_word words ≤ length words
unfolding matches
matches_le_length in_word [] = omega arith
matches_le_length in_word (c ∷ rest) =
    ground (arith, matches_le_length false rest, matches_le_length true rest)

-- A text has no more tokens than characters, or one.
pub token_count_le : (words : Text) → token_count words ≤ max 1 (length words)
unfolding token_count
token_count_le words = omega (arith, matches_le_length false words)

length-take_le : (n : ℕ) (words : Text) → length (take n words) ≤ n
length-take_le zero words = omega arith
length-take_le (suc n) [] = omega arith
length-take_le (suc n) (c ∷ rest) = omega (arith, length-take_le n rest)

slices_short : (fuel n : ℕ) (words : Text) → All (λ p. length p ≤ n) (slices fuel n words)
unfolding slices
slices_short zero n words = tt
slices_short (suc fuel) n [] = tt
slices_short (suc fuel) n (c ∷ rest) =
    (length-take_le n (c ∷ rest), slices_short fuel n (drop n (c ∷ rest)))

-- The pieces of a sentence are no longer than asked for.
pub pieces_short : (n : ℕ) (words : Text) → All (λ p. length p ≤ n) (pieces n words)
unfolding pieces
pieces_short n words = elim (List-cases (slices (length words) n words)) [
  | inl e ↦ rw (pieces, e) (omega arith, tt)
  | inr (p, ps, e) ↦
      rw (pieces, e) (subst (All (λ q. length q ≤ n)) e (slices_short (length words) n words))
]
