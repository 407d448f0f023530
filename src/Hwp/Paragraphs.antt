-- ===== src/Hwp/Paragraphs.antt =====
-- `paragraph_text` of hwp.py, and the UTF-16 that it decodes.
use mathlib.Core.Option
use capstone_nps.Base.{
  ℕ, none, some, Bool, if◌then◌else◌, Option, reverse, ◌==◌, ◌+◌, leb, ◌∷◌, ◌&&◌, ◌||◌, ◌*◌, not,
  [], nat_eq, ◌-◌, length, ◌%◌, suc, ltb, drop, ◌++◌, zero,
}
use capstone_nps.Base.Errors.{
  ◌>>=◌, ◌>>◌, Result, ok, raise_if, err, other, doc_malformed, raise, hwp_encoding_unsupported,
}
use capstone_nps.Base.Words.{Text}
use capstone_nps.Hwp.Records.{Bytes}
use capstone_nps.Chunking.Tokens.{is_space}

-- `EXTENDED_CONTROLS`
abbrev pub is_extended : ℕ → Bool
is_extended c = leb 1 c && leb c 9 || leb 11 c && leb c 12 || leb 14 c && leb c 23

-- The character that stands for a control, if any.
abbrev pub control_text : ℕ → Option ℕ
control_text c =
    if c == 9
    then some 9
    else if c == 10 || c == 13
    then some 10
    else if c == 24
    then some 45
    else if c == 30 || c == 31
    then some 32
    else none

-- The bytes of one character's output: the two it has, or those of the control's text.
abbrev pub output_of : (low high : ℕ) → Bytes
output_of low high =
    if leb 32 (low + 256 * high)
    then low ∷ high ∷ []
    else elim (control_text (low + 256 * high)) [ none ↦ [] | some c ↦ c ∷ 0 ∷ [] ]

abbrev pub width_of : (low high : ℕ) → ℕ
width_of low high = if is_extended (low + 256 * high) then 16 else 2

-- The loop, on fuel: a round takes two bytes at least, so that the length of the payload is enough.
unfoldable pub paragraph_bytes : (fuel : ℕ) → Bytes → Result Bytes
paragraph_bytes fuel [] = ok []
paragraph_bytes zero (x ∷ rest) = err other
paragraph_bytes (suc n) (low ∷ []) = raise doc_malformed 422
paragraph_bytes (suc n) (low ∷ high ∷ rest) = do
  raise_if (ltb (length (low ∷ high ∷ rest)) (width_of low high)) doc_malformed 422
  more ← paragraph_bytes n (drop (width_of low high) (low ∷ high ∷ rest))
  ok (output_of low high ++ more)

abbrev is_high : ℕ → Bool
is_high u = leb 55296 u && leb u 56319

abbrev is_low : ℕ → Bool
is_low u = leb 56320 u && leb u 57343

-- `decode("utf-16le", errors="strict")`, with the high surrogate before, if one is open.
unfoldable pub decode_utf16 : (open_high : Option ℕ) → Bytes → Option Text
decode_utf16 none [] = some []
decode_utf16 (some h) [] = none
decode_utf16 open_high (low ∷ []) = none
decode_utf16 none (low ∷ high ∷ rest) =
    let unit = low + 256 * high in
    let opened = decode_utf16 (some unit) rest in
    let plain = Option.map (λ words. unit ∷ words) (decode_utf16 none rest) in
    if is_high unit then opened else if is_low unit then none else plain
decode_utf16 (some h) (low ∷ high ∷ rest) =
    let unit = low + 256 * high in
    let paired =
      Option.map (λ words. (65536 + (h - 55296) * 1024 + (unit - 56320)) ∷ words)
        (decode_utf16 none rest) in
    if is_low unit then paired else none

abbrev lstrip : Text → Text
lstrip [] = []
lstrip (c ∷ rest) = let later = lstrip rest in if is_space c then later else c ∷ rest

-- `strip()`
abbrev pub strip : Text → Text
strip words = reverse (lstrip (reverse (lstrip words)))

unfoldable pub paragraph_text : Bytes → Result Text
unfolding paragraph_bytes decode_utf16
paragraph_text payload = do
  raise_if (not (length payload % 2 == 0)) doc_malformed 422
  output ← paragraph_bytes (length payload) payload
  elim (decode_utf16 none output) [
    | none ↦ raise hwp_encoding_unsupported 422
    | some words ↦ ok (strip words)
  ]
