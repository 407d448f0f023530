-- ===== src/Hwp/Parse/Rounds.antt =====
-- One round of the loops of hwp.py: what it takes from the data, and the fuel that is enough.
use capstone_nps.Base.{
  ℕ, none, some, length, ◌∷◌, drop, ◌≤◌, ◌≡◌, arith, Bool-cases, ◌+◌, suc, zero, ltb, [],
  Option-cases, ◌==◌, not, ◌%◌, inl, inr, ◌*◌, nat_eq, ◌/◌, take, ◌||◌,
}
use capstone_nps.Hwp.Records.{next_record, read_length, Bytes, unpack_u32, Record}
use capstone_nps.Hwp.Paragraphs.{
  paragraph_text, paragraph_bytes, width_of, is_extended, decode_utf16,
}
use capstone_nps.Config.{Settings}
use capstone_nps.Base.Answers.{Answers, Answers-raise_if, Answers-bind}
use capstone_nps.Base.Words.{Text}
use capstone_nps.Base.Errors.{doc_malformed, Result, ok, raise_if, doc_resource_limit, ◌>>◌}

length-drop : (n : ℕ) (xs : Bytes) → length (drop n xs) ≤ length xs
length-drop zero xs = ground arith
length-drop (suc n) [] = ground arith
length-drop (suc n) (x ∷ xs) = ground (arith, length-drop n xs)

unpack_u32-shorter :
    (xs : Bytes) (n : ℕ) (rest : Bytes)
    → unpack_u32 xs ≡ some (n, rest)
    → length rest + 4 ≡ length xs
unpack_u32-shorter [] n rest h = cc
unpack_u32-shorter (a ∷ []) n rest h = cc
unpack_u32-shorter (a ∷ b ∷ []) n rest h = cc
unpack_u32-shorter (a ∷ b ∷ c ∷ []) n rest h = cc
unpack_u32-shorter (a ∷ b ∷ c ∷ d ∷ xs) n rest h = ground arith

read_length-Answers :
    (short : ℕ) (xs : Bytes)
    → Answers (λ (sized : ℕ × Bytes). length sized.1 ≤ length xs) (read_length short xs)
unfolding read_length
read_length-Answers short xs = elim (Bool-cases (short == 4095)) [
  | inr direct ↦ rw direct (ground arith)
  | inl long ↦ elim (Option-cases (unpack_u32 xs)) [
    | inl cut ↦ rw (long, cut) tt
    | inr ((n, rest), found) ↦ rw (long, found) (ground (arith, unpack_u32-shorter xs n rest found))
  ]
]

-- A round takes four bytes at least.
pub next_record-Answers :
    (config : Settings) (count : ℕ) (xs : Bytes)
    → Answers
        (λ (found : Record × Bytes). length found.1 + 4 ≤ length xs)
        (next_record config count xs)
unfolding next_record
next_record-Answers config count xs = elim (Option-cases (unpack_u32 xs)) [
  | inl cut ↦ rw (next_record, cut) tt
  | inr ((header, rest), found) ↦
      rw (next_record, found)
        (Answers-bind (λ (sized : ℕ × Bytes). length sized.1 ≤ length rest)
          (λ (r : Record × Bytes). length r.1 + 4 ≤ length xs) (read_length (header / 1048576) rest)
          _ (read_length-Answers (header / 1048576) rest)
          (λ sized shorter.
            let last : Result (Record × Bytes) = ok (
              record {
                tag = header % 1024;
                level = header / 1024 % 1024;
                payload = take sized.0 sized.1;
              },
              drop sized.0 sized.1,
            ) in
            Answers-raise_if (λ (r : Record × Bytes). length r.1 + 4 ≤ length xs)
              (ltb (length sized.1) sized.0 || ltb (header % 1024) 16) doc_malformed 422
              (raise_if (ltb (config.max_cells * 20) (count + 1) || ltb 128 (header / 1024 % 1024))
                  doc_resource_limit 422
                >> last)
              (λ fits.
                Answers-raise_if (λ (r : Record × Bytes). length r.1 + 4 ≤ length xs)
                  (ltb (config.max_cells * 20) (count + 1) || ltb 128 (header / 1024 % 1024))
                  doc_resource_limit 422 last
                  (λ few. ground (
                    arith,
                    unpack_u32-shorter xs header rest found,
                    length-drop sized.0 sized.1,
                  )))))
]

-- A control takes two bytes at least.
dropped-shorter :
    (low high : ℕ) (rest : Bytes) (n : ℕ)
    → length (low ∷ high ∷ rest) ≤ suc n
    → length (drop (width_of low high) (low ∷ high ∷ rest)) ≤ n
dropped-shorter low high rest n h = elim (Bool-cases (is_extended (low + 256 * high))) [
  | inl wide ↦ rw wide (ground (arith, length-drop 14 rest))
  | inr narrow ↦ rw narrow (ground arith)
]

paragraph_bytes-Answers :
    (fuel : ℕ) (xs : Bytes)
    → length xs ≤ fuel
    → Answers (λ (output : Bytes). Unit) (paragraph_bytes fuel xs)
unfolding paragraph_bytes
paragraph_bytes-Answers fuel [] h = tt
paragraph_bytes-Answers zero (x ∷ rest) h = absurd (ground arith)
paragraph_bytes-Answers (suc n) (low ∷ []) h = tt
paragraph_bytes-Answers (suc n) (low ∷ high ∷ rest) h =
    Answers-raise_if (λ (output : Bytes). Unit)
      (ltb (length (low ∷ high ∷ rest)) (width_of low high)) doc_malformed 422 _
      (λ fits.
        Answers-bind (λ (output : Bytes). Unit) (λ (output : Bytes). Unit)
          (paragraph_bytes n (drop (width_of low high) (low ∷ high ∷ rest))) _
          (paragraph_bytes-Answers n (drop (width_of low high) (low ∷ high ∷ rest))
            (dropped-shorter low high rest n h))
          (λ output none_needed. tt))

pub paragraph_text-Answers : (xs : Bytes) → Answers (λ (words : Text). Unit) (paragraph_text xs)
unfolding paragraph_text
paragraph_text-Answers xs =
    Answers-raise_if (λ (words : Text). Unit) (not (length xs % 2 == 0)) doc_malformed 422 _
      (λ even.
        Answers-bind (λ (output : Bytes). Unit) (λ (words : Text). Unit)
          (paragraph_bytes (length xs) xs) _ (paragraph_bytes-Answers (length xs) xs (ground arith))
          (λ output none_needed. elim (Option-cases (decode_utf16 none output)) [
            | inl broken ↦ rw broken tt
            | inr (words, decoded) ↦ rw decoded tt
          ]))
