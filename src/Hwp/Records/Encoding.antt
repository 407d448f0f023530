-- ===== src/Hwp/Records/Encoding.antt =====
-- The HWP record stream as a writer makes it, and what `records` reads back.
use capstone_nps.Base.{
  ℕ, some, List, ◌<◌, ◌++◌, ◌∷◌, ◌/◌, ◌%◌, ◌≤◌, drop, arith, ◌+◌, min, take, if◌then◌else◌, leb,
  ◌≡◌, ◌*◌, length, [], ap, refl, All, suc, zero, ◌∙◌, length-append,
}
use capstone_nps.Hwp.Records.{Record, read_length, Bytes, unpack_u32, next_record, records}
use capstone_nps.Base.Errors.{ok, ◌>>=◌, Result}
use capstone_nps.Config.{Settings}
use mathlib.Core.List.{append_assoc}

-- `struct.pack("<I", n)`
abbrev pub pack_u32 : ℕ → Bytes
pack_u32 n = n % 256 ∷ n / 256 % 256 ∷ n / 65536 % 256 ∷ n / 16777216 % 256 ∷ []

-- The format: ten bits of tag, ten of level and twelve of length, of which 4095 says that the length
-- follows as a word of its own.
abbrev pub header_of : Record → ℕ
header_of r = r.tag + 1024 * r.level + 1048576 * min (length r.payload) 4095

abbrev pub extension : Record → Bytes
extension r = if leb 4095 (length r.payload) then pack_u32 (length r.payload) else []

abbrev pub encode_record : Record → Bytes
encode_record r = pack_u32 (header_of r) ++ extension r ++ r.payload

abbrev pub encode : List Record → Bytes
encode [] = []
encode (r ∷ rs) = encode_record r ++ encode rs

abbrev pub IsRecord : Record → Type 0
IsRecord r = (16 ≤ r.tag) × (r.tag < 1024) × (r.level ≤ 128) × (length r.payload < 4294967296)

word_of_bytes :
    (n : ℕ)
    → n < 4294967296
    → n % 256 + 256 * (n / 256 % 256) + 65536 * (n / 65536 % 256) + 16777216 * (n / 16777216 % 256)
      ≡ n
word_of_bytes n h = omega arith

unpack_u32-pack_u32 :
    (n : ℕ) (rest : Bytes) → n < 4294967296 → unpack_u32 (pack_u32 n ++ rest) ≡ some (n, rest)
unpack_u32-pack_u32 n rest h = ap (λ m. some (m, rest)) (word_of_bytes n h)

take-append : (xs ys : Bytes) → take (length xs) (xs ++ ys) ≡ xs
take-append [] ys = refl
take-append (x ∷ xs) ys = ap (λ t. x ∷ t) (take-append xs ys)

drop-append : (xs ys : Bytes) → drop (length xs) (xs ++ ys) ≡ ys
drop-append [] ys = refl
drop-append (x ∷ xs) ys = drop-append xs ys

header_of-small : (r : Record) → IsRecord r → header_of r < 4294967296
header_of-small r (low, high, level, size) = ground arith

tag_of_header : (r : Record) → IsRecord r → header_of r % 1024 ≡ r.tag
tag_of_header r (low, high, level, size) = ground arith

level_of_header : (r : Record) → IsRecord r → header_of r / 1024 % 1024 ≡ r.level
level_of_header r (low, high, level, size) = ground arith

length_of_header : (r : Record) → IsRecord r → header_of r / 1048576 ≡ min (length r.payload) 4095
length_of_header r (low, high, level, size) = ground arith

read_length-encoded :
    (r : Record) (rest : Bytes)
    → IsRecord r
    → read_length (min (length r.payload) 4095) (extension r ++ rest) ≡ ok (length r.payload, rest)
unfolding read_length
read_length-encoded r rest (low, high, level, size) =
    ground (arith, unpack_u32-pack_u32 (length r.payload) rest)

next_record-encoded :
    (config : Settings) (count : ℕ) (r : Record) (rest : Bytes)
    → IsRecord r
    → count < config.max_cells * 20
    → next_record config count (encode_record r ++ rest) ≡ ok (r, rest)
unfolding next_record
next_record-encoded config count r rest valid room =
    rw
      (
        append_assoc (extension r) r.payload rest,
        word_of_bytes (header_of r) (header_of-small r valid),
        tag_of_header r valid,
        level_of_header r valid,
        length_of_header r valid,
        read_length-encoded r (r.payload ++ rest) valid,
        take-append r.payload rest,
        drop-append r.payload rest,
      )
      (ground (arith, valid.0, valid.1, valid.2, length-append r.payload rest))

-- What `records` does with the outcome of a round.
continue_with : Settings → (fuel count : ℕ) → Result (Record × Bytes) → Result (List Record)
continue_with config fuel count round = do
  found ← round
  more ← records config fuel (count + 1) found.1
  ok (found.0 ∷ more)

records_round :
    (config : Settings) (fuel count : ℕ) (r : Record) (rest : Bytes)
    → records config (suc fuel) count (encode_record r ++ rest)
      ≡ continue_with config fuel count (next_record config count (encode_record r ++ rest))
unfolding records continue_with
records_round config fuel count r rest = refl

continue_with-ok :
    (config : Settings) (fuel count : ℕ) (r : Record) (rest : Bytes) (rs : List Record)
    → records config fuel (count + 1) rest ≡ ok rs
    → continue_with config fuel count (ok (r, rest)) ≡ ok (r ∷ rs)
unfolding continue_with
continue_with-ok config fuel count r rest rs h = rw h refl

length-encode_record : (r : Record) → 4 ≤ length (encode_record r)
length-encode_record r = ground arith

-- Reading what was written: the stream of any records, of a tag from 16 on and below 1024, a level up to 128
-- and a payload below 2 ^ 32 bytes, is read back as the same records, if they are not more than the limit and
-- the fuel is not below the length of the stream.
pub records-encode :
    (config : Settings) (fuel count : ℕ) (rs : List Record)
    → All IsRecord rs
    → count + length rs ≤ config.max_cells * 20
    → length (encode rs) ≤ fuel
    → records config fuel count (encode rs) ≡ ok rs
unfolding records
records-encode config fuel count [] valid room enough = refl
records-encode config zero count (r ∷ rs) valid room enough = absurd (ground arith)
records-encode config (suc n) count (r ∷ rs) valid room enough =
    records_round config n count r (encode rs)
    ∙ rw (next_record-encoded config count r (encode rs) valid.0 (ground arith)) (
        continue_with-ok config n count r (encode rs) rs (
          records-encode config n (count + 1) rs valid.1 (ground arith)
            (ground (arith, length-append (encode_record r) (encode rs), length-encode_record r))))
