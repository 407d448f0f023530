-- ===== src/Hwp/Records.antt =====
-- The record stream: `records` of hwp.py.
pub mod Encoding
use capstone_nps.Base.{
  ℕ, none, some, List, Option, if◌then◌else◌, ◌∷◌, ◌==◌, ◌/◌, nat_eq, ◌+◌, ◌*◌, suc, ltb, [],
  length, ◌||◌, zero, ◌%◌, take, drop,
}
use capstone_nps.Base.Errors.{
  ◌>>=◌, ◌>>◌, Result, raise, ok, doc_malformed, err, other, raise_if, doc_resource_limit,
}
use capstone_nps.Config.{Settings}

abbrev pub Bytes : Type 0
Bytes = List ℕ

pub record Record : Type 0 where
  pub tag : ℕ
  pub level : ℕ
  pub payload : Bytes

-- `struct.unpack_from("<I", data, offset)`, of the bytes from the offset on.
abbrev pub unpack_u32 : Bytes → Option (ℕ × Bytes)
unpack_u32 (a ∷ b ∷ c ∷ d ∷ rest) = some (a + 256 * b + 65536 * c + 16777216 * d, rest)
unpack_u32 _ = none

-- The extended length, where the header's is 4095.
unfoldable pub read_length : (short : ℕ) → Bytes → Result (ℕ × Bytes)
read_length short rest =
    if short == 4095
    then elim (unpack_u32 rest) [ none ↦ raise doc_malformed 422 | some longer ↦ ok longer ]
    else ok (short, rest)

-- One round of the generator: the record at the start of the data, and the data after it. `count` is the
-- number of records before it.
unfoldable pub next_record : Settings → (count : ℕ) → Bytes → Result (Record × Bytes)
unfolding read_length
next_record config count data_left = elim (unpack_u32 data_left) [
  | none ↦ raise doc_malformed 422
  | some (header, rest) ↦ do
    sized ← read_length (header / 1048576) rest
    raise_if (ltb (length sized.1) sized.0 || ltb (header % 1024) 16) doc_malformed 422
    raise_if (ltb (config.max_cells * 20) (count + 1) || ltb 128 (header / 1024 % 1024))
        doc_resource_limit 422
    ok (
      record { tag = header % 1024; level = header / 1024 % 1024; payload = take sized.0 sized.1 },
      drop sized.0 sized.1,
    )
]

-- All records, on fuel: a round takes four bytes at least, so that the length of the data is enough.
unfoldable pub records : Settings → (fuel count : ℕ) → Bytes → Result (List Record)
unfolding next_record
records config fuel count [] = ok []
records config zero count (x ∷ rest) = err other
records config (suc n) count (x ∷ rest) = do
  found ← next_record config count (x ∷ rest)
  more ← records config n (count + 1) found.1
  ok (found.0 ∷ more)
