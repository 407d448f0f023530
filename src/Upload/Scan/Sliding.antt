-- ===== src/Upload/Scan/Sliding.antt =====
-- The blocks of `MockScanner.scan`.
use capstone_nps.Base.{
  ℕ, Bool, List, All, if◌then◌else◌, ◌≢◌, ◌≡◌, [], false, ◌++◌, ◌∷◌, refl, true, subst, ◌∙◌,
  Bool-cases, inl, arith, inr, sym,
}
use capstone_nps.Upload.Scan.{scan_blocks, signature}
use capstone_nps.Base.Words.{Text, occurs}
use capstone_nps.Base.Errors.{Result, raise, doc_malware, ok}
use capstone_nps.Base.Search.{last_n, concat, last_n-append, occurs-last_n, occurs-append}
use mathlib.Core.List.{append-nil, append_assoc}

abbrev pub AreNonempty : List Text → Type 0
AreNonempty blocks = All (λ (b : Text). b ≢ []) blocks

abbrev verdict : Bool → Result (Unit {0})
verdict infected = if infected then raise doc_malware 400 else ok tt

-- One block, with the pattern apart so that it stays folded.
one_block :
    (before : Text) (c : ℕ) (block : Text) (rest : List Text)
    → occurs signature before ≡ false
    → scan_blocks (last_n 80 before) ((c ∷ block) ∷ rest) ≡ (
        if occurs signature (before ++ c ∷ block)
        then raise doc_malware 400
        else scan_blocks (last_n 80 (before ++ c ∷ block)) rest)
unfolding scan_blocks
one_block before c block rest clean =
    rw
      (
        last_n-append 80 before (c ∷ block),
        occurs-last_n signature 80 before (c ∷ block) (ground arith) clean,
      )
      refl

occurs-append_block :
    (before block rest : Text)
    → occurs signature (before ++ block) ≡ true
    → occurs signature (before ++ (block ++ rest)) ≡ true
occurs-append_block before block rest h =
    subst (λ t. occurs signature t ≡ true) (append_assoc before block rest)
      (occurs-append signature (before ++ block) rest h)

scan_blocks_after :
    (before : Text) (blocks : List Text)
    → AreNonempty blocks
    → occurs signature before ≡ false
    → scan_blocks (last_n 80 before) blocks ≡ verdict (occurs signature (before ++ concat blocks))
unfolding scan_blocks
scan_blocks_after before [] h clean = rw (append-nil before, clean) refl
scan_blocks_after before ([] ∷ rest) h clean = absurd (h.0 refl)
scan_blocks_after before ((c ∷ block) ∷ rest) h clean =
    one_block before c block rest clean
    ∙ (elim (Bool-cases (occurs signature (before ++ c ∷ block))) [
      | inl hit ↦ rw (hit, occurs-append_block before (c ∷ block) (concat rest) hit) refl
      | inr miss ↦
          rw (miss, sym (append_assoc before (c ∷ block) (concat rest)))
            (scan_blocks_after (before ++ c ∷ block) rest h.1 miss)
    ])

-- The sliding window of the mock scanner misses nothing: however a file is cut into blocks that are not
-- empty, the scan refuses it exactly when the test signature occurs in the file as a whole, also across
-- the border of two blocks or of more.
pub scan_blocks-occurs :
    (blocks : List Text)
    → AreNonempty blocks
    → scan_blocks [] blocks ≡ verdict (occurs signature (concat blocks))
scan_blocks-occurs blocks h = scan_blocks_after [] blocks h refl
