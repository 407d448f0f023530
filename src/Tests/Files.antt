-- ===== src/Tests/Files.antt =====
-- Uploaded files, storage keys and HWP records at concrete inputs.
use capstone_nps.Base.{some, List, [], false, ◌≡◌, ◌∷◌, refl, arith}
use capstone_nps.Upload.Scan.{scan_blocks}
use capstone_nps.Upload.Names.{extension_for}
use capstone_nps.Storage.{path}
use capstone_nps.Hwp.Records.{records, Record}
use capstone_nps.Upload.Scan.Sliding.{AreNonempty, scan_blocks-occurs}
use capstone_nps.Tests.Samples.{config}
use capstone_nps.Base.Words.{text, Text}
use capstone_nps.Hwp.Records.Encoding.{encode, records-encode}
use capstone_nps.Base.Errors.{ok, raise, doc_malware, storage_invalid_key, doc_unsupported}
use capstone_nps.Models.{docx}

-- The signature, cut in two blocks.
abbrev cut : List Text
cut = text "abc EICAR-STANDARD-ANTI" ∷ text "VIRUS-TEST-FILE" ∷ []

cut-nonempty : AreNonempty cut
cut-nonempty = ((λ e. cc), ((λ e. cc), tt))

scan_blocks-occurs_example : scan_blocks [] cut ≡ raise doc_malware 400
scan_blocks-occurs_example = scan_blocks-occurs cut cut-nonempty

abbrev streams : List Record
streams =
    record { tag = 66; level = 0; payload = 1 ∷ 2 ∷ [] }
    ∷ record { tag = 67; level = 1; payload = 65 ∷ 0 ∷ [] }
    ∷ []

records-encode_example : records config 12 0 (encode streams) ≡ ok streams
records-encode_example =
    records-encode config 12 0 streams
      (
        (ground arith, ground arith, ground arith, ground arith),
        ((ground arith, ground arith, ground arith, ground arith), tt),
      )
      (ground arith) (ground arith)

abbrev root : List Text
root = text "srv" ∷ text "storage" ∷ []

refused_key : path root (λ p. p) (text "parsed/../originals/a.bin") ≡ raise storage_invalid_key 400
unfolding path
refused_key = refl

extension_run : extension_for (some (text "report.final.DOCX")) false ≡ ok docx
unfolding extension_for
extension_run = refl

hidden_run : extension_for (some (text ".pdf")) false ≡ raise doc_unsupported 400
unfolding extension_for
hidden_run = refl
