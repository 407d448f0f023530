-- ===== src/Tests/Upload.antt =====
-- Archives at concrete inputs.
use capstone_nps.Base.{some, List, ◌≤◌, ◌∷◌, [], ◌≡◌, All, refl}
use capstone_nps.Base.Words.{text, Text}
use capstone_nps.Upload.Archive.{archive_guard, Entry}
use capstone_nps.Upload.Archive.Safe.{
  total_size, NamesFresh, IsSafeEntry, archive_guard-IsSafeEntry,
}
use capstone_nps.Tests.Samples.{config}
use capstone_nps.Base.Errors.{raise, ok, doc_embedded_active_content, doc_archive_unsafe}

abbrev entry : Entry
entry = record {
  filename = text "word/document.xml";
  flag_bits = 0;
  file_size = 5000;
  compress_size = 700;
  external_attr = 0;
}

abbrev entries : List Entry
entries = entry ∷ record entry { filename = text "[Content_Types].xml" } ∷ []

abbrev accepted_names : List Text
accepted_names = text "[Content_Types].xml" ∷ text "word/document.xml" ∷ []

accepted : archive_guard config (some entries) ≡ ok accepted_names
unfolding archive_guard
accepted = refl

climbing :
    archive_guard config (some (record entry { filename = text "a/../b" } ∷ []))
    ≡ raise doc_archive_unsafe 400
unfolding archive_guard
climbing = refl

macros :
    archive_guard config (some (record entry { filename = text "word/vbaProject.bin" } ∷ []))
    ≡ raise doc_embedded_active_content 400
unfolding archive_guard
macros = refl

archive_guard-IsSafeEntry_example :
    (2 ≤ 2000)
    × (total_size entries ≤ 209715200)
    × NamesFresh [] entries
    × All (IsSafeEntry config) entries
archive_guard-IsSafeEntry_example = archive_guard-IsSafeEntry config entries accepted
