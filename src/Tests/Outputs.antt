-- ===== src/Tests/Outputs.antt =====
-- Stored artifacts, videos and HWP files at concrete inputs.
use capstone_nps.Hwp.Parse.{parse, OleFile}
use capstone_nps.Base.{
  none, some, ℕ, List, ◌≤◌, true, ◌∷◌, [], ◌≡◌, refl, suc, length, false, ◌++◌, zero,
}
use capstone_nps.Contracts.{PlannedSlide, NormalizedDocument}
use capstone_nps.Base.Answers.{Answers}
use capstone_nps.Artifacts.Persist.{persist_artifact, Extra, Persisted, PersistDraw, PlanProvenance}
use capstone_nps.Models.{Template, Db, GenerationJob, SlidePlan, QaStatus, ArtifactType}
use capstone_nps.Hwp.Parse.Sections.{total_nodes}
use capstone_nps.Base.Words.{Text, text}
use capstone_nps.Video.{Studio, VideoScene, render_video}
use capstone_nps.Base.Errors.{Result, ok}
use capstone_nps.Tests.Artifacts.{deck_db, provenance, version}
use capstone_nps.Tests.Samples.{job, from_ok, config, no_payload}
use capstone_nps.Tests.Auth.{accounts}
use capstone_nps.Tests.Plans.{slide, plan}
use capstone_nps.Hwp.Parse.Answers.{parse-Answers}

-- A plan with a theme, which the dict of its provenance names.
abbrev theme : Template
theme = record {
  id = 60;
  created_at = 1;
  org_id = some 3;
  name = text "n";
  version = text "2.0";
  config = record {
    design_engine = some (text "editorial-2");
    source = none;
    slug = none;
    tags = [];
    reference_sha256 = none;
  };
  storage_key = none;
  official_flag = true;
}

abbrev read : Text → PlanProvenance
read words = record { theme_id = some 60; theme_policy = some theme.config; carried = provenance }

abbrev themed_db : Db
themed_db = record deck_db { templates = theme ∷ [] }

abbrev deck_job : GenerationJob
deck_job = record job { payload = record no_payload { artifact_id = some 30 } }

abbrev draw : PersistDraw
draw = record {
  artifact_id = 33;
  version_id = 34;
  qa_key = ok (text "qa/2.json");
  file = ok (77, 900);
}

abbrev themed_plan : SlidePlan
themed_plan = record plan { project_id = 7 }

abbrev extra : Extra
extra = record { storyboard = none; video_mock = none }

abbrev persist_call : Result (Persisted × Db)
persist_call =
    persist_artifact accounts read draw deck_job themed_plan ArtifactType.pptx
      (text "artifacts/b.pptx") QaStatus.pass extra themed_db

abbrev nothing_persisted : Persisted
nothing_persisted = record {
  artifact_id = 0;
  version_id = 0;
  qa_status = QaStatus.fail;
  official_eligible = false;
}

abbrev persisted : Persisted × Db
persisted = from_ok (nothing_persisted, themed_db) persist_call

-- A scene of the plan's slide from an earlier video.
abbrev old_scene : VideoScene
old_scene = record {
  source_slide_id = 30;
  source_refs = [];
  slide_version = 1;
  scene_version = 4;
  storage_key = text "visuals/old.mp4";
  preview_key = text "visuals/old.png";
  frames = 48;
  fps = 24;
  mock = true;
}

abbrev studio : Studio
studio = record {
  has_ffmpeg = true;
  frames = 48;
  fps = 24;
  cancelled = λ round. ok tt;
  has_file = λ key. ok true;
  allocate_image = λ round. ok (text "visuals/new.png");
  allocate_clip = λ round. ok (text "visuals/new.mp4");
  preview_slide = λ slide key. ok tt;
  render_clip = λ image clip. ok tt;
  concat = λ scenes. ok tt;
}

abbrev edited : PlannedSlide
edited = record slide { slide_id = 31; version = 2 }

abbrev scenes : List VideoScene
scenes = from_ok [] (render_video studio none (old_scene ∷ []) (slide ∷ edited ∷ []))

taken_over :
    scenes
    ≡ old_scene
      ∷ record old_scene {
        source_slide_id = 31;
        source_refs = slide.source_refs;
        slide_version = 2;
        scene_version = 1;
        storage_key = text "visuals/new.mp4";
        preview_key = text "visuals/new.png";
      }
      ∷ []
unfolding render_video
taken_over = refl

abbrev zeros : ℕ → List ℕ
zeros zero = []
zeros (suc n) = 0 ∷ zeros n

-- A file of one section that is not compressed, with one paragraph "A".
abbrev hwp_file : OleFile
hwp_file = record {
  header_size = ok (some 256);
  header = ok (text "HWP Document File" ++ zeros 18 ++ 5 ∷ zeros 220);
  entries = 5;
  streams =
      record { number = text "0"; size = ok 6; contents = ok (67 ∷ 0 ∷ 32 ∷ 0 ∷ 65 ∷ 0 ∷ []) } ∷ [];
}

abbrev no_document : NormalizedDocument
no_document = record { sections = []; parser_version = []; warnings = [] }

read_one :
    total_nodes
      (from_ok no_document (parse config (λ b n. none) (λ i. i) (some (ok hwp_file)))).sections
    ≡ 1
unfolding parse
read_one = refl

parse-Answers_example :
    Answers
      (λ (document : NormalizedDocument).
        (1 ≤ length document.sections)
        × (length document.sections ≤ config.max_pages)
        × (total_nodes document.sections ≤ config.max_cells))
      (parse config (λ b n. none) (λ i. i) (some (ok hwp_file)))
parse-Answers_example =
    parse-Answers config (λ b n. none) (λ i. i) (some (ok hwp_file)) (tt, tt, ((tt, tt), tt))
