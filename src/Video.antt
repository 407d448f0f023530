-- ===== src/Video.antt =====
-- `render_video` of apps/api/nps/video.py: which scenes a video is made of, and which of them are drawn again.
pub mod Scenes
pub mod Again
use capstone_nps.Base.{
  ℕ, none, some, Option, Bool, List, ◌+◌, false, ◌∷◌, if◌then◌else◌, ◌==◌, nat_eq, [], not, true,
  ◌&&◌,
}
use capstone_nps.Base.Errors.{◌>>=◌, ◌>>◌, Result, ok, raise_if, ffmpeg_unavailable}
use capstone_nps.Contracts.{PlannedSlide, Evidence}
use capstone_nps.Base.Words.{Text}

-- The dict of a scene. Its duration is `frames / fps`.
pub record VideoScene : Type 0 where
  pub source_slide_id : ℕ
  pub source_refs : List Evidence
  pub slide_version : ℕ
  pub scene_version : ℕ
  pub storage_key : Text
  pub preview_key : Text
  pub frames : ℕ
  pub fps : ℕ
  pub mock : Bool

-- The calls of other parts, each with the number of the round in which it is made: the job's cancellation,
-- the storage, the drawing of a slide and the runs of ffmpeg. `has_file` is `storage.path(…).exists()`, and
-- `frames` is `max(1, round(seconds * fps))`.
pub record Studio : Type 0 where
  pub has_ffmpeg : Bool
  pub frames : ℕ
  pub fps : ℕ
  pub cancelled : (round : ℕ) → Result (Unit {0})
  pub has_file : (storage_key : Text) → Result Bool
  pub allocate_image : (round : ℕ) → Result Text
  pub allocate_clip : (round : ℕ) → Result Text
  pub preview_slide : PlannedSlide → (image_key : Text) → Result (Unit {0})
  pub render_clip : (image_key clip_key : Text) → Result (Unit {0})
  pub concat : List VideoScene → Result (Unit {0})

-- `previous.get(slide_id)`, of a dict that is made from the list: the last scene of a slide counts.
unfoldable pub scene_before : (slide_id : ℕ) → List VideoScene → Option VideoScene
scene_before slide_id [] = none
scene_before slide_id (s ∷ rest) = elim (scene_before slide_id rest) [
  | none ↦ if s.source_slide_id == slide_id then some s else none
  | some later ↦ some later
]

abbrev pub is_selected : (selected : Option ℕ) → (slide_id : ℕ) → Bool
is_selected none slide_id = false
is_selected (some id) slide_id = slide_id == id

-- Whether the scene is taken over as it is: the slide is not the selected one, the versions agree, and the
-- clip is there.
unfoldable pub is_reused :
    Studio → (selected : Option ℕ) → PlannedSlide → (old : VideoScene) → Result Bool
is_reused studio selected slide old =
    if not (is_selected selected slide.slide_id) && old.slide_version == slide.version
    then studio.has_file old.storage_key
    else ok false

abbrev pub next_scene_version : Option VideoScene → ℕ
next_scene_version none = 1
next_scene_version (some old) = old.scene_version + 1

unfoldable pub draw_scene :
    Studio → (round : ℕ) → PlannedSlide → (old : Option VideoScene) → Result VideoScene
draw_scene studio round slide old = do
  image_key ← studio.allocate_image round
  studio.preview_slide slide image_key
  clip_key ← studio.allocate_clip round
  studio.render_clip image_key clip_key
  ok (record {
    source_slide_id = slide.slide_id;
    source_refs = slide.source_refs;
    slide_version = slide.version;
    scene_version = next_scene_version old;
    storage_key = clip_key;
    preview_key = image_key;
    frames = studio.frames;
    fps = studio.fps;
    mock = true;
  })

-- One round of the loop.
unfoldable pub scene_for :
    Studio
    → (selected : Option ℕ) → (previous : List VideoScene) → (round : ℕ) → PlannedSlide
    → Result VideoScene
unfolding scene_before is_reused draw_scene
scene_for studio selected previous round slide = do
  studio.cancelled round
  elim (scene_before slide.slide_id previous) [
    | none ↦ draw_scene studio round slide none
    | some old ↦ do
      reused ← is_reused studio selected slide old
      if reused then ok old else draw_scene studio round slide (some old)
  ]

unfoldable pub render_scenes :
    Studio
    → (selected : Option ℕ) → (previous : List VideoScene) → (round : ℕ) → List PlannedSlide
    → Result (List VideoScene)
unfolding scene_for
render_scenes studio selected previous round [] = ok []
render_scenes studio selected previous round (slide ∷ rest) = do
  scene ← scene_for studio selected previous round slide
  more ← render_scenes studio selected previous (round + 1) rest
  ok (scene ∷ more)

-- Without scenes from before, `previous` is empty. The storyboard's profile is left out.
unfoldable pub render_video :
    Studio
    → (selected : Option ℕ) → (previous : List VideoScene) → List PlannedSlide
    → Result (List VideoScene)
unfolding render_scenes
render_video studio selected previous slides = do
  raise_if (not studio.has_ffmpeg) ffmpeg_unavailable 503
  scenes ← render_scenes studio selected previous 0 slides
  studio.concat scenes
  ok scenes
