-- ===== src/Video/Again.antt =====
-- Rendering a video again from its own scenes.
use capstone_nps.Base.{
  ℕ, none, some, List, ◌∷◌, Option, All, ◌≡◌, ◌≢◌, true, [], refl, Bool-cases, arith, ◌==◌,
  nat_beq_iff, ◌+◌, inl, sym, ◌∙◌, inr, nat_eq,
}
use capstone_nps.Video.{
  render_video, Studio, scene_before, VideoScene, render_scenes, scene_for, is_reused,
}
use capstone_nps.Contracts.{PlannedSlide}
use capstone_nps.Video.Scenes.{AreScenesOf, render_video-AreScenesOf}
use capstone_nps.Base.Errors.{ok}

-- The two lists have the same length, and the predicate holds of each slide and its scene.
abbrev pub Pairs :
    (PlannedSlide → VideoScene → Type 0) → List PlannedSlide → List VideoScene → Type 0
Pairs P [] [] = Unit
Pairs P [] (scene ∷ scenes) = ⊥
Pairs P (slide ∷ slides) [] = ⊥
Pairs P (slide ∷ slides) (scene ∷ scenes) = P slide scene × Pairs P slides scenes

-- No two slides share an id.
abbrev pub SlidesDiffer : List PlannedSlide → Type 0
SlidesDiffer [] = Unit
SlidesDiffer (s ∷ rest) =
    All (λ (t : PlannedSlide). t.slide_id ≢ s.slide_id) rest × SlidesDiffer rest

abbrev IsSameVersion : PlannedSlide → VideoScene → Type 0
IsSameVersion slide scene =
    (scene.source_slide_id ≡ slide.slide_id) × (scene.slide_version ≡ slide.version)

abbrev IsKept : List VideoScene → PlannedSlide → VideoScene → Type 0
IsKept all slide scene =
    (scene_before slide.slide_id all ≡ some scene) × (scene.slide_version ≡ slide.version)

AreScenesOf-IsSameVersion :
    (studio : Studio) (selected : Option ℕ) (previous : List VideoScene) (round : ℕ)
    (slides : List PlannedSlide) (scenes : List VideoScene)
    → AreScenesOf studio selected previous round slides scenes
    → Pairs IsSameVersion slides scenes
AreScenesOf-IsSameVersion studio selected previous round [] [] h = tt
AreScenesOf-IsSameVersion studio selected previous round [] (scene ∷ scenes) h = elim h [ ]
AreScenesOf-IsSameVersion studio selected previous round (slide ∷ slides) [] h = elim h [ ]
AreScenesOf-IsSameVersion studio selected previous round (slide ∷ slides) (scene ∷ scenes)
      (here, rest) =
    (
      (here.0, here.1),
      AreScenesOf-IsSameVersion studio selected previous (round + 1) slides scenes rest,
    )

-- No scene of other slides counts for a slide.
scene_before-absent :
    (slide_id : ℕ) (slides : List PlannedSlide) (scenes : List VideoScene)
    → Pairs IsSameVersion slides scenes
    → All (λ (t : PlannedSlide). t.slide_id ≢ slide_id) slides
    → scene_before slide_id scenes ≡ none
unfolding scene_before
scene_before-absent slide_id [] [] h others = refl
scene_before-absent slide_id [] (scene ∷ scenes) h others = elim h [ ]
scene_before-absent slide_id (slide ∷ slides) [] h others = refl
scene_before-absent slide_id (slide ∷ slides) (scene ∷ scenes) (here, rest) others =
    let later = scene_before-absent slide_id slides scenes rest others.1 in
    elim (Bool-cases (scene.source_slide_id == slide_id)) [
      | inl same ↦
          absurd (others.0 (sym here.0 ∙ (nat_beq_iff scene.source_slide_id slide_id).0 same))
      | inr differs ↦ rw (scene_before, later, differs) refl
    ]

-- A scene found in the rest is found in the whole.
IsKept-later :
    (x : VideoScene) (all : List VideoScene) (slides : List PlannedSlide) (scenes : List VideoScene)
    → Pairs (IsKept all) slides scenes
    → Pairs (IsKept (x ∷ all)) slides scenes
unfolding scene_before
IsKept-later x all [] [] h = tt
IsKept-later x all [] (scene ∷ scenes) h = elim h [ ]
IsKept-later x all (slide ∷ slides) [] h = elim h [ ]
IsKept-later x all (slide ∷ slides) (scene ∷ scenes) (here, rest) =
    ((rw (scene_before, here.0) refl, here.1), IsKept-later x all slides scenes rest)

IsSameVersion-IsKept :
    (slides : List PlannedSlide) (scenes : List VideoScene)
    → SlidesDiffer slides
    → Pairs IsSameVersion slides scenes
    → Pairs (IsKept scenes) slides scenes
unfolding scene_before
IsSameVersion-IsKept [] [] differ h = tt
IsSameVersion-IsKept [] (scene ∷ scenes) differ h = elim h [ ]
IsSameVersion-IsKept (slide ∷ slides) [] differ h = elim h [ ]
IsSameVersion-IsKept (slide ∷ slides) (scene ∷ scenes) differ (here, rest) = (
  (
    rw (scene_before, scene_before-absent slide.slide_id slides scenes rest differ.0)
        (ground (arith, here.0, nat_beq_iff scene.source_slide_id slide.slide_id)),
    here.1,
  ),
  IsKept-later scene scenes slides scenes (IsSameVersion-IsKept slides scenes differ.1 rest),
)

module _ (studio : Studio) (all : List VideoScene)
    (going : (round : ℕ) → studio.cancelled round ≡ ok tt) where
  render_scenes_kept :
      (round : ℕ) (slides : List PlannedSlide) (scenes : List VideoScene)
      → Pairs (IsKept all) slides scenes
      → All (λ (s : VideoScene). studio.has_file s.storage_key ≡ ok true) scenes
      → render_scenes studio none all round slides ≡ ok scenes
  unfolding render_scenes scene_for is_reused
  render_scenes_kept round [] [] h files = refl
  render_scenes_kept round [] (scene ∷ scenes) h files = elim h [ ]
  render_scenes_kept round (slide ∷ slides) [] h files = elim h [ ]
  render_scenes_kept round (slide ∷ slides) (scene ∷ scenes) (here, rest) files =
      let later = render_scenes_kept (round + 1) slides scenes rest files.1 in
      ground
        (arith, going round, here.0, here.1, files.0, nat_beq_iff scene.slide_version slide.version)

-- A video rendered again without a change costs nothing: where its slides have different ids, its scenes given
-- as those of before, with no slide selected and every clip still there, are taken over one by one, and the
-- result is the same scenes. Nothing is drawn; only the clips are joined again.
pub render_video_again :
    (first_studio studio : Studio) (selected : Option ℕ) (previous : List VideoScene)
    (slides : List PlannedSlide) {scenes : List VideoScene}
    → render_video first_studio selected previous slides ≡ ok scenes
    → SlidesDiffer slides
    → studio.has_ffmpeg ≡ true
    → ((round : ℕ) → studio.cancelled round ≡ ok tt)
    → All (λ (s : VideoScene). studio.has_file s.storage_key ≡ ok true) scenes
    → studio.concat scenes ≡ ok tt
    → render_video studio none scenes slides ≡ ok scenes
unfolding render_video
render_video_again first_studio studio selected previous slides {scenes} done differ has going files
      joined =
    let same =
      AreScenesOf-IsSameVersion first_studio selected previous 0 slides scenes
        (render_video-AreScenesOf first_studio selected previous slides done) in
    let kept =
      render_scenes_kept studio scenes going 0 slides scenes
        (IsSameVersion-IsKept slides scenes differ same) files in
    rw (has, kept, joined) refl
