-- ===== src/Video/Scenes.antt =====
-- The scenes of a video belong to its slides, one by one.
use capstone_nps.Base.{
  ℕ, some, List, Option, ◌≡◌, ◌∷◌, ◌⊎◌, false, Option-cases, true, arith, Bool-cases, inl, subst,
  nat_beq_iff, ◌+◌, not, inr, ◌==◌, [], ◌∙◌, ap, nat_eq, refl,
}
use capstone_nps.Video.{
  Studio, draw_scene, scene_before, scene_for, render_video, render_scenes, is_reused, VideoScene,
  is_selected, next_scene_version,
}
use capstone_nps.Contracts.{PlannedSlide}
use capstone_nps.Base.Errors.{ok, >>=-eq-ok, raise_if, ffmpeg_unavailable, Result-cases}

-- A scene taken over from before, or one drawn now.
abbrev pub IsReused :
    Studio
    → (selected : Option ℕ) → (previous : List VideoScene) → PlannedSlide
    → VideoScene
    → Type 0
IsReused studio selected previous slide scene =
    (scene_before slide.slide_id previous ≡ some scene)
    × (is_selected selected slide.slide_id ≡ false)
    × (studio.has_file scene.storage_key ≡ ok true)

-- In the round, the slide was drawn to a new file, and a clip was made of it in another: these are the scene's.
abbrev pub IsDrawn :
    Studio → (previous : List VideoScene) → (round : ℕ) → PlannedSlide → VideoScene → Type 0
IsDrawn studio previous round slide scene =
    (studio.allocate_image round ≡ ok scene.preview_key)
    × (studio.preview_slide slide scene.preview_key ≡ ok tt)
    × (studio.allocate_clip round ≡ ok scene.storage_key)
    × (studio.render_clip scene.preview_key scene.storage_key ≡ ok tt)
    × (scene.scene_version ≡ next_scene_version (scene_before slide.slide_id previous))
    × (scene.source_refs ≡ slide.source_refs)
    × (scene.frames ≡ studio.frames)
    × (scene.fps ≡ studio.fps)

-- The slide cannot be taken over: it has no scene yet, it is the selected one, it has changed, or its clip is
-- gone.
abbrev pub IsStale :
    Studio → (selected : Option ℕ) → (previous : List VideoScene) → PlannedSlide → Type 0
IsStale studio selected previous slide =
    (old : VideoScene)
    → scene_before slide.slide_id previous ≡ some old
    → is_selected selected slide.slide_id ≡ false
    → old.slide_version ≡ slide.version
    → studio.has_file old.storage_key ≡ ok false

abbrev pub IsSceneOf :
    Studio
    → (selected : Option ℕ) → (previous : List VideoScene) → (round : ℕ) → PlannedSlide
    → VideoScene
    → Type 0
IsSceneOf studio selected previous round slide scene =
    (scene.source_slide_id ≡ slide.slide_id)
    × (scene.slide_version ≡ slide.version)
    × (IsReused studio selected previous slide scene
        ⊎ (IsStale studio selected previous slide × IsDrawn studio previous round slide scene))

-- The scenes of the slides, one for each, from the given round on.
abbrev pub AreScenesOf :
    Studio
    → (selected : Option ℕ) → (previous : List VideoScene) → (round : ℕ) → List PlannedSlide
    → List VideoScene
    → Type 0
AreScenesOf studio selected previous round [] [] = Unit
AreScenesOf studio selected previous round [] (scene ∷ scenes) = ⊥
AreScenesOf studio selected previous round (slide ∷ slides) [] = ⊥
AreScenesOf studio selected previous round (slide ∷ slides) (scene ∷ scenes) =
    IsSceneOf studio selected previous round slide scene
    × AreScenesOf studio selected previous (round + 1) slides scenes

scene_before-slide :
    (slide_id : ℕ) (previous : List VideoScene) (old : VideoScene)
    → scene_before slide_id previous ≡ some old
    → old.source_slide_id ≡ slide_id
unfolding scene_before
scene_before-slide slide_id [] old h = cc
scene_before-slide slide_id (s ∷ rest) old h = elim (Option-cases (scene_before slide_id rest)) [
  | inl gone ↦ ground (arith, nat_beq_iff s.source_slide_id slide_id)
  | inr (later, found) ↦ scene_before-slide slide_id rest old (ground arith)
]

draw_scene-IsDrawn :
    (studio : Studio) (previous : List VideoScene) (round : ℕ) (slide : PlannedSlide)
    {scene : VideoScene}
    → draw_scene studio round slide (scene_before slide.slide_id previous) ≡ ok scene
    → (scene.source_slide_id ≡ slide.slide_id)
      × (scene.slide_version ≡ slide.version)
      × IsDrawn studio previous round slide scene
unfolding draw_scene
draw_scene-IsDrawn studio previous round slide {scene} done =
    let (image_key, a, b) = >>=-eq-ok (studio.allocate_image round) _ done in
    let (_, c, d) = >>=-eq-ok (studio.preview_slide slide image_key) _ b in
    let (clip_key, e, f) = >>=-eq-ok (studio.allocate_clip round) _ d in
    let (_, g, i) = >>=-eq-ok (studio.render_clip image_key clip_key) _ f in
    let made : VideoScene = record {
      source_slide_id = slide.slide_id;
      source_refs = slide.source_refs;
      slide_version = slide.version;
      scene_version = next_scene_version (scene_before slide.slide_id previous);
      storage_key = clip_key;
      preview_key = image_key;
      frames = studio.frames;
      fps = studio.fps;
      mock = true;
    } in
    let same : made ≡ scene = ground arith in
    subst
      (λ (s : VideoScene).
        (s.source_slide_id ≡ slide.slide_id)
        × (s.slide_version ≡ slide.version)
        × IsDrawn studio previous round slide s)
      same (refl, refl, (a, c, e, g, refl, refl, refl, refl))

is_reused-false :
    (studio : Studio) (selected : Option ℕ) (slide : PlannedSlide) (old : VideoScene)
    → is_reused studio selected slide old ≡ ok false
    → is_selected selected slide.slide_id ≡ false
    → old.slide_version ≡ slide.version
    → studio.has_file old.storage_key ≡ ok false
unfolding is_reused
is_reused-false studio selected slide old h free same =
    ground (arith, nat_beq_iff old.slide_version slide.version)

is_reused_lem :
    (studio : Studio) (selected : Option ℕ) (slide : PlannedSlide) (old : VideoScene)
    → is_reused studio selected slide old ≡ ok true
    → (is_selected selected slide.slide_id ≡ false)
      × (old.slide_version ≡ slide.version)
      × (studio.has_file old.storage_key ≡ ok true)
unfolding is_reused
is_reused_lem studio selected slide old h =
    elim (Bool-cases (is_selected selected slide.slide_id)) [
      | inl chosen ↦ absurd (ground arith)
      | inr free ↦ elim (Bool-cases (old.slide_version == slide.version)) [
        | inr changed ↦ absurd (ground arith)
        | inl same ↦ (free, (nat_beq_iff old.slide_version slide.version).0 same, ground arith)
      ]
    ]

scene_for-IsSceneOf :
    (studio : Studio) (selected : Option ℕ) (previous : List VideoScene) (round : ℕ)
    (slide : PlannedSlide) {scene : VideoScene}
    → scene_for studio selected previous round slide ≡ ok scene
    → IsSceneOf studio selected previous round slide scene
unfolding scene_for
scene_for-IsSceneOf studio selected previous round slide {scene} done =
    let (_, going, rest) = >>=-eq-ok (studio.cancelled round) _ done in
    elim (Option-cases (scene_before slide.slide_id previous)) [
      | inl new ↦
          let (slide_id, version, made) =
            draw_scene-IsDrawn studio previous round slide {scene = scene}
              (rw new (ground arith)) in
          (slide_id, version, inr ((λ old found. absurd (ground arith)), made))
      | inr (old, found) ↦ elim (Result-cases (is_reused studio selected slide old)) [
        | inl (e, refused) ↦ absurd (ground arith)
        | inr (false, redraw) ↦
            let (slide_id, version, made) =
              draw_scene-IsDrawn studio previous round slide {scene = scene}
                (rw found (ground arith)) in
            (
              slide_id,
              version,
              inr (
                (λ other there free same.
                    let it : old ≡ other = cc in
                    subst (λ (s : VideoScene). studio.has_file s.storage_key ≡ ok false) it
                      (is_reused-false studio selected slide old redraw free
                        (ap (λ (s : VideoScene). s.slide_version) it ∙ same))),
                made,
              ),
            )
        | inr (true, reused) ↦
            let same : old ≡ scene = ground arith in
            let (free, version, there) = is_reused_lem studio selected slide old reused in
            subst (λ (s : VideoScene). IsSceneOf studio selected previous round slide s) same
              (
                scene_before-slide slide.slide_id previous old found,
                version,
                inl (found, free, there),
              )
      ]
    ]

render_scenes-AreScenesOf :
    (studio : Studio) (selected : Option ℕ) (previous : List VideoScene) (round : ℕ)
    (slides : List PlannedSlide) {scenes : List VideoScene}
    → render_scenes studio selected previous round slides ≡ ok scenes
    → AreScenesOf studio selected previous round slides scenes
unfolding render_scenes
render_scenes-AreScenesOf studio selected previous round [] {scenes} done =
    let none_made : [] ≡ scenes = ground arith in
    subst (λ (s : List VideoScene). AreScenesOf studio selected previous round [] s) none_made tt
render_scenes-AreScenesOf studio selected previous round (slide ∷ rest) {scenes} done =
    let (scene, made, after) = >>=-eq-ok (scene_for studio selected previous round slide) _ done in
    let (more, made_more, last) =
      >>=-eq-ok (render_scenes studio selected previous (round + 1) rest) _ after in
    let all : scene ∷ more ≡ scenes = ground arith in
    subst (λ (s : List VideoScene). AreScenesOf studio selected previous round (slide ∷ rest) s) all
      (
        scene_for-IsSceneOf studio selected previous round slide made,
        render_scenes-AreScenesOf studio selected previous (round + 1) rest made_more,
      )

pub render_video-AreScenesOf :
    (studio : Studio) (selected : Option ℕ) (previous : List VideoScene)
    (slides : List PlannedSlide) {scenes : List VideoScene}
    → render_video studio selected previous slides ≡ ok scenes
    → AreScenesOf studio selected previous 0 slides scenes
unfolding render_video
render_video-AreScenesOf studio selected previous slides {scenes} done =
    let (_, found, after) =
      >>=-eq-ok (raise_if (not studio.has_ffmpeg) ffmpeg_unavailable 503) _ done in
    let (made, rendered, last) =
      >>=-eq-ok (render_scenes studio selected previous 0 slides) _ after in
    let (_, joined, end) = >>=-eq-ok (studio.concat made) _ last in
    let same : made ≡ scenes = ground arith in
    subst (λ (s : List VideoScene). AreScenesOf studio selected previous 0 slides s) same
      (render_scenes-AreScenesOf studio selected previous 0 slides rendered)
