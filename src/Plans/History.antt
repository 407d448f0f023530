-- ===== src/Plans/History.antt =====
-- What `save_slides` adds to the history of slides.

use capstone_nps.Base.{
  ℕ, List, All, inl, ◌==◌, ◌∷◌, ◌⊎◌, ◌&&◌, arith, ◌≢◌, ◌≡◌, [], inr, some, none, false,
  Option-cases, ◌∙◌, nat_eq,
}
use capstone_nps.Contracts.{PlannedSlide}
use capstone_nps.Plans.Edit.{save_rows, save_slide, slide_row, is_version}
use capstone_nps.Models.{Slide, Db}
use capstone_nps.Base.Rows.{first, first-append_none, first-append_some}

-- The slide's row, at its version, holds the slide.
abbrev pub IsRecorded : (plan_id : ℕ) → Db → PlannedSlide → Type 0
IsRecorded p db s = first (is_version p s.slide_id s.version) db.slides ≡ some (slide_row p s)

-- It does, or there is no row of the slide at its version.
abbrev pub Fits : (plan_id : ℕ) → Db → PlannedSlide → Type 0
Fits p db s = IsRecorded p db s ⊎ (first (is_version p s.slide_id s.version) db.slides ≡ none)

abbrev pub IdsDistinct : List PlannedSlide → Type 0
IdsDistinct [] = Unit
IdsDistinct (s ∷ rest) = All (λ (x : PlannedSlide). x.slide_id ≢ s.slide_id) rest × IdsDistinct rest

module _ (p : ℕ) where
  save_slide-found :
      (s : PlannedSlide) (db : Db) (q k v : ℕ) (r : Slide)
      → first (is_version q k v) db.slides ≡ some r
      → first (is_version q k v) (save_slide p s db).slides ≡ some r
  unfolding save_slide
  save_slide-found s db q k v r h =
      ground (arith, first-append_some (is_version q k v) db.slides (slide_row p s ∷ []) r h)

  pub save_rows-found :
      (ss : List PlannedSlide) (db : Db) (q k v : ℕ) (r : Slide)
      → first (is_version q k v) db.slides ≡ some r
      → first (is_version q k v) (save_rows p ss db).slides ≡ some r
  unfolding save_rows
  save_rows-found [] db q k v r h = h
  save_rows-found (s ∷ rest) db q k v r h =
      save_rows-found rest (save_slide p s db) q k v r (save_slide-found s db q k v r h)

  save_slide-other :
      (s : PlannedSlide) (db : Db) (k v : ℕ)
      → (s.slide_id == k && s.version == v) ≡ false
      → first (is_version p k v) (save_slide p s db).slides ≡ first (is_version p k v) db.slides
  unfolding save_slide
  save_slide-other s db k v h = elim (Option-cases (first (is_version p k v) db.slides)) [
    | inl gone ↦
        ground (arith, first-append_none (is_version p k v) db.slides (slide_row p s ∷ []) gone)
    | inr (r, there) ↦
        ground (arith, first-append_some (is_version p k v) db.slides (slide_row p s ∷ []) r there)
  ]

  save_slide-IsRecorded :
      (s : PlannedSlide) (db : Db) → Fits p db s → IsRecorded p (save_slide p s db) s
  unfolding save_slide
  save_slide-IsRecorded s db (inl there) = ground arith
  save_slide-IsRecorded s db (inr gone) = ground (
    arith,
    first-append_none (is_version p s.slide_id s.version) db.slides (slide_row p s ∷ []) gone,
  )

  -- A version that none of the slides has stays without a row.
  pub save_rows-absent :
      (ss : List PlannedSlide) (db : Db) (k v : ℕ)
      → All (λ (s : PlannedSlide). (s.slide_id == k && s.version == v) ≡ false) ss
      → first (is_version p k v) db.slides ≡ none
      → first (is_version p k v) (save_rows p ss db).slides ≡ none
  unfolding save_rows
  save_rows-absent [] db k v n h = h
  save_rows-absent (s ∷ rest) db k v n h =
      save_rows-absent rest (save_slide p s db) k v n.1 (save_slide-other s db k v n.0 ∙ h)

  still_Fits :
      (s : PlannedSlide) (ss : List PlannedSlide) (db : Db)
      → All (λ (x : PlannedSlide). x.slide_id ≢ s.slide_id) ss
      → All (Fits p db) ss
      → All (Fits p (save_slide p s db)) ss
  still_Fits s [] db n h = tt
  still_Fits s (x ∷ ss) db n h = (
    rw (save_slide-other s db x.slide_id x.version (ground arith)) h.0,
    still_Fits s ss db n.1 h.1,
  )

  -- Slides with different ids, each of which has its own contents at its version or nothing, are all
  -- recorded in the end.
  pub save_rows-IsRecorded :
      (ss : List PlannedSlide) (db : Db)
      → IdsDistinct ss
      → All (Fits p db) ss
      → All (IsRecorded p (save_rows p ss db)) ss
  unfolding save_rows
  save_rows-IsRecorded [] db d h = tt
  save_rows-IsRecorded (s ∷ rest) db d h = (
    save_rows-found rest (save_slide p s db) p s.slide_id s.version (slide_row p s)
        (save_slide-IsRecorded s db h.0),
    save_rows-IsRecorded rest (save_slide p s db) d.1 (still_Fits s rest db d.0 h.1),
  )
