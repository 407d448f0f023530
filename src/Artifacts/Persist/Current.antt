-- ===== src/Artifacts/Persist/Current.antt =====
-- The current version of an artifact is its newest.
use mathlib.Core.Option
use capstone_nps.Base.{
  ℕ, none, some, List, All, ◌≡◌, if◌then◌else◌, ◌==◌, ◌∷◌, ◌≤◌, nat_eq, arith, [], inl,
  Option-cases, inr, refl,
}
use capstone_nps.Models.{
  ArtifactVersion, Db, Artifact, GenerationJob, find_artifact, SlidePlan, ArtifactType,
}
use capstone_nps.Artifacts.Persist.{target_artifact, PersistDraw, set_current_version}
use capstone_nps.Base.Rows.{first}
use capstone_nps.Base.Membership.{All-append}
use capstone_nps.Auth.Accounts.{Accounts}

-- The newest version of the artifact, if it has a current one.
abbrev pub IsNewestOf : (versions : List ArtifactVersion) → ℕ → (version_id : ℕ) → Type 0
IsNewestOf versions artifact_id version_id =
    (w : ArtifactVersion) × (first (λ (v : ArtifactVersion). v.id == version_id) versions ≡ some w)
    × (w.artifact_id ≡ artifact_id)
    × All (λ (u : ArtifactVersion). u.artifact_id ≡ artifact_id → u.version ≤ w.version) versions

abbrev pub CurrentIsNewest : Db → Type 0
CurrentIsNewest db =
    All
      (λ (a : Artifact).
        (id : ℕ) → a.current_version_id ≡ some id → IsNewestOf db.artifact_versions a.id id)
      db.artifacts

-- One artifact, through the insertion of a version.
abbrev written : ArtifactVersion → Artifact → Artifact
written version a = if a.id == version.artifact_id then set_current_version version.id a else a

-- A new artifact has no current version yet.
pub target_artifact-CurrentIsNewest :
    (draw : PersistDraw) (job : GenerationJob) (plan : SlidePlan) (kind : ArtifactType) (db : Db)
    → CurrentIsNewest db
    → CurrentIsNewest (target_artifact draw job plan kind db).1
      × ((target_artifact draw job plan kind db).1.artifact_versions ≡ db.artifact_versions)
unfolding target_artifact
target_artifact-CurrentIsNewest draw job plan kind db kept =
    let made =
      All-append
        (λ (a : Artifact).
          (id : ℕ) → a.current_version_id ≡ some id → IsNewestOf db.artifact_versions a.id id)
        db.artifacts
        (record {
          id = draw.artifact_id;
          project_id = plan.project_id;
          plan_id = plan.id;
          type = kind;
          current_version_id = none;
        }
          ∷ [])
        kept ((λ id named. absurd (ground arith)), tt) in
    elim (Option-cases job.payload.artifact_id) [
      | inl unnamed ↦ rw unnamed (made, refl)
      | inr (id, named) ↦ elim (Option-cases (find_artifact id db)) [
        | inl gone ↦ rw (target_artifact, named, gone) (made, refl)
        | inr (found, there) ↦ rw (target_artifact, named, there) (kept, refl)
      ]
    ]
