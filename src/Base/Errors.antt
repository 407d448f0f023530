-- ===== src/Base/Errors.antt =====
-- errors.py: `DomainError`, any other exception, and what a call returns or raises.
use Prim.Native.Nat.{ℕ}
use mathlib.Core.Path.{◌≡◌, refl}
use mathlib.Core.Bool.{Bool, true, false}
use capstone_nps.Base.Tests.{Eq, decided_eq}
use capstone_nps.Base.{◌⊎◌, inr, inl}

-- The codes that the modelled part raises or records.
pub data Code : Type 0 where
  job_invalid_transition idempotency_invalid idempotency_conflict job_not_cancellable : Code
  job_not_retryable job_retry_exhausted job_resume_invalid job_resume_prerequisite : Code
  job_resume_completed_step job_cancelled worker_lost step_failed : Code
  plan_review_required plan_version_changed plan_identity_immutable version_conflict : Code
  evidence_invalid qa_failed : Code
  auth_forbidden auth_required auth_refresh_invalid resource_not_found : Code
  doc_malformed doc_resource_limit hwp_encoding_unsupported : Code
  doc_archive_bomb doc_archive_unsafe doc_encrypted doc_embedded_active_content : Code
  doc_unsafe_filename doc_unsupported doc_too_large doc_mime_mismatch : Code
  doc_malware doc_scan_unavailable storage_invalid_key doc_not_clean : Code
  parse_required ppt_review_required slide_not_found project_owner_required : Code
  queue_unavailable template_invalid template_not_found step_unsupported auth_invalid_credentials :
      Code
  auth_provider_not_configured auth_secret_not_configured : Code
  hwp_adapter_disabled hwp_format_unsupported hwp_version_unsupported : Code
  hwp_distribution_unsupported hwp_drm_unsupported doc_empty ffmpeg_unavailable : Code

unfoldable pub Code-discrete : Discrete Code
Code-discrete = hlevel

instance unfoldable pub code_eq : Eq Code
unfolding Code-discrete
code_eq = decided_eq Code-discrete

-- `other` is an exception that is no `DomainError`.
pub data Exception : Type 0 where
  domain_error : Code → ℕ → Exception
  other : Exception

pub data Result {ℓ} (A : Type ℓ) : Type ℓ where
  err : Exception → Result A
  ok : A → Result A

abbrev pub raise {ℓ} : {A : Type ℓ} → Code → ℕ → Result A
raise c status = err (domain_error c status)

infixl 5 ◌>>=◌
abbrev pub ◌>>=◌ {κ ℓ} : {A : Type κ} → {B : Type ℓ} → Result A → (A → Result B) → Result B
err e >>= next = err e
ok x >>= next = next x

infixl 5 ◌>>◌
abbrev pub ◌>>◌ {ℓ} : {B : Type ℓ} → (first_part : Result (Unit {0})) → Result B → Result B
first_part >> rest = first_part >>= λ done. rest

-- `if b: raise DomainError(c, status)`
abbrev pub raise_if : Bool → Code → ℕ → Result (Unit {0})
raise_if true c status = raise c status
raise_if false c status = ok tt

pub >>=-eq-ok {κ ℓ} :
    {A : Type κ}
    → {B : Type ℓ} → (call : Result A) (next : A → Result B) {y : B} → (call >>= next) ≡ ok y
    → (x : A) × (call ≡ ok x) × (next x ≡ ok y)
>>=-eq-ok (err e) next h = cc
>>=-eq-ok (ok x) next h = (x, refl, h)

pub raise_if-eq-ok : (b : Bool) (c : Code) (status : ℕ) → raise_if b c status ≡ ok tt → b ≡ false
raise_if-eq-ok true c status h = cc
raise_if-eq-ok false c status h = refl

pub Result-cases {ℓ} :
    {A : Type ℓ} (r : Result A) → ((e : Exception) × (r ≡ err e)) ⊎ ((a : A) × (r ≡ ok a))
Result-cases (ok a) = inr (a, refl)
Result-cases (err e) = inl (e, refl)
