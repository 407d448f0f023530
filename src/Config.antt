-- ===== src/Config.antt =====
-- apps/api/nps/config.py: the settings that the modelled code reads, and their validator.
use capstone_nps.Base.{Eq, Bool, true, false, ◌&&◌, ℕ, decided_eq, if◌then◌else◌, not, ◌==◌, ◌||◌}
use capstone_nps.Base.Errors.{◌>>◌, Result, err, other, ok}
use capstone_nps.Base.Words.{Text, text, starts_with, text_eq}

pub data Environment : Type 0 where
  dev prod offline other_environment : Environment

pub data ReviewMode : Type 0 where
  strict prototype_pass : ReviewMode

unfoldable pub ReviewMode-discrete : Discrete ReviewMode
ReviewMode-discrete = hlevel

instance unfoldable pub review_mode_eq : Eq ReviewMode
unfolding ReviewMode-discrete
review_mode_eq = decided_eq ReviewMode-discrete

pub record Settings : Type 0 where
  pub environment : Environment
  pub review_mode : ReviewMode
  pub chunk_tokens : ℕ
  pub max_cells : ℕ
  pub max_pages : ℕ
  pub upload_max_bytes : ℕ
  pub archive_max_bytes : ℕ
  pub archive_max_entries : ℕ
  pub archive_max_ratio : ℕ
  pub worker_lease_seconds : ℕ
  pub database_url : Text
  pub jwt_secret : Text
  pub access_minutes : ℕ
  pub refresh_days : ℕ
  pub dev_insecure_cookie : Bool
  pub auth_provider : Text
  pub scan_mode : Text
  pub hwp_enabled : Bool
  pub allowed_origins : Text

abbrev is_dev : Environment → Bool
is_dev Environment.dev = true
is_dev _ = false

abbrev is_prototype : ReviewMode → Bool
is_prototype ReviewMode.strict = false
is_prototype ReviewMode.prototype_pass = true

-- The property `prototype_review_pass`.
unfoldable pub prototype_review_pass : Settings → Bool
prototype_review_pass s = is_dev s.environment && is_prototype s.review_mode

-- `environment in {"prod", "offline"}`
abbrev pub is_production : Environment → Bool
is_production Environment.prod = true
is_production Environment.offline = true
is_production _ = false

-- The validator, whose `ValueError` is no `DomainError`.
unfoldable pub secure_configuration : Settings → Result Settings
secure_configuration s = do
  if is_prototype s.review_mode && not (is_dev s.environment) then err other else ok tt
  if is_production s.environment && (not (s.scan_mode == text "clamav") || s.dev_insecure_cookie)
      then err other
      else ok tt
  if is_production s.environment && starts_with (text "sqlite") s.database_url
      then err other
      else ok tt
  ok s
