-- ===== src/Tests/Samples.antt =====
-- Sample settings, jobs and tables.
use capstone_nps.Models.{Db, GenerationJob, Payload, Kind, Step, ThemeConfig}
use capstone_nps.Base.{[], ◌∷◌, some, none, false, ℕ, true}
use capstone_nps.Pipeline.{Run}
use capstone_nps.Config.{Settings, Environment, ReviewMode}
use capstone_nps.Jobs.Broker.{Broker, heartbeat}
use capstone_nps.Base.Errors.{err, ok, other, step_failed, Result}
use capstone_nps.Jobs.Requests.{new_step, empty_output, Request}
use capstone_nps.Base.Words.{text}
use capstone_nps.Contracts.{queued, failed, running}
use capstone_nps.Jobs.Leases.{Worker}
use capstone_nps.Jobs.{routing}
use capstone_nps.Jobs.Snapshot.{Snapshot}

abbrev pub config : Settings
config = record {
  environment = Environment.dev;
  review_mode = ReviewMode.strict;
  chunk_tokens = 6;
  max_cells = 50000;
  max_pages = 200;
  upload_max_bytes = 104857600;
  archive_max_bytes = 209715200;
  archive_max_entries = 2000;
  archive_max_ratio = 100;
  worker_lease_seconds = 120;
  database_url = text "sqlite:///./storage/local.db";
  jwt_secret = text "0123456789abcdef0123456789abcdef";
  access_minutes = 10;
  refresh_days = 1;
  dev_insecure_cookie = false;
  auth_provider = text "local";
  scan_mode = text "mock";
  hwp_enabled = true;
  allowed_origins = text "http://localhost:8080,http://127.0.0.1:8080";
}

abbrev pub no_payload : Payload
no_payload = record {
  document_id = some 5;
  version_id = some 6;
  plan_id = none;
  plan_version = none;
  review_mode = none;
  artifact_id = none;
  slide_id = none;
  quarantine_key = none;
  extension = none;
  mime = none;
  size = none;
}

-- A queued job of the kind `design_reference`, which has two steps.
abbrev pub job : GenerationJob
job = record {
  id = 1;
  created_at = 10;
  project_id = 2;
  requested_by = 3;
  kind = Kind.design_reference;
  state = queued;
  step = Step.security_scan;
  progress = 0;
  seq = 1;
  payload = no_payload;
  result = empty_output;
  error_code = none;
  idempotency_key = text "k1";
  fingerprint = 77;
  priority = 0;
  estimated_vram_mb = 0;
  required_capability = text "cpu";
  cancel_requested = false;
  retry_count = 0;
  resume_from_step = none;
  worker_id = none;
  lease_until = none;
}

abbrev pub empty_db : Db
empty_db = record {
  jobs = [];
  steps = [];
  plans = [];
  chunks = [];
  slides = [];
  reviews = [];
  approvals = [];
  audits = [];
  documents = [];
  versions = [];
  parses = [];
  artifacts = [];
  artifact_versions = [];
  templates = [];
}

abbrev pub db : Db
db = record empty_db {
  jobs = job ∷ [];
  steps = new_step 1 Step.security_scan ∷ new_step 1 Step.design_learn ∷ [];
}

abbrev pub broker : Broker
broker = record { outages = []; hints = []; workers = [] }

-- A run in which the handler succeeds with an empty output, and no other session is at work.
abbrev pub good_run : Run
good_run = record {
  outcome = ok (empty_output, λ db. db);
  during = λ db. db;
  late = λ db. db;
  cleanup = ok tt;
}

-- A run in which the handler raises.
abbrev pub bad_run : Run
bad_run = record good_run { outcome = err other }

-- The value of a call that returns.
abbrev pub from_ok {ℓ} : {A : Type ℓ} → A → Result A → A
from_ok d (ok a) = a
from_ok d (err e) = d

abbrev pub request : Request
request = record {
  user = 3;
  project_id = 2;
  kind = Kind.analyze;
  payload = no_payload;
  key = some (text "k2");
  new_id = 9;
  new_key = text "u";
  now = 40;
}

-- A stand-in for the digest.
abbrev pub digest_of : Kind → Payload → ℕ
digest_of kind payload = 5

abbrev pub failed_job : GenerationJob
failed_job = record job { state = failed; error_code = some step_failed; worker_id = none }

abbrev pub failed_db : Db
failed_db = record db { jobs = failed_job ∷ [] }

abbrev pub running_job : GenerationJob
running_job = record job { state = running; worker_id = some 4; lease_until = some 50 }

abbrev pub running_db : Db
running_db = record db { jobs = running_job ∷ [] }

abbrev pub worker : Worker
worker = record {
  worker_id = 4;
  queue = routing Step.security_scan;
  capability = text "cpu";
  free_vram = 0;
}

abbrev pub live_broker : Broker
unfolding heartbeat
live_broker = (heartbeat 30 4 (routing Step.security_scan) (text "cpu") 0 broker).1

abbrev pub no_view : Snapshot
no_view = record {
  job_id = 0;
  project_id = 0;
  kind = Kind.upload;
  document_id = none;
  state = queued;
  step = Step.parse;
  progress = 0;
  seq = 0;
  error_code = none;
  result = empty_output;
  retry_count = 0;
  steps = [];
}

abbrev pub no_theme : ThemeConfig
no_theme = record {
  design_engine = some (text "editorial-2");
  source = none;
  slug = none;
  tags = text "plan" ∷ [];
  reference_sha256 = none;
}
