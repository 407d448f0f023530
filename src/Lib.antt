-- ===== src/Lib.antt =====
-- The core of the NPS API (apps/api/nps), which turns uploaded documents into slide plans, decks, images
-- and videos.
--
-- The API writes a job with one row per step of its pipeline, and a hint for the queue in Redis. A
-- worker claims a waiting job under a lease, runs its next step, and commits the outcome: the job is
-- queued again for the following step, or ends. A recovery round fails the jobs whose lease has run
-- out; a user may cancel a job, or retry one that failed. Steps that generate something need a plan that
-- was approved at its present version. In front of the jobs stand the routes, which authorise the user and
-- check what a job needs; behind them the steps, which scan, parse and cut documents, plan, and draw.
--
-- Files:
--   Base: what the components share: Boolean tests and equality (Base/Tests), lists over the native
--     numbers (Base/Lists, Base/Membership), strings as code points (Base/Words), the
--     search for a pattern in pieces of a text (Base/Search), tables as lists of
--     rows (Base/Rows), exceptions as results (Base/Errors, from apps/api/nps/errors.py), and
--     calls that come to an end (Base/Answers).
--   Contracts: apps/api/nps/contracts.py, the data that components exchange; Contracts/Validation is the
--     test that `model_validate` makes.
--   Config: apps/api/nps/config.py, the settings, their validator, and the property
--     `prototype_review_pass`.
--   Models: apps/api/nps/models.py, the tables, as the record `Db` of lists of rows; Models/Documents has
--     the tables of documents, artifacts and templates, and Models/Reads
--     the laws of the reads and writes on them.
--   Auth: apps/api/nps/auth.py: Auth/Audit is `audit`; Auth/Accounts has the tables of accounts; Auth/Scope
--     is `org_scope`, `authorize_project` and `require_admin`, with Reach and Grants about them;
--     Auth/Sessions is `create_refresh` and `consume_refresh`; Auth/Tokens is passwords and access tokens.
--   Jobs: apps/api/nps/jobs.py: `PIPELINES`, `ROUTING`, `TRANSITIONS`, `transition`. Jobs/Broker is
--     Redis, `enqueue` and `heartbeat`; Jobs/Requests is `create_job`, `cancel_job`, `retry_job`;
--     Jobs/Snapshot is `snapshot`;
--     Jobs/Leases is `claim` and `recover_expired`; Jobs/Leases/Renewal
--     has the renewal of leases in apps/api/nps/worker.py. Jobs/Machine and Jobs/Evolution, and the modules
--     below Jobs/Requests and Jobs/Leases, are about these.
--   Chunking: apps/api/nps/chunking.py; Chunking/Tokens is `token_count` and the splitting of texts,
--     Chunking/Document is `chunk_document`, with Budget and Links about it; Chunking/Evidence is
--     `validate_evidence`, and Grounded below it is about what that accepts.
--   Plans: apps/api/nps/plans.py: Plans/Gate is `require_approved`, Plans/Edit is `validate_plan`,
--     `save_slides` and `update_plan`, Plans/Review is `review_plan`. Plans/Approval and Plans/Decisions
--     are about approvals; Plans/History, Plans/Versions and Plans/Recorded about versions of slides.
--   Pipeline: apps/api/nps/pipeline.py: `execute_step` and `run_until_terminal`. Pipeline/Index,
--     Pipeline/Failure, Pipeline/Progress, Pipeline/Outcome, Pipeline/Termination and
--     Pipeline/Evolve are about these.
--     Pipeline/Steps is `result_for`, `llm_payload` and the interface of the handlers; Pipeline/Steps/Files
--     has the steps on files, with Numbered and Resumed about them, and Pipeline/Steps/Stages the other
--     steps and `do_step`.
--   Upload: apps/api/nps/upload.py; Upload/Archive is `archive_guard`, and Safe below it is about what that
--     lets through; Upload/Names is `extension_for` and `quarantine_upload`; Upload/Scan is `validate_file`,
--     the scanners and `security_scan`, with Sliding about the mock scanner.
--   Storage: apps/api/nps/storage.py; Storage/Keys is about the keys of files.
--   Hwp: apps/api/nps/hwp.py: Hwp/Records is `records`, with Encoding about it; Hwp/Paragraphs is
--     `paragraph_text`; Hwp/Parse is `decompress_section` and `HWPParser.parse`, with Rounds,
--     Sections and Answers about their loops.
--   Themes: apps/api/nps/themes.py; Themes/Choice is about `choose_theme`.
--   Artifacts: apps/api/nps/artifacts.py: the views and the download; Artifacts/Reviews is `review` and
--     `regenerate`, with Gate and Checked about them. Artifacts/Persist is `template_for` and
--     `persist_artifact` of apps/api/nps/ppt.py and `plan_theme` of apps/api/nps/themes.py, with Written
--     and Current about them.
--   Video: `render_video` of apps/api/nps/video.py, with Scenes and Again about it.
--   Routes: apps/api/nps/work_api.py: Routes/Documents, Routes/Plans (with Granted about `generation`),
--     Routes/Jobs, and Routes/Socket, the WebSocket, with Events and Sent about it.
--   Access: about the access checks of the routes in Routes and Artifacts.
--   Api: apps/api/nps/api.py: Api/Login, Api/Projects and Api/Users; Api/Effects, Api/Owners,
--     Api/Membership and Api/Privileges are about these.
--   System: what requests and workers (apps/api/nps/worker.py) do to the tables, one call after the other.
--   Tests: sample data, and the theorems at concrete inputs.
--
-- A request that raises has committed nothing, so its model is a function from the committed tables to
-- a result with the new tables; where the source commits before it raises, the tables stand beside the
-- result. An ORM object is the row as it was read; a commit writes the columns that were assigned, on
-- the row as it is then (`update_job`). What other sessions commit in between is an argument: a
-- function on the tables at each point where the source lets them in.
--
-- Ids, times and digests are numbers; strings are lists of code points. Numbers that the code never
-- makes negative are natural numbers, and no machine width is involved. `int(completed / len * 100)`
-- is the division of natural numbers: the lengths of the pipelines are 1, 2, 3, 6 and 8, for which the
-- two agree.
--
-- Parameters: what a step returned is the outcome of a `Run`, whichever handler it was; the calls of
-- `do_step` to model servers, parsers and drawing code are the record `Handlers`; the digest of a request is
-- a function `sha256`; the ids of chunks and the text that stands in for an image are functions; the
-- failures of Redis commands are a list in `Broker`. Of argon2, PyJWT, zipfile, olefile, zlib and the socket
-- of ClamAV the model takes what they return or, of olefile, that they raise `OSError`, and of the file system where its links lead (`resolve`). `read`
-- gives the dict of a plan's provenance, and `Studio` is what `render_video` calls.
--
-- Fuel: the loop of `org_scope` has one round more than there are organizations, which is enough since
-- every round but the last adds one. The slices of a sentence have its length as fuel; a slice of a
-- positive width takes a character at least. `run_until_terminal` has 30 rounds in the source, and its
-- model has the same 30. The loops over the bytes of an HWP section and of a paragraph have the number of
-- bytes as fuel; each round takes four bytes, or two.
--
-- Not modelled: the parsers but the HWP reader, the LLM and image adapters, the ranking of sentences that
-- stands in for a model (apps/api/nps/editorial.py), the drawing and checking of decks and videos, which
-- call other programs and libraries; the application object and its middleware; the upload of a template;
-- seeds, migrations and scripts.
pub mod Base
pub mod Contracts
pub mod Config
pub mod Models
pub mod Auth
pub mod Chunking
pub mod Jobs
pub mod Plans
pub mod Pipeline
pub mod Hwp
pub mod Storage
pub mod Upload
pub mod Routes
pub mod Artifacts
pub mod Access
pub mod Themes
pub mod Video
pub mod Api
pub mod System
pub mod Tests
