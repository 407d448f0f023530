-- ===== src/Auth/Audit.antt =====
-- `audit` of auth.py: only the listed metadata of a call's detail enters the audit stream.
use capstone_nps.Base.{ℕ, List, [], ◌∷◌, ◌++◌, contains}
use capstone_nps.Base.Rows.{select}
use capstone_nps.Base.Words.{Text, text, text_eq}
use capstone_nps.Models.{Detail, Db, AuditResult, AuditEvent}

abbrev safe_keys : List Text
safe_keys =
    text "old_role"
    ∷ text "new_role"
    ∷ text "old_active"
    ∷ text "new_active"
    ∷ text "plan_id"
    ∷ text "plan_version"
    ∷ text "version"
    ∷ text "step"
    ∷ text "mode"
    ∷ []

unfoldable pub safe : List (Text × Detail) → List (Text × Detail)
safe detail = select (λ (k, _). contains k safe_keys) detail

abbrev pub audit_event :
    AuditResult
    → (actor : ℕ) (action : Text) (target project : ℕ) → List (Text × Detail)
    → AuditEvent
audit_event outcome actor action target project detail = record {
  actor_id = actor;
  project_id = project;
  action = action;
  target = target;
  outcome = outcome;
  detail = safe detail;
}

-- The row is added to the session, and is committed with the caller's writes.
unfoldable pub audit :
    (actor : ℕ) (action : Text) (target project : ℕ) → List (Text × Detail) → Db → Db
unfolding safe
audit actor action target project detail db = record db {
  audits = db.audits ++ audit_event AuditResult.success actor action target project detail ∷ [];
}

-- `audit(…, result="DENIED")`
unfoldable pub audit_denied : (actor : ℕ) (action : Text) (target project : ℕ) → Db → Db
unfolding safe
audit_denied actor action target project db = record db {
  audits = db.audits ++ audit_event AuditResult.denied actor action target project [] ∷ [];
}
