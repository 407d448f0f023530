-- ===== src/Api/Login.antt =====
-- `tokens`, `login`, `refresh` and `logout` of api.py.
use capstone_nps.Base.{ℕ, none, some, Bool, Option, [], ◌*◌, not}
use capstone_nps.Base.Errors.{◌>>=◌, ◌>>◌, Result, err, ok, domain_error, raise, other}
use capstone_nps.Base.Words.{Text, text}
use capstone_nps.Config.{Settings}
use capstone_nps.Auth.Tokens.{Claims, authenticate, provider, issue_access}
use capstone_nps.Auth.Sessions.{consume_refresh, create_refresh}
use capstone_nps.Auth.Audit.{audit, audit_denied}
use capstone_nps.Api.{Tables}
use capstone_nps.Auth.Accounts.{User, system_id, Accounts}
use capstone_nps.Models.{Db}

-- What an answer with tokens holds; the cookie is the refresh token and its attributes.
pub record TokenAnswer : Type 0 where
  pub access_token : Text
  pub expires_in : ℕ
  pub cookie : Text
  pub cookie_secure : Bool
  pub max_age : ℕ

-- What a call draws from outside: the time, a fresh `jti` and a fresh refresh token.
pub record Draw : Type 0 where
  pub now : ℕ
  pub jti : ℕ
  pub token : Text

module _ (config : Settings) (hash : Text → ℕ) (verify : (hash password : Text) → Bool)
    (encode : Claims → (secret : Text) → Text) where
  -- The refresh token is committed before the access token is made.
  unfoldable pub tokens : Draw → User → Tables → Result TokenAnswer × Accounts × Db
  unfolding create_refresh issue_access
  tokens draw user (accounts, db) =
      let saved =
        create_refresh (config.refresh_days * 86400) draw.now user (hash draw.token) accounts in
      (
        (do
          access ← issue_access config encode draw.now draw.jti user
          ok (record {
            access_token = access;
            expires_in = config.access_minutes * 60;
            cookie = draw.token;
            cookie_secure = not config.dev_insecure_cookie;
            max_age = config.refresh_days * 86400;
          })),
        saved,
        db,
      )

  -- A failed attempt leaves its audit row. `"local-auth"` is no id of a row.
  unfoldable pub login :
      Draw → (username password : Text) → Tables → Result TokenAnswer × Accounts × Db
  unfolding tokens authenticate provider audit audit_denied
  login draw username password (accounts, db) =
      elim (provider config >> authenticate verify accounts username password) [
        | err other ↦ (err other, accounts, db)
        | err (domain_error c status) ↦ (
          raise c status,
          accounts,
          audit_denied system_id (text "LOGIN_FAIL") system_id system_id db,
        )
        | ok user ↦
            tokens draw user
              (accounts, audit user.id (text "LOGIN_SUCCESS") user.id system_id [] db)
      ]

  -- `(token or "")`
  abbrev pub cookie_text : Option Text → Text
  cookie_text none = []
  cookie_text (some token) = token

  -- An exception leaves the session uncommitted.
  unfoldable pub refresh :
      Draw → (cookie : Option Text) → Tables → Result TokenAnswer × Accounts × Db
  unfolding tokens consume_refresh
  refresh draw cookie (accounts, db) =
      let (outcome, spent) = consume_refresh draw.now (hash (cookie_text cookie)) accounts in
      elim outcome [ err e ↦ (err e, accounts, db) | ok user ↦ tokens draw user (spent, db) ]

  -- The revocation is committed even where `consume_refresh` has raised after it.
  unfoldable pub logout :
      (now : ℕ) → User → (cookie : Option Text) → Tables → Result (Unit {0}) × Accounts × Db
  unfolding consume_refresh audit
  logout now user cookie (accounts, db) =
      let left = audit user.id (text "LOGOUT") user.id system_id [] db in
      elim cookie [
        | none ↦ (ok tt, accounts, left)
        | some [] ↦ (ok tt, accounts, left)
        | some token ↦
            let (outcome, spent) = consume_refresh now (hash token) accounts in
            elim outcome [ err other ↦ (err other, accounts, db) | _ ↦ (ok tt, spent, left) ]
      ]
