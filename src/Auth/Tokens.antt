-- ===== src/Auth/Tokens.antt =====
-- Passwords and access tokens in auth.py. The hash and the signature belong to argon2 and PyJWT: `verify`
-- says whether a password fits a hash (false for both exceptions that the code catches), `encode` signs,
-- and `decode` gives the claims of a token, or none where PyJWT raises.
use capstone_nps.Base.{
  ℕ, none, some, Bool, Option, ◌==◌, ◌&&◌, ltb, not, length, if◌then◌else◌, true, ◌+◌, ◌*◌,
}
use capstone_nps.Base.Errors.{
  ◌>>◌, Result, raise, raise_if, auth_invalid_credentials, auth_required,
  auth_provider_not_configured, ok, auth_secret_not_configured,
}
use capstone_nps.Auth.Accounts.{find_user, User, Accounts}
use capstone_nps.Config.{Settings}
use capstone_nps.Base.Words.{Text, text, text_eq}
use capstone_nps.Base.Rows.{first}

pub record Claims : Type 0 where
  pub sub : ℕ
  pub jti : ℕ
  pub is_access : Bool
  pub iat : ℕ
  pub exp : ℕ

abbrev is_active_named : Text → User → Bool
is_active_named username u = u.username == username && u.active

module _ (verify : (hash password : Text) → Bool) where
  unfoldable pub authenticate : Accounts → (username password : Text) → Result User
  authenticate accounts username password = elim (first (is_active_named username) accounts.users) [
    | none ↦ raise auth_invalid_credentials 401
    | some user ↦
        if verify user.password_hash password then ok user else raise auth_invalid_credentials 401
  ]

-- `provider()`: the one provider there is.
unfoldable pub provider : Settings → Result (Unit {0})
provider config =
    raise_if (not (config.auth_provider == text "local")) auth_provider_not_configured 503

-- `jti` is the fresh `uid()`; times are in seconds.
unfoldable pub issue_access :
    Settings → (encode : Claims → (secret : Text) → Text) → (now jti : ℕ) → User → Result Text
issue_access config encode now jti user = do
  raise_if (ltb (length config.jwt_secret) 32) auth_secret_not_configured 503
  ok (
      encode
        (record {
          sub = user.id;
          jti = jti;
          is_access = true;
          iat = now;
          exp = now + config.access_minutes * 60;
        })
        config.jwt_secret)

unfoldable pub user_from_token :
    Settings
    → (decode : Text → (secret : Text) → Option Claims) → Accounts
    → (token : Text) → Result User
unfolding find_user
user_from_token config decode accounts token = elim (decode token config.jwt_secret) [
  | none ↦ raise auth_required 401
  | some claims ↦
      if not claims.is_access
      then raise auth_required 401
      else elim (find_user claims.sub accounts) [
        | none ↦ raise auth_required 401
        | some user ↦ if not user.active then raise auth_required 401 else ok user
      ]
]

unfoldable pub current_user :
    Settings
    → (decode : Text → (secret : Text) → Option Claims) → Accounts
    → (credentials : Option Text) → Result User
unfolding user_from_token
current_user config decode accounts credentials = elim credentials [
  | none ↦ raise auth_required 401
  | some token ↦ user_from_token config decode accounts token
]
