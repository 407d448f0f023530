-- ===== src/Auth/Sessions.antt =====
-- `create_refresh` and `consume_refresh` of auth.py. The digest of the token is given, and the caller
-- commits.
use mathlib.Core.Option.{none, some}
use capstone_nps.Base.Errors.{Result, ok, raise, auth_refresh_invalid, auth_required}
use capstone_nps.Auth.Accounts.{RefreshSession, User, Accounts, find_user}
use capstone_nps.Base.{
  ℕ, true, Bool, ◌++◌, ◌==◌, ◌+◌, nat_eq, false, ◌∷◌, [], ◌||◌, ◌≡◌, List, some, leb, ◌<◌, arith,
  Option-cases, inl, inr, ◌∙◌, if◌then◌else◌, not,
}
use capstone_nps.Base.Rows.{first, update}

unfoldable pub create_refresh :
    (refresh_seconds now : ℕ) → User → (token_hash : ℕ) → Accounts → Accounts
create_refresh refresh_seconds now user token_hash accounts = record accounts {
  sessions =
      accounts.sessions
      ++ record {
        user_id = user.id;
        token_hash = token_hash;
        expires_at = now + refresh_seconds;
        revoked = false;
      }
        ∷ [];
}

abbrev pub has_hash : ℕ → RefreshSession → Bool
has_hash hashed s = s.token_hash == hashed

abbrev pub revoke : RefreshSession → RefreshSession
revoke s = record s { revoked = true }

-- `expires_at <= utcnow()`
abbrev pub is_over : (now : ℕ) → RefreshSession → Bool
is_over now session = session.revoked || leb session.expires_at now

-- What the call returns or raises, with the rows as it leaves them in the session: a call that raises for
-- the user's sake has revoked the token, which a caller that goes on (`logout`) commits.
unfoldable pub consume_refresh : (now hashed : ℕ) → Accounts → Result User × Accounts
consume_refresh now hashed accounts = elim (first (has_hash hashed) accounts.sessions) [
  | none ↦ (raise auth_refresh_invalid 401, accounts)
  | some session ↦
      let spent : Accounts = record accounts {
        sessions = update (has_hash hashed) revoke accounts.sessions;
      } in
      if is_over now session
      then (raise auth_refresh_invalid 401, accounts)
      else elim (find_user session.user_id accounts) [
        | none ↦ (raise auth_required 401, spent)
        | some user ↦ (if not user.active then raise auth_required 401 else ok user, spent)
      ]
]

spent_is_over :
    (hashed : ℕ) (sessions : List RefreshSession) (s : RefreshSession)
    → first (has_hash hashed) sessions ≡ some s
    → first (has_hash hashed) (update (has_hash hashed) revoke sessions) ≡ some (revoke s)
spent_is_over hashed [] s h = cc
spent_is_over hashed (x ∷ rest) s h = ground (arith, spent_is_over hashed rest s)

-- A refresh token works once: when a call has returned a user, a call with the same token on the rows that
-- it left raises AUTH_REFRESH_INVALID with 401, whatever the time.
pub consume_refresh_once :
    (now now' hashed : ℕ) (accounts : Accounts) {user : User} {accounts' : Accounts}
    → consume_refresh now hashed accounts ≡ (ok user, accounts')
    → consume_refresh now' hashed accounts' ≡ (raise auth_refresh_invalid 401, accounts')
unfolding consume_refresh
consume_refresh_once now now' hashed accounts {user} {accounts'} h =
    elim (Option-cases (first (has_hash hashed) accounts.sessions)) [
      | inl gone ↦ absurd (ground arith)
      | inr (s, there) ↦ elim (Option-cases (find_user s.user_id accounts)) [
        | inl missing ↦ absurd (ground arith)
        | inr (u, known) ↦ ground (arith, spent_is_over hashed accounts.sessions s there)
      ]
    ]

-- A call returns a user only for a token with a row that is not revoked and has not run out, and the user
-- is the row's, and active.
pub consume_refresh-eq-ok :
    (now hashed : ℕ) (accounts : Accounts) {user : User} {accounts' : Accounts}
    → consume_refresh now hashed accounts ≡ (ok user, accounts')
    → (s : RefreshSession) × (first (has_hash hashed) accounts.sessions ≡ some s)
      × (s.revoked ≡ false)
      × (now < s.expires_at)
      × (find_user s.user_id accounts ≡ some user)
      × (user.active ≡ true)
unfolding consume_refresh
consume_refresh-eq-ok now hashed accounts {user} h =
    elim (Option-cases (first (has_hash hashed) accounts.sessions)) [
      | inl gone ↦ absurd (ground arith)
      | inr (s, there) ↦ elim (Option-cases (find_user s.user_id accounts)) [
        | inl missing ↦ absurd (ground arith)
        | inr (u, known) ↦
            (s, there, ground arith, ground arith, known ∙ ground arith, ground arith)
      ]
    ]
