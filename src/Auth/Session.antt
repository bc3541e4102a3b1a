-- ===== src/Auth/Session.antt =====
-- services/api/src/auth/session: session.service.ts and session.repository.ts, the refresh tokens. The
-- ids, the times and the random texts that a call draws are its arguments.
pub mod Reuse
pub mod Tests
use terab.Base.{ℕ, ◌+◌, Bool, Option, none, some, List, ◌==◌, ◌&&◌, ltb, is_null, if◌then◌else◌}
use terab.ErrorCode.{refresh_token_invalid}
use terab.Action.{World, Action, pure, or_throw, query, statement, run_in_tx, ◌>>=◌, ◌>>◌}
use terab.Table.{find_where, update_where, insert}
use terab.Drive.Schema.{Text}
use terab.Auth.Schema.{RefreshToken, AuthDb, TokenConfig}

pub record IssuedRefreshToken : Type 0 where
  pub raw_refresh_token : Text
  pub refresh_token_exp_ms : ℕ

pub record RotatedRefreshToken : Type 0 where
  pub user_id : ℕ
  pub issued : IssuedRefreshToken

-- WHERE token_hash = … AND revoked_at IS NULL AND expires_at > now
abbrev pub is_active : ℕ → ℕ → RefreshToken → Bool
is_active hash now r = r.token_hash == hash && (is_null r.revoked_at && ltb now r.expires_at)

unfoldable pub find_active_by_hash : ℕ → ℕ → List RefreshToken → Option RefreshToken
find_active_by_hash hash now t = find_where (is_active hash now) t

abbrev pub with_revoked_at : ℕ → RefreshToken → RefreshToken
with_revoked_at at r = record r { revoked_at = some at }

unfoldable pub revoke_by_id : ℕ → ℕ → List RefreshToken → List RefreshToken
revoke_by_id id at t = update_where (λ (r : RefreshToken). r.id == id) (with_revoked_at at) t

abbrev pub on_refresh_tokens : (List RefreshToken → List RefreshToken) → AuthDb → Unit {0} × AuthDb
on_refresh_tokens f d = (tt, record d { refresh_tokens = f d.refresh_tokens })

-- The row that `issueForUser` inserts, with `TokenService.issueRefreshToken`.
abbrev pub issued_row : TokenConfig → (id now : ℕ) → Text → ℕ → RefreshToken
issued_row config id now raw user = record {
  id = id;
  user_id = user;
  token_hash = config.hash_token raw;
  device_id = none;
  expires_at = now + config.refresh_exp_ms;
  revoked_at = none;
}

abbrev pub SessionAction : Type 0 → Type 0 → Type 0
SessionAction X A = Action (World AuthDb X) A

-- The user of the token, if it was active.
abbrev pub revoke_found : {X : Type 0} → ℕ → Option RefreshToken → SessionAction X (Option ℕ)
revoke_found now none = pure none
revoke_found now (some matched) = do
  statement (on_refresh_tokens (revoke_by_id matched.id now))
  pure (some matched.user_id)

module _ {X : Type 0} (config : TokenConfig) where
  unfoldable pub issue_for_user :
      (id now : ℕ) (fresh : Text) → ℕ → SessionAction X IssuedRefreshToken
  issue_for_user id now fresh user = do
    statement (on_refresh_tokens (insert (issued_row config id now fresh user)))
    pure (record { raw_refresh_token = fresh; refresh_token_exp_ms = config.refresh_exp_ms })

  -- What `rotate` does in its transaction.
  abbrev pub rotate_body : (id now : ℕ) (fresh : Text) → Text → SessionAction X RotatedRefreshToken
  rotate_body id now fresh raw = do
    found ← query (λ d. find_active_by_hash (config.hash_token raw) now d.refresh_tokens)
    matched ← or_throw found refresh_token_invalid
    statement (on_refresh_tokens (revoke_by_id matched.id now))
    issued ← issue_for_user id now fresh matched.user_id
    pure (record { user_id = matched.user_id; issued = issued })

  unfoldable pub rotate : (id now : ℕ) (fresh : Text) → Text → SessionAction X RotatedRefreshToken
  rotate id now fresh raw = run_in_tx (rotate_body id now fresh raw)

  unfoldable pub revoke_by_raw_token : (now : ℕ) → Text → SessionAction X (Option ℕ)
  revoke_by_raw_token now raw = do
    found ← query (λ d. find_active_by_hash (config.hash_token raw) now d.refresh_tokens)
    revoke_found now found
