-- ===== src/Auth/AuthService.antt =====
-- services/api/src/auth/auth.service.ts: passwords, roles, tokens and cookies. `fresh` and `id` are the
-- refresh token that a call draws and the id of its row.
use terab.Base.{ℕ, Option, none, some, List, Text, codes, if◌then◌else◌}
use terab.ErrorCode.{
  api, invalid_credentials, account_disabled, refresh_token_invalid, role_not_found,
  twofa_challenge_not_found,
}
use terab.Action.{pure, throw, or_throw, query, ◌>>=◌, ◌>>◌}
use terab.Auth.Schema.{User}
use terab.Auth.Outside.{
  Outside, AccountConfig, AuthAction, refresh_token, trust_token, effect, generate_access_token,
}
use terab.Auth.Role.{find_by_name, assign_user_role, get_permissions_by_user_id}
use terab.Auth.User.{UserDto, find_user_by_id}
use terab.Auth.Session.{rotate, revoke_by_raw_token, issue_for_user}

-- services/api/src/auth/dto/login-response.dto.ts
pub data LoginResponse : Type 0 where
  authenticated : (access_token : Text) → UserDto → LoginResponse
  two_fa_required : (challenge_id : ℕ) → (options : List Text) → (expires_at : ℕ) → LoginResponse

-- What the issue of a token pair draws.
pub record IssueDraws : Type 0 where
  pub id : ℕ
  pub now : ℕ
  pub fresh : Text

abbrev pub hash_password : AccountConfig → (salt : ℕ) → Text → ℕ
hash_password config salt raw = config.hash salt (config.pepper_password raw)

abbrev pub default_role : Text
default_role = codes "USER"

module _ {X : Type 0} where
  unfoldable pub assign_default_role : ℕ → AuthAction X (Unit {0})
  assign_default_role user = do
    found ← query (λ d. find_by_name default_role d.roles)
    role ← or_throw found role_not_found
    assign_user_role user role

  unfoldable pub validate_credentials : AccountConfig → User → Text → AuthAction X (Unit {0})
  validate_credentials config user raw =
      if config.compare (config.pepper_password raw) user.password
      then (if user.active then pure tt else throw (api account_disabled))
      else throw (api invalid_credentials)

  abbrev pub build_user_response : User → AuthAction X UserDto
  build_user_response user = do
    permissions ← get_permissions_by_user_id user.id
    pure (record {
      id = user.id;
      username = user.username;
      nickname = user.nickname;
      permissions = permissions;
    })

  abbrev pub generate_token : AccountConfig → (now : ℕ) → User → AuthAction X Text
  generate_token config now user = do
    permissions ← get_permissions_by_user_id user.id
    pure (generate_access_token config user.id user.username permissions now)

module _ {X : Type 0} (config : AccountConfig) (out : Outside X) where
  -- The cookies' other options are constants.
  abbrev pub set_trust_cookie : Text → ℕ → AuthAction X (Unit {0})
  set_trust_cookie raw age = effect (out.set_cookie trust_token raw age)

  abbrev pub set_refresh_cookie : Text → ℕ → AuthAction X (Unit {0})
  set_refresh_cookie raw age = effect (out.set_cookie refresh_token raw age)

  abbrev pub clear_refresh_cookie : AuthAction X (Unit {0})
  clear_refresh_cookie = effect (out.clear_cookie refresh_token)

  unfoldable pub issue_token_pair : IssueDraws → User → AuthAction X Text
  issue_token_pair draws user = do
    access_token ← generate_token config draws.now user
    issued ← issue_for_user config.tokens draws.id draws.now draws.fresh user.id
    set_refresh_cookie issued.raw_refresh_token issued.refresh_token_exp_ms
    pure access_token

  -- The answer after a pair was issued.
  abbrev pub authenticate : IssueDraws → User → AuthAction X LoginResponse
  authenticate draws user = do
    access_token ← issue_token_pair draws user
    dto ← build_user_response user
    pure (authenticated access_token dto)

  -- An absent cookie and an empty one are `none`.
  unfoldable pub rotate_refresh_token : IssueDraws → Option Text → AuthAction X ℕ
  rotate_refresh_token draws none = throw (api refresh_token_invalid)
  rotate_refresh_token draws (some raw) = do
    rotated ← rotate config.tokens draws.id draws.now draws.fresh raw
    set_refresh_cookie rotated.issued.raw_refresh_token rotated.issued.refresh_token_exp_ms
    pure rotated.user_id

  unfoldable pub revoke_refresh_token : (now : ℕ) → Option Text → AuthAction X (Option ℕ)
  revoke_refresh_token now none = do clear_refresh_cookie; pure none
  revoke_refresh_token now (some raw) = do
    user ← revoke_by_raw_token config.tokens now raw
    clear_refresh_cookie
    pure user

  unfoldable pub issue_after_two_fa : IssueDraws → ℕ → AuthAction X LoginResponse
  issue_after_two_fa draws id = do
    found ← query (λ d. find_user_by_id id d.users)
    user ← or_throw found twofa_challenge_not_found
    authenticate draws user
