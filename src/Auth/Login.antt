-- ===== src/Auth/Login.antt =====
-- services/api/src/auth/login.service.ts and services/api/src/twofa/push-challenge.publisher.ts: what
-- a client that is not signed in may call. Ids, times and random texts are arguments.
pub mod Proof
pub mod Registration
pub mod Tests
use terab.Base.{ℕ, Bool, true, false, Option, none, some, List, [], ◌∷◌, map, Text, if◌then◌else◌}
use terab.ErrorCode.{
  Error, api, no_such_key, unique_violation, failure, hang, invalid_credentials, username_taken,
  registration_failed, refresh_token_invalid,
}
use terab.Action.{
  World, Result, ok, err, pure, throw, or_throw, catch, query, external, run_in_tx, ◌>>=◌, ◌>>◌,
}
use terab.Auth.Schema.{User, Challenge, AuthDb}
use terab.Auth.Outside.{Outside, AccountConfig, PushChallengeJob, AuthAction}
use terab.Auth.User.{UserDto, find_user_by_id, find_user_by_username, create_user}
use terab.Auth.AuthService.{
  LoginResponse, authenticated, two_fa_required, IssueDraws, hash_password, assign_default_role,
  validate_credentials, build_user_response, generate_token, issue_token_pair, authenticate,
  rotate_refresh_token, revoke_refresh_token, set_trust_cookie,
}
use terab.Auth.Invitation.{validate_or_throw}
use terab.Auth.Invitation
use terab.Auth.BackupCode.{DrawnCode, generate_for_user}
use terab.Auth.BackupCode
use terab.Auth.TrustedDevice.{verify, register, trust_duration_ms}
use terab.Auth.Device.{find_push_tokens_by_user_id, deactivate_by_push_token}
use terab.Auth.TwoFa.Options.{split_comma}
use terab.Auth.TwoFa.Push.{ChallengeDraws, create_challenge}
use terab.Auth.TwoFa.Service.{TrustDraws}

pub record RegisterBody : Type 0 where
  pub token : ℕ
  pub username : Text
  pub nickname : Text
  pub password : Text

pub record RegisterResponse : Type 0 where
  pub access_token : Text
  pub user : UserDto
  pub backup_codes : List Text

-- What a registration draws: the id and the salt of the account, the ten backup codes, and the time
-- of each read of the clock.
pub record RegisterDraws : Type 0 where
  pub id : ℕ
  pub salt : ℕ
  pub validated_at : ℕ
  pub created_at : ℕ
  pub consumed_at : ℕ
  pub codes : List DrawnCode
  pub issue : IssueDraws

pub record LoginBody : Type 0 where
  pub username : Text
  pub password : Text
  pub trust_device : Bool

-- What a login may draw.
pub record LoginDraws : Type 0 where
  pub verified_at : ℕ
  pub issue : IssueDraws
  pub trust : TrustDraws
  pub challenge : ChallengeDraws

-- The `catch` of `create`, by the code 23505.
abbrev pub name_taken : Error → Error
name_taken (unique_violation constraint) = api username_taken
name_taken (api code) = api code
name_taken no_such_key = no_such_key
name_taken (failure n) = failure n
name_taken hang = hang

abbrev pub both : Result (Unit {0}) → Result (Unit {0}) → Result (Unit {0})
both (err e) r = err e
both (ok u) r = r

abbrev pub job_for : Challenge → ℕ → ℕ → PushChallengeJob
job_for c user push = record {
  user_id = user;
  push_token = push;
  challenge_id = c.id;
  options = c.options;
  expires_at = c.expires_at;
}

module _ {X : Type 0} (config : AccountConfig) (out : Outside X) where
  -- `publish` logs a failure of the queue and passes it on.
  abbrev pub publish : PushChallengeJob → AuthAction X (Unit {0})
  publish job = external (out.add_job job)

  -- `Promise.all`: every job is added, and the first failure is the answer's.
  unfoldable pub publish_all : Challenge → ℕ → List ℕ → AuthAction X (Unit {0})
  publish_all c user [] w = (ok tt, w)
  publish_all c user (push ∷ pushes) w =
      let (first, w1) = publish (job_for c user push) w in
      let (rest, w2) = publish_all c user pushes w1 in (both first rest, w2)

  -- What `register` does in its transaction.
  abbrev pub register_body : RegisterDraws → RegisterBody → AuthAction X (ℕ × List Text)
  register_body drawn body = do
    validate_or_throw drawn.validated_at body.token
    id ←
        catch
          (create_user config.rejects_with drawn.id drawn.created_at body.username body.nickname
            (hash_password config drawn.salt body.password))
          (λ e. throw (name_taken e))
    assign_default_role id
    codes ← generate_for_user drawn.created_at drawn.codes id
    Invitation.consume drawn.consumed_at body.token id
    pure (id, codes)

  unfoldable pub register_user : RegisterDraws → RegisterBody → AuthAction X RegisterResponse
  register_user drawn body = do
    (id, codes) ← run_in_tx (register_body drawn body)
    found ← query (λ d. find_user_by_id id d.users)
    user ← or_throw found registration_failed
    access_token ← issue_token_pair config out drawn.issue user
    dto ← build_user_response user
    pure (record { access_token = access_token; user = dto; backup_codes = codes })

  abbrev pub trust_if : Bool → TrustDraws → ℕ → Option Text → AuthAction X (Unit {0})
  trust_if false drawn user agent = pure tt
  trust_if true drawn user agent = do
    raw ← register config.tokens drawn.id drawn.now drawn.later drawn.created drawn.raw user agent
    set_trust_cookie config out raw trust_duration_ms

  -- A login without a phone to ask.
  abbrev pub login_directly :
      LoginDraws → LoginBody → Option Text → User → AuthAction X LoginResponse
  login_directly drawn body agent user = run_in_tx (do
    access_token ← issue_token_pair config out drawn.issue user
    trust_if body.trust_device drawn.trust user.id agent
    dto ← build_user_response user
    pure (authenticated access_token dto))

  abbrev pub challenge_login : LoginDraws → User → List ℕ → AuthAction X LoginResponse
  challenge_login drawn user pushes = do
    c ← create_challenge drawn.challenge user.id
    publish_all c user.id pushes
    pure (two_fa_required c.id (split_comma c.options) c.expires_at)

  abbrev pub login_untrusted :
      LoginDraws → LoginBody → Option Text → User → List ℕ → AuthAction X LoginResponse
  login_untrusted drawn body agent user [] = login_directly drawn body agent user
  login_untrusted drawn body agent user (push ∷ pushes) = challenge_login drawn user (push ∷ pushes)

  -- After the password: `trust` is the cookie of a trusted device.
  abbrev pub second_step :
      LoginDraws → LoginBody → Option Text → Option Text → User → AuthAction X LoginResponse
  second_step drawn body trust agent user = do
    trusted ← verify config.tokens drawn.verified_at trust user.id
    if trusted then authenticate config out drawn.issue user else do
      pushes ← find_push_tokens_by_user_id user.id
      login_untrusted drawn body agent user pushes

  unfoldable pub login :
      LoginDraws → LoginBody → Option Text → Option Text → AuthAction X LoginResponse
  login drawn body trust agent = do
    found ← query (λ d. find_user_by_username body.username d.users)
    user ← or_throw found invalid_credentials
    validate_credentials config user body.password
    second_step drawn body trust agent user

  -- `matches` of the backup codes is bcrypt's comparison.
  unfoldable pub login_with_backup_code :
      (now : ℕ) → IssueDraws → LoginBody → (code : Text) → AuthAction X LoginResponse
  login_with_backup_code now issue body code = do
    found ← query (λ d. find_user_by_username body.username d.users)
    user ← or_throw found invalid_credentials
    validate_credentials config user body.password
    BackupCode.consume config.compare now user.id code
    authenticate config out issue user

  unfoldable pub refresh : IssueDraws → Option Text → AuthAction X LoginResponse
  refresh draws raw = do
    id ← rotate_refresh_token config out draws raw
    found ← query (λ d. find_user_by_id id d.users)
    user ← or_throw found refresh_token_invalid
    access_token ← generate_token config draws.now user
    dto ← build_user_response user
    pure (authenticated access_token dto)

  abbrev pub forget_phone : Option ℕ → Option ℕ → AuthAction X (Unit {0})
  forget_phone none push = pure tt
  forget_phone (some user) none = pure tt
  forget_phone (some user) (some push) = deactivate_by_push_token user push

  unfoldable pub logout : (now : ℕ) → Option Text → Option ℕ → AuthAction X (Unit {0})
  logout now raw push = do user ← revoke_refresh_token config out now raw; forget_phone user push
