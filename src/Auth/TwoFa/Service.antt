-- ===== src/Auth/TwoFa/Service.antt =====
-- services/api/src/twofa: twofa.service.ts, challenge.controller.ts (`complete`), the registry of
-- strategies and strategies/backup-code.strategy.ts. The strategies that are registered are PUSH, TOTP
-- and BACKUP_CODE. Times, ids and random texts are arguments.
use terab.Base.{
  ℕ, ◌+◌, ◌-◌, ◌/◌, Bool, true, false, Option, none, some, List, [], ◌∷◌, length, leb, ◌==◌, Text,
  if◌then◌else◌,
}
use terab.ErrorCode.{
  api, twofa_challenge_not_found, twofa_setup_not_supported, twofa_strategy_not_found,
  twofa_last_strategy_cannot_remove,
}
use terab.Action.{pure, throw, or_throw, query, run_in_tx, ◌>>=◌, ◌>>◌}
use terab.Auth.Schema.{Challenge, ChallengeStatus, pending, approved, denied, expired, BackupCode}
use terab.Auth.Outside.{Outside, AccountConfig, OtpConfig, AuthAction}
use terab.Auth.AuthService.{LoginResponse, IssueDraws, issue_after_two_fa, set_trust_cookie}
use terab.Auth.TrustedDevice.{register, trust_duration_ms}
use terab.Auth.BackupCode.{list}
use terab.Auth.TwoFa.Options.{split_comma}
use terab.Auth.TwoFa.Push.{
  ChallengeDraws, find_challenge, set_status, is_open, is_pending, is_approved, create_challenge,
  verify_push,
}
use terab.Auth.TwoFa.Totp.{
  InstanceId, backup_code_id, same_instance, verify_totp, revoke_strategy, list_totp,
}

pub data StrategyType : Type 0 where
  push : StrategyType
  totp : StrategyType
  passkey : StrategyType
  backup_code : StrategyType

-- `ChallengeStatusResponse`
pub data StatusAnswer : Type 0 where
  is_waiting : (options : List Text) → (correct_num : Text) → (remaining_seconds : ℕ) → StatusAnswer
  is_accepted : (user : ℕ) → StatusAnswer
  is_denied : StatusAnswer
  is_expired : StatusAnswer

-- `type ?? 'PUSH'` is the default of an absent type; `code ?? ''` of an absent code.
pub record CompleteBody : Type 0 where
  pub with_totp : Bool
  pub code : Text
  pub trust_device : Bool

pub record Completed : Type 0 where
  pub user_id : ℕ
  pub raw_trust_token : Option Text

-- What the registration of a trusted device draws.
pub record TrustDraws : Type 0 where
  pub id : ℕ
  pub now : ℕ
  pub later : ℕ
  pub created : ℕ
  pub raw : Text

pub record ResendAnswer : Type 0 where
  pub challenge_id : ℕ
  pub options : List Text
  pub expires_at : ℕ

abbrev pub backup_instances : List BackupCode → List InstanceId
backup_instances [] = []
backup_instances (c ∷ codes) = backup_code_id ∷ []

-- `instances.filter((i) => i.id !== excludeId)`
abbrev pub excluding : InstanceId → List InstanceId → List InstanceId
excluding id [] = []
excluding id (i ∷ is) = let rest = excluding id is in if same_instance i id then rest else i ∷ rest

abbrev pub is_totp : StrategyType → Bool
is_totp push = false
is_totp totp = true
is_totp passkey = false
is_totp backup_code = false

abbrev pub is_backup_code : StrategyType → Bool
is_backup_code push = false
is_backup_code totp = false
is_backup_code passkey = false
is_backup_code backup_code = true

-- How many instances of one type remain.
abbrev pub remaining_of : Bool → InstanceId → List InstanceId → ℕ
remaining_of same id is = if same then length (excluding id is) else length is

module _ {X : Type 0} where
  -- The reads of the clock in turn.
  abbrev pub pending_status : (now later : ℕ) → ℕ → Challenge → AuthAction X StatusAnswer
  pending_status now later id c =
      if leb c.expires_at now
      then (do set_status id expired none; pure is_expired)
      else pure (is_waiting (split_comma c.options) c.correct_num ((c.expires_at - later) / 1000))

  abbrev pub status_of :
      (now later : ℕ) → ℕ → Challenge → ChallengeStatus → AuthAction X StatusAnswer
  status_of now later id c pending = pending_status now later id c
  status_of now later id c approved = pure (is_accepted c.user_id)
  status_of now later id c denied = pure is_denied
  status_of now later id c expired = pure is_denied

  unfoldable pub get_status : (now later : ℕ) → ℕ → AuthAction X StatusAnswer
  get_status now later id = do
    found ← query (λ d. find_challenge id d.challenges)
    c ← or_throw found twofa_challenge_not_found
    status_of now later id c c.status

  unfoldable pub respond : (now : ℕ) → ℕ → ℕ → Text → AuthAction X (Unit {0})
  respond now id user selected = do verify_push now user id selected; pure tt

  unfoldable pub claim_approved_challenge : ℕ → AuthAction X ℕ
  claim_approved_challenge id = do
    found ← query (λ d. find_challenge id d.challenges)
    c ← or_throw found twofa_challenge_not_found
    if is_approved c.status
        then (do set_status id expired none; pure c.user_id)
        else throw (api twofa_challenge_not_found)

  unfoldable pub resend : ChallengeDraws → ℕ → AuthAction X ResendAnswer
  resend drawn id = do
    found ← query (λ d. find_challenge id d.challenges)
    old ← or_throw found twofa_challenge_not_found
    if is_pending old.status then set_status id expired none else pure tt
    c ← create_challenge drawn old.user_id
    pure
        (record { challenge_id = c.id; options = split_comma c.options; expires_at = c.expires_at })

  abbrev pub list_backup_codes : ℕ → AuthAction X (List InstanceId)
  list_backup_codes user = do unused ← list user; pure (backup_instances unused)

  unfoldable pub count_remaining : ℕ → StrategyType → InstanceId → AuthAction X ℕ
  count_remaining user type id = do
    totps ← list_totp user
    codes ← list_backup_codes user
    pure (remaining_of (is_totp type) id totps + remaining_of (is_backup_code type) id codes)

  -- `registry.get(type).revoke`
  abbrev pub revoke_by_type : StrategyType → ℕ → InstanceId → AuthAction X (Unit {0})
  revoke_by_type push user id = throw (api twofa_setup_not_supported)
  revoke_by_type totp user id = revoke_strategy user id
  revoke_by_type passkey user id = throw (api twofa_strategy_not_found)
  revoke_by_type backup_code user id = throw (api twofa_setup_not_supported)

  unfoldable pub remove_strategy : ℕ → StrategyType → InstanceId → AuthAction X (Unit {0})
  remove_strategy user type id = do
    remaining ← count_remaining user type id
    if remaining == 0
        then throw (api twofa_last_strategy_cannot_remove)
        else revoke_by_type type user id

module _ {X : Type 0} (config : AccountConfig) (otp : OtpConfig) (out : Outside X) where
  abbrev pub claim_with_totp : (now : ℕ) → ℕ → Text → AuthAction X ℕ
  claim_with_totp now id code = do
    found ← query (λ d. find_challenge id d.challenges)
    c ← or_throw found twofa_challenge_not_found
    if is_open now c
        then (do verify_totp out otp now c.user_id code; set_status id expired none; pure c.user_id)
        else throw (api twofa_challenge_not_found)

  unfoldable pub verify_and_claim : (now : ℕ) → ℕ → CompleteBody → AuthAction X ℕ
  verify_and_claim now id body =
      if body.with_totp then claim_with_totp now id body.code else claim_approved_challenge id

  -- After the claim: `if (!body.trustDevice)`
  abbrev pub trust_if_wanted :
      Bool → (drawn : TrustDraws) → ℕ → Option Text → AuthAction X Completed
  trust_if_wanted false drawn user agent = pure (record { user_id = user; raw_trust_token = none })
  trust_if_wanted true drawn user agent = do
    raw ← register config.tokens drawn.id drawn.now drawn.later drawn.created drawn.raw user agent
    pure (record { user_id = user; raw_trust_token = some raw })

  abbrev pub complete_body :
      (now : ℕ) (drawn : TrustDraws) → ℕ → CompleteBody → Option Text → AuthAction X Completed
  complete_body now drawn id body agent = do
    user ← verify_and_claim now id body
    trust_if_wanted body.trust_device drawn user agent

  unfoldable pub complete_challenge :
      (now : ℕ) (drawn : TrustDraws) → ℕ → CompleteBody → Option Text → AuthAction X Completed
  complete_challenge now drawn id body agent = run_in_tx (complete_body now drawn id body agent)

  abbrev pub set_trust_cookie_if : Option Text → AuthAction X (Unit {0})
  set_trust_cookie_if none = pure tt
  set_trust_cookie_if (some raw) = set_trust_cookie config out raw trust_duration_ms

  unfoldable pub issue_authenticated_response :
      IssueDraws → ℕ → Option Text → AuthAction X LoginResponse
  issue_authenticated_response draws user raw = do
    response ← issue_after_two_fa config out draws user
    set_trust_cookie_if raw
    pure response

  -- `POST /auth/2fa/challenge/:id/complete`
  unfoldable pub complete :
      (now : ℕ) (drawn : TrustDraws) (draws : IssueDraws)
      → ℕ
      → CompleteBody
      → Option Text
      → AuthAction X LoginResponse
  complete now drawn draws id body agent = do
    done ← complete_challenge now drawn id body agent
    issue_authenticated_response draws done.user_id done.raw_trust_token
