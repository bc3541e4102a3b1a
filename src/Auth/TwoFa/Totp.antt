-- ===== src/Auth/TwoFa/Totp.antt =====
-- services/api/src/twofa: totp.service.ts, totp.repository.ts, totp-lockout.service.ts and
-- strategies/totp.strategy.ts, the one-time passwords. The calls of otplib, of the cipher and of the
-- cache are those of `OtpConfig` and `Outside`; ids, times, secrets and ivs are arguments.
use terab.Base.{
  ℕ, ◌+◌, ◌*◌, Bool, true, false, Option, none, some, List, [], ◌∷◌, leb, ◌==◌, Text, codes,
  if◌then◌else◌,
}
use terab.ErrorCode.{
  Error, failure, api, forbidden, twofa_setup_not_supported, twofa_totp_invalid_code,
  twofa_totp_locked,
}
use terab.Action.{ok, pure, throw, query, statement, external, ◌>>=◌, ◌>>◌}
use terab.Table.{select_where, find_where, update_where, delete_where, insert}
use terab.Auth.Schema.{TotpRow, Encrypted, AuthDb}
use terab.Auth.Outside.{Outside, OtpConfig, AuthAction, effect}

abbrev pub max_failures : ℕ
max_failures = 5

abbrev pub ttl_ms : ℕ
ttl_ms = 5 * 60 * 1000

abbrev pub issuer : Text
issuer = codes "terab"

pub data SetupStart : Type 0 where
  setup_pending : (secret uri : Text) → SetupStart
  enrolled : (id : ℕ) → SetupStart

-- The id of an instance of a strategy, as a request names it: a row's, or the text 'backup-code'.
pub data InstanceId : Type 0 where
  row_id : ℕ → InstanceId
  backup_code_id : InstanceId

abbrev pub same_instance : InstanceId → InstanceId → Bool
same_instance (row_id a) (row_id b) = a == b
same_instance (row_id a) backup_code_id = false
same_instance backup_code_id (row_id b) = false
same_instance backup_code_id backup_code_id = true

unfoldable pub find_totp : ℕ → List TotpRow → Option TotpRow
find_totp user t = find_where (λ (r : TotpRow). r.user_id == user) t

abbrev pub with_last_used_at : ℕ → TotpRow → TotpRow
with_last_used_at now r = record r { last_used_at = some now }

unfoldable pub update_last_used_at : ℕ → ℕ → List TotpRow → List TotpRow
update_last_used_at id now t = update_where (λ (r : TotpRow). r.id == id) (with_last_used_at now) t

-- `rows.length === 1 && rows[0].userId === userId`
abbrev pub is_single_of : InstanceId → List TotpRow → Bool
is_single_of user [] = false
is_single_of user (r ∷ []) = same_instance (row_id r.user_id) user
is_single_of user (r ∷ s ∷ rows) = false

-- `deleteByIdForUser(id, userId)`; the caller passes a request's id for the user's.
unfoldable pub delete_totp : ℕ → InstanceId → AuthDb → Bool × AuthDb
delete_totp id user d = (
  is_single_of user (select_where (λ (r : TotpRow). r.id == id) d.totps),
  record d { totps = delete_where (λ (r : TotpRow). r.id == id) d.totps },
)

abbrev pub on_totps : (List TotpRow → List TotpRow) → AuthDb → Unit {0} × AuthDb
on_totps f d = (tt, record d { totps = f d.totps })

abbrev pub new_totp : (id now : ℕ) → ℕ → Encrypted → TotpRow
new_totp id now user secret = record {
  id = id;
  user_id = user;
  secret = secret;
  created_at = now;
  last_used_at = none;
}

-- `value ?? 0`
abbrev pub count_of : Option ℕ → ℕ
count_of none = 0
count_of (some n) = n

abbrev pub start_answer : OtpConfig → (secret label : Text) → Option TotpRow → SetupStart
start_answer otp secret label none = setup_pending secret (otp.generate_uri label issuer secret)
start_answer otp secret label (some row) = enrolled row.id

abbrev pub instances_of : Option TotpRow → List InstanceId
instances_of none = []
instances_of (some row) = row_id row.id ∷ []

-- The number of what the cipher throws.
abbrev pub cipher_failure : Error
cipher_failure = failure 1

abbrev pub opened : {X : Type 0} → Option Text → AuthAction X Text
opened none = throw cipher_failure
opened (some secret) = pure secret

module _ {X : Type 0} (otp : OtpConfig) where
  -- `label` is the user's id as a text, `secret` is drawn.
  unfoldable pub start_setup : (secret : Text) (label : Text) → ℕ → AuthAction X SetupStart
  start_setup secret label user =
      query (λ d. start_answer otp secret label (find_totp user d.totps))

  abbrev pub enrol : (id now : ℕ) (iv : List ℕ) → ℕ → Text → Text → Option TotpRow → AuthAction X ℕ
  enrol id now iv user secret code (some row) = throw (api twofa_setup_not_supported)
  enrol id now iv user secret code none =
      if otp.verify_otp code secret now
      then (do
        statement (on_totps (insert (new_totp id now user (otp.encrypt iv secret))))
        pure id)
      else throw (api twofa_totp_invalid_code)

  -- The row of a user is looked for first, so the unique index on `user_id` has nothing to reject.
  unfoldable pub complete_setup : (id now : ℕ) (iv : List ℕ) → ℕ → Text → Text → AuthAction X ℕ
  complete_setup id now iv user secret code = do
    found ← query (λ d. find_totp user d.totps)
    enrol id now iv user secret code found

  abbrev pub check_row : (now : ℕ) → Text → Option TotpRow → AuthAction X Bool
  check_row now code none = pure false
  check_row now code (some row) = do
    secret ← opened (otp.decrypt row.secret)
    if otp.verify_otp code secret now
        then (do statement (on_totps (update_last_used_at row.id now)); pure true)
        else pure false

  unfoldable pub verify_code : (now : ℕ) → ℕ → Text → AuthAction X Bool
  verify_code now user code = do
    found ← query (λ d. find_totp user d.totps)
    check_row now code found

-- `TotpTwoFaStrategy.completeSetup`, whose payload may lack either text.
module _ {X : Type 0} (otp : OtpConfig) where
  abbrev pub complete_setup_payload :
      (id now : ℕ) (iv : List ℕ) → ℕ → Option Text → Option Text → AuthAction X (Unit {0})
  complete_setup_payload id now iv user none code = throw (api twofa_totp_invalid_code)
  complete_setup_payload id now iv user (some secret) none = throw (api twofa_totp_invalid_code)
  complete_setup_payload id now iv user (some secret) (some code) = do
    complete_setup otp id now iv user secret code
    pure tt

-- `TotpLockoutService`
module _ {X : Type 0} (out : Outside X) where
  abbrev pub get_failure_count : ℕ → AuthAction X ℕ
  get_failure_count user = external (λ x. (ok (count_of (out.get_failures user x)), x))

  abbrev pub is_locked : ℕ → AuthAction X Bool
  is_locked user = do n ← get_failure_count user; pure (leb max_failures n)

  abbrev pub record_failure : ℕ → AuthAction X (Unit {0})
  record_failure user = do n ← get_failure_count user; effect (out.set_failures user (n + 1) ttl_ms)

  abbrev pub clear_lockout : ℕ → AuthAction X (Unit {0})
  clear_lockout user = effect (out.delete_failures user)

  -- `TotpTwoFaStrategy.verifyResponse`
  unfoldable pub verify_totp : OtpConfig → (now : ℕ) → ℕ → Text → AuthAction X Bool
  verify_totp otp now user code = do
    locked ← is_locked user
    if locked then throw (api twofa_totp_locked) else do
      valid ← verify_code otp now user code
      if valid
          then (do clear_lockout user; pure true)
          else (do record_failure user; throw (api twofa_totp_invalid_code))

module _ {X : Type 0} where
  -- `TotpService.revoke(userId, id)`
  abbrev pub revoke_totp : InstanceId → ℕ → AuthAction X Bool
  revoke_totp user id = statement (delete_totp id user)

  -- `TotpTwoFaStrategy.revoke(userId, id)`, which calls `totpService.revoke(id, userId)`
  unfoldable pub revoke_strategy : ℕ → InstanceId → AuthAction X (Unit {0})
  revoke_strategy user id = do
    deleted ← revoke_totp id user
    if deleted then pure tt else throw (api forbidden)

  -- The ids of `TotpTwoFaStrategy.list`
  abbrev pub list_totp : ℕ → AuthAction X (List InstanceId)
  list_totp user = query (λ d. instances_of (find_totp user d.totps))
