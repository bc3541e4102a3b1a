-- ===== src/Auth/Outside.antt =====
-- What the login calls outside this repository: hashing (node:crypto, bcryptjs), the signing of JWTs
-- (@nestjs/jwt), one-time passwords (otplib), AES (node:crypto), the HTTP response (express), the
-- cache (cache-manager) and the queue of push messages (bullmq).
-- services/api/src/security/token.service.ts is the caller of the first two.
use terab.Base.{ℕ, ◌/◌, Bool, Option, List, Text}
use terab.ErrorCode.{Error}
use terab.Action.{World, Result, Action, ok, external}
use terab.Auth.Schema.{AuthDb, TokenConfig, Encrypted}

pub data Cookie : Type 0 where
  refresh_token : Cookie
  trust_token : Cookie

-- services/api/src/twofa/types/push-challenge-job.interface.ts
pub record PushChallengeJob : Type 0 where
  pub user_id : ℕ
  pub push_token : ℕ
  pub challenge_id : ℕ
  pub options : Text
  pub expires_at : ℕ

-- `pepper_password` is the HMAC under the pepper, `hash` and `compare` are bcrypt's (the salt is an
-- argument), `sign` takes the claims, the life in seconds and the time. `rejects_with` is the error
-- of drizzle-orm for the violation of a unique constraint: PostgreSQL's own, or, in the releases that
-- wrap what a query throws, one that has no code of its own.
pub record AccountConfig : Type 0 where
  pub tokens : TokenConfig
  pub access_exp_ms : ℕ
  pub pepper_password : Text → Text
  pub hash : (salt : ℕ) → Text → ℕ
  pub compare : Text → ℕ → Bool
  pub rejects_with : (constraint : ℕ) → Error
  pub sign : ℕ → Text → List Text → (seconds now : ℕ) → Text

-- `verify_otp code secret now`; `decrypt` is
-- `none` where it throws; `encrypt` takes the iv it draws.
pub record OtpConfig : Type 0 where
  pub verify_otp : Text → Text → (now : ℕ) → Bool
  pub generate_uri : (label issuer secret : Text) → Text
  pub encrypt : (iv : List ℕ) → Text → Encrypted
  pub decrypt : Encrypted → Option Text

-- The parts of the outside that are written. A failure count is stored for a user with a life in
-- milliseconds.
pub record Outside (X : Type 0) : Type 0 where
  pub set_cookie : Cookie → Text → (max_age_ms : ℕ) → X → X
  pub clear_cookie : Cookie → X → X
  pub get_failures : ℕ → X → Option ℕ
  pub set_failures : ℕ → ℕ → (ttl_ms : ℕ) → X → X
  pub delete_failures : ℕ → X → X
  pub add_job : PushChallengeJob → X → Result (Unit {0}) × X

abbrev pub AuthAction : Type 0 → Type 0 → Type 0
AuthAction X A = Action (World AuthDb X) A

-- A call of the outside that cannot fail.
abbrev pub effect : {X : Type 0} → (X → X) → AuthAction X (Unit {0})
effect f = external (λ x. (ok tt, f x))

abbrev pub generate_access_token : AccountConfig → ℕ → Text → List Text → (now : ℕ) → Text
generate_access_token config user username permissions now =
    config.sign user username permissions (config.access_exp_ms / 1000) now
