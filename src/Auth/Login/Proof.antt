-- ===== src/Auth/Login/Proof.antt =====
-- Whom a login lets in.
use terab.Base.{
  ℕ, ◌≡◌, ◌⊎◌, refl, true, false, Option, none, some, List, [], ◌∷◌, map, Text, inl, inr,
  Option-cases, Bool-cases, ◌==◌, leb, ltb, sym,
}
use terab.ErrorCode.{Error, ErrorCode, api, invalid_credentials, account_disabled}
use terab.Action.{World, ok, err}
use terab.Action.Laws.{Result-cases}
use terab.Auth.Schema.{User, AuthDb, TokenConfig, Device}
use terab.Auth.Outside.{Outside, AccountConfig}
use terab.Auth.User.{UserDto, find_user_by_username}
use terab.Auth.AuthService.{authenticated, two_fa_required, validate_credentials}
use terab.Auth.TrustedDevice.{verify, find_by_token_hash, slid}
use terab.Auth.Device.{find_by_user_id, find_push_tokens_by_user_id}
use terab.Auth.Login.{LoginDraws, LoginBody, login, second_step, challenge_login, publish_all}
use terab.Auth.TwoFa.Push.{create_challenge}
use terab.Auth.TwoFa.Options.{split_comma}

module _ {X : Type 0} (tokens : TokenConfig) where
  verify-devices :
      (now : ℕ) (trust : Option Text) (user : ℕ) (w : World AuthDb X)
      → (verify tokens now trust user w).1.db.devices ≡ w.db.devices
  unfolding verify
  verify-devices now none user w = refl
  verify-devices now (some raw) user w =
      elim (Option-cases (find_by_token_hash (tokens.hash_token raw) w.db.trusted_devices)) [
        | inl missing ↦ rw missing refl
        | inr (r, found) ↦ elim (Bool-cases (r.user_id == user)) [
          | inr other ↦ rw (found, other) refl
          | inl own ↦ elim (Bool-cases (leb r.expires_at now)) [
            | inl late ↦ rw (found, own, late) refl
            | inr fresh ↦ elim (Bool-cases (ltb r.expires_at (slid now r))) [
              | inl slides ↦ rw (found, own, fresh, slides) refl
              | inr stays ↦ rw (found, own, fresh, stays) refl
            ]
          ]
        ]
      ]

pub refused-not-ok : {A : Type 0} {e : Error} {a : A} → ¬ (err e ≡ ok a)
refused-not-ok h = cc

asked-not-in :
    {id at : ℕ} {options : List Text} {token : Text} {dto : UserDto}
    → ¬ (ok (two_fa_required id options at) ≡ ok (authenticated token dto))
asked-not-in h = cc

List-cases : {A : Type 0} (xs : List A) → (xs ≡ []) ⊎ ((x : A) × (t : List A) × (xs ≡ x ∷ t))
List-cases [] = inl refl
List-cases (x ∷ t) = inr (x, t, refl)

-- Either the call is refused, or the password fits and the account is not disabled.
pub validate_credentials_cases :
    {X : Type 0} (config : AccountConfig) (user : User) (raw : Text) (w : World AuthDb X)
    → ((code : ErrorCode) × (validate_credentials config user raw w ≡ (err (api code), w)))
      ⊎ ((validate_credentials config user raw w ≡ (ok tt, w))
          × (config.compare (config.pepper_password raw) user.password ≡ true)
          × (user.active ≡ true))
unfolding validate_credentials
validate_credentials_cases config user raw w =
    elim (Bool-cases (config.compare (config.pepper_password raw) user.password)) [
      | inr wrong ↦ inl (invalid_credentials, rw wrong refl)
      | inl right ↦ elim (Bool-cases user.active) [
        | inr off ↦ inl (account_disabled, rw (right, off) refl)
        | inl on ↦ inr (rw (right, on) refl, right, on)
      ]
    ]

-- The password fits an account that is not disabled.
abbrev pub IsProven : AccountConfig → LoginBody → User → List User → Type 0
IsProven config body user users =
    (find_user_by_username body.username users ≡ some user)
    × (config.compare (config.pepper_password body.password) user.password ≡ true)
    × (user.active ≡ true)

module _ {X : Type 0} (config : AccountConfig) (out : Outside X) (drawn : LoginDraws) where
  -- No second factor is wanted of the user: the browser is trusted, or there is no phone to ask.
  abbrev pub IsExempt : Option Text → ℕ → World AuthDb X → Type 0
  IsExempt trust user w =
      ((verify config.tokens drawn.verified_at trust user w).0 ≡ ok true)
      ⊎ (find_by_user_id user w.db.devices ≡ [])

  not-challenge_login :
      (user : User) (pushes : List ℕ) (w : World AuthDb X) {token : Text} {dto : UserDto}
      → ¬ ((challenge_login config out drawn user pushes w).0 ≡ ok (authenticated token dto))
  not-challenge_login user pushes w {token} {dto} answered =
      elim (Result-cases (create_challenge drawn.challenge user.id w).0) [
        | inl (e, failed) ↦ refused-not-ok (rw failed at answered)
        | inr (c, created) ↦
            let w1 = (create_challenge drawn.challenge user.id w).1 in
            elim (Result-cases (publish_all config out c user.id pushes w1).0) [
              | inl (e, failed) ↦ refused-not-ok (rw (created, failed) at answered)
              | inr (u, sent) ↦
                  let f : ok (two_fa_required c.id (split_comma c.options) c.expires_at)
                      ≡ ok (authenticated token dto) =
                    rw (created, sent) at answered in
                  absurd (asked-not-in f)
            ]
      ]

  second_step-IsExempt :
      (body : LoginBody) (trust agent : Option Text) (user : User) (w : World AuthDb X)
      {token : Text} {dto : UserDto}
      → (second_step config out drawn body trust agent user w).0 ≡ ok (authenticated token dto)
      → IsExempt trust user.id w
  unfolding find_push_tokens_by_user_id
  second_step-IsExempt body trust agent user w {token} {dto} answered =
      let w1 = (verify config.tokens drawn.verified_at trust user.id w).1 in
      elim (Result-cases (verify config.tokens drawn.verified_at trust user.id w).0) [
        | inl (e, failed) ↦ absurd (refused-not-ok (rw failed at answered))
        | inr (true, trusted) ↦ inl trusted
        | inr (false, untrusted) ↦ elim (List-cases (find_by_user_id user.id w1.db.devices)) [
          | inl nobody ↦
              inr (rw (sym (verify-devices config.tokens drawn.verified_at trust user.id w)) nobody)
          | inr (r, rows, somebody) ↦ absurd (
              not-challenge_login user (r.push_token ∷ map (λ (q : Device). q.push_token) rows) w1
                (rw (untrusted, somebody) at answered))
        ]
      ]

  -- Where `LoginService.login` answers AUTHENTICATED, there is a user of the given name whose
  -- password the given one fits and who is not disabled, and either the trusted device service
  -- accepts the cookie for this user or the user has no push device.
  pub login-IsProven :
      (body : LoginBody) (trust agent : Option Text) (w : World AuthDb X) {token : Text}
      {dto : UserDto}
      → (login config out drawn body trust agent w).0 ≡ ok (authenticated token dto)
      → (user : User) × IsProven config body user w.db.users × IsExempt trust user.id w
  unfolding login
  login-IsProven body trust agent w {token} {dto} answered =
      elim (Option-cases (find_user_by_username body.username w.db.users)) [
        | inl missing ↦ absurd (refused-not-ok (rw missing at answered))
        | inr (user, found) ↦ elim (validate_credentials_cases config user body.password w) [
          | inl (code, refused) ↦ absurd (refused-not-ok (rw (found, refused) at answered))
          | inr (passed, right, on) ↦ (
            user,
            (found, right, on),
            second_step-IsExempt body trust agent user w (rw (found, passed) at answered),
          )
        ]
      ]
