-- ===== src/Auth/TwoFa/Lifecycle/Kept.antt =====
-- What the calls of other services do to the challenges: nothing.
use terab.Base.{
  ℕ, ◌≡◌, ◌-◌, refl, true, false, Option, Text, inl, inr, Option-cases, Bool-cases, leb, ltb,
}
use terab.Action.{World, ok}
use terab.Action.Laws.{Result-cases}
use terab.Auth.Schema.{AuthDb, TokenConfig}
use terab.Auth.Outside.{Outside, OtpConfig}
use terab.Auth.TrustedDevice.{register, max_trust_per_user, count_active_by_user_id}
use terab.Auth.TwoFa.Totp.{verify_totp, verify_code, find_totp, max_failures, count_of}

module _ {X : Type 0} where
  pub register-challenges :
      (config : TokenConfig) (id now later created : ℕ) (raw : Text) (user : ℕ)
      (agent : Option Text) (w : World AuthDb X)
      → (register config id now later created raw user agent w).1.db.challenges ≡ w.db.challenges
  unfolding register
  register-challenges config id now later created raw user agent w =
      let n = count_active_by_user_id user later w.db.trusted_devices - (max_trust_per_user - 1) in
      elim (Bool-cases w.in_tx) [
        | inl nested ↦ elim (Bool-cases (ltb 0 n)) [
          | inl over ↦ simp (nested, over)
          | inr under ↦ simp (nested, under)
        ]
        | inr outer ↦ elim (Bool-cases (ltb 0 n)) [
          | inl over ↦ simp (outer, over)
          | inr under ↦ simp (outer, under)
        ]
      ]

  pub register-answer :
      (config : TokenConfig) (id now later created : ℕ) (raw : Text) (user : ℕ)
      (agent : Option Text) (w : World AuthDb X)
      → (register config id now later created raw user agent w).0 ≡ ok raw
  unfolding register
  register-answer config id now later created raw user agent w =
      let n = count_active_by_user_id user later w.db.trusted_devices - (max_trust_per_user - 1) in
      elim (Bool-cases w.in_tx) [
        | inl nested ↦ elim (Bool-cases (ltb 0 n)) [
          | inl over ↦ simp (nested, over)
          | inr under ↦ simp (nested, under)
        ]
        | inr outer ↦ elim (Bool-cases (ltb 0 n)) [
          | inl over ↦ simp (outer, over)
          | inr under ↦ simp (outer, under)
        ]
      ]

  verify_code-challenges :
      (otp : OtpConfig) (now user : ℕ) (code : Text) (w : World AuthDb X)
      → (verify_code otp now user code w).1.db.challenges ≡ w.db.challenges
  unfolding verify_code
  verify_code-challenges otp now user code w = elim (Option-cases (find_totp user w.db.totps)) [
    | inl missing ↦ rw missing refl
    | inr (row, found) ↦ elim (Option-cases (otp.decrypt row.secret)) [
      | inl broken ↦ rw (found, broken) refl
      | inr (secret, opened) ↦ elim (Bool-cases (otp.verify_otp code secret now)) [
        | inl valid ↦ rw (found, opened, valid) refl
        | inr wrong ↦ rw (found, opened, wrong) refl
      ]
    ]
  ]

  pub verify_totp-challenges :
      (out : Outside X) (otp : OtpConfig) (now user : ℕ) (code : Text) (w : World AuthDb X)
      → (verify_totp out otp now user code w).1.db.challenges ≡ w.db.challenges
  unfolding verify_totp
  verify_totp-challenges out otp now user code w =
      let rest = verify_code-challenges otp now user code w in
      elim (Bool-cases (leb max_failures (count_of (out.get_failures user w.ext)))) [
        | inl locked ↦ rw locked refl
        | inr unlocked ↦ elim (Result-cases (verify_code otp now user code w).0) [
          | inl (e, broken) ↦ rw (unlocked, broken) rest
          | inr (true, valid) ↦ rw (unlocked, valid) rest
          | inr (false, wrong) ↦ rw (unlocked, wrong) rest
        ]
      ]
