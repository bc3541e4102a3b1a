-- ===== src/Auth/TwoFa/Lockout.antt =====
-- services/api/src/twofa/totp-lockout.service.ts with the transaction of `completeChallenge`: wrong
-- codes are counted although the transaction of each is put back.
use terab.Base.{
  ℕ, suc, ◌+◌, ◌≤◌, ◌≡◌, ◌≢◌, refl, sym, ◌∙◌, true, false, some, List, [], ◌∷◌, Option, Text, inl,
  inr, Option-cases, Bool-cases, leb, length, arith, ap, Bool,
}
use terab.ErrorCode.{
  Error, api, twofa_totp_invalid_code, twofa_totp_locked, twofa_challenge_not_found,
}
use terab.Action.{World, Result, ok, err}
use terab.Action.Laws.{
  Result-cases, run_in_tx_answer, run_in_tx_atomic, run_in_tx_ext, run_in_tx_closed,
}
use terab.Auth.Schema.{Challenge, AuthDb}
use terab.Auth.Outside.{Outside, AccountConfig, OtpConfig}
use terab.Auth.TwoFa.Push.{find_challenge, is_open}
use terab.Auth.TwoFa.Totp.{verify_totp, verify_code, find_totp, max_failures, count_of, ttl_ms}
use terab.Auth.TwoFa.Service.{
  CompleteBody, Completed, TrustDraws, complete_challenge, complete_body, verify_and_claim,
  claim_with_totp, trust_if_wanted,
}
use terab.Auth.TwoFa.Lifecycle.Kept.{register-answer}

-- A count that was set is read until its time is over, which is not counted here.
abbrev pub IsCache : {X : Type 0} → Outside X → Type 0
IsCache {X} out =
    (user n : ℕ) (x : X) → out.get_failures user (out.set_failures user n ttl_ms x) ≡ some n

abbrev pub failures : {X : Type 0} → Outside X → ℕ → World AuthDb X → ℕ
failures out user w = count_of (out.get_failures user w.ext)

-- One call of `completeChallenge` with a one-time password.
pub record Attempt : Type 0 where
  pub now : ℕ
  pub drawn : TrustDraws
  pub code : Text
  pub trust_device : Bool
  pub agent : Option Text

abbrev pub body_of : Attempt → CompleteBody
body_of a = record { with_totp = true; code = a.code; trust_device = a.trust_device }

module _ {X : Type 0} (out : Outside X) (otp : OtpConfig) where
  verify_code-ext :
      (now user : ℕ) (code : Text) (w : World AuthDb X)
      → (verify_code otp now user code w).1.ext ≡ w.ext
  unfolding verify_code
  verify_code-ext now user code w = elim (Option-cases (find_totp user w.db.totps)) [
    | inl missing ↦ rw missing refl
    | inr (row, found) ↦ elim (Option-cases (otp.decrypt row.secret)) [
      | inl broken ↦ rw (found, broken) refl
      | inr (secret, opened) ↦ elim (Bool-cases (otp.verify_otp code secret now)) [
        | inl valid ↦ rw (found, opened, valid) refl
        | inr wrong ↦ rw (found, opened, wrong) refl
      ]
    ]
  ]

  verify_code-not-err :
      (now user : ℕ) (code : Text) (w : World AuthDb X)
      → (verify_code otp now user code w).0 ≢ err (api twofa_totp_invalid_code)
  unfolding verify_code
  verify_code-not-err now user code w = elim (Option-cases (find_totp user w.db.totps)) [
    | inl missing ↦ rw missing (λ p. cc)
    | inr (row, found) ↦ elim (Option-cases (otp.decrypt row.secret)) [
      | inl broken ↦ rw (found, broken) (λ p. cc)
      | inr (secret, opened) ↦ elim (Bool-cases (otp.verify_otp code secret now)) [
        | inl valid ↦ rw (found, opened, valid) (λ p. cc)
        | inr wrong ↦ rw (found, opened, wrong) (λ p. cc)
      ]
    ]
  ]

  -- A wrong code is counted.
  verify_totp-counts :
      IsCache out
      → (now user : ℕ) (code : Text) (w : World AuthDb X)
      → (verify_totp out otp now user code w).0 ≡ err (api twofa_totp_invalid_code)
      → failures out user (verify_totp out otp now user code w).1 ≡ suc (failures out user w)
  unfolding verify_totp
  verify_totp-counts cache now user code w refused =
      let x = (verify_code otp now user code w).1.ext in
      let same = verify_code-ext now user code w in
      elim (Bool-cases (leb max_failures (failures out user w))) [
        | inl locked ↦
            let f : err (api twofa_totp_locked) ≡ err (api twofa_totp_invalid_code) =
              rw locked at refused in
            cc
        | inr unlocked ↦ elim (Result-cases (verify_code otp now user code w).0) [
          | inl (e, broken) ↦
              let f : err e ≡ err (api twofa_totp_invalid_code) =
                rw (unlocked, broken) at refused in
              absurd (verify_code-not-err now user code w (broken ∙ f))
          | inr (true, valid) ↦
              let f : ok true ≡ err (api twofa_totp_invalid_code) =
                rw (unlocked, valid) at refused in
              cc
          | inr (false, wrong) ↦
              rw (unlocked, wrong, same, cache user (failures out user w + 1) w.ext) (omega arith)
        ]
      ]

other-code :
    {A : Type 0}
    → ¬ (
        ◌≡◌ {A = Result A}
          (err (api twofa_challenge_not_found))
          (err (api twofa_totp_invalid_code)))
other-code h = cc

same-error : {A : Type 0} {e e' : Error} → ◌≡◌ {A = Result A} (err e) (err e') → e ≡ e'
same-error h = cc

ok-not-err : {A : Type 0} {a : A} {e : Error} → ¬ (ok a ≡ err e)
ok-not-err h = cc

module _ {X : Type 0} (config : AccountConfig) (otp : OtpConfig) (out : Outside X) (id : ℕ) where
  trust-not-err :
      (wanted : Bool) (drawn : TrustDraws) (user : ℕ) (agent : Option Text) (w : World AuthDb X)
      (e : Error)
      → (trust_if_wanted config otp out wanted drawn user agent w).0 ≢ err e
  trust-not-err false drawn user agent w e = λ p. cc
  trust-not-err true drawn user agent w e =
      rw
        (register-answer config.tokens drawn.id drawn.now drawn.later drawn.created drawn.raw user
          agent w)
        (λ p. cc)

  abbrev pub attempt : Attempt → World AuthDb X → Result Completed × World AuthDb X
  attempt a w = complete_challenge config otp out a.now a.drawn id (body_of a) a.agent w

  claim-counts :
      IsCache out
      → (a : Attempt) (w : World AuthDb X) (c : Challenge)
      → find_challenge id w.db.challenges ≡ some c
      → (claim_with_totp config otp out a.now id a.code w).0 ≡ err (api twofa_totp_invalid_code)
      → failures out c.user_id (claim_with_totp config otp out a.now id a.code w).1
        ≡ suc (failures out c.user_id w)
  claim-counts cache a w c there refused = elim (Bool-cases (is_open a.now c)) [
    | inr closed ↦
        let f : err (api twofa_challenge_not_found) ≡ err (api twofa_totp_invalid_code) =
          rw (there, closed) at refused in
        absurd (other-code f)
    | inl waits ↦
        let counted = verify_totp-counts out otp cache a.now c.user_id a.code w in
        elim (Result-cases (verify_totp out otp a.now c.user_id a.code w).0) [
          | inl (e, failed) ↦
              let f : err e ≡ err (api twofa_totp_invalid_code) =
                rw (there, waits, failed) at refused in
              rw (there, waits, failed) (counted (failed ∙ ap err (same-error f)))
          | inr (b, passed) ↦
              let f : ok c.user_id ≡ err (api twofa_totp_invalid_code) =
                rw (there, waits, passed) at refused in
              absurd (ok-not-err f)
        ]
  ]

  verify_and_claim-counts :
      IsCache out
      → (a : Attempt) (w : World AuthDb X) (c : Challenge)
      → find_challenge id w.db.challenges ≡ some c
      → (verify_and_claim config otp out a.now id (body_of a) w).0
        ≡ err (api twofa_totp_invalid_code)
      → failures out c.user_id (verify_and_claim config otp out a.now id (body_of a) w).1
        ≡ suc (failures out c.user_id w)
  unfolding verify_and_claim
  verify_and_claim-counts cache a w c there refused = claim-counts cache a w c there refused

  -- A wrong code is counted.
  attempt-counts :
      IsCache out
      → (a : Attempt) (w : World AuthDb X) (c : Challenge)
      → find_challenge id w.db.challenges ≡ some c
      → w.in_tx ≡ false
      → (attempt a w).0 ≡ err (api twofa_totp_invalid_code)
      → failures out c.user_id (attempt a w).1 ≡ suc (failures out c.user_id w)
  unfolding complete_challenge
  attempt-counts cache a w c there outside refused =
      let v = record w { in_tx = true } in
      let m = complete_body config otp out a.now a.drawn id (body_of a) a.agent in
      let inner = sym (run_in_tx_answer m w) ∙ refused in
      let ext = run_in_tx_ext m w in
      elim (Result-cases (verify_and_claim config otp out a.now id (body_of a) v).0) [
        | inl (e, failed) ↦
            let f : err e ≡ err (api twofa_totp_invalid_code) = rw failed at inner in
            let counted =
              verify_and_claim-counts cache a v c there (failed ∙ ap err (same-error f)) in
            ap (λ x. count_of (out.get_failures c.user_id x)) ext ∙ rw failed counted
        | inr (user, passed) ↦ absurd (
            trust-not-err a.trust_device a.drawn user a.agent
              (verify_and_claim config otp out a.now id (body_of a) v).1
              (api twofa_totp_invalid_code) (rw passed at inner))
      ]

  attempt-atomic :
      (a : Attempt) (w : World AuthDb X) {e : Error}
      → w.in_tx ≡ false
      → (attempt a w).0 ≡ err e
      → ((attempt a w).1.db ≡ w.db) × ((attempt a w).1.in_tx ≡ false)
  unfolding complete_challenge
  attempt-atomic a w outside refused =
      let m = complete_body config otp out a.now a.drawn id (body_of a) a.agent in
      (run_in_tx_atomic m w outside refused, run_in_tx_closed m w outside)

  -- The attempts in turn, each answered that its code is wrong.
  abbrev pub IsRefused : List Attempt → World AuthDb X → Type 0
  IsRefused [] w = Unit
  IsRefused (a ∷ attempts) w =
      ((attempt a w).0 ≡ err (api twofa_totp_invalid_code)) × IsRefused attempts (attempt a w).1

  abbrev pub attempt_all : List Attempt → World AuthDb X → World AuthDb X
  attempt_all [] w = w
  attempt_all (a ∷ attempts) w = attempt_all attempts (attempt a w).1

  attempts-count :
      IsCache out
      → (attempts : List Attempt) (w : World AuthDb X) (c : Challenge)
      → find_challenge id w.db.challenges ≡ some c
      → w.in_tx ≡ false
      → IsRefused attempts w
      → (failures out c.user_id (attempt_all attempts w)
          ≡ length attempts + failures out c.user_id w)
        × ((attempt_all attempts w).db ≡ w.db)
  attempts-count cache [] w c there outside refused = (omega arith, refl)
  attempts-count cache (a ∷ attempts) w c there outside (refused, rest) =
      let counted = attempt-counts cache a w c there outside refused in
      let (put_back, closed) = attempt-atomic a w outside refused in
      let there' = ap (λ (d : AuthDb). find_challenge id d.challenges) put_back ∙ there in
      let (all, db) = attempts-count cache attempts (attempt a w).1 c there' closed rest in
      (omega (arith, all, counted), db ∙ put_back)

  -- With a cache that answers what was stored, after at least five attempts in a row to complete a
  -- challenge that were each refused with TWOFA_TOTP_INVALID_CODE outside a transaction, a further
  -- attempt with any code while the challenge is open throws TWOFA_TOTP_LOCKED, although the
  -- transaction of every attempt was put back.
  pub locked-out :
      IsCache out
      → (attempts : List Attempt) (a : Attempt) (w : World AuthDb X) (c : Challenge)
      → find_challenge id w.db.challenges ≡ some c
      → w.in_tx ≡ false
      → IsRefused attempts w
      → max_failures ≤ length attempts
      → is_open a.now c ≡ true
      → (attempt a (attempt_all attempts w)).0 ≡ err (api twofa_totp_locked)
  unfolding complete_challenge verify_and_claim verify_totp
  locked-out cache attempts a w c there outside refused many waits =
      let u = attempt_all attempts w in
      let (counted, db) = attempts-count cache attempts w c there outside refused in
      let there' = ap (λ (d : AuthDb). find_challenge id d.challenges) db ∙ there in
      let locked : leb max_failures (failures out c.user_id u) ≡ true = ground (arith, counted) in
      run_in_tx_answer (complete_body config otp out a.now a.drawn id (body_of a) a.agent) u
      ∙ rw (there', waits, locked) refl
