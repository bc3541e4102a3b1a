-- ===== src/Auth/TwoFa/Lifecycle/Claim.antt =====
-- `verifyAndClaim` of services/api/src/twofa/twofa.service.ts: what a claim leaves.
use terab.Base.{ℕ, ◌≡◌, refl, none, some, List, Text, inl, inr, Option-cases, Bool-cases, ==-refl}
use terab.ErrorCode.{Error, api, twofa_challenge_not_found}
use terab.Action.{World, ok, err}
use terab.Action.Laws.{Result-cases}
use terab.Auth.Schema.{Challenge, expired, AuthDb}
use terab.Auth.Outside.{Outside, AccountConfig, OtpConfig}
use terab.Auth.TwoFa.Push.{find_challenge, with_status, update_status, is_open, is_approved}
use terab.Auth.TwoFa.Totp.{verify_totp}
use terab.Auth.TwoFa.Service.{
  CompleteBody, claim_approved_challenge, verify_and_claim, claim_with_totp,
}
use terab.Auth.TwoFa.Lifecycle.Moves.{find-update_status}
use terab.Auth.TwoFa.Lifecycle.Kept.{verify_totp-challenges}

expired-find :
    (id : ℕ) (t : List Challenge) (k : Challenge)
    → find_challenge id t ≡ some k
    → find_challenge id (update_status id expired none t) ≡ some (with_status expired none k)
expired-find id t k there = rw (==-refl id) at (find-update_status id id expired none t there)

pub refused-not-ok : {A : Type 0} {e : Error} {a : A} → ¬ (err e ≡ ok a)
refused-not-ok h = cc

-- There the challenge is, expired.
abbrev pub IsClaimed : ℕ → AuthDb → Type 0
IsClaimed id d = (c : Challenge) × (find_challenge id d.challenges ≡ some c) × (c.status ≡ expired)

module _ {X : Type 0} where
  claim-IsClaimed :
      (id : ℕ) (w : World AuthDb X) {user : ℕ}
      → (claim_approved_challenge id w).0 ≡ ok user
      → IsClaimed id (claim_approved_challenge id w).1.db
  unfolding claim_approved_challenge
  claim-IsClaimed id w done = elim (Option-cases (find_challenge id w.db.challenges)) [
    | inl missing ↦ absurd (refused-not-ok (rw missing at done))
    | inr (k, there) ↦ elim (Bool-cases (is_approved k.status)) [
      | inr other ↦ absurd (refused-not-ok (rw (there, other) at done))
      | inl accepted ↦
          rw (there, accepted)
            (with_status expired none k, expired-find id w.db.challenges k there, refl)
    ]
  ]

module _ {X : Type 0} (config : AccountConfig) (otp : OtpConfig) (out : Outside X) where
  claim_with_totp-IsClaimed :
      (now id : ℕ) (code : Text) (w : World AuthDb X) {user : ℕ}
      → (claim_with_totp config otp out now id code w).0 ≡ ok user
      → IsClaimed id (claim_with_totp config otp out now id code w).1.db
  claim_with_totp-IsClaimed now id code w done =
      elim (Option-cases (find_challenge id w.db.challenges)) [
        | inl missing ↦ absurd (refused-not-ok (rw missing at done))
        | inr (k, there) ↦ elim (Bool-cases (is_open now k)) [
          | inr closed ↦ absurd (refused-not-ok (rw (there, closed) at done))
          | inl waits ↦
              let w1 = (verify_totp out otp now k.user_id code w).1 in
              elim (Result-cases (verify_totp out otp now k.user_id code w).0) [
                | inl (e, failed) ↦ absurd (refused-not-ok (rw (there, waits, failed) at done))
                | inr (b, passed) ↦
                    rw (there, waits, passed)
                      (
                        with_status expired none k,
                        expired-find id w1.db.challenges k
                            (rw (verify_totp-challenges out otp now k.user_id code w) there),
                        refl,
                      )
              ]
        ]
      ]

  -- A claim that succeeds leaves the challenge expired.
  pub claimed :
      (now id : ℕ) (body : CompleteBody) (w : World AuthDb X) {user : ℕ}
      → (verify_and_claim config otp out now id body w).0 ≡ ok user
      → IsClaimed id (verify_and_claim config otp out now id body w).1.db
  unfolding verify_and_claim
  claimed now id body w done = elim (Bool-cases body.with_totp) [
    | inl coded ↦ rw coded (claim_with_totp-IsClaimed now id body.code w (rw coded at done))
    | inr pushed ↦ rw pushed (claim-IsClaimed id w (rw pushed at done))
  ]

  -- A finished challenge cannot be claimed.
  pub unclaimable :
      (now id : ℕ) (body : CompleteBody) (w : World AuthDb X)
      → IsClaimed id w.db
      → (verify_and_claim config otp out now id body w).0 ≡ err (api twofa_challenge_not_found)
  unfolding verify_and_claim claim_approved_challenge
  unclaimable now id body w (c, found, over) = elim (Bool-cases body.with_totp) [
    | inl coded ↦ rw (coded, found, over) refl
    | inr pushed ↦ rw (pushed, found, over) refl
  ]
