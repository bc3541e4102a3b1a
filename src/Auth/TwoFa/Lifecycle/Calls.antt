-- ===== src/Auth/TwoFa/Lifecycle/Calls.antt =====
-- services/api/src/twofa: each call of the service changes a challenge only as `Change` says.
use terab.Base.{
  ℕ, ◌≡◌, refl, true, false, none, some, Bool, Option, Text, inl, inr, Option-cases, Bool-cases,
  ◌==◌, leb, arith, text_eq, eq-of_text_eq, ap, ◌∙◌,
}
use terab.Action.{World}
use terab.Action.Laws.{Result-cases, run_in_tx_holds}
use terab.Auth.Schema.{Challenge, approved, denied, expired, AuthDb}
use terab.Auth.Outside.{Outside, AccountConfig, OtpConfig}
use terab.Auth.TrustedDevice.{register}
use terab.Auth.TwoFa.Options.{generate_options, element}
use terab.Auth.TwoFa.Push.{
  ChallengeDraws, find_challenge, create_challenge, is_open, is_pending, is_approved, verify_push,
  new_challenge, set_status,
}
use terab.Auth.TwoFa.Totp.{verify_totp}
use terab.Auth.TwoFa.Service.{
  CompleteBody, TrustDraws, get_status, respond, claim_approved_challenge, resend, verify_and_claim,
  complete_challenge, claim_with_totp, complete_body, trust_if_wanted,
}
use terab.Auth.TwoFa.Lifecycle.Moves.{
  ChallengeCall, reads, responds, resends, completes, accepts, denies, find-insert, found_id,
  Becomes, kept, lapsed, open-cases, settled_status, found_status, answered, pending-of_is_pending,
  approved-of_is_approved, Status-cases,
}
use terab.Auth.TwoFa.Lifecycle.Kept.{register-challenges, verify_totp-challenges}

module _ {X : Type 0} where
  pub create-find :
      (drawn : ChallengeDraws) (user id : ℕ) (w : World AuthDb X) {c : Challenge}
      → find_challenge id w.db.challenges ≡ some c
      → find_challenge id (create_challenge drawn user w).1.db.challenges ≡ some c
  unfolding create_challenge
  create-find drawn user id w found = elim (Option-cases (generate_options drawn.draws)) [
    | inl endless ↦ rw endless found
    | inr (nums, ended) ↦ elim (Option-cases (element drawn.pick nums)) [
      | inl outside ↦ rw (ended, outside) found
      | inr (correct, picked) ↦
          rw (ended, picked)
            (find-insert id (new_challenge drawn.id drawn.now user nums correct) w.db.challenges
              found)
    ]
  ]

  pub read-Becomes :
      (now later key id : ℕ) (w : World AuthDb X) {c : Challenge}
      → find_challenge id w.db.challenges ≡ some c
      → Becomes (reads now later key) id c (get_status now later key w).1.db
  unfolding get_status
  read-Becomes now later key id w found =
      let call = reads now later key in
      elim (Option-cases (find_challenge key w.db.challenges)) [
        | inl missing ↦ rw missing (kept call id w.db found)
        | inr (k, there) ↦ elim (Status-cases k.status) [
          | inr settled ↦
              rw (there, settled_status now later key k k.status w settled)
                (kept call id w.db found)
          | inl waits ↦ elim (Bool-cases (leb k.expires_at now)) [
            | inl late ↦
                rw (there, waits, late)
                  (lapsed call id key w.db.challenges found
                    (λ c f. inl (found_status key w.db.challenges k c there f waits)))
            | inr early ↦ rw (there, waits, early) (kept call id w.db found)
          ]
        ]
      ]

  pub respond-Becomes :
      (now key user id : ℕ) (selected : Text) (w : World AuthDb X) {c : Challenge}
      → find_challenge id w.db.challenges ≡ some c
      → Becomes (responds now key user selected) id c (respond now key user selected w).1.db
  unfolding respond verify_push
  respond-Becomes now key user id selected w {c} found =
      let call = responds now key user selected in
      elim (Option-cases (find_challenge key w.db.challenges)) [
        | inl missing ↦ rw missing (kept call id w.db found)
        | inr (k, there) ↦ elim (Bool-cases (k.user_id == user)) [
          | inr foreign ↦ rw (there, foreign) (kept call id w.db found)
          | inl own ↦ elim (Bool-cases (is_open now k)) [
            | inr closed ↦ rw (there, own, closed) (kept call id w.db found)
            | inl waits ↦ elim (Bool-cases (text_eq k.correct_num selected)) [
              | inl right ↦
                  let (pend, early) = open-cases now k waits in
                  let e : k.user_id ≡ user = ground arith in
                  let e' : k.correct_num ≡ selected = eq-of_text_eq k.correct_num selected right in
                  let e'' : k.id ≡ key = found_id key w.db.challenges there in
                  rw (there, own, waits, right)
                    (answered call id key approved now w.db.challenges k found there
                      (accepts now (rw (e, e', e'') refl) pend early refl))
              | inr wrong ↦
                  rw (there, own, waits, wrong)
                    (answered call id key denied now w.db.challenges k found there
                      (denies now (open-cases now k waits).0 refl))
            ]
          ]
        ]
      ]

  pub claim-Becomes :
      (call : ChallengeCall) (key id : ℕ) (w : World AuthDb X) {c : Challenge}
      → find_challenge id w.db.challenges ≡ some c
      → Becomes call id c (claim_approved_challenge key w).1.db
  unfolding claim_approved_challenge
  claim-Becomes call key id w found = elim (Option-cases (find_challenge key w.db.challenges)) [
    | inl missing ↦ rw missing (kept call id w.db found)
    | inr (k, there) ↦ elim (Bool-cases (is_approved k.status)) [
      | inr other ↦ rw (there, other) (kept call id w.db found)
      | inl accepted ↦
          rw (there, accepted)
            (lapsed call id key w.db.challenges found (λ c f. inr (
              found_status key w.db.challenges k c there f
                (approved-of_is_approved k.status accepted))))
    ]
  ]

  -- What the challenge became is not undone by the creation of another one.
  pub created-Becomes :
      (call : ChallengeCall) (drawn : ChallengeDraws) (user id : ℕ) (w : World AuthDb X)
      {c : Challenge}
      → Becomes call id c w.db
      → Becomes call id c (create_challenge drawn user w).1.db
  created-Becomes call drawn user id w (d, there, change) =
      (d, create-find drawn user id w there, change)

  pub resend-Becomes :
      (drawn : ChallengeDraws) (key id : ℕ) (w : World AuthDb X) {c : Challenge}
      → find_challenge id w.db.challenges ≡ some c
      → Becomes (resends drawn key) id c (resend drawn key w).1.db
  unfolding resend
  resend-Becomes drawn key id w {c} found =
      let call = resends drawn key in
      elim (Option-cases (find_challenge key w.db.challenges)) [
        | inl missing ↦ rw missing (kept call id w.db found)
        | inr (k, there) ↦ elim (Bool-cases (is_pending k.status)) [
          | inr settled ↦
              let after = created-Becomes call drawn k.user_id id w (kept call id w.db found) in
              elim (Result-cases (create_challenge drawn k.user_id w).0) [
                | inl (e, failed) ↦ rw (there, settled, failed) after
                | inr (a, created) ↦ rw (there, settled, created) after
              ]
          | inl waits ↦
              let w1 = (set_status key expired none w).1 in
              let after = created-Becomes call drawn k.user_id id w1 (
                lapsed call id key w.db.challenges found (λ c f. inl (
                  found_status key w.db.challenges k c there f
                    (pending-of_is_pending k.status waits)))) in
              elim (Result-cases (create_challenge drawn k.user_id w1).0) [
                | inl (e, failed) ↦ rw (there, waits, failed) after
                | inr (a, created) ↦ rw (there, waits, created) after
              ]
        ]
      ]

module _ {X : Type 0} (config : AccountConfig) (otp : OtpConfig) (out : Outside X) where
  claim_with_totp-Becomes :
      (call : ChallengeCall) (now key id : ℕ) (code : Text) (w : World AuthDb X) {c : Challenge}
      → find_challenge id w.db.challenges ≡ some c
      → Becomes call id c (claim_with_totp config otp out now key code w).1.db
  claim_with_totp-Becomes call now key id code w {c} found =
      elim (Option-cases (find_challenge key w.db.challenges)) [
        | inl missing ↦ rw missing (kept call id w.db found)
        | inr (k, there) ↦ elim (Bool-cases (is_open now k)) [
          | inr closed ↦ rw (there, closed) (kept call id w.db found)
          | inl waits ↦
              let w1 = (verify_totp out otp now k.user_id code w).1 in
              let untouched : w1.db.challenges ≡ w.db.challenges =
                verify_totp-challenges out otp now k.user_id code w in
              let found1 : find_challenge id w1.db.challenges ≡ some c = rw untouched found in
              elim (Result-cases (verify_totp out otp now k.user_id code w).0) [
                | inl (e, failed) ↦ rw (there, waits, failed) (kept call id w1.db found1)
                | inr (b, passed) ↦
                    rw (there, waits, passed)
                      (lapsed call id key w1.db.challenges found1 (λ c f. inl (
                        found_status key w1.db.challenges k c (rw untouched there) f
                          (open-cases now k waits).0)))
              ]
        ]
      ]

  verify_and_claim-Becomes :
      (call : ChallengeCall) (now key id : ℕ) (body : CompleteBody) (w : World AuthDb X)
      {c : Challenge}
      → find_challenge id w.db.challenges ≡ some c
      → Becomes call id c (verify_and_claim config otp out now key body w).1.db
  unfolding verify_and_claim
  verify_and_claim-Becomes call now key id body w found = elim (Bool-cases body.with_totp) [
    | inl coded ↦ rw coded (claim_with_totp-Becomes call now key id body.code w found)
    | inr pushed ↦ rw pushed (claim-Becomes call key id w found)
  ]

  pub trust-challenges :
      (wanted : Bool) (drawn : TrustDraws) (user : ℕ) (agent : Option Text) (w : World AuthDb X)
      → (trust_if_wanted config otp out wanted drawn user agent w).1.db.challenges ≡ w.db.challenges
  trust-challenges false drawn user agent w = refl
  trust-challenges true drawn user agent w =
      let untouched =
        register-challenges config.tokens drawn.id drawn.now drawn.later drawn.created drawn.raw
          user agent w in
      elim (Result-cases
        (register config.tokens drawn.id drawn.now drawn.later drawn.created drawn.raw user agent
          w).0) [ inl (e, failed) ↦ rw failed untouched | inr (raw, done) ↦ rw done untouched ]

  pub complete-Becomes :
      (now : ℕ) (drawn : TrustDraws) (key id : ℕ) (body : CompleteBody) (agent : Option Text)
      (w : World AuthDb X) {c : Challenge}
      → find_challenge id w.db.challenges ≡ some c
      → Becomes
          (completes now drawn key body agent)
          id
          c
          (complete_challenge config otp out now drawn key body agent w).1.db
  unfolding complete_challenge
  complete-Becomes now drawn key id body agent w {c} found =
      let call = completes now drawn key body agent in
      run_in_tx_holds (Becomes call id c) (complete_body config otp out now drawn key body agent) w
        (kept call id w.db found)
        (λ v start.
          let (d, there, change) =
            verify_and_claim-Becomes call now key id body v
              (ap (λ (e : AuthDb). find_challenge id e.challenges) start ∙ found) in
          elim (Result-cases (verify_and_claim config otp out now key body v).0) [
            | inl (e, failed) ↦ rw failed (d, there, change)
            | inr (user, passed) ↦
                rw
                  (
                    passed,
                    trust-challenges body.trust_device drawn user agent
                        (verify_and_claim config otp out now key body v).1,
                  )
                  (d, there, change)
          ])
