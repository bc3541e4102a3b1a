-- ===== src/Auth/TwoFa/Lifecycle.antt =====
-- The life of a challenge: what each call of the service may do to it.
use terab.Action.Laws.{Result-cases, run_in_tx_answer, run_in_tx_committed}
use terab.ErrorCode.{api, twofa_challenge_not_found}
use terab.Auth.TwoFa.Service.{Completed, complete_body, verify_and_claim}
pub mod Kept
pub mod Moves
mod Calls
mod Claim
use Claim.{IsClaimed, claimed, unclaimable, refused-not-ok}
use terab.Base.{
  ℕ, ◌≡◌, ◌≢◌, ◌⊎◌, ◌<◌, refl, true, false, none, some, List, [], ◌∷◌, Bool, Option, Text, inl, inr,
  Option-cases, Bool-cases, ◌==◌, leb, not, ◌&&◌, arith, text_eq, eq-of_text_eq, ap, sym, ◌∙◌,
  if◌then◌else◌,
}
use terab.Action.{World, Result, ok, err, run_in_tx}
use terab.Action.Laws.{Result-cases, run_in_tx_holds}
use terab.Table.{insert, find_where}
use terab.Auth.Schema.{
  Challenge, ChallengeStatus, pending, approved, denied, expired, AuthDb, TotpRow,
}
use terab.Auth.Outside.{Outside, AccountConfig, OtpConfig}
use terab.Auth.TrustedDevice.{register, trim_excess_devices}
use terab.Auth.TwoFa.Options.{generate_options, element}
use terab.Auth.TwoFa.Push.{
  ChallengeDraws, find_challenge, with_status, update_status, create_challenge, is_open, is_pending,
  is_approved, verify_push, new_challenge, set_status,
}
use terab.Auth.TwoFa.Totp.{verify_totp, verify_code, find_totp, is_locked, count_of, max_failures}
use terab.Auth.TwoFa.Service.{
  CompleteBody, TrustDraws, get_status, respond, claim_approved_challenge, resend, verify_and_claim,
  status_of, complete_challenge, claim_with_totp, complete_body, trust_if_wanted,
}
use Moves.{
  ChallengeCall, creates, reads, responds, claims, resends, completes, Change, same, accepts,
  denies, lapses, find-update_status, find-insert, found_id, Becomes, kept, lapsed, open-cases,
  settled_status, found_status, answered, pending-of_is_pending, approved-of_is_approved,
  Status-cases,
}
use Calls.{
  create-find, read-Becomes, respond-Becomes, claim-Becomes, created-Becomes, resend-Becomes,
  complete-Becomes, trust-challenges,
}

module _ {X : Type 0} (config : AccountConfig) (otp : OtpConfig) (out : Outside X) where
  abbrev pub perform : ChallengeCall → World AuthDb X → World AuthDb X
  perform (creates drawn user) w = (create_challenge drawn user w).1
  perform (reads now later id) w = (get_status now later id w).1
  perform (responds now id user selected) w = (respond now id user selected w).1
  perform (claims id) w = (claim_approved_challenge id w).1
  perform (resends drawn id) w = (resend drawn id w).1
  perform (completes now drawn id body agent) w =
      (complete_challenge config otp out now drawn id body agent w).1

  -- Whatever call of the two-factor service is performed, and however it ends, a challenge that is
  -- there stays there, and is as before, or has lapsed from PENDING or APPROVED to EXPIRED, or
  -- went from PENDING to DENIED, or went from PENDING to APPROVED; the last only where the call is
  -- `respond` of its own user with its right number before its expiry.
  pub perform-Change :
      (call : ChallengeCall) (id : ℕ) (w : World AuthDb X) {c : Challenge}
      → find_challenge id w.db.challenges ≡ some c
      → (d : Challenge) × (find_challenge id (perform call w).db.challenges ≡ some d)
        × Change call c d
  perform-Change (creates drawn user) id w found =
      created-Becomes (creates drawn user) drawn user id w (kept (creates drawn user) id w.db found)
  perform-Change (reads now later key) id w found = read-Becomes now later key id w found
  perform-Change (responds now key user selected) id w found =
      respond-Becomes now key user id selected w found
  perform-Change (claims key) id w found = claim-Becomes (claims key) key id w found
  perform-Change (resends drawn key) id w found = resend-Becomes drawn key id w found
  perform-Change (completes now drawn key body agent) id w found =
      complete-Becomes config otp out now drawn key id body agent w found

  -- The calls in turn, each on the world that the one before it left.
  abbrev pub perform_all : List ChallengeCall → World AuthDb X → World AuthDb X
  perform_all [] w = w
  perform_all (call ∷ calls) w = perform_all calls (perform call w)

  -- A denied or expired challenge stays as it is.
  pub finished-stays :
      (calls : List ChallengeCall) (id : ℕ) (w : World AuthDb X) (c : Challenge)
      → find_challenge id w.db.challenges ≡ some c
      → c.status ≢ pending
      → c.status ≢ approved
      → find_challenge id (perform_all calls w).db.challenges ≡ some c
  finished-stays [] id w c found unasked closed = found
  finished-stays (call ∷ calls) id w c found unasked closed =
      let (d, there, change) = perform-Change call id w found in
      finished-stays calls id (perform call w) c
        (rw (finished-same call c d change unasked closed) there) unasked closed
    where
      finished-same :
          (call : ChallengeCall) (c d : Challenge)
          → Change call c d
          → c.status ≢ pending
          → c.status ≢ approved
          → c ≡ d
      finished-same call c d (same e) unasked closed = sym e
      finished-same call c d (accepts now call' waits early e) unasked closed =
          absurd (unasked waits)
      finished-same call c d (denies now waits e) unasked closed = absurd (unasked waits)
      finished-same call c d (lapses (inl waits) e) unasked closed = absurd (unasked waits)
      finished-same call c d (lapses (inr taken) e) unasked closed = absurd (closed taken)

  completed-IsClaimed :
      (now : ℕ) (drawn : TrustDraws) (id : ℕ) (body : CompleteBody) (agent : Option Text)
      (w : World AuthDb X) {done : Completed}
      → (complete_challenge config otp out now drawn id body agent w).0 ≡ ok done
      → IsClaimed id (complete_challenge config otp out now drawn id body agent w).1.db
  unfolding complete_challenge
  completed-IsClaimed now drawn id body agent w done =
      let m = complete_body config otp out now drawn id body agent in
      let v = record w { in_tx = true } in
      let inner = sym (run_in_tx_answer m w) ∙ done in
      let committed = run_in_tx_committed m w inner in
      elim (Result-cases (verify_and_claim config otp out now id body v).0) [
        | inl (e, failed) ↦ absurd (refused-not-ok (rw failed at inner))
        | inr (user, passed) ↦
            let (c, there, over) = claimed config otp out now id body v passed in
            let v1 = (verify_and_claim config otp out now id body v).1 in
            let untouched = trust-challenges config otp out body.trust_device drawn user agent v1 in
            let same : (m v).1.db.challenges ≡ v1.db.challenges = rw passed untouched in
            (c, rw (committed, same) there, over)
      ]

  -- Once `completeChallenge` has succeeded for a challenge, with a push answer or with a one-time
  -- password, it throws TWOFA_CHALLENGE_NOT_FOUND for the same challenge for ever after, whatever
  -- the two-factor service does in between.
  pub complete-once :
      (now now' : ℕ) (drawn drawn' : TrustDraws) (id : ℕ) (body body' : CompleteBody)
      (agent agent' : Option Text) (calls : List ChallengeCall) (w : World AuthDb X)
      {done : Completed}
      → (complete_challenge config otp out now drawn id body agent w).0 ≡ ok done
      → (complete_challenge config otp out now' drawn' id body' agent'
          (perform_all calls (complete_challenge config otp out now drawn id body agent w).1)).0
        ≡ err (api twofa_challenge_not_found)
  unfolding complete_challenge
  complete-once now now' drawn drawn' id body body' agent agent' calls w done =
      let w1 = (complete_challenge config otp out now drawn id body agent w).1 in
      let (c, there, over) = completed-IsClaimed now drawn id body agent w done in
      let w2 = perform_all calls w1 in
      let stays = finished-stays calls id w1 c there (λ e. cc) (λ e. cc) in
      let refused =
        unclaimable config otp out now' id body' (record w2 { in_tx = true }) (c, stays, over) in
      run_in_tx_answer (complete_body config otp out now' drawn' id body' agent') w2
      ∙ rw refused refl
