-- ===== src/Auth/TwoFa/Tests.antt =====
-- Runs of the second factor, and the theorems about it at them.
use terab.Base.{◌≡◌, refl, none, some, [], ◌∷◌, false, true, arith, inl, inr, ==-refl, codes}
use terab.ErrorCode.{Error, api, twofa_challenge_not_found, twofa_totp_locked}
use terab.Action.{World, ok, err}
use terab.Auth.Schema.{AuthDb, empty_auth, Challenge}
use terab.Auth.Samples.{Memory, memory, sample_config, sample_otp}
use terab.Auth.BackupCode.{code_row}
use terab.Auth.TwoFa.Options.{draw_options, split_comma, join_comma}
use terab.Auth.TwoFa.Options.Choice.{IsAsked, create_challenge-IsAsked}
use terab.Auth.TwoFa.Options.Ending.{create_challenge-ends}
use terab.Auth.TwoFa.Push.{ChallengeDraws, create_challenge, new_challenge, find_challenge}
use terab.Auth.TwoFa.Totp.{row_id, new_totp, verify_totp, verify_code, find_totp}
use terab.Auth.TwoFa.Service.{
  CompleteBody, Completed, TrustDraws, totp, complete_challenge, verify_and_claim, remove_strategy,
}
use terab.Auth.TwoFa.Lifecycle.{perform, perform_all, perform-Change, complete-once}
use terab.Auth.TwoFa.Lifecycle.Moves.{reads, resends, responds, Change}
use terab.Auth.TwoFa.Lockout.{Attempt, attempt, attempt_all, IsRefused, locked-out}
use terab.Auth.TwoFa.Removal.{IsApart, remove_strategy-refused}

abbrev drawn : ChallengeDraws
drawn = record { id = 51; now = 20; draws = 5 ∷ 5 ∷ 70 ∷ 13 ∷ []; pick = 1 }

-- The user 4 with a challenge that waits, a one-time password 1 2 and a backup code.
abbrev waiting : World AuthDb Memory
waiting = record {
  db = record empty_auth {
    challenges = new_challenge 50 0 4 (10 ∷ 20 ∷ 30 ∷ []) 20 ∷ [];
    totps = new_totp 60 0 4 (record { ciphertext = 1 ∷ 2 ∷ []; iv = []; auth_tag = [] }) ∷ [];
    backup_codes = code_row 0 4 (record { id = 70; raw = []; hash = 5 }) ∷ [];
  };
  ext = λ user. none;
  in_tx = false;
}

abbrev created : Challenge
created = new_challenge 51 20 4 (15 ∷ 80 ∷ 23 ∷ []) 80

draws_three : (create_challenge drawn 4 waiting).0 ≡ ok created
unfolding create_challenge draw_options
draws_three = refl

options_text : split_comma created.options ≡ codes "15" ∷ codes "80" ∷ codes "23" ∷ []
unfolding split_comma join_comma
options_text = refl

create_challenge-IsAsked_example : IsAsked created
create_challenge-IsAsked_example =
    create_challenge-IsAsked drawn 4 waiting
      (omega arith, (omega arith, (omega arith, (omega arith, tt)))) draws_three

create_challenge-ends_example : (d : Challenge) × ((create_challenge drawn 4 waiting).0 ≡ ok d)
create_challenge-ends_example =
    create_challenge-ends drawn 4 5 70 13 waiting (inl refl) (inr (inr (inl refl)))
      (inr (inr (inr (inl refl)))) (λ e. omega arith) (λ e. omega arith) (λ e. omega arith)
      (omega arith)

abbrev trust : TrustDraws
trust = record { id = 1; now = 10; later = 10; created = 10; raw = 9 ∷ [] }

abbrev coded : CompleteBody
coded = record { with_totp = true; code = 1 ∷ 2 ∷ []; trust_device = false }

abbrev pushed : CompleteBody
pushed = record { with_totp = false; code = []; trust_device = false }

abbrev signed_in : Completed
signed_in = record { user_id = 4; raw_trust_token = none }

code_fits :
    (complete_challenge sample_config sample_otp memory 10 trust 50 coded none waiting).0
    ≡ ok signed_in
unfolding complete_challenge verify_and_claim find_challenge verify_totp verify_code find_totp
code_fits = refl

complete-once_example :
    (complete_challenge sample_config sample_otp memory 30 trust 50 pushed none (
      perform_all sample_config sample_otp memory
        (responds 20 50 4 (codes "20") ∷ reads 21 21 50 ∷ resends drawn 50 ∷ [])
        (complete_challenge sample_config sample_otp memory 10 trust 50 coded none waiting).1)).0
    ≡ err (api twofa_challenge_not_found)
complete-once_example =
    complete-once sample_config sample_otp memory 10 30 trust trust 50 coded pushed none none
      (responds 20 50 4 (codes "20") ∷ reads 21 21 50 ∷ resends drawn 50 ∷ []) waiting code_fits

abbrev asked : Challenge
asked = new_challenge 50 0 4 (10 ∷ 20 ∷ 30 ∷ []) 20

there : find_challenge 50 waiting.db.challenges ≡ some asked
unfolding find_challenge
there = refl

perform-Change_example :
    let w' = perform sample_config sample_otp memory (responds 20 50 4 (codes "20")) waiting in
    (d : Challenge) × (find_challenge 50 w'.db.challenges ≡ some d)
    × Change (responds 20 50 4 (codes "20")) asked d
perform-Change_example =
    perform-Change sample_config sample_otp memory (responds 20 50 4 (codes "20")) 50 waiting there

abbrev wrong : Attempt
wrong = record { now = 10; drawn = trust; code = 8 ∷ []; trust_device = true; agent = none }

abbrev right : Attempt
right = record { now = 10; drawn = trust; code = 1 ∷ 2 ∷ []; trust_device = false; agent = none }

wrong-IsRefused :
    IsRefused sample_config sample_otp memory 50
      (wrong ∷ wrong ∷ wrong ∷ wrong ∷ wrong ∷ [])
      waiting
unfolding complete_challenge verify_and_claim find_challenge verify_totp verify_code find_totp
wrong-IsRefused = (refl, (refl, (refl, (refl, (refl, tt)))))

locked-out_example :
    (attempt sample_config sample_otp memory 50 right (
      attempt_all sample_config sample_otp memory 50
        (wrong ∷ wrong ∷ wrong ∷ wrong ∷ wrong ∷ [])
        waiting)).0
    ≡ err (api twofa_totp_locked)
locked-out_example =
    locked-out sample_config sample_otp memory 50 (λ user n x. rw (==-refl user) refl)
      (wrong ∷ wrong ∷ wrong ∷ wrong ∷ wrong ∷ []) right waiting asked there refl wrong-IsRefused
      (omega arith) refl

remove_strategy-refused_example :
    (e : Error) × (remove_strategy 4 totp (row_id 60) waiting ≡ (err e, waiting))
remove_strategy-refused_example = remove_strategy-refused totp 4 (row_id 60) waiting apart
  where
    apart : IsApart 4 waiting.db.totps
    apart r (inl e) = rw e (λ same. omega (arith, same))
    apart r (inr h) = absurd h
