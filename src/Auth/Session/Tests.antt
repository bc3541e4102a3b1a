-- ===== src/Auth/Session/Tests.antt =====
-- Runs of the session service, and the theorems about it at them.
use terab.Base.{ℕ, ◌≡◌, refl, some, [], ◌∷◌, false, arith}
use terab.ErrorCode.{api, refresh_token_invalid}
use terab.Action.{World, ok, err}
use terab.Drive.Schema.{Text}
use terab.Auth.Schema.{AuthDb, empty_auth, TokenConfig}
use terab.Auth.Session.{
  rotate, issue_for_user, revoke_by_raw_token, issued_row, RotatedRefreshToken, find_active_by_hash,
}
use terab.Auth.Session.Reuse.{issues, rotates, perform_all, rotate-once, revoke-stays}

-- A digest that keeps the first character, enough for texts of one.
abbrev first_char : Text → ℕ
first_char [] = 0
first_char (c ∷ s) = c

abbrev config : TokenConfig
config = record { hash_token = first_char; refresh_exp_ms = 1000 }

abbrev signed_in : World AuthDb (Unit {0})
signed_in = record {
  db = record empty_auth { refresh_tokens = issued_row config 1 0 (7 ∷ []) 4 ∷ [] };
  ext = tt;
  in_tx = false;
}

abbrev rotated : RotatedRefreshToken
rotated = record {
  user_id = 4;
  issued = record { raw_refresh_token = 8 ∷ []; refresh_token_exp_ms = 1000 };
}

accepted : (rotate config 2 10 (8 ∷ []) (7 ∷ []) signed_in).0 ≡ ok rotated
unfolding rotate issue_for_user find_active_by_hash
accepted = refl

rotate-once_example :
    (rotate config 5 30 (11 ∷ []) (7 ∷ []) (
      perform_all config
        (rotates 3 20 (9 ∷ []) (8 ∷ []) ∷ issues 4 20 (10 ∷ []) 4 ∷ [])
        (rotate config 2 10 (8 ∷ []) (7 ∷ []) signed_in).1)).0
    ≡ err (api refresh_token_invalid)
rotate-once_example =
    rotate-once config 2 10 5 30 (8 ∷ []) (11 ∷ []) (7 ∷ []) rotated
      (rotates 3 20 (9 ∷ []) (8 ∷ []) ∷ issues 4 20 (10 ∷ []) 4 ∷ []) signed_in refl (tt, tt)
      (λ e. omega arith) (λ e. omega arith, (λ e. omega arith, tt)) accepted

signed_out : (revoke_by_raw_token config 10 (7 ∷ []) signed_in).0 ≡ ok (some 4)
unfolding revoke_by_raw_token find_active_by_hash
signed_out = refl

revoke-stays_example :
    (rotate config 5 30 (11 ∷ []) (7 ∷ []) (
      perform_all config
        (issues 4 20 (10 ∷ []) 4 ∷ [])
        (revoke_by_raw_token config 10 (7 ∷ []) signed_in).1)).0
    ≡ err (api refresh_token_invalid)
revoke-stays_example =
    revoke-stays config 10 5 30 (11 ∷ []) (7 ∷ []) 4 (issues 4 20 (10 ∷ []) 4 ∷ []) signed_in
      (tt, tt) (λ e. omega arith, tt) signed_out
