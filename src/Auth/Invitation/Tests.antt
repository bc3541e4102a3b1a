-- ===== src/Auth/Invitation/Tests.antt =====
-- A run of the invitation service, and the theorem about it at it.
use terab.Base.{◌≡◌, refl, [], ◌∷◌, true, false, arith}
use terab.ErrorCode.{api, invitation_already_used}
use terab.Action.{World, ok, err}
use terab.Auth.Schema.{AuthDb, empty_auth}
use terab.Auth.Invitation.{consume, validate, new_invitation, get_exception}
use terab.Auth.Invitation.Once.{perform_all, creates, deactivates, consume-once}

abbrev invited : World AuthDb (Unit {0})
invited = record {
  db = record empty_auth { invitations = new_invitation 1 9 0 4 7 ∷ [] };
  ext = tt;
  in_tx = false;
}

valid_before : (validate 100 9 invited).0 ≡ ok true
unfolding validate get_exception
valid_before = refl

consume-once_example :
    let w' =
      perform_all (creates 2 10 200 4 7 ∷ deactivates 300 9 ∷ []) (consume 100 9 5 invited).1 in
    ((consume 400 9 6 w').0 ≡ err (api invitation_already_used))
    × ((validate 400 9 w').0 ≡ ok false)
consume-once_example =
    consume-once 100 9 5 400 6 (creates 2 10 200 4 7 ∷ deactivates 300 9 ∷ []) invited
      (λ e. omega arith, (tt, tt))
