-- ===== src/Auth/Login/Registration.antt =====
-- An invitation registers one account: `register` of services/api/src/auth/login.service.ts.
use terab.Base.{ℕ, ◌≡◌, refl, sym, ◌∙◌, true, some, List, Text, inl, inr, Option-cases, All}
use terab.ErrorCode.{ErrorCode, api}
use terab.Action.{World, ok, err, catch, throw, run_in_tx}
use terab.Action.Laws.{run_in_tx_answer, run_in_tx_committed, bind-ok, bind-err}
use terab.Auth.Schema.{AuthDb}
use terab.Auth.Outside.{Outside, AccountConfig}
use terab.Auth.Invitation.{validate_or_throw, consume, get_exception, find_by_token}
use terab.Auth.Invitation.Once.{
  IsSpent, InvitationCall, IsOther, perform_all, spent-refused, consumed-IsSpent,
  perform_all-IsSpent,
}
use terab.Auth.BackupCode.{generate_for_user}
use terab.Auth.Session.{issue_for_user}
use terab.Auth.User.{create_user, find_user_by_id}
use terab.Auth.AuthService.{assign_default_role, hash_password, issue_token_pair}
use terab.Auth.Login.{
  RegisterDraws, RegisterBody, RegisterResponse, register_body, register_user, name_taken,
}
use terab.Auth.Login.Proof.{refused-not-ok}

module _ {X : Type 0} (config : AccountConfig) (out : Outside X) where
  -- The account is there only with the invitation spent.
  register_body-IsSpent :
      (drawn : RegisterDraws) (body : RegisterBody) (w : World AuthDb X) {answer : ℕ × List Text}
      → (register_body config out drawn body w).0 ≡ ok answer
      → IsSpent body.token (register_body config out drawn body w).1.db.invitations
  register_body-IsSpent drawn body w {answer} done =
      let password = hash_password config drawn.salt body.password in
      let creates =
        catch
          (create_user config.rejects_with drawn.id drawn.created_at body.username body.nickname
            password)
          (λ e. throw (name_taken e)) in
      let (row, valid, done1, same1) =
        bind-ok (validate_or_throw drawn.validated_at body.token) _ w done in
      let w1 = (validate_or_throw drawn.validated_at body.token w).1 in
      let (id, created, done2, same2) = bind-ok creates _ w1 done1 in
      let w2 = (creates w1).1 in
      let (u, assigned, done3, same3) = bind-ok (assign_default_role id) _ w2 done2 in
      let w3 = (assign_default_role id w2).1 in
      let (codes, given, done4, same4) =
        bind-ok (generate_for_user drawn.created_at drawn.codes id) _ w3 done3 in
      let w4 = (generate_for_user drawn.created_at drawn.codes id w3).1 in
      let (v, consumed, done5, same5) =
        bind-ok (consume drawn.consumed_at body.token id) _ w4 done4 in
      let all = same1 ∙ same2 ∙ same3 ∙ same4 ∙ same5 in
      rw all (consumed-IsSpent drawn.consumed_at body.token id w4)

  -- What follows the transaction writes no invitation.
  register_user-IsSpent :
      (drawn : RegisterDraws) (body : RegisterBody) (w : World AuthDb X) {answer : RegisterResponse}
      → (register_user config out drawn body w).0 ≡ ok answer
      → IsSpent body.token (register_user config out drawn body w).1.db.invitations
  unfolding register_user issue_token_pair issue_for_user
  register_user-IsSpent drawn body w {answer} done =
      let m = register_body config out drawn body in
      let (pair, committed, done1, same1) = bind-ok (run_in_tx m) _ w done in
      let spent =
        register_body-IsSpent drawn body (record w { in_tx = true })
          (sym (run_in_tx_answer m w) ∙ committed) in
      let kept = run_in_tx_committed m w (sym (run_in_tx_answer m w) ∙ committed) in
      let spent1 : IsSpent body.token (run_in_tx m w).1.db.invitations = rw kept spent in
      elim (Option-cases (find_user_by_id pair.0 (run_in_tx m w).1.db.users)) [
        | inl missing ↦ absurd (refused-not-ok (rw missing at done1))
        | inr (user, found) ↦ rw (same1, found) spent1
      ]

  -- Once `register` has succeeded with an invitation, a further `register` with the same
  -- invitation throws an ApiException, whatever the invitation service does in between, as long as
  -- it draws no invitation with the same token.
  pub register-once :
      (drawn drawn' : RegisterDraws) (body body' : RegisterBody) (calls : List InvitationCall)
      (w : World AuthDb X) {answer : RegisterResponse}
      → (register_user config out drawn body w).0 ≡ ok answer
      → All (IsOther body.token) calls
      → body'.token ≡ body.token
      → (code : ErrorCode) × ((register_user config out drawn' body'
            (perform_all calls (register_user config out drawn body w).1)).0
          ≡ err (api code))
  unfolding register_user validate_or_throw
  register-once drawn drawn' body body' calls w done other same =
      let w1 = (register_user config out drawn body w).1 in
      let spent =
        perform_all-IsSpent body.token calls w1 other (register_user-IsSpent drawn body w done) in
      let w2 = perform_all calls w1 in
      let (code, refused) = spent-refused drawn'.validated_at body.token w2.db.invitations spent in
      (code, refused_body drawn' body' w2 code (rw same refused))
    where
      refused_body :
          (drawn : RegisterDraws) (body : RegisterBody) (v : World AuthDb X) (code : ErrorCode)
          → get_exception drawn.validated_at (find_by_token body.token v.db.invitations) ≡ some code
          → (register_user config out drawn body v).0 ≡ err (api code)
      refused_body drawn body v code refused =
          let m = register_body config out drawn body in
          bind-err (run_in_tx m) _ v (run_in_tx_answer m v ∙ rw refused refl)
