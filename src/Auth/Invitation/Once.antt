-- ===== src/Auth/Invitation/Once.antt =====
-- An invitation registers one user.
use terab.Base.{
  ℕ, ◌≡◌, ◌≢◌, refl, false, none, some, List, [], ◌∷◌, arith, inl, inr, ◌==◌, is_null, map, All,
  All-of_Has, All-Has, All-append, Option-cases, Bool-cases,
}
use terab.ErrorCode.{ErrorCode, api, invitation_already_used, invitation_not_found}
use terab.Action.{World, ok, err}
use terab.Table.{select_where, update_where, exists_where, first}
use terab.Table.Laws.{find_where-Has, update_where-All, update_where_split}
use terab.Auth.Schema.{Invitation, AuthDb}
use terab.Auth.Invitation.{
  find_by_token, is_unused, with_used, with_deactivated_at, consume_by_token, deactivate_by_token,
  get_exception, new_invitation, create, consume, deactivate, validate,
}

-- Every row with the token is used.
abbrev pub IsSpent : ℕ → List Invitation → Type 0
IsSpent token t = All (λ (r : Invitation). r.token ≡ token → ¬ (r.used_at ≡ none)) t

-- The calls of the invitation service that write, with what they draw.
pub data InvitationCall : Type 0 where
  creates : (id token now created_by days : ℕ) → InvitationCall
  consumes : (now token user : ℕ) → InvitationCall
  deactivates : (now token : ℕ) → InvitationCall

-- The call draws another token.
abbrev pub IsOther : ℕ → InvitationCall → Type 0
IsOther token (creates id drawn now created_by days) = drawn ≢ token
IsOther token (consumes now used user) = Unit
IsOther token (deactivates now ended) = Unit

none_unused :
    (token : ℕ) (t : List Invitation) → IsSpent token t → select_where (is_unused token) t ≡ []
none_unused token [] spent = refl
none_unused token (r ∷ t) spent = elim (Bool-cases (is_unused token r)) [
  | inl free ↦ absurd (spent.0 (ground arith) (ground arith))
  | inr used ↦ rw used (none_unused token t spent.1)
]

pub spent-refused :
    (now token : ℕ) (t : List Invitation)
    → IsSpent token t
    → (code : ErrorCode) × (get_exception now (find_by_token token t) ≡ some code)
unfolding get_exception
spent-refused now token t spent = elim (Option-cases (find_by_token token t)) [
  | inl missing ↦ (invitation_not_found, rw missing refl)
  | inr (r, found) ↦
      let (h, fits) = find_where-Has (λ (s : Invitation). s.token == token) t r found in
      let used =
        All-Has (λ (s : Invitation). s.token ≡ token → ¬ (s.used_at ≡ none)) t spent h
          (ground arith) in
      elim (Bool-cases (is_null r.deactivated_at)) [
        | inr off ↦ (invitation_not_found, rw (found, off) refl)
        | inl on ↦ elim (Bool-cases (is_null r.used_at)) [
          | inl free ↦ absurd (used (ground arith))
          | inr taken ↦ (invitation_already_used, rw (found, on, taken) refl)
        ]
      ]
]

module _ {X : Type 0} where
  abbrev pub perform : InvitationCall → World AuthDb X → World AuthDb X
  perform (creates id token now created_by days) w = (create id token now created_by days w).1
  perform (consumes now token user) w = (consume now token user w).1
  perform (deactivates now token) w = (deactivate now token w).1

  abbrev pub perform_all : List InvitationCall → World AuthDb X → World AuthDb X
  perform_all [] w = w
  perform_all (call ∷ calls) w = perform_all calls (perform call w)

  consume-IsSpent :
      (token now used user : ℕ) (w : World AuthDb X)
      → IsSpent token w.db.invitations
      → IsSpent token (consume now used user w).1.db.invitations
  unfolding consume consume_by_token
  consume-IsSpent token now used user w spent =
      elim (Option-cases
        (first (map (with_used now user) (select_where (is_unused used) w.db.invitations)))) [
          | inl nothing ↦ rw nothing after
          | inr (row, e) ↦ rw e after
        ]
    where
      after : IsSpent token (update_where (is_unused used) (with_used now user) w.db.invitations)
      after =
          update_where-All (λ (r : Invitation). r.token ≡ token → ¬ (r.used_at ≡ none))
            (is_unused used) (with_used now user) w.db.invitations (λ r old fits e free. cc) spent

  pub consumed-IsSpent :
      (now token user : ℕ) (w : World AuthDb X)
      → IsSpent token (consume now token user w).1.db.invitations
  unfolding consume consume_by_token
  consumed-IsSpent now token user w =
      elim (Option-cases
        (first (map (with_used now user) (select_where (is_unused token) w.db.invitations)))) [
          | inl nothing ↦ rw nothing after
          | inr (row, e) ↦ rw e after
        ]
    where
      after : IsSpent token (update_where (is_unused token) (with_used now user) w.db.invitations)
      after =
          update_where_split (λ (r : Invitation). Unit {0})
            (λ (r : Invitation). r.token ≡ token → ¬ (r.used_at ≡ none)) (is_unused token)
            (with_used now user) w.db.invitations (λ r u fits e free. cc)
            (λ r u used e free. ground arith)
            (All-of_Has (λ (r : Invitation). Unit {0}) w.db.invitations (λ r h. tt))

  deactivate-IsSpent :
      (token now ended : ℕ) (w : World AuthDb X)
      → IsSpent token w.db.invitations
      → IsSpent token (deactivate now ended w).1.db.invitations
  unfolding deactivate deactivate_by_token
  deactivate-IsSpent token now ended w spent =
      elim (Bool-cases (exists_where (λ (r : Invitation). r.token == ended) w.db.invitations)) [
        | inl there ↦ rw there after
        | inr gone ↦ rw gone after
      ]
    where
      after : IsSpent token (
          update_where
            (λ (r : Invitation). r.token == ended)
            (with_deactivated_at now)
            w.db.invitations)
      after =
          update_where-All (λ (r : Invitation). r.token ≡ token → ¬ (r.used_at ≡ none))
            (λ (r : Invitation). r.token == ended) (with_deactivated_at now) w.db.invitations
            (λ r old fits. old) spent

  perform-IsSpent :
      (token : ℕ) (call : InvitationCall) (w : World AuthDb X)
      → IsOther token call
      → IsSpent token w.db.invitations
      → IsSpent token (perform call w).db.invitations
  unfolding create
  perform-IsSpent token (creates id drawn now created_by days) w other spent =
      All-append (λ (r : Invitation). r.token ≡ token → ¬ (r.used_at ≡ none)) w.db.invitations
        (new_invitation id drawn now created_by days ∷ []) spent (λ e. absurd (other e), tt)
  perform-IsSpent token (consumes now used user) w other spent =
      consume-IsSpent token now used user w spent
  perform-IsSpent token (deactivates now ended) w other spent =
      deactivate-IsSpent token now ended w spent

  pub perform_all-IsSpent :
      (token : ℕ) (calls : List InvitationCall) (w : World AuthDb X)
      → All (IsOther token) calls
      → IsSpent token w.db.invitations
      → IsSpent token (perform_all calls w).db.invitations
  perform_all-IsSpent token [] w other spent = spent
  perform_all-IsSpent token (call ∷ calls) w other spent =
      perform_all-IsSpent token calls (perform call w) other.1
        (perform-IsSpent token call w other.0 spent)

  -- Once `InvitationService.consume` has been called for a token, whatever the invitation service
  -- does next, as long as it draws no invitation with the same token, a further `consume` of it
  -- throws INVITATION_ALREADY_USED and `validate` answers that it is not valid.
  pub consume-once :
      (now token user now' user' : ℕ) (calls : List InvitationCall) (w : World AuthDb X)
      → All (IsOther token) calls
      → let w' = perform_all calls (consume now token user w).1 in
        ((consume now' token user' w').0 ≡ err (api invitation_already_used))
        × ((validate now' token w').0 ≡ ok false)
  unfolding validate consume consume_by_token
  consume-once now token user now' user' calls w other =
      let spent =
        perform_all-IsSpent token calls (consume now token user w).1 other
          (consumed-IsSpent now token user w) in
      (refused _ spent, rw ((spent-refused now' token _ spent).1) refl)
    where
      refused :
          (v : World AuthDb X)
          → IsSpent token v.db.invitations
          → (consume now' token user' v).0 ≡ err (api invitation_already_used)
      refused v spent = rw (none_unused token v.db.invitations spent) refl
