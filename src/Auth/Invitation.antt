-- ===== src/Auth/Invitation.antt =====
-- services/api/src/invitation: invitation.service.ts and invitation.repository.ts, the invitations to
-- register. Ids, tokens and times are arguments.
pub mod Once
pub mod Tests
use terab.Base.{
  ℕ, ◌+◌, ◌*◌, Bool, true, false, Option, none, some, List, map, leb, ◌==◌, ◌&&◌, is_null,
  if◌then◌else◌,
}
use terab.ErrorCode.{
  ErrorCode, Error, api, invitation_not_found, invitation_already_used, invitation_expired,
}
use terab.Action.{World, Action, pure, throw, or_throw, query, statement, ◌>>=◌, ◌>>◌}
use terab.Table.{select_where, find_where, update_where, exists_where, insert, first}
use terab.Drive.Schema.{Text}
use terab.Auth.Schema.{Invitation, AuthDb}

abbrev pub default_expires_days : ℕ
default_expires_days = 7

abbrev pub ms_per_day : ℕ
ms_per_day = 24 * 60 * 60 * 1000

-- `url` is `${APP_BASE_URL}/register/${token}`, which the token determines.
pub record InvitationResponse : Type 0 where
  pub token : ℕ
  pub expires_at : ℕ

abbrev pub new_invitation : (id token now : ℕ) → ℕ → ℕ → Invitation
new_invitation id token now created_by days = record {
  id = id;
  token = token;
  created_by = created_by;
  used_by = none;
  used_at = none;
  expires_at = now + days * ms_per_day;
  deactivated_at = none;
  created_at = now;
}

abbrev pub find_by_token : ℕ → List Invitation → Option Invitation
find_by_token token t = find_where (λ (r : Invitation). r.token == token) t

abbrev pub with_deactivated_at : ℕ → Invitation → Invitation
with_deactivated_at now r = record r { deactivated_at = some now }

-- `deactivate`: whether there was such a row.
unfoldable pub deactivate_by_token : ℕ → ℕ → List Invitation → Bool × List Invitation
deactivate_by_token token now t = (
  exists_where (λ (r : Invitation). r.token == token) t,
  update_where (λ (r : Invitation). r.token == token) (with_deactivated_at now) t,
)

abbrev pub is_unused : ℕ → Invitation → Bool
is_unused token r = r.token == token && is_null r.used_at

abbrev pub with_used : ℕ → ℕ → Invitation → Invitation
with_used now user r = record r { used_at = some now; used_by = some user }

-- `consume`: the row that was marked, if there was one.
unfoldable pub consume_by_token : ℕ → ℕ → ℕ → List Invitation → Option Invitation × List Invitation
consume_by_token token user now t = (
  first (map (with_used now user) (select_where (is_unused token) t)),
  update_where (is_unused token) (with_used now user) t,
)

-- `getException`
unfoldable pub get_exception : ℕ → Option Invitation → Option ErrorCode
get_exception now none = some invitation_not_found
get_exception now (some row) =
    if is_null row.deactivated_at
    then (if is_null row.used_at
        then (if leb row.expires_at now then some invitation_expired else none)
        else some invitation_already_used)
    else some invitation_not_found

abbrev pub on_invitations :
    {A : Type 0} → (List Invitation → A × List Invitation) → AuthDb → A × AuthDb
on_invitations f d = ((f d.invitations).0, record d { invitations = (f d.invitations).1 })

abbrev pub InvitationAction : Type 0 → Type 0 → Type 0
InvitationAction X A = Action (World AuthDb X) A

abbrev pub raise : {X A : Type 0} → A → Option ErrorCode → InvitationAction X A
raise a none = pure a
raise a (some code) = throw (api code)

module _ {X : Type 0} where
  unfoldable pub create : (id token now : ℕ) → ℕ → ℕ → InvitationAction X InvitationResponse
  create id token now created_by days = do
    let row = new_invitation id token now created_by days
    statement (on_invitations (λ t. (row, insert row t)))
    pure (record { token = row.token; expires_at = row.expires_at })

  unfoldable pub validate : (now : ℕ) → ℕ → InvitationAction X Bool
  validate now token =
      query (λ d. is_null_code (get_exception now (find_by_token token d.invitations)))
    where
      is_null_code : Option ErrorCode → Bool
      is_null_code none = true
      is_null_code (some code) = false

  -- The row, which is there where nothing was thrown.
  unfoldable pub validate_or_throw : (now : ℕ) → ℕ → InvitationAction X (Option Invitation)
  validate_or_throw now token = do
    row ← query (λ d. find_by_token token d.invitations)
    raise row (get_exception now row)

  unfoldable pub consume : (now : ℕ) → ℕ → ℕ → InvitationAction X (Unit {0})
  consume now token used_by = do
    row ← statement (on_invitations (consume_by_token token used_by now))
    or_throw row invitation_already_used
    pure tt

  unfoldable pub deactivate : (now : ℕ) → ℕ → InvitationAction X (Unit {0})
  deactivate now token = do
    found ← statement (on_invitations (deactivate_by_token token now))
    if found then pure tt else throw (api invitation_not_found)
