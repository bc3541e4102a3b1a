-- ===== src/Auth/Login/Tests.antt =====
-- Runs of the login, and the theorems about it at them.
use terab.Base.{◌≡◌, refl, none, [], ◌∷◌, false, codes, arith}
use terab.ErrorCode.{ErrorCode, api}
use terab.Action.{World, ok, err}
use terab.Auth.Schema.{AuthDb, empty_auth, User}
use terab.Auth.Samples.{Memory, memory, sample_config}
use terab.Auth.Device.{new_device, find_push_tokens_by_user_id}
use terab.Auth.Invitation.{
  new_invitation, validate_or_throw, get_exception, consume, consume_by_token,
}
use terab.Auth.Invitation.Once
use terab.Auth.Invitation.Once.{creates, deactivates}
use terab.Auth.BackupCode.{generate_for_user, insert_many}
use terab.Auth.Session.{issue_for_user}
use terab.Auth.TrustedDevice.{verify}
use terab.Auth.Role.{
  find_permissions_by_user_id, join_roles, join_grants, join_permissions, distinct_after,
  find_by_name,
}
use terab.Auth.User.{UserDto, new_user, create_user, find_user_by_username}
use terab.Auth.AuthService.{
  IssueDraws, authenticated, assign_default_role, validate_credentials, issue_token_pair,
}
use terab.Auth.Login.{
  LoginBody, LoginDraws, RegisterBody, RegisterDraws, RegisterResponse, login, register_user,
}
use terab.Auth.Login.Proof.{IsProven, IsExempt, login-IsProven}
use terab.Auth.Login.Registration.{register-once}

abbrev first_issue : IssueDraws
first_issue = record { id = 1; now = 10; fresh = 9 ∷ [] }

abbrev drawn : LoginDraws
drawn = record {
  verified_at = 10;
  issue = first_issue;
  trust = record { id = 2; now = 10; later = 10; created = 10; raw = 8 ∷ [] };
  challenge = record { id = 3; now = 10; draws = 1 ∷ 2 ∷ 3 ∷ []; pick = 0 };
}

abbrev body : LoginBody
body = record { username = codes "u"; password = 7 ∷ []; trust_device = false }

-- The user 4 without a phone, the user 5 with one, a role and an invitation.
abbrev before : World AuthDb Memory
before = record {
  db = record empty_auth {
    users = new_user 4 0 (codes "u") [] 7 ∷ new_user 5 0 (codes "v") [] 7 ∷ [];
    roles = record { id = 30; name = codes "USER" } ∷ [];
    permissions = record { id = 40; resource = codes "file"; action = codes "read" } ∷ [];
    role_permissions = record { role_id = 30; permission_id = 40 } ∷ [];
    user_roles = record { user_id = 4; role_id = 30 } ∷ [];
    devices = new_device 1 0 5 77 none ∷ [];
    invitations = new_invitation 1 9 0 4 7 ∷ [];
  };
  ext = λ user. none;
  in_tx = false;
}

abbrev dto : UserDto
dto = record { id = 4; username = codes "u"; nickname = []; permissions = codes "file:read" ∷ [] }

let_in :
    (login sample_config memory drawn body none none before).0
    ≡ ok (authenticated (4 ∷ 10 ∷ []) dto)
unfolding login validate_credentials verify find_push_tokens_by_user_id issue_token_pair
    issue_for_user find_permissions_by_user_id join_roles join_grants join_permissions
    distinct_after find_user_by_username
let_in = refl

login-IsProven_example :
    (user : User) × IsProven sample_config body user before.db.users
    × IsExempt sample_config memory drawn none user.id before
login-IsProven_example = login-IsProven sample_config memory drawn body none none before let_in

abbrev new_body : RegisterBody
new_body = record { token = 9; username = codes "w"; nickname = []; password = 7 ∷ [] }

abbrev registration : RegisterDraws
registration = record {
  id = 6;
  salt = 0;
  validated_at = 10;
  created_at = 10;
  consumed_at = 10;
  codes = record { id = 80; raw = 1 ∷ []; hash = 1 } ∷ [];
  issue = first_issue;
}

abbrev answer : RegisterResponse
answer = record {
  access_token = 6 ∷ 10 ∷ [];
  user = record {
    id = 6;
    username = codes "w";
    nickname = [];
    permissions = codes "file:read" ∷ [];
  };
  backup_codes = (1 ∷ []) ∷ [];
}

registered : (register_user sample_config memory registration new_body before).0 ≡ ok answer
unfolding register_user validate_or_throw get_exception create_user assign_default_role find_by_name
    generate_for_user insert_many consume consume_by_token issue_token_pair issue_for_user
    find_permissions_by_user_id join_roles join_grants join_permissions distinct_after
registered = refl

register-once_example :
    (code : ErrorCode) × ((register_user sample_config memory registration new_body (
        Once.perform_all
          (creates 2 10 20 4 7 ∷ deactivates 20 9 ∷ [])
          (register_user sample_config memory registration new_body before).1)).0
      ≡ err (api code))
register-once_example =
    register-once sample_config memory registration registration new_body new_body
      (creates 2 10 20 4 7 ∷ deactivates 20 9 ∷ []) before registered ((λ e. omega arith), (tt, tt))
      refl
