-- ===== src/Auth/User.antt =====
-- services/api/src/user: user.service.ts and user.repository.ts, the accounts.
use terab.Base.{ℕ, Bool, true, Option, List, ◌==◌, Text, text_eq, if◌then◌else◌}
use terab.ErrorCode.{Error, invalid_credentials}
use terab.Action.{pure, throw, or_throw, query, statement, ◌>>=◌, ◌>>◌}
use terab.Table.{find_where, exists_where, insert}
use terab.Auth.Schema.{User, AuthDb}
use terab.Auth.Outside.{AuthAction}
use terab.Auth.Role.{get_permissions_by_user_id}

-- services/api/src/common/dto/user.dto.ts
pub record UserDto : Type 0 where
  pub id : ℕ
  pub username : Text
  pub nickname : Text
  pub permissions : List Text

abbrev pub find_user_by_id : ℕ → List User → Option User
find_user_by_id id t = find_where (λ (u : User). u.id == id) t

abbrev pub has_username : Text → User → Bool
has_username name u = text_eq u.username name

unfoldable pub find_user_by_username : Text → List User → Option User
find_user_by_username name t = find_where (has_username name) t

-- The number of the constraint `users_username_unique`.
abbrev pub users_username : ℕ
users_username = 3

abbrev pub new_user : (id now : ℕ) → Text → Text → ℕ → User
new_user id now username nickname password = record {
  id = id;
  username = username;
  nickname = nickname;
  password = password;
  active = true;
  created_at = now;
}

abbrev pub on_users : (List User → List User) → AuthDb → Unit {0} × AuthDb
on_users f d = (tt, record d { users = f d.users })

module _ {X : Type 0} where
  -- The id of the row; the unique index on the name rejects a second one, with what drizzle-orm
  -- makes of the violation of a constraint.
  unfoldable pub create_user :
      (rejects_with : ℕ → Error) (id now : ℕ) → Text → Text → ℕ → AuthAction X ℕ
  create_user rejects_with id now username nickname password = do
    taken ← query (λ d. exists_where (has_username username) d.users)
    if taken
        then throw (rejects_with users_username)
        else do statement (on_users (insert (new_user id now username nickname password))); pure id

  unfoldable pub get_current_user : ℕ → AuthAction X UserDto
  get_current_user id = do
    found ← query (λ d. find_user_by_id id d.users)
    user ← or_throw found invalid_credentials
    permissions ← get_permissions_by_user_id user.id
    pure (record {
      id = user.id;
      username = user.username;
      nickname = user.nickname;
      permissions = permissions;
    })
