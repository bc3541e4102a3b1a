-- ===== src/Auth/Guard/Tests.antt =====
-- A run of the guards with the token of a login, and the theorem about it at it.
use terab.Base.{
  ℕ, ◌+◌, ◌/◌, ◌≡◌, ◌↔◌, refl, none, some, List, [], ◌∷◌, ◌++◌, ◌==◌, true, false, ltb, Option,
  Text, codes, All, arith, if◌then◌else◌,
}
use terab.Action.{World, ok}
use terab.Auth.Schema.{AuthDb, User, empty_auth}
use terab.Auth.Outside.{AccountConfig}
use terab.Auth.Samples.{Memory, memory, sample_config}
use terab.Auth.Session.{issue_for_user}
use terab.Auth.Role.{
  find_permissions_by_user_id, join_roles, join_grants, join_permissions, distinct_after,
}
use terab.Auth.Role.Granted.{IsGranted}
use terab.Auth.User.{new_user}
use terab.Auth.AuthService.{IssueDraws, issue_token_pair}
use terab.Auth.Guard.{
  JwtPayload, Route, unauthorized, allowed, forbidden_request, guard, can_activate,
}
use terab.Auth.Guard.Admission.{IsReadable, user_of, guard-admits_iff}

abbrev reader : User
reader = new_user 4 0 (codes "u") [] 7

abbrev home : World AuthDb Memory
home = record {
  db = record empty_auth {
    users = reader ∷ [];
    roles = record { id = 30; name = codes "USER" } ∷ [];
    permissions = record { id = 40; resource = codes "file"; action = codes "read" } ∷ [];
    role_permissions = record { role_id = 30; permission_id = 40 } ∷ [];
    user_roles = record { user_id = 4; role_id = 30 } ∷ [];
  };
  ext = λ user. none;
  in_tx = false;
}

-- A signature that hides nothing: the subject, the second it ends, and the texts, each before a 0.
abbrev joined : List Text → Text
joined [] = []
joined (t ∷ ts) = t ++ (0 ∷ joined ts)

abbrev signing : AccountConfig
signing = record sample_config {
  sign = λ user name permissions seconds now.
      user ∷ (now / 1000 + seconds) ∷ joined (name ∷ permissions);
}

abbrev prepend : ℕ → List Text → List Text
prepend c [] = (c ∷ []) ∷ []
prepend c (t ∷ ts) = (c ∷ t) ∷ ts

abbrev split : Text → List Text
split [] = []
split (c ∷ s) = let rest = split s in if c == 0 then [] ∷ rest else prepend c rest

abbrev payload : ℕ → List Text → Option JwtPayload
payload sub [] = none
payload sub (name ∷ permissions) =
    some (record { sub = sub; username = name; permissions = some permissions })

abbrev read : (now : ℕ) → Text → Option JwtPayload
read now (sub ∷ exp ∷ texts) = if ltb (now / 1000) exp then payload sub (split texts) else none
read now (sub ∷ []) = none
read now [] = none

-- Signed at 1.999 s with a life of 60 s: it ends at 61 s, not at 61.999 s.
abbrev first_issue : IssueDraws
first_issue = record { id = 1; now = 1999; fresh = 9 ∷ [] }

abbrev token : Text
token = 4 ∷ 61 ∷ joined (codes "u" ∷ codes "file:read" ∷ [])

abbrev file_route : Text → Route
file_route action = record { is_public = false; required = some (action ∷ []) }

read_back : IsReadable signing read reader home.db 1999
unfolding find_permissions_by_user_id join_roles join_grants join_permissions distinct_after
read_back later soon =
    let alive : ltb (later / 1000) 61 ≡ true = ground (arith, soon) in rw alive refl

issued : (issue_token_pair signing memory first_issue reader home).0 ≡ ok token
unfolding issue_token_pair issue_for_user find_permissions_by_user_id join_roles join_grants
    join_permissions distinct_after
issued = refl

may_not_write :
    guard (read 60999) (file_route (codes "file:write")) (some token) ≡ forbidden_request
unfolding guard can_activate
may_not_write = refl

ends_in_time : guard (read 61000) (file_route (codes "file:read")) (some token) ≡ unauthorized
unfolding guard
ends_in_time = refl

guard-admits_iff_example :
    (guard (read 60999) (file_route (codes "file:read")) (some token)
      ≡ allowed (some (user_of reader home.db)))
    ↔ All (λ p. IsGranted 4 p home.db) (codes "file:read" ∷ [])
guard-admits_iff_example =
    guard-admits_iff signing memory read first_issue reader home read_back issued 60999
      (some (codes "file:read" ∷ [])) (omega arith)
