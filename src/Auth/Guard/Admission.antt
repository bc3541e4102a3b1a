-- ===== src/Auth/Guard/Admission.antt =====
-- From the tables to the guard: whom the token of a login admits where.
use terab.Base.{
  ℕ, ◌+◌, ◌/◌, ◌<◌, ◌≡◌, ◌↔◌, refl, sym, ◌∙◌, true, false, Option, none, some, List, [], ◌∷◌, All,
  Text, has_text, Bool-cases, inl, inr,
}
use terab.Action.{World, ok}
use terab.Auth.Schema.{User, AuthDb}
use terab.Auth.Outside.{Outside, AccountConfig, generate_access_token}
use terab.Auth.Role.{find_permissions_by_user_id}
use terab.Auth.Role.Granted.{IsGranted, permissions-IsGranted, has_text-of_Has, Has-of_has_text}
use terab.Auth.Session.{issue_for_user}
use terab.Auth.AuthService.{IssueDraws, issue_token_pair}
use terab.Auth.Guard.{
  JwtPayload, AuthUser, allowed, has_all, can_activate, guard, or_empty, admit, forbidden_request,
}

has_all_iff :
    (user : ℕ) (d : AuthDb) (required : List Text)
    → (has_all required (find_permissions_by_user_id user d) ≡ true)
      ↔ All (λ p. IsGranted user p d) required
has_all_iff user d [] = ((λ h. tt), (λ h. refl))
has_all_iff user d (p ∷ required) = (
  (λ h. elim (Bool-cases (has_text p (find_permissions_by_user_id user d))) [
    | inr lacks ↦ let f : false ≡ true = rw lacks at h in cc
    | inl has ↦ (
      (permissions-IsGranted p d user).0
          (Has-of_has_text p (find_permissions_by_user_id user d) has),
      (has_all_iff user d required).0 (rw has at h),
    )
  ]),
  (λ (granted, rest).
      rw
        (has_text-of_Has p (find_permissions_by_user_id user d)
          ((permissions-IsGranted p d user).1 granted))
        ((has_all_iff user d required).1 rest)),
)

-- What the token of a user says.
abbrev pub user_of : User → AuthDb → AuthUser
user_of user d = record {
  user_id = user.id;
  username = user.username;
  permissions = find_permissions_by_user_id user.id d;
}

can_activate_iff :
    (user : User) (d : AuthDb) (required : Option (List Text))
    → (can_activate required (user_of user d) ≡ true)
      ↔ All (λ p. IsGranted user.id p d) (or_empty required)
unfolding can_activate
can_activate_iff user d none = ((λ h. tt), (λ h. refl))
can_activate_iff user d (some required) = has_all_iff user.id d required

abbrev pub payload_of : User → AuthDb → JwtPayload
payload_of user d = record {
  sub = user.id;
  username = user.username;
  permissions = some (find_permissions_by_user_id user.id d);
}

-- jsonwebtoken counts in whole seconds: a token that is signed at `now` (in milliseconds) has `iat`
-- now / 1000 and `exp` `iat` plus its life, and is refused from the second `exp` on.
abbrev pub IsAlive : AccountConfig → (now later : ℕ) → Type 0
IsAlive config now later = later / 1000 < now / 1000 + config.access_exp_ms / 1000

-- The token of the user that is signed at `now` is read back before its life is over.
abbrev pub IsReadable :
    AccountConfig → ((now : ℕ) → Text → Option JwtPayload) → User → AuthDb → (now : ℕ) → Type 0
IsReadable config read user d now =
    (later : ℕ)
    → IsAlive config now later
    → read later (
        generate_access_token config user.id user.username (find_permissions_by_user_id user.id d)
          now)
      ≡ some (payload_of user d)

admit_iff :
    (user : User) (d : AuthDb) (required : Option (List Text))
    → (admit required (some (payload_of user d)) ≡ allowed (some (user_of user d)))
      ↔ All (λ p. IsGranted user.id p d) (or_empty required)
admit_iff user d required = elim (Bool-cases (can_activate required (user_of user d))) [
  | inl may ↦ ((λ h. (can_activate_iff user d required).0 may), (λ granted. rw may refl))
  | inr lacks ↦ (
    (λ h.
        let f : forbidden_request ≡ allowed (some (user_of user d)) = rw lacks at h in
        absurd (refused f)),
    (λ granted.
        let f : false ≡ true = sym lacks ∙ (can_activate_iff user d required).1 granted in cc),
  )
]
  where
    refused : {u : Option AuthUser} → ¬ (forbidden_request ≡ allowed u)
    refused h = cc

module _ {X : Type 0} (config : AccountConfig) (out : Outside X) where
  -- Where the token that `issueTokenPair` signs for a user is read back while it is alive, counted
  -- in whole seconds, a request with it in that time to a route that is not public passes both
  -- guards as this user exactly where for every permission that the route requires a role of the
  -- user had a grant of it when the token was signed.
  pub guard-admits_iff :
      (read : (now : ℕ) → Text → Option JwtPayload)
      → (draws : IssueDraws) (user : User) (w : World AuthDb X) {token : Text}
      → IsReadable config read user w.db draws.now
      → (issue_token_pair config out draws user w).0 ≡ ok token
      → (later : ℕ) (required : Option (List Text)) → IsAlive config draws.now later
      → (guard (read later) (record { is_public = false; required = required }) (some token)
          ≡ allowed (some (user_of user w.db)))
        ↔ All (λ p. IsGranted user.id p w.db) (or_empty required)
  unfolding guard issue_token_pair issue_for_user
  guard-admits_iff read draws user w {token} readable issued later required soon =
      let signed =
        generate_access_token config user.id user.username
          (find_permissions_by_user_id user.id w.db) draws.now in
      let e : ok signed ≡ ok token = issued in
      let e' : signed ≡ token = cc in
      let known : read later token ≡ some (payload_of user w.db) =
        rw (← e') (readable later soon) in
      rw known (admit_iff user w.db required)
