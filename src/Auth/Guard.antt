-- ===== src/Auth/Guard.antt =====
-- services/api/src/common/guards/{jwt-auth,permission}.guard.ts and
-- services/api/src/auth/strategies/jwt.strategy.ts, the two guards that every request passes in turn.
-- `read` is passport-jwt: the payload of a token that is well signed and in time.
pub mod Admission
pub mod Tests
use terab.Base.{
  ℕ, Bool, true, false, ◌&&◌, Option, none, some, List, [], ◌∷◌, Text, has_text, if◌then◌else◌,
}

pub record JwtPayload : Type 0 where
  pub sub : ℕ
  pub username : Text
  pub permissions : Option (List Text)

pub record AuthUser : Type 0 where
  pub user_id : ℕ
  pub username : Text
  pub permissions : List Text

-- What the decorators `@Public` and `@Permissions` say of a handler or of its class.
pub record Route : Type 0 where
  pub is_public : Bool
  pub required : Option (List Text)

-- The request goes on, with its user where it has one; 401; 403.
pub data Verdict : Type 0 where
  allowed : Option AuthUser → Verdict
  unauthorized : Verdict
  forbidden_request : Verdict

-- `payload.permissions ?? []`
abbrev pub or_empty : Option (List Text) → List Text
or_empty none = []
or_empty (some ts) = ts

abbrev pub validate : JwtPayload → AuthUser
validate p = record { user_id = p.sub; username = p.username; permissions = or_empty p.permissions }

-- `required.every((p) => user?.permissions?.includes(p))`
abbrev pub has_all : List Text → List Text → Bool
has_all [] permissions = true
has_all (p ∷ required) permissions = has_text p permissions && has_all required permissions

-- `PermissionGuard.canActivate` of a route that is not public; no list and an empty one ask nothing.
unfoldable pub can_activate : Option (List Text) → AuthUser → Bool
can_activate none user = true
can_activate (some required) user = has_all required user.permissions

abbrev pub admit : Option (List Text) → Option JwtPayload → Verdict
admit required none = unauthorized
admit required (some payload) =
    if can_activate required (validate payload)
    then allowed (some (validate payload))
    else forbidden_request

-- An absent header is `none`.
abbrev pub read_header : (Text → Option JwtPayload) → Option Text → Option JwtPayload
read_header read none = none
read_header read (some token) = read token

unfoldable pub guard : (read : Text → Option JwtPayload) → Route → Option Text → Verdict
guard read route token =
    if route.is_public then allowed none else admit route.required (read_header read token)
