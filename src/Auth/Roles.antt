-- ===== src/Auth/Roles.antt =====
-- internal/web/users.go and auth.go: roles and the guard of a route.
use emby_migrator.Prelude.{
  ℕ, Bool, ◌||◌, Option, none, some, Text, codes, text_eq, leb, if◌then◌else◌,
}
use emby_migrator.Prelude.Strings.{trim_space, to_lower, is_empty}

-- `userRole`; its values that the program makes.
pub data Role : Type 0 where
  viewer operator admin : Role

abbrev pub role_text : Role → Text
role_text viewer = codes "viewer"
role_text operator = codes "operator"
role_text admin = codes "admin"

-- `roleRanks`
abbrev pub rank : Role → ℕ
rank viewer = 1
rank operator = 2
rank admin = 3

unfoldable pub normalize_role : Text → Option Role
unfolding trim_space to_lower text_eq
normalize_role value =
    let v = to_lower (trim_space value) in
    if text_eq v (role_text admin)
    then some admin
    else if text_eq v (role_text operator)
    then some operator
    else if is_empty v || text_eq v (role_text viewer)
    then some viewer
    else none

unfoldable pub role_allows : Role → Role → Bool
role_allows actual required = leb (rank required) (rank actual)

-- `authPrincipal`
pub record Principal : Type 0 where
  pub username : Text
  pub role : Text
  pub session_version : ℕ

-- What `requireRole` does with a request: it goes on with a principal, or answers 401 or 403.
pub data Verdict : Type 0 where
  pass : Principal → Verdict
  unauthorized forbidden : Verdict

abbrev pub default_principal : Principal
default_principal = record { username = codes "admin"; role = codes "admin"; session_version = 1 }

-- `session` is what `sessionPrincipal` answers for the request.
unfoldable pub require_role : Bool → Option Principal → Role → Verdict
unfolding role_allows
require_role auth_enabled session min_role =
    if auth_enabled
    then elim session [
      | none ↦ unauthorized
      | some p ↦ elim (normalize_role p.role) [
        | none ↦ forbidden
        | some role ↦ if role_allows role min_role then pass p else forbidden
      ]
    ]
    else pass default_principal
