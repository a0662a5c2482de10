-- ===== src/Backend/Access.antt =====
-- backend/middleware/auth.js and rbac.js. `jwt.verify` is a parameter.
pub mod Guarded
use fueltracks.Prelude.{
  ℕ, Bool, true, false, ◌||◌, Option, none, some, List, [], ◌∷◌, if◌then◌else◌,
}
use fueltracks.Js.Text.{Text, codes, equal, starts_with}
use fueltracks.Js.Strings.{split}

-- `req.user`
pub record User : Type 0 where
  pub user_id : Text
  pub role : Text
  pub org_id : Text
  pub org_type : Text

-- How `jwt.verify` ends: with claims, with a `TokenExpiredError`, with another error.
pub data Verified : Type 0 where
  claims : User → Verified
  token_expired invalid_token : Verified

pub data Denial : Type 0 where
  no_token expired invalid not_authenticated forbidden : Denial

unfoldable pub status : Denial → ℕ
status forbidden = 403
status _ = 401

-- The request goes on with this user, or is answered.
pub data Decision : Type 0 where
  passed : User → Decision
  denied : Denial → Decision

-- `authHeader.split(' ')[1]`, which a header that starts with `Bearer ` always has.
unfoldable pub second : List Text → Text
second (a ∷ b ∷ parts) = b
second _ = []

unfoldable pub by_token : Verified → Decision
by_token (claims user) = passed user
by_token token_expired = denied expired
by_token invalid_token = denied invalid

unfoldable pub authenticate : (Text → Verified) → Option Text → Decision
authenticate verify none = denied no_token
authenticate verify (some header) =
    if starts_with header (codes "Bearer ")
    then by_token (verify (second (split 32 header)))
    else denied no_token

-- `allowedRoles.includes(role)`
unfoldable pub includes_role : List Text → Text → Bool
includes_role [] role = false
includes_role (r ∷ roles) role = equal r role || includes_role roles role

unfoldable pub authorize : List Text → Option User → Decision
authorize roles none = denied not_authenticated
authorize roles (some user) =
    if includes_role roles user.role then passed user else denied forbidden

-- `router.use(authenticate)`, then `authorize(...roles)`
unfoldable pub guard : (Text → Verified) → List Text → Option Text → Decision
guard verify roles header = elim (authenticate verify header) [
  | passed user ↦ authorize roles (some user)
  | denied reason ↦ denied reason
]
