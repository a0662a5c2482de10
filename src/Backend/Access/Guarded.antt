-- ===== src/Backend/Access/Guarded.antt =====
-- Who passes the guards of backend/middleware/auth.js and rbac.js.
use fueltracks.Prelude.{
  ◌≡◌, refl, ap, true, some, List, [], ◌∷◌, ◌++◌, arith, Bool-cases, inl, inr, if◌then◌else◌,
}
use fueltracks.Js.Text.{Text, codes, equal, starts_with}
use fueltracks.Js.Map.{equal_iff}
use fueltracks.Js.Strings.{split, join}
use fueltracks.Js.Strings.Split.{IsFree, lacks-IsFree, split-join}
use fueltracks.Backend.Access.{
  User, Verified, claims, token_expired, invalid_token, expired, invalid, forbidden, Decision,
  passed, denied, second, by_token, authenticate, includes_role, authorize, guard,
}

-- The header of a client that holds the token.
abbrev pub bearer : Text → Text
bearer token = codes "Bearer " ++ token

token-bearer : (token : Text) → IsFree 32 token → second (split 32 (bearer token)) ≡ token
unfolding second join
token-bearer token free = ap second (
    split-join 32 (codes "Bearer") (token ∷ []) (lacks-IsFree 32 (codes "Bearer") refl, (free, tt)))

-- What the guards make of a token.
abbrev pub judged : List Text → Verified → Decision
judged roles (claims user) = if includes_role roles user.role then passed user else denied forbidden
judged roles token_expired = denied expired
judged roles invalid_token = denied invalid

-- A token without spaces that a client sends as its bearer token is judged by itself: its user goes on
-- if the user's role is one of the route's, and otherwise the answer says that the role is not, that
-- the token has expired or that it is invalid.
pub guard-bearer :
    (verify : Text → Verified) (roles : List Text) (token : Text)
    → IsFree 32 token
    → guard verify roles (some (bearer token)) ≡ judged roles (verify token)
unfolding guard authenticate authorize by_token starts_with
guard-bearer verify roles token free = ground (arith, token-bearer token free)

includes_role-listed :
    (roles : List Text) (role : Text)
    → includes_role roles role ≡ true
    → (before : List Text) × (after : List Text) × (roles ≡ before ++ role ∷ after)
unfolding includes_role
includes_role-listed [] role h = ground (arith, h)
includes_role-listed (r ∷ roles) role h = elim (Bool-cases (equal r role)) [
  | inl same ↦ ([], roles, ap (λ x. x ∷ roles) ((equal_iff r role).0 same))
  | inr other ↦
      let (before, after, e) = includes_role-listed roles role (ground (arith, h, other)) in
      (r ∷ before, after, ap (λ l. r ∷ l) e)
]

guard-claims :
    (verify : Text → Verified) (roles : List Text) (header : Text) (user : User)
    → guard verify roles (some header) ≡ passed user
    → (verify (second (split 32 header)) ≡ claims user) × (includes_role roles user.role ≡ true)
unfolding guard authenticate authorize by_token
guard-claims verify roles header user h = ground arith

-- A request passes the guards of a route only with a header whose second word is a token that verifies,
-- as the user of that token, and only if the user's role is listed among the route's.
pub guard-passed :
    (verify : Text → Verified) (roles : List Text) (header : Text) (user : User)
    → guard verify roles (some header) ≡ passed user
    → (verify (second (split 32 header)) ≡ claims user)
      × ((before : List Text) × (after : List Text) × (roles ≡ before ++ user.role ∷ after))
guard-passed verify roles header user h =
    let (verified, allowed) = guard-claims verify roles header user h in
    (verified, includes_role-listed roles user.role allowed)
