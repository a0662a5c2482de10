-- ===== src/Tests/Access.antt =====
-- The access control: an administrator with a valid token.
use fueltracks.Prelude.{◌≡◌, refl, some, List, [], ◌∷◌, ◌++◌, if◌then◌else◌}
use fueltracks.Js.Text.{Text, codes, equal, starts_with}
use fueltracks.Js.Strings.{split}
use fueltracks.Backend.Access.{
  User, Verified, claims, invalid_token, passed, second, guard, authenticate, authorize, by_token,
  includes_role,
}
use fueltracks.Backend.Access.Guarded.{guard-passed}

abbrev admin : User
admin = record {
  user_id = codes "1";
  role = codes "superadmin";
  org_id = codes "2";
  org_type = codes "dealer";
}

-- a `jwt.verify` that knows one token
abbrev one_token : Text → Verified
unfolding equal
one_token token = if equal token (codes "abc") then claims admin else invalid_token

abbrev admin_roles : List Text
admin_roles = codes "dealer" ∷ codes "superadmin" ∷ []

admin-passed : guard one_token admin_roles (some (codes "Bearer abc")) ≡ passed admin
unfolding guard authenticate authorize by_token includes_role equal split second starts_with
admin-passed = refl

guard-passed_example :
    (one_token (second (split 32 (codes "Bearer abc"))) ≡ claims admin)
    × ((before : List Text) × (after : List Text) × (admin_roles ≡ before ++ admin.role ∷ after))
guard-passed_example = guard-passed one_token admin_roles (codes "Bearer abc") admin admin-passed
