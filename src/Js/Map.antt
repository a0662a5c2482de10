-- ===== src/Js/Map.antt =====
-- A `Map` with text keys, as an association list; its clients have `map_laws`.
use fueltracks.Prelude.{
  ◌≡◌, refl, ◌↔◌, true, Option, none, some, List, [], ◌∷◌, if◌then◌else◌, arith,
}
use fueltracks.Js.Text.{Text, equal}

pub equal_iff : (a b : Text) → (equal a b ≡ true) ↔ (a ≡ b)
unfolding equal
equal_iff [] [] = ground arith
equal_iff [] (y ∷ b) = ground arith
equal_iff (x ∷ a) [] = ground arith
equal_iff (x ∷ a) (y ∷ b) = ground (arith, equal_iff a b)

pub equal_refl : (a : Text) → equal a a ≡ true
equal_refl a = (equal_iff a a).1 refl

pub record Map {ℓ} (V : Type ℓ) : Type ℓ where
  entries : List (Text × V)

module _ {ℓ} {V : Type ℓ} where
  lookup : Text → List (Text × V) → Option V
  lookup k [] = none
  lookup k ((j, v) ∷ l) = let later = lookup k l in if equal j k then some v else later

  without : Text → List (Text × V) → List (Text × V)
  without k [] = []
  without k ((j, v) ∷ l) = let rest = without k l in if equal j k then rest else (j, v) ∷ rest

  pub empty : Map V
  empty = record { entries = [] }

  unfoldable pub get : Map V → Text → Option V
  unfolding lookup
  get m k = lookup k m.entries

  pub delete : Map V → Text → Map V
  unfolding without
  delete m k = record { entries = without k m.entries }

  pub set : Map V → Text → V → Map V
  unfolding without
  set m k v = record { entries = (k, v) ∷ without k m.entries }

  lookup-without :
      (k j : Text) (l : List (Text × V))
      → lookup j (without k l) ≡ (if equal k j then none else lookup j l)
  unfolding lookup without
  lookup-without k j [] = ground arith
  lookup-without k j ((i, v) ∷ l) =
      ground (arith, lookup-without k j l, equal_iff i k, equal_iff i j, equal_iff k j)

  pub get-delete :
      (m : Map V) (k j : Text) → get (delete m k) j ≡ (if equal k j then none else get m j)
  unfolding get delete
  get-delete m k j = lookup-without k j m.entries

  pub get-set :
      (m : Map V) (k j : Text) (v : V) → get (set m k v) j ≡ (if equal k j then some v else get m j)
  unfolding get set
  get-set m k j v = simp lookup-without (ground arith)

pub get-empty {ℓ} : {V : Type ℓ} (k : Text) → get (empty {V = V}) k ≡ none
unfolding get empty
get-empty k = refl

pub ruleset map_laws = (get-empty, get-delete, get-set)
