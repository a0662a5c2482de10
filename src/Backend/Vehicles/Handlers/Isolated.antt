-- ===== src/Backend/Vehicles/Handlers/Isolated.antt =====
-- What a user of an organization reads and writes of the vehicles of others.
use fueltracks.Prelude.{
  ◌≡◌, ◌⊎◌, inl, inr, sym, ap, ◌∙◌, subst, Bool, true, false, ◌&&◌, some, List, [], ◌∷◌, ◌++◌, All,
  arith, Bool-cases, if◌then◌else◌,
}
use fueltracks.Js.Text.{Text, equal}
use fueltracks.Js.Map.{equal_iff}
use fueltracks.Writer.Settled.{Has, Has-left, All-weaken}
use fueltracks.Backend.Access.{User}
use fueltracks.Backend.Sockets.{is_superadmin}
use fueltracks.Backend.Sockets.Owned.{IsOwned, belongs_to_org_iff}
use fueltracks.Backend.Sockets.Allowed.{if_holds}
use fueltracks.Backend.Vehicles.{
  FleetRow, Registry, Reply, answered, answered_points, answered_messages, ownership, is_foreign,
  has_org, find_row, find_by_id, update_where,
}
use fueltracks.Backend.Vehicles.Handlers.Refusal.{unless-holds}
use fueltracks.Backend.Vehicles.Handlers.{unless}

-- The user's organization has the vehicle of this id, itself or in a child.
abbrev pub IsTheirs : User → Registry → Text → Type 0
IsTheirs user reg id = IsOwned (ownership reg) id user.org_id

-- What an answer shows is of the user's vehicles.
abbrev pub IsShown : User → Registry → Reply → Type 0
IsShown user reg (answered status (some v)) = (v.org_id ≡ user.org_id) ⊎ IsTheirs user reg v.id
IsShown user reg (answered_points id) = IsTheirs user reg id
IsShown user reg (answered_messages imei) =
    (v : FleetRow) × Has v reg.vehicles × (v.imei ≡ imei) × IsTheirs user reg v.id
IsShown user reg _ = Unit

-- Rows of others stay, and a row that is new or changed is the user's.
pub record IsIsolated (user : User) (reg : Registry) (r : Reply × Registry) : Type 0 where
  pub shown : IsShown user reg r.0
  pub kept : (v : FleetRow) → Has v reg.vehicles → ¬ IsTheirs user reg v.id → Has v r.1.vehicles
  pub explained :
      (u : FleetRow)
      → Has u r.1.vehicles
      → Has u reg.vehicles ⊎ ((u.org_id ≡ user.org_id) ⊎ IsTheirs user reg u.id)

module _ (user : User) (reg : Registry) where
  pub untouched : (reply : Reply) → IsShown user reg reply → IsIsolated user reg (reply, reg)
  untouched reply h = record {
    shown = h;
    kept = λ v there foreign. there;
    explained = λ u there. inl there;
  }

  pub unless-IsIsolated :
      (tests : List (Bool × Reply)) (acted : Reply × Registry)
      → All (λ (t : Bool × Reply). IsShown user reg t.1) tests
      → (All (λ (t : Bool × Reply). t.0 ≡ false) tests → IsIsolated user reg acted)
      → IsIsolated user reg (unless tests reg acted)
  unless-IsIsolated tests acted h k =
      unless-holds (IsIsolated user reg) tests reg acted
        (All-weaken (λ (t : Bool × Reply) shown. untouched t.1 shown) tests h) k

update_where-kept :
    (id : Text) (f : FleetRow → FleetRow) (v : FleetRow) (rows : List FleetRow)
    → equal v.id id ≡ false
    → Has v rows
    → Has v (update_where id f rows)
unfolding update_where
update_where-kept id f v [] e there = there
update_where-kept id f v (x ∷ rows) e (inl same) =
    let other = subst (λ (y : FleetRow). equal y.id id ≡ false) same e in rw other (inl same)
update_where-kept id f v (x ∷ rows) e (inr later) =
    let rest = update_where-kept id f v rows e later in
    if_holds (Has v) (equal x.id id) (f x ∷ update_where id f rows) (x ∷ update_where id f rows)
      (λ h. inr rest) (λ h. inr rest)

-- Where a row of the updated table comes from.
abbrev FromUpdate : Text → (FleetRow → FleetRow) → List FleetRow → FleetRow → Type 0
FromUpdate id f rows u = Has u rows ⊎ ((v : FleetRow) × (v.id ≡ id) × (u ≡ f v))

update_where-origin :
    (id : Text) (f : FleetRow → FleetRow) (u : FleetRow) (rows : List FleetRow)
    → Has u (update_where id f rows)
    → FromUpdate id f rows u
unfolding update_where
update_where-origin id f u [] there = absurd there
update_where-origin id f u (x ∷ rows) there = elim (Bool-cases (equal x.id id)) [
  | inl same ↦
      elim (subst
        (λ b. Has u (if b then f x ∷ update_where id f rows else x ∷ update_where id f rows)) same
        there) [
          | inl here ↦ inr (x, (equal_iff x.id id).0 same, here)
          | inr later ↦ further x rows (update_where-origin id f u rows later)
        ]
  | inr other ↦
      elim (subst
        (λ b. Has u (if b then f x ∷ update_where id f rows else x ∷ update_where id f rows)) other
        there) [
          | inl here ↦ inl (inl here)
          | inr later ↦ further x rows (update_where-origin id f u rows later)
        ]
]
  where
    further :
        (x : FleetRow) (rows : List FleetRow)
        → FromUpdate id f rows u
        → FromUpdate id f (x ∷ rows) u
    further x rows (inl there) = inl (inr there)
    further x rows (inr changed) = inr changed

find_row-first :
    (test : FleetRow → Bool) (x : FleetRow) (rows : List FleetRow) (v : FleetRow)
    → test x ≡ true
    → find_row test (x ∷ rows) ≡ some v
    → x ≡ v
unfolding find_row
find_row-first test x rows v passes h = ground (arith, passes, h)

find_row-passes :
    (test : FleetRow → Bool) (rows : List FleetRow) (v : FleetRow)
    → find_row test rows ≡ some v
    → test v ≡ true
unfolding find_row
find_row-passes test [] v h = absurd (ground (arith, h))
find_row-passes test (x ∷ rows) v h = elim (Bool-cases (test x)) [
  | inl passes ↦ subst (λ y. test y ≡ true) (find_row-first test x rows v passes h) passes
  | inr fails ↦ find_row-passes test rows v (ground (arith, h, fails))
]

find_row-Has :
    (test : FleetRow → Bool) (rows : List FleetRow) (v : FleetRow)
    → find_row test rows ≡ some v
    → Has v rows
unfolding find_row
find_row-Has test [] v h = absurd (ground (arith, h))
find_row-Has test (x ∷ rows) v h = elim (Bool-cases (test x)) [
  | inl passes ↦ inl (sym (find_row-first test x rows v passes h))
  | inr fails ↦ inr (find_row-Has test rows v (ground (arith, h, fails)))
]

pub find_by_id-Has :
    (reg : Registry) (id : Text) (v : FleetRow) → find_by_id reg id ≡ some v → Has v reg.vehicles
unfolding find_by_id
find_by_id-Has reg id v h =
    find_row-Has (λ (x : FleetRow). equal x.id id && has_org reg x.org_id) reg.vehicles v h

pub find_by_id-id :
    (reg : Registry) (id : Text) (v : FleetRow) → find_by_id reg id ≡ some v → v.id ≡ id
unfolding find_by_id
find_by_id-id reg id v h =
    let passes =
      find_row-passes (λ (x : FleetRow). equal x.id id && has_org reg x.org_id) reg.vehicles v h in
    (equal_iff v.id id).0 (ground (arith, passes))

pub find_row-id :
    (rows : List FleetRow) (id : Text) (v : FleetRow)
    → find_row (λ (x : FleetRow). equal x.id id) rows ≡ some v
    → v.id ≡ id
find_row-id rows id v h =
    (equal_iff v.id id).0 (find_row-passes (λ (x : FleetRow). equal x.id id) rows v h)

Has-end : (u v : FleetRow) (rows : List FleetRow) → Has u (rows ++ v ∷ []) → Has u rows ⊎ (u ≡ v)
Has-end u v [] (inl same) = inr same
Has-end u v [] (inr there) = absurd there
Has-end u v (x ∷ rows) (inl same) = inl (inl same)
Has-end u v (x ∷ rows) (inr later) = elim (Has-end u v rows later) [
  | inl there ↦ inl (inr there)
  | inr same ↦ inr same
]

module _ (user : User) (reg : Registry) where
  pub inserted :
      (reply : Reply) (v : FleetRow) (after : Registry)
      → v.org_id ≡ user.org_id
      → IsShown user reg reply
      → after.vehicles ≡ reg.vehicles ++ v ∷ []
      → IsIsolated user reg (reply, after)
  inserted reply v after own h e = record {
    shown = h;
    kept = λ u there foreign. subst (Has u) (sym e) (Has-left u reg.vehicles (v ∷ []) there);
    explained = λ u there. elim (Has-end u v reg.vehicles (subst (Has u) e there)) [
      | inl old ↦ inl old
      | inr same ↦ inr (inl (subst (λ (x : FleetRow). x.org_id ≡ user.org_id) (sym same) own))
    ];
  }

  pub updated :
      (reply : Reply) (id : Text) (f : FleetRow → FleetRow) (after : Registry)
      → IsTheirs user reg id
      → ((v : FleetRow) → (f v).id ≡ v.id)
      → IsShown user reg reply
      → after.vehicles ≡ update_where id f reg.vehicles
      → IsIsolated user reg (reply, after)
  updated reply id f after theirs same_id h e = record {
    shown = h;
    kept = λ v there foreign. elim (Bool-cases (equal v.id id)) [
      | inl same ↦
          absurd (foreign (subst (IsTheirs user reg) (sym ((equal_iff v.id id).0 same)) theirs))
      | inr other ↦ subst (Has v) (sym e) (update_where-kept id f v reg.vehicles other there)
    ];
    explained = λ u there. elim (update_where-origin id f u reg.vehicles (subst (Has u) e there)) [
      | inl old ↦ inl old
      | inr (v, same, changed) ↦ inr (
          inr (
            subst (IsTheirs user reg) (sym (ap (λ (x : FleetRow). x.id) changed ∙ same_id v ∙ same))
              theirs))
    ];
  }

  pub IsTheirs-owned :
      (id : Text)
      → is_superadmin user ≡ false
      → is_foreign user reg id ≡ false
      → IsTheirs user reg id
  unfolding is_foreign
  IsTheirs-owned id ordinary h =
      (belongs_to_org_iff (ownership reg) id user.org_id).0 (ground (arith, ordinary, h))
