-- ===== src/Backend/Sockets/Owned.antt =====
-- What `belongsToOrg` of backend/models/vehicleModel.js answers.
use fueltracks.Prelude.{
  ◌≡◌, refl, subst, ◌↔◌, ◌⊎◌, inl, inr, Bool, true, ◌&&◌, Option, none, some, List, [], ◌∷◌, arith,
  Bool-cases,
}
use fueltracks.Js.Text.{Text, equal}
use fueltracks.Js.Map.{equal_iff}
use fueltracks.Writer.Settled.{Has}
use fueltracks.Backend.Sockets.{
  VehicleRow, OrgRow, Database, is_parent, some_row, is_child, is_selected, belongs_to_org,
}

-- The organization is a child of the other.
abbrev pub IsChild : List OrgRow → Text → Text → Type 0
IsChild organizations org_id id =
    (o : OrgRow) × Has o organizations × (o.id ≡ id) × (o.parent_id ≡ some org_id)

-- A vehicle with this id belongs to the organization or to a child of it.
abbrev pub IsOwned : Database → Text → Text → Type 0
IsOwned db vehicle_id org_id =
    (v : VehicleRow) × Has v db.vehicles
    × (v.id ≡ vehicle_id)
    × ((v.org_id ≡ org_id) ⊎ IsChild db.organizations org_id v.org_id)

is_parent_iff : (org_id : Text) (p : Option Text) → (is_parent org_id p ≡ true) ↔ (p ≡ some org_id)
unfolding is_parent
is_parent_iff org_id none = ground arith
is_parent_iff org_id (some p) = ground (arith, equal_iff p org_id)

pub some_row_iff :
    {A : Type 0} (test : A → Bool) (rows : List A)
    → (some_row test rows ≡ true) ↔ ((a : A) × Has a rows × (test a ≡ true))
unfolding some_row
some_row_iff test [] = (λ h. absurd (ground (arith, h)), λ (a, there, h). absurd there)
some_row_iff test (x ∷ rows) = (
  λ h. elim (Bool-cases (test x)) [
    | inl passes ↦ (x, inl refl, passes)
    | inr fails ↦
        let (a, there, passes) = (some_row_iff test rows).0 (ground (arith, h, fails)) in
        (a, inr there, passes)
  ],
  λ (a, there, passes). elim there [
    | inl same ↦ ground (arith, subst (λ y. test y ≡ true) same passes)
    | inr later ↦ ground (arith, (some_row_iff test rows).1 (a, later, passes))
  ],
)

is_child_iff :
    (organizations : List OrgRow) (org_id id : Text)
    → (is_child organizations org_id id ≡ true) ↔ IsChild organizations org_id id
unfolding is_child
is_child_iff organizations org_id id =
    let test = λ (o : OrgRow). equal o.id id && is_parent org_id o.parent_id in
    (
      λ h.
          let (o, there, passes) = (some_row_iff test organizations).0 h in
          (
            o,
            there,
            ground (arith, passes, equal_iff o.id id),
            ground (arith, passes, is_parent_iff org_id o.parent_id),
          ),
      λ (o, there, same, parent). (some_row_iff test organizations).1 (
        o,
        there,
        ground (arith, same, parent, equal_iff o.id id, is_parent_iff org_id o.parent_id),
      ),
    )

is_selected_iff :
    (organizations : List OrgRow) (vehicle_id org_id : Text) (v : VehicleRow)
    → (is_selected organizations vehicle_id org_id v ≡ true)
      ↔ ((v.id ≡ vehicle_id) × ((v.org_id ≡ org_id) ⊎ IsChild organizations org_id v.org_id))
unfolding is_selected
is_selected_iff organizations vehicle_id org_id v =
    let same = equal_iff v.id vehicle_id in
    let own = equal_iff v.org_id org_id in
    let child = is_child_iff organizations org_id v.org_id in
    (
      λ h. elim (Bool-cases (equal v.org_id org_id)) [
        | inl e ↦ (ground (arith, h, same), inl (own.0 e))
        | inr e ↦ (ground (arith, h, same), inr (child.0 (ground (arith, h, e))))
      ],
      λ (e, h). elim h [
        | inl o ↦ ground (arith, same.1 e, own.1 o)
        | inr c ↦ ground (arith, same.1 e, child.1 c)
      ],
    )

-- The query finds a row if and only if a vehicle with this id belongs to the organization or to one
-- of its children.
pub belongs_to_org_iff :
    (db : Database) (vehicle_id org_id : Text)
    → (belongs_to_org db vehicle_id org_id ≡ true) ↔ IsOwned db vehicle_id org_id
unfolding belongs_to_org
belongs_to_org_iff db vehicle_id org_id =
    let rows = some_row_iff (is_selected db.organizations vehicle_id org_id) db.vehicles in
    (
      λ h.
          let (v, there, selected) = rows.0 h in
          let (same, owned) = (is_selected_iff db.organizations vehicle_id org_id v).0 selected in
          (v, there, same, owned),
      λ (v, there, same, owned).
          rows.1 (v, there, (is_selected_iff db.organizations vehicle_id org_id v).1 (same, owned)),
    )
