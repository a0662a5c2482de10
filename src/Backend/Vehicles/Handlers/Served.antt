-- ===== src/Backend/Vehicles/Handlers/Served.antt =====
-- Every request of a user of an organization leaves the vehicles of others alone.
use fueltracks.Prelude.{
  ◌≡◌, inl, inr, refl, sym, subst, Bool, true, false, not, ◌&&◌, Option, none, some, List, [], ◌∷◌,
  arith, Option-cases,
}
use fueltracks.Js.Text.{Text, codes, equal}
use fueltracks.Writer.{Json}
use fueltracks.Backend.Access.{User}
use fueltracks.Backend.Sockets.{is_superadmin, spelled}
use fueltracks.Backend.Sockets.Allowed.{if_holds}
use fueltracks.Writer.Settled.{Has}
use fueltracks.Backend.Vehicles.{
  refused, answered_points, answered_messages, FleetRow, Registry, VehicleBody, Outcomes, Reply,
  answered, failed, has_org, find_row, find_by_id, is_found, update_where, change_row, warm_hash,
  forget, valid_groups, not_found,
}
use fueltracks.Backend.Vehicles.Handlers.{
  target_org, new_row, insert_row, assign_groups, assign_some, after_create, create_vehicle,
  update_rows, active_org, after_update, act_update, update_vehicle, deactivate, returned_imei,
  act_delete, delete_vehicle, with_imei, act_migrate, migrate_vehicle, get_vehicle_by_id,
  VehicleRequest, get_request, points_request, messages_request, get_vehicle_points,
  get_vehicle_messages, messages_of, delete_request, create_request, update_request,
  migrate_request, run_handler, serve,
}
use fueltracks.Backend.Vehicles.Handlers.Isolated.{
  IsTheirs, IsShown, IsIsolated, untouched, unless-IsIsolated, find_by_id-id, find_by_id-Has,
  find_row-id, inserted, updated, IsTheirs-owned,
}

warm_hash-vehicles :
    (ok : Bool) (v : FleetRow) (reg : Registry) → (warm_hash ok v reg).vehicles ≡ reg.vehicles
unfolding warm_hash
warm_hash-vehicles true v reg = refl
warm_hash-vehicles false v reg = refl

forget-vehicles :
    (ok : Bool) (imei : Option Text) (reg : Registry) → (forget ok imei reg).vehicles ≡ reg.vehicles
unfolding forget
forget-vehicles true (some imei) reg = refl
forget-vehicles true none reg = refl
forget-vehicles false imei reg = refl

module _ (o : Outcomes) (user : User) (ordinary : is_superadmin user ≡ false) (reg : Registry) where
  abbrev Fine : Reply × Registry → Type 0
  Fine = IsIsolated user reg

  IsShown-row :
      (id : Text) (row : Option FleetRow)
      → IsTheirs user reg id
      → ((v : FleetRow) → row ≡ some v → v.id ≡ id)
      → IsShown user reg (answered 200 row)
  IsShown-row id none theirs same = tt
  IsShown-row id (some v) theirs same = inr (subst (IsTheirs user reg) (sym (same v refl)) theirs)

  new_row-own : (new_id : Text) (b : VehicleBody) → (new_row new_id user b).org_id ≡ user.org_id
  unfolding new_row target_org
  new_row-own new_id b = ground (arith, ordinary)

  assign_some-IsIsolated :
      (v : FleetRow) (groups : List Text)
      → v.org_id ≡ user.org_id
      → Fine (assign_some o v groups (insert_row v reg))
  unfolding assign_some insert_row assign_groups
  assign_some-IsIsolated v [] own =
      let after = insert_row v reg in
      if_holds Fine o.assigns (answered 201 (some v), warm_hash o.redis v after) (failed, after)
        (λ e.
          inserted user reg (answered 201 (some v)) v _ own (inl own)
            (warm_hash-vehicles o.redis v after))
        (λ e. inserted user reg failed v after own tt refl)
  assign_some-IsIsolated v (g ∷ groups) own =
      let grouped = assign_groups v.id (g ∷ groups) (insert_row v reg) in
      if_holds Fine o.assigns (answered 201 (some v), warm_hash o.redis v grouped)
        (failed, insert_row v reg)
        (λ e.
          inserted user reg (answered 201 (some v)) v _ own (inl own)
            (warm_hash-vehicles o.redis v grouped))
        (λ e. inserted user reg failed v (insert_row v reg) own tt refl)

  after_create-IsIsolated :
      (v : FleetRow) (ids : Option (List Text))
      → v.org_id ≡ user.org_id
      → Fine (after_create o user v ids (insert_row v reg))
  unfolding after_create insert_row
  after_create-IsIsolated v none own =
      inserted user reg (answered 201 (some v)) v (warm_hash o.redis v (insert_row v reg)) own
        (inl own) (warm_hash-vehicles o.redis v (insert_row v reg))
  after_create-IsIsolated v (some ids) own =
      assign_some-IsIsolated v (valid_groups user (insert_row v reg) v.org_id ids) own

  create-IsIsolated : (new_id : Text) (b : VehicleBody) → Fine (create_vehicle o new_id user b reg)
  unfolding create_vehicle
  create-IsIsolated new_id b =
      let v = new_row new_id user b in
      unless-IsIsolated user reg _ (after_create o user v b.group_ids (insert_row v reg))
        (tt, (tt, (tt, (tt, (tt, (tt, tt))))))
        (λ h. after_create-IsIsolated v b.group_ids (new_row-own new_id b))

  -- The row with this id is changed, whatever comes after.
  changed :
      (id : Text) (b : VehicleBody) (reply : Reply) (after : Registry)
      → IsTheirs user reg id
      → IsShown user reg reply
      → after.vehicles ≡ update_where id (change_row b) reg.vehicles
      → Fine (reply, after)
  unfolding change_row
  changed id b reply after theirs h e =
      updated user reg reply id (change_row b) after theirs (λ v. refl) h e

  after_update-IsIsolated :
      (b : VehicleBody) (v : FleetRow)
      → IsTheirs user reg v.id
      → Fine (after_update o user b (change_row b v) (update_rows v.id b reg))
  unfolding after_update update_rows assign_groups change_row
  after_update-IsIsolated b v theirs =
      let u = change_row b v in
      let after = update_rows v.id b reg in
      elim (Option-cases b.group_ids) [
        | inl e ↦ rw e (
            changed v.id b (answered 200 (some u)) (warm_hash o.redis u after) theirs (inr theirs)
              (warm_hash-vehicles o.redis u after))
        | inr (ids, e) ↦ rw e (
            let grouped =
              assign_groups u.id (valid_groups user after (active_org b.org_id u) ids) after in
            if_holds Fine o.assigns (answered 200 (some u), warm_hash o.redis u grouped)
              (failed, after)
              (λ _.
                changed v.id b (answered 200 (some u)) (warm_hash o.redis u grouped) theirs
                  (inr theirs) (warm_hash-vehicles o.redis u grouped))
              (λ _. changed v.id b failed after theirs tt refl))
      ]

  act_update-IsIsolated :
      (id : Text) (b : VehicleBody) (found : Option FleetRow)
      → IsTheirs user reg id
      → ((v : FleetRow) → found ≡ some v → v.id ≡ id)
      → Fine (act_update o user b found reg)
  unfolding act_update
  act_update-IsIsolated id b none theirs same = untouched user reg not_found tt
  act_update-IsIsolated id b (some v) theirs same =
      let mine = subst (IsTheirs user reg) (sym (same v refl)) theirs in
      let u = change_row b v in
      if_holds Fine (o.writes && has_org reg u.org_id)
        (after_update o user b u (update_rows v.id b reg)) (failed, reg)
        (λ e. after_update-IsIsolated b v mine) (λ e. untouched user reg failed tt)

  update-IsIsolated : (id : Text) (b : VehicleBody) → Fine (update_vehicle o user id b reg)
  unfolding update_vehicle
  update-IsIsolated id b =
      unless-IsIsolated user reg _ (act_update o user b (find_by_id reg id) reg)
        (tt, (tt, (tt, (tt, (tt, tt)))))
        (λ h.
          act_update-IsIsolated id b (find_by_id reg id)
            (IsTheirs-owned user reg id ordinary h.1.1.1.0) (find_by_id-id reg id))

  delete-IsIsolated : (id : Text) → Fine (delete_vehicle o user id reg)
  unfolding delete_vehicle act_delete deactivate
  delete-IsIsolated id =
      unless-IsIsolated user reg _ (act_delete o id reg) (tt, (tt, (tt, tt)))
        (λ h.
          let theirs = IsTheirs-owned user reg id ordinary h.1.0 in
          let row = find_row (λ (v : FleetRow). equal v.id id) reg.vehicles in
          let after = record reg { vehicles = update_where id deactivate reg.vehicles } in
          if_holds Fine (not (is_found row)) (not_found, reg)
            (answered 200 none, forget o.redis (returned_imei row) after)
            (λ e. untouched user reg not_found tt)
            (λ e.
              updated user reg (answered 200 none) id deactivate
                (forget o.redis (returned_imei row) after) theirs (λ v. refl) tt
                (forget-vehicles o.redis (returned_imei row) after)))

  migrate-IsIsolated : (id : Text) (imei : Json) → Fine (migrate_vehicle o user id imei reg)
  unfolding migrate_vehicle act_migrate with_imei
  migrate-IsIsolated id imei =
      let rows = update_where id (with_imei (spelled imei)) reg.vehicles in
      unless-IsIsolated user reg _ (act_migrate id (spelled imei) reg)
        (tt, (tt, (tt, (tt, (tt, tt)))))
        (λ h.
          let theirs = IsTheirs-owned user reg id ordinary h.1.1.0 in
          updated user reg (answered 200 (find_row (λ (v : FleetRow). equal v.id id) rows)) id
            (with_imei (spelled imei)) (record reg { vehicles = rows }) theirs (λ v. refl)
            (IsShown-row id (find_row (λ (v : FleetRow). equal v.id id) rows) theirs
              (find_row-id rows id))
            refl)

  get-IsIsolated : (id : Text) → Fine (get_vehicle_by_id o user id reg)
  unfolding get_vehicle_by_id
  get-IsIsolated id =
      unless-IsIsolated user reg _ (answered 200 (find_by_id reg id), reg) (tt, (tt, (tt, tt)))
        (λ h. untouched user reg (answered 200 (find_by_id reg id)) (
          IsShown-row id (find_by_id reg id) (IsTheirs-owned user reg id ordinary h.1.0)
            (find_by_id-id reg id)))

  points-IsIsolated : (id : Text) → Fine (get_vehicle_points o user id reg)
  unfolding get_vehicle_points
  points-IsIsolated id =
      unless-IsIsolated user reg _ (answered_points id, reg) (tt, (tt, tt))
        (λ h. untouched user reg (answered_points id) (IsTheirs-owned user reg id ordinary h.1.0))

  messages_of-IsShown :
      (id : Text) (row : Option FleetRow)
      → IsTheirs user reg id
      → ((v : FleetRow) → row ≡ some v → v.id ≡ id)
      → ((v : FleetRow) → row ≡ some v → Has v reg.vehicles)
      → IsShown user reg (messages_of row)
  unfolding messages_of
  messages_of-IsShown id none theirs same there = tt
  messages_of-IsShown id (some v) theirs same there =
      elim v.imei
        as (λ i.
          IsShown user reg
            (elim i [ [] ↦ refused 404 (codes "NOT_FOUND") | c ∷ s ↦ answered_messages v.imei ])) [
              | [] ↦ tt
              | c ∷ s ↦
                  (v, there v refl, refl, subst (IsTheirs user reg) (sym (same v refl)) theirs)
            ]

  messages-IsIsolated : (id : Text) → Fine (get_vehicle_messages o user id reg)
  unfolding get_vehicle_messages
  messages-IsIsolated id =
      unless-IsIsolated user reg _ (messages_of (find_by_id reg id), reg) (tt, (tt, tt))
        (λ h. untouched user reg (messages_of (find_by_id reg id)) (
          messages_of-IsShown id (find_by_id reg id) (IsTheirs-owned user reg id ordinary h.1.0)
            (find_by_id-id reg id) (find_by_id-Has reg id)))

  handlers-IsIsolated :
      (new_id : Text) (q : VehicleRequest) → Fine (run_handler o new_id user q reg)
  unfolding run_handler
  handlers-IsIsolated new_id (get_request id) = get-IsIsolated id
  handlers-IsIsolated new_id (points_request id) = points-IsIsolated id
  handlers-IsIsolated new_id (messages_request id) = messages-IsIsolated id
  handlers-IsIsolated new_id (delete_request id) = delete-IsIsolated id
  handlers-IsIsolated new_id (create_request b) = create-IsIsolated new_id b
  handlers-IsIsolated new_id (update_request id b) = update-IsIsolated id b
  handlers-IsIsolated new_id (migrate_request id imei) = migrate-IsIsolated id imei

  -- Whatever a user who is no superadmin requests, and however the calls of the database and of Redis
  -- end: what the answer shows, a row, points or messages, is of a vehicle of the user's organization or
  -- of a child of it; every row of another organization stays as it is; and a row that is there
  -- afterwards was there before, or is of the user's organization, or has the id of a vehicle of it or
  -- of a child of it.
  pub serve-IsIsolated :
      (new_id : Text) (q : VehicleRequest) → IsIsolated user reg (serve o new_id user q reg)
  unfolding serve
  serve-IsIsolated new_id q =
      unless-IsIsolated user reg _ (run_handler o new_id user q reg) (tt, tt)
        (λ h. handlers-IsIsolated new_id q)
