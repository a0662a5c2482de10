-- ===== src/Backend/Sql/Updates.antt =====
-- The updates of vehicleModel.js, groupModel.js, userModel.js and orgModel.js in backend/models, by the
-- builder of their parent. A value is `none` where the field is `undefined`.
use fueltracks.Prelude.{Option, none, some, [], ◌∷◌, if◌then◌else◌}
use fueltracks.Js.Text.{codes}
use fueltracks.Writer.{Json, null}
use fueltracks.Backend.Sockets.{is_truthy}
use fueltracks.Backend.Sql.{Update, build_update}

-- `value || null`
unfoldable pub or_null_json : Option Json → Option Json
or_null_json none = none
or_null_json (some v) = some (if is_truthy v then v else null)

pub record VehicleUpdate : Type 0 where
  pub name : Option Json
  pub plate : Option Json
  pub model : Option Json
  pub driver_name : Option Json
  pub driver_phone : Option Json
  pub is_active : Option Json
  pub org_id : Option Json
  pub server_name : Option Json
  pub gps_sim_no : Option Json
  pub device_version : Option Json
  pub timezone : Option Json
  pub apn : Option Json
  pub licence_issued_date : Option Json
  pub licence_expire_date : Option Json
  pub metadata : Option Json

unfoldable pub vehicle_statement : Json → VehicleUpdate → Option Update
unfolding or_null_json
vehicle_statement id u =
    build_update
      ((codes "name", u.name)
        ∷ (codes "plate", u.plate)
        ∷ (codes "model", u.model)
        ∷ (codes "driver_name", u.driver_name)
        ∷ (codes "driver_phone", u.driver_phone)
        ∷ (codes "is_active", u.is_active)
        ∷ (codes "org_id", u.org_id)
        ∷ (codes "server_name", u.server_name)
        ∷ (codes "gps_sim_no", u.gps_sim_no)
        ∷ (codes "device_version", u.device_version)
        ∷ (codes "timezone", u.timezone)
        ∷ (codes "apn", u.apn)
        ∷ (codes "licence_issued_date", or_null_json u.licence_issued_date)
        ∷ (codes "licence_expire_date", or_null_json u.licence_expire_date)
        ∷ (codes "metadata", u.metadata)
        ∷ [])
      id

pub record GroupUpdate : Type 0 where
  pub name : Option Json
  pub description : Option Json
  pub is_active : Option Json

unfoldable pub group_statement : Json → GroupUpdate → Option Update
group_statement id u =
    build_update
      ((codes "name", u.name)
        ∷ (codes "description", u.description)
        ∷ (codes "is_active", u.is_active)
        ∷ [])
      id

pub record UserUpdate : Type 0 where
  pub email : Option Json
  pub role : Option Json
  pub name : Option Json
  pub phone : Option Json
  pub is_active : Option Json
  pub org_id : Option Json

unfoldable pub user_statement : Json → UserUpdate → Option Update
user_statement id u =
    build_update
      ((codes "email", u.email)
        ∷ (codes "role", u.role)
        ∷ (codes "name", u.name)
        ∷ (codes "phone", u.phone)
        ∷ (codes "is_active", u.is_active)
        ∷ (codes "org_id", u.org_id)
        ∷ [])
      id

pub record OrgUpdate : Type 0 where
  pub name : Option Json
  pub org_type : Option Json
  pub address : Option Json
  pub phone : Option Json
  pub contact_person : Option Json
  pub email : Option Json
  pub is_active : Option Json

unfoldable pub org_statement : Json → OrgUpdate → Option Update
org_statement id u =
    build_update
      ((codes "name", u.name)
        ∷ (codes "type", u.org_type)
        ∷ (codes "address", u.address)
        ∷ (codes "phone", u.phone)
        ∷ (codes "contact_person", u.contact_person)
        ∷ (codes "email", u.email)
        ∷ (codes "is_active", u.is_active)
        ∷ [])
      id
