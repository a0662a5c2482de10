-- ===== src/Backend/Sockets/System.antt =====
-- The steps of a socket and of the database: events, queries that run or fail, handlers that go on,
-- vehicles that are changed by others.
use fueltracks.Prelude.{◌≡◌, List, [], ◌∷◌, ◌++◌, Bool}
use fueltracks.Js.Text.{Text}
use fueltracks.Writer.{Json}
use fueltracks.Backend.Sockets.{
  Database, belongs_to_org, Check, asked, answered, ClientSocket, join_vehicle, leave_vehicle,
  join_org, leave_org, resume,
}

pub data ClientEvent : Type 0 where
  join_vehicle_event leave_vehicle_event join_org_event leave_org_event : Json → ClientEvent

unfoldable pub handle_event : ClientEvent → ClientSocket → ClientSocket
handle_event (join_vehicle_event v) s = join_vehicle v s
handle_event (leave_vehicle_event v) s = leave_vehicle v s
handle_event (join_org_event o) s = join_org o s
handle_event (leave_org_event o) s = leave_org o s

-- The socket, the database, and what the database was before.
pub record World : Type 0 where
  pub socket : ClientSocket
  pub database : Database
  pub past : List Database

unfoldable pub with_checks : List Check → ClientSocket → ClientSocket
with_checks checks s = record s { checks = checks }

unfoldable pub start : ClientSocket → Database → World
start s db = record { socket = s; database = db; past = [] }

pub data Step (w : World) : World → Type 0 where
  emitted_event :
      (e : ClientEvent) {u : World} → u ≡ record w { socket = handle_event e w.socket } → Step w u
  query_ran :
      (vehicle_id : Text) (before after : List Check) {u : World}
      → w.socket.checks ≡ before ++ asked vehicle_id ∷ after
      → u ≡ record w {
        socket =
            with_checks
              (before
                ++ answered vehicle_id (belongs_to_org w.database vehicle_id w.socket.user.org_id)
                  ∷ after)
              w.socket;
      }
      → Step w u
  query_failed :
      (vehicle_id : Text) (before after : List Check) {u : World}
      → w.socket.checks ≡ before ++ asked vehicle_id ∷ after
      → u ≡ record w { socket = with_checks (before ++ after) w.socket }
      → Step w u
  resumed :
      (vehicle_id : Text) (belongs : Bool) (before after : List Check) {u : World}
      → w.socket.checks ≡ before ++ answered vehicle_id belongs ∷ after
      → u ≡ record w { socket = resume vehicle_id belongs (with_checks (before ++ after) w.socket) }
      → Step w u
  changed :
      (db : Database) {u : World}
      → u ≡ record w { database = db; past = w.database ∷ w.past }
      → Step w u

pub data Reach (w : World) : World → Type 0 where
  here : Reach w w
  next : {u v : World} → Reach w u → Step u v → Reach w v
