-- ===== src/Writer/Settled.antt =====
-- What an acknowledgement promises of the entry with its id: it was dropped, or its own rows are in the
-- database.
pub mod Grown
pub mod Kept
pub mod Acknowledged
pub mod Reached
pub mod Promise
use fueltracks.Prelude.{ℕ, ◌≡◌, ◌⊎◌, inl, inr, refl, List, [], ◌∷◌, ◌++◌, map, All, All-append}
use fueltracks.Js.Text.{Text}
use fueltracks.Writer.{
  Message, Parsed, malformed, object, Entry, Vehicle, Point, LatestState, Writer, Taken, live,
}
use fueltracks.Writer.Vehicles.{Resolution, resolved, unregistered}
use fueltracks.Writer.System.{
  Flight, Stage, saving_points, saving_states, Consumer, reading, processing, resolving, recording,
  flushing, acking, Job, timer_flush, timer_ack, closing_flush, World, parse_payload,
}

abbrev pub Has : {A : Type 0} → A → List A → Type 0
Has x [] = ⊥
Has x (y ∷ ys) = (x ≡ y) ⊎ Has x ys

pub Has-left : {A : Type 0} (x : A) (xs ys : List A) → Has x xs → Has x (xs ++ ys)
Has-left x [] ys h = elim h [ ]
Has-left x (y ∷ xs) ys (inl e) = inl e
Has-left x (y ∷ xs) ys (inr h) = inr (Has-left x xs ys h)

pub Has-right : {A : Type 0} (x : A) (xs ys : List A) → Has x ys → Has x (xs ++ ys)
Has-right x [] ys h = h
Has-right x (y ∷ xs) ys h = inr (Has-right x xs ys h)

pub All-weaken :
    {A : Type 0} {P Q : A → Type 0} → ((a : A) → P a → Q a) → (xs : List A) → All P xs → All Q xs
All-weaken f [] h = tt
All-weaken f (x ∷ xs) h = (f x h.0, All-weaken f xs h.1)

pub All-Has : {A : Type 0} (xs ys : List A) → All (λ x. Has x (xs ++ ys)) xs
All-Has [] ys = tt
All-Has (x ∷ xs) ys = (inl refl, All-weaken (λ a h. inr h) xs (All-Has xs ys))

-- What the writer was told: the entries that Redis handed out, and what `resolveVehicle` made of the
-- answers for an entry.
pub record History : Type 0 where
  pub handed : List Entry
  pub answers : List (Entry × Resolution)

-- The rows that a position of a vehicle has in the two tables.
abbrev pub point_row : Message → Vehicle → Point
point_row m v = record {
  vehicle_id = v.vehicle_id;
  lat = m.lat;
  lng = m.lng;
  speed = m.speed;
  direction = m.direction;
  odometer = m.odometer;
  fuel = m.fuel;
  ignition = m.ignition;
  satellites = m.satellites;
  gsm_signal = m.gsm_signal;
  battery = m.battery;
  voltage = m.voltage;
  is_live = live m.is_live;
  device_time = m.device_time;
}

abbrev pub state_row : Message → Vehicle → LatestState
state_row m v = record {
  vehicle_id = v.vehicle_id;
  lat = m.lat;
  lng = m.lng;
  speed = m.speed;
  direction = m.direction;
  fuel = m.fuel;
  ignition = m.ignition;
  voltage = m.voltage;
  odometer = m.odometer;
  satellites = m.satellites;
  gsm_signal = m.gsm_signal;
}

-- What is known of the entries and what the database took.
pub record Log : Type 0 where
  pub parse : Text → Parsed
  pub handed : List Entry
  pub answers : List (Entry × Resolution)
  pub points : List Point
  pub states : List LatestState

abbrev pub log : (Text → Parsed) → History → World → Log
log json past w = record {
  parse = json;
  handed = past.handed;
  answers = past.answers;
  points = w.saved_points;
  states = w.saved_states;
}

-- An entry that was accepted, with its message and its vehicle.
pub record Item : Type 0 where
  pub entry : Entry
  pub message : Message
  pub vehicle : Vehicle

-- The entry was handed out, this is its message, and this the vehicle that was found for it.
abbrev pub IsItem : Log → Item → Type 0
IsItem l i =
    Has i.entry l.handed
    × (parse_payload l.parse i.entry.payload ≡ object i.message)
    × Has (i.entry, resolved i.vehicle) l.answers

abbrev pub item_point : Item → Point
item_point i = point_row i.message i.vehicle

abbrev pub item_state : Item → LatestState
item_state i = state_row i.message i.vehicle

abbrev pub item_id : Item → Text
item_id i = i.entry.id

-- The three buffers hold the rows and ids of the same entries, in the same order.
abbrev pub Aligned : Log → List Point → List LatestState → List Text → Type 0
Aligned l points states acks =
    (items : List Item) × (points ≡ map item_point items)
    × (states ≡ map item_state items)
    × (acks ≡ map item_id items)
    × All (IsItem l) items

-- The entry is malformed, or of an IMEI that is not registered, or the two rows of its message and of the
-- vehicle that was found for it were saved.
abbrev pub IsDone : Log → Entry → Type 0
IsDone l e =
    (parse_payload l.parse e.payload ≡ malformed)
    ⊎ (Has (e, unregistered) l.answers
        ⊎ ((m : Message) × (v : Vehicle) × (parse_payload l.parse e.payload ≡ object m)
            × Has (e, resolved v) l.answers
            × Has (point_row m v) l.points
            × Has (state_row m v) l.states))

-- The id is that of an entry that was handed out and is done.
abbrev pub IsSettled : Log → Text → Type 0
IsSettled l id = (e : Entry) × (e.id ≡ id) × Has e l.handed × IsDone l e

abbrev pub AreSaved : Log → Stage → List Point → Type 0
AreSaved l saving_points points = Unit
AreSaved l saving_states points = All (λ p. Has p l.points) points

abbrev pub IsFlying : Log → Flight → Type 0
IsFlying l f =
    Aligned l f.taken.points f.taken.states f.taken.acks × AreSaved l f.stage f.taken.points

abbrev pub AreHanded : Log → List Entry → Type 0
AreHanded l entries = All (λ e. Has e l.handed) entries

-- the rest of a batch, and the ids that are to be acknowledged
abbrev pub IsBatch : Log → List Entry → List Text → Type 0
IsBatch l rest acked = AreHanded l rest × All (IsSettled l) acked

abbrev pub IsTaken : Log → Entry → Message → Type 0
IsTaken l e m = Has e l.handed × (parse_payload l.parse e.payload ≡ object m)

abbrev pub IsRefused : Log → Entry → Type 0
IsRefused l e = Has e l.handed × Has (e, unregistered) l.answers

abbrev pub IsConsumer : Log → Consumer → Type 0
IsConsumer l reading = Unit
IsConsumer l (processing rest acked) = IsBatch l rest acked
IsConsumer l (resolving e m rest acked) = (t : IsTaken l e m) × IsBatch l rest acked
IsConsumer l (recording e rest acked) = (t : IsRefused l e) × IsBatch l rest acked
IsConsumer l (flushing f rest acked) = (t : IsFlying l f) × IsBatch l rest acked
IsConsumer l (acking acked) = All (IsSettled l) acked

abbrev pub IsJob : Log → Job → Type 0
IsJob l (timer_flush f) = IsFlying l f
IsJob l (timer_ack done) = All (IsSettled l) done
IsJob l (closing_flush f) = IsFlying l f

pub record IsSound (json : Text → Parsed) (past : History) (w : World) : Type 0 where
  pub buffers :
      Aligned (log json past w) w.writer.point_buffer w.writer.state_buffer w.writer.pending_acks
  pub consumer_sound : IsConsumer (log json past w) w.consumer
  pub jobs_sound : All (IsJob (log json past w)) w.jobs
  pub acknowledged_settled : All (IsSettled (log json past w)) w.acknowledged
