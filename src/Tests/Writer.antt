-- ===== src/Tests/Writer.antt =====
-- The writer: one position is stored and acknowledged; two positions of one vehicle are not.
use fueltracks.Prelude.{◌≡◌, refl, ap, true, not, none, some, List, [], ◌∷◌, Bool}
use fueltracks.Js.Text.{Text, codes, equal}
use fueltracks.Writer.{
  missing, number, text, boolean, Message, Parsed, object, Entry, Vehicle, LatestState, Limits,
  Writer, point_of, state_of, buffer_entry, is_due, is_idle, take_buffers,
}
use fueltracks.Writer.Vehicles.{Hash, no_vehicle, resolve_vehicle, of_hash, or_null}
use fueltracks.Writer.System.{
  World, Flight, saving_points, saving_states, reading, processing, acking, take_entry,
  parsed_entry, parse_payload, receive, first_stage, flight_of, start_flush, consumer_flush,
  answered, save, saved_stage, disk, with_disk, consumer_after, consumer_saved, tick,
}
use fueltracks.Writer.Steps.{
  deliver, take, answer, statement_ended, finished, acks_sent, timer, Reach, here, next,
  acknowledge, can_save, can_run,
}
use fueltracks.Writer.Counted.{IsBalanced}
use fueltracks.Writer.Balanced.{Reach-IsBalanced}
use fueltracks.Writer.Settled.{History, IsSound}
use fueltracks.Writer.Settled.Promise.{trace, Reach-IsSound}
use fueltracks.Writer.Stuck.{repeats, is_stuck}
use fueltracks.Writer.Stuck.Forever.{Refuses, Reach-stuck}

abbrev pub position : Message
position = record {
  imei = text (codes "865006049210220");
  lat = number 17;
  lng = number 78;
  speed = number 45;
  fuel = missing;
  ignition = boolean true;
  voltage = missing;
  direction = number 180;
  odometer = missing;
  satellites = number 9;
  gsm_signal = missing;
  battery = missing;
  device_time = text (codes "2026-01-01");
  is_live = boolean true;
}

-- a `JSON.parse` that reads one text
abbrev read_json : Text → Parsed
read_json s = object position

abbrev first_entry : Entry
first_entry = record { id = codes "1-0"; payload = some (codes "{}") }

abbrev small : Limits
small = record { batch_max_rows = 1; batch_max_ms = 1000 }

abbrev new_writer : Writer
new_writer = record {
  point_buffer = [];
  state_buffer = [];
  pending_acks = [];
  last_flush_at = 0;
  received = 0;
  flushed = 0;
  insert_errors = 0;
  batches = 0;
}

abbrev new_world : World
new_world = record {
  writer = new_writer;
  consumer = reading;
  jobs = [];
  delivered = [];
  acknowledged = [];
  abandoned = [];
  dropped = [];
  saved_points = [];
  saved_states = [];
}

abbrev known : Hash
known = record { id = codes "7"; org_id = codes "2"; name = codes "Truck"; plate = [] }

-- a PostgreSQL that takes every statement but those that update a vehicle twice
abbrev postgres : List LatestState → Bool
postgres states = not (repeats states)

postgres-Refuses : Refuses postgres
postgres-Refuses states h = ap not h

abbrev delivered_world : World
delivered_world = record new_world {
  consumer = processing (first_entry ∷ []) [];
  delivered = first_entry.id ∷ [];
}

abbrev taken_world : World
taken_world = take_entry read_json first_entry [] [] delivered_world

abbrev flushing_world : World
flushing_world =
    answered small 5 (resolve_vehicle known no_vehicle).0 first_entry position [] [] taken_world

one_run : Reach read_json small postgres new_world flushing_world
unfolding take_entry parsed_entry parse_payload
one_run =
    next
      (next (next here (deliver (first_entry ∷ []) refl refl)) (take first_entry [] [] refl refl))
      (answer known no_vehicle 5 first_entry position [] [] refl refl)

Reach-IsBalanced_example : IsBalanced flushing_world
Reach-IsBalanced_example = Reach-IsBalanced read_json small postgres one_run (λ a. refl)

abbrev pub vehicle_seven : Vehicle
vehicle_seven = record {
  vehicle_id = codes "7";
  org_id = codes "2";
  name = some (codes "Truck");
  plate = none;
}

abbrev first_flight : Flight
first_flight = record {
  taken = record {
    points = point_of position vehicle_seven ∷ [];
    states = state_of position vehicle_seven ∷ [];
    acks = first_entry.id ∷ [];
  };
  stage = saving_points;
}

abbrev second_flight : Flight
second_flight = record first_flight { stage = saving_states }

abbrev half_saved : World
half_saved = consumer_saved true 6 first_flight [] [] flushing_world

abbrev saved_world : World
saved_world = consumer_saved true 7 second_flight [] [] half_saved

abbrev acking_world : World
acking_world = record saved_world { consumer = acking (first_entry.id ∷ []) }

abbrev acked_world : World
acked_world = acknowledge true (first_entry.id ∷ []) (record acking_world { consumer = reading })

saved_run : Reach read_json small postgres new_world saved_world
unfolding consumer_saved save saved_stage consumer_after disk with_disk can_save can_run answered
    take_entry parsed_entry parse_payload resolve_vehicle of_hash or_null is_due buffer_entry
    consumer_flush start_flush flight_of first_stage take_buffers is_idle receive
saved_run =
    next (next one_run (statement_ended true 6 first_flight [] [] refl refl refl))
      (statement_ended true 7 second_flight [] [] refl refl refl)

whole_run : Reach read_json small postgres new_world acked_world
unfolding consumer_saved save saved_stage consumer_after disk with_disk
whole_run =
    next (next saved_run (finished (first_entry.id ∷ []) refl refl))
      (acks_sent true (first_entry.id ∷ []) refl refl)

abbrev nothing_told : History
nothing_told = record { handed = []; answers = [] }

Reach-IsSound_example : IsSound read_json (trace nothing_told whole_run) acked_world
Reach-IsSound_example = Reach-IsSound nothing_told whole_run (record {
  buffers = ([], refl, refl, refl, tt);
  consumer_sound = tt;
  jobs_sound = tt;
  acknowledged_settled = tt;
})

-- two positions of the vehicle in the buffer
abbrev twice_world : World
twice_world = record new_world {
  writer = record new_writer {
    point_buffer = point_of position vehicle_seven ∷ point_of position vehicle_seven ∷ [];
    state_buffer = state_of position vehicle_seven ∷ state_of position vehicle_seven ∷ [];
    pending_acks = codes "1-0" ∷ codes "2-0" ∷ [];
  };
}

abbrev twice_flushed : World
twice_flushed = tick small 1000 twice_world

twice_run : Reach read_json small postgres twice_world twice_flushed
twice_run = next here (timer 1000 refl)

twice-stuck : is_stuck twice_world ≡ true
unfolding state_of equal
twice-stuck = refl

Reach-stuck_example : is_stuck twice_flushed ≡ true
Reach-stuck_example = Reach-stuck postgres postgres-Refuses read_json small twice_run twice-stuck
