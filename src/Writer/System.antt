-- ===== src/Writer/System.antt =====
-- writer/server.js with the consumer loop of backend/streams/redisStreams.js: the consumer, the timer
-- and the shutdown take turns at their `await`s.
use fueltracks.Prelude.{
  ℕ, ◌+◌, Bool, true, false, Option, none, some, List, [], ◌∷◌, ◌++◌, if◌then◌else◌,
}
use fueltracks.Js.Text.{Text}
use fueltracks.Writer.{
  Message, Parsed, malformed, null_value, object, Entry, Point, LatestState, Limits, Writer, Taken,
  buffer_entry, has_elapsed, is_due, is_idle, take_buffers, clear_buffers, points_saved, flush_done,
  requeue,
}
use fueltracks.Writer.Vehicles.{Resolution, resolved, unregistered, thrown}

-- `flushNow` waits for the INSERT of the points, then for that of the states.
pub data Stage : Type 0 where
  saving_points saving_states : Stage

pub record Flight : Type 0 where
  pub taken : Taken
  pub stage : Stage

-- Where the consumer loop waits. `rest` is the batch behind the entry, `acked` the list of the same name.
pub data Consumer : Type 0 where
  reading : Consumer
  processing : List Entry → List Text → Consumer
  resolving : Entry → Message → List Entry → List Text → Consumer
  recording : Entry → List Entry → List Text → Consumer
  flushing : Flight → List Entry → List Text → Consumer
  acking : List Text → Consumer

-- Where a call of `flushNow` by the timer or by the shutdown waits; only the timer acknowledges.
pub data Job : Type 0 where
  timer_flush : Flight → Job
  timer_ack : List Text → Job
  closing_flush : Flight → Job

-- `delivered` and `abandoned` are the entries that Redis handed out, and those among them that nothing
-- will acknowledge any more; `saved_points` and `saved_states` the rows of the INSERTs that succeeded.
pub record World : Type 0 where
  pub writer : Writer
  pub consumer : Consumer
  pub jobs : List Job
  pub delivered : List Text
  pub acknowledged : List Text
  pub abandoned : List Text
  pub dropped : List Text
  pub saved_points : List Point
  pub saved_states : List LatestState

abbrev pub ids : List Entry → List Text
ids [] = []
ids (e ∷ es) = e.id ∷ ids es

-- `JSON.parse(entry.fields.data)`; without the field it throws.
unfoldable pub parse_payload : (Text → Parsed) → Option Text → Parsed
parse_payload json none = malformed
parse_payload json (some s) = json s

-- `processBatch` throws: the loop reads on, and what `acked` held is forgotten.
unfoldable pub throw_batch : List Text → World → World
throw_batch lost w = record w { consumer = reading; abandoned = lost ++ w.abandoned }

unfoldable pub receive : Writer → Writer
receive w = record w { received = w.received + 1 }

unfoldable pub drop_entry : Text → List Entry → List Text → World → World
drop_entry id rest acked w = record w {
  consumer = processing rest (acked ++ id ∷ []);
  dropped = id ∷ w.dropped;
}

unfoldable pub parsed_entry : Parsed → Entry → List Entry → List Text → World → World
parsed_entry malformed e rest acked w = drop_entry e.id rest acked w
parsed_entry null_value e rest acked w = throw_batch (e.id ∷ ids rest ++ acked) w
parsed_entry (object m) e rest acked w = record w { consumer = resolving e m rest acked }

-- From the head of the loop to `resolveVehicle`.
unfoldable pub take_entry : (Text → Parsed) → Entry → List Entry → List Text → World → World
unfolding parse_payload parsed_entry
take_entry json e rest acked w =
    parsed_entry (parse_payload json e.payload) e rest acked
      (record w { writer = receive w.writer })

-- `flushNow` up to its first `await`, when there is something to flush. An empty list of points is not
-- sent.
unfoldable pub first_stage : List Point → Stage
first_stage [] = saving_states
first_stage (p ∷ ps) = saving_points

unfoldable pub flight_of : Writer → Flight
flight_of w = record { taken = take_buffers w; stage = first_stage w.point_buffer }

unfoldable pub start_flush : Writer → Option Flight
start_flush w = if is_idle w.point_buffer w.state_buffer then none else some (flight_of w)

unfoldable pub consumer_flush : Option Flight → List Entry → List Text → World → World
consumer_flush none rest acked w = record w { consumer = processing rest acked }
consumer_flush (some f) rest acked w = record w {
  writer = clear_buffers w.writer;
  consumer = flushing f rest acked;
}

-- From the answer of `resolveVehicle` to the next `await` or the next entry.
unfoldable pub answered :
    Limits → ℕ → Resolution → Entry → Message → List Entry → List Text → World → World
answered limits now (resolved v) e m rest acked w =
    let buffered = buffer_entry e.id m v w.writer in
    let held = record w { writer = buffered } in
    if is_due limits now buffered
    then consumer_flush (start_flush buffered) rest acked held
    else record held { consumer = processing rest acked }
answered limits now unregistered e m rest acked w = record w { consumer = recording e rest acked }
answered limits now thrown e m rest acked w = throw_batch (e.id ∷ ids rest ++ acked) w

-- A statement ends, well or not: the flight goes on, or `flushNow` returns these ids.
pub data Flushed : Type 0 where
  waiting : Flight → Flushed
  returned : List Text → Flushed

pub record Disk : Type 0 where
  pub writer : Writer
  pub saved_points : List Point
  pub saved_states : List LatestState

unfoldable pub saved_stage : Stage → ℕ → Flight → Disk → Flushed × Disk
saved_stage saving_points now f d = (
  waiting (record f { stage = saving_states }),
  record d {
    writer = points_saved f.taken d.writer;
    saved_points = f.taken.points ++ d.saved_points;
  },
)
saved_stage saving_states now f d = (
  returned f.taken.acks,
  record d { writer = flush_done now d.writer; saved_states = f.taken.states ++ d.saved_states },
)

unfoldable pub save : Bool → ℕ → Flight → Disk → Flushed × Disk
unfolding saved_stage
save false now f d = (returned [], record d { writer = requeue f.taken d.writer })
save true now f d = saved_stage f.stage now f d

unfoldable pub disk : World → Disk
disk w = record { writer = w.writer; saved_points = w.saved_points; saved_states = w.saved_states }

unfoldable pub with_disk : Disk → World → World
with_disk d w = record w {
  writer = d.writer;
  saved_points = d.saved_points;
  saved_states = d.saved_states;
}

unfoldable pub consumer_after : Flushed → List Entry → List Text → Consumer
consumer_after (waiting f) rest acked = flushing f rest acked
consumer_after (returned acks) rest acked = processing rest (acked ++ acks)

unfoldable pub consumer_saved : Bool → ℕ → Flight → List Entry → List Text → World → World
unfolding disk with_disk
consumer_saved ok now f rest acked w =
    let (flushed, d) = save ok now f (disk w) in
    record (with_disk d w) { consumer = consumer_after flushed rest acked }

unfoldable pub timer_after : Flushed → Job
timer_after (waiting f) = timer_flush f
timer_after (returned acks) = timer_ack acks

unfoldable pub closing_after : Flushed → List Job
closing_after (waiting f) = closing_flush f ∷ []
closing_after (returned acks) = []

-- The ids that the shutdown's flush returns are not acknowledged.
unfoldable pub closing_lost : Flushed → List Text
closing_lost (waiting f) = []
closing_lost (returned acks) = acks

-- The timer: nothing to flush, too early, or a flush.
unfoldable pub start_job : (Flight → Job) → Option Flight → World → World
start_job job none w = w
start_job job (some f) w = record w { writer = clear_buffers w.writer; jobs = job f ∷ w.jobs }

unfoldable pub tick : Limits → ℕ → World → World
tick limits now w =
    if has_elapsed limits now w.writer then start_job timer_flush (start_flush w.writer) w else w
