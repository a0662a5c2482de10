-- ===== src/Writer/Stuck.antt =====
-- A batch with two states of one vehicle: PostgreSQL refuses an `ON CONFLICT … DO UPDATE` that meets a
-- row twice.
pub mod Forever
use fueltracks.Prelude.{
  ℕ, ◌≡◌, ◌⊎◌, inl, inr, refl, ap, sym, ◌∙◌, subst, Bool, true, false, ◌||◌, Option, none, some,
  List, [], ◌∷◌, ◌++◌, Bool-cases, arith, if◌then◌else◌,
}
use fueltracks.Js.Text.{Text, equal}
use fueltracks.Writer.{
  Message, Parsed, malformed, null_value, object, Entry, Vehicle, Point, LatestState, Limits,
  Writer, Taken, state_of, buffer_entry, is_due, has_elapsed, clear_buffers, take_buffers, requeue,
  points_saved, flush_done,
}
use fueltracks.Writer.Vehicles.{Resolution, resolved, unregistered, thrown, resolve_vehicle}
use fueltracks.Writer.System.{
  Flight, Stage, saving_points, saving_states, Consumer, reading, processing, resolving, recording,
  flushing, acking, Job, timer_flush, timer_ack, closing_flush, World, Disk, ids, drop_entry,
  throw_batch, parsed_entry, take_entry, parse_payload, receive, first_stage, flight_of,
  start_flush, consumer_flush, answered, Flushed, waiting, returned, save, saved_stage, disk,
  with_disk, consumer_after, consumer_saved, timer_after, closing_after, closing_lost, start_job,
  tick,
}
use fueltracks.Writer.Counted.{start_flush-cases}
use fueltracks.Writer.Steps.{
  Step, deliver, take, answer, recorded, statement_ended, finished, acks_sent, timer, timer_saves,
  timer_acks, shutdown, closing_saves, Reach, here, next, timer_saved, closing_saved, timer_acked,
  acknowledge, replace_job, can_run, can_save,
}

abbrev pub mentions : Text → List LatestState → Bool
mentions v [] = false
mentions v (s ∷ states) = equal s.vehicle_id v || mentions v states

-- Two of the states are of one vehicle.
abbrev pub repeats : List LatestState → Bool
repeats [] = false
repeats (s ∷ states) = mentions s.vehicle_id states || repeats states

mentions-append :
    (v : Text) (xs ys : List LatestState) → mentions v (xs ++ ys) ≡ (mentions v xs || mentions v ys)
mentions-append v [] ys = refl
mentions-append v (x ∷ xs) ys = ground (arith, mentions-append v xs ys)

pub repeats-left : (xs ys : List LatestState) → repeats xs ≡ true → repeats (xs ++ ys) ≡ true
repeats-left [] ys h = ground (arith, h)
repeats-left (x ∷ xs) ys h = ground (arith, mentions-append x.vehicle_id xs ys, repeats-left xs ys)

pub repeats-right : (xs ys : List LatestState) → repeats ys ≡ true → repeats (xs ++ ys) ≡ true
repeats-right [] ys h = h
repeats-right (x ∷ xs) ys h = ground (arith, repeats-right xs ys h)

abbrev pub in_consumer : Consumer → Bool
in_consumer (flushing f rest done) = repeats f.taken.states
in_consumer _ = false

abbrev pub in_job : Job → Bool
in_job (timer_flush f) = repeats f.taken.states
in_job (timer_ack done) = false
in_job (closing_flush f) = repeats f.taken.states

abbrev pub in_jobs : List Job → Bool
in_jobs [] = false
in_jobs (j ∷ js) = in_job j || in_jobs js

-- A batch with two states of one vehicle is in the buffer or in a flush.
abbrev pub is_stuck : World → Bool
is_stuck w = repeats w.writer.state_buffer || in_consumer w.consumer || in_jobs w.jobs

pub in_jobs-parts :
    (before mine after : List Job)
    → in_jobs (before ++ mine ++ after) ≡ (in_jobs before || in_jobs mine || in_jobs after)
in_jobs-parts [] [] after = ground arith
in_jobs-parts [] (j ∷ mine) after = ground (arith, in_jobs-parts [] mine after)
in_jobs-parts (j ∷ before) mine after = ground (arith, in_jobs-parts before mine after)

abbrev pub in_flushed : Flushed → Bool
in_flushed (waiting f) = repeats f.taken.states
in_flushed (returned acks) = false

pub take_entry-stuck :
    (json : Text → Parsed) (e : Entry) (rest : List Entry) (done : List Text) (w : World)
    → w.consumer ≡ processing (e ∷ rest) done
    → is_stuck w ≡ true
    → is_stuck (take_entry json e rest done w) ≡ true
unfolding take_entry parsed_entry drop_entry throw_batch receive
take_entry-stuck json e rest done w at h = ground (arith, ap in_consumer at)

buffered-stuck :
    (id : Text) (m : Message) (v : Vehicle) (w : World)
    → is_stuck w ≡ true
    → is_stuck (record w { writer = buffer_entry id m v w.writer }) ≡ true
unfolding buffer_entry
buffered-stuck id m v w h = ground (arith, repeats-left w.writer.state_buffer (state_of m v ∷ []))

pub consumer_flush-stuck :
    (rest : List Entry) (done : List Text) (w : World)
    → in_consumer w.consumer ≡ false
    → is_stuck w ≡ true
    → is_stuck (consumer_flush (start_flush w.writer) rest done w) ≡ true
unfolding consumer_flush flight_of take_buffers clear_buffers
consumer_flush-stuck rest done w at h = elim (start_flush-cases w.writer) [
  | inl idle ↦ rw idle (ground arith)
  | inr busy ↦ rw busy (ground arith)
]

pub start_job-stuck :
    (job : Flight → Job) (w : World)
    → ((f : Flight) → in_job (job f) ≡ repeats f.taken.states)
    → is_stuck w ≡ true
    → is_stuck (start_job job (start_flush w.writer) w) ≡ true
unfolding start_job flight_of take_buffers clear_buffers
start_job-stuck job w same h = elim (start_flush-cases w.writer) [
  | inl idle ↦ rw idle h
  | inr busy ↦ rw busy (ground (arith, same (flight_of w.writer)))
]

pub answered-stuck :
    (limits : Limits) (now : ℕ) (r : Resolution) (e : Entry) (m : Message) (rest : List Entry)
    (done : List Text) (w : World)
    → w.consumer ≡ resolving e m rest done
    → is_stuck w ≡ true
    → is_stuck (answered limits now r e m rest done w) ≡ true
unfolding answered throw_batch
answered-stuck limits now (resolved v) e m rest done w at h =
    let held : World = record w { writer = buffer_entry e.id m v w.writer } in
    ground
      (arith, ap in_consumer at, buffered-stuck e.id m v w h, consumer_flush-stuck rest done held)
answered-stuck limits now unregistered e m rest done w at h = ground (arith, ap in_consumer at)
answered-stuck limits now thrown e m rest done w at h = ground (arith, ap in_consumer at)
