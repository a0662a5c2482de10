-- ===== src/Writer/Counted.antt =====
-- No entry is lost or taken twice: every delivered entry is acknowledged, abandoned, or in one hand.
use fueltracks.Prelude.{
  ℕ, ◌+◌, ◌≡◌, ◌⊎◌, none, some, refl, ap, Bool, true, false, List, [], ◌∷◌, ◌++◌, if◌then◌else◌,
  arith, Bool-cases, inl, inr,
}
use fueltracks.Js.Text.{Text, equal}
use fueltracks.Writer.{
  Parsed, Message, Entry, Limits, Writer, buffer_entry, is_idle, take_buffers, clear_buffers,
  points_saved, flush_done, requeue,
}
use fueltracks.Writer.Vehicles.{Resolution, resolved, unregistered, thrown}
use fueltracks.Writer.System.{
  Flight, Consumer, reading, processing, resolving, recording, flushing, acking, Job, timer_flush,
  timer_ack, closing_flush, World, ids, take_entry, answered, drop_entry, Flushed, save, disk,
  consumer_saved, timer_after, closing_after, closing_lost, start_flush, start_job, Disk, waiting,
  returned, throw_batch, receive, consumer_flush, flight_of, consumer_after,
}
use fueltracks.Writer.Steps.{replace_job, timer_saved, closing_saved, timer_acked, acknowledge}

abbrev pub count : Text → List Text → ℕ
count a [] = 0
count a (x ∷ xs) = (if equal x a then 1 else 0) + count a xs

pub count-append : (a : Text) (xs ys : List Text) → count a (xs ++ ys) ≡ count a xs + count a ys
count-append a [] ys = omega arith
count-append a (x ∷ xs) ys = omega (arith, count-append a xs ys)

-- The entries in the consumer's hands.
abbrev pub in_batch : Consumer → List Text
in_batch reading = []
in_batch (processing rest acked) = ids rest ++ acked
in_batch (resolving e m rest acked) = e.id ∷ ids rest ++ acked
in_batch (recording e rest acked) = e.id ∷ ids rest ++ acked
in_batch (flushing f rest acked) = f.taken.acks ++ (ids rest ++ acked)
in_batch (acking acked) = acked

abbrev pub in_job : Job → List Text
in_job (timer_flush f) = f.taken.acks
in_job (timer_ack done) = done
in_job (closing_flush f) = f.taken.acks

abbrev pub in_jobs : List Job → List Text
in_jobs [] = []
in_jobs (j ∷ js) = in_job j ++ in_jobs js

abbrev pub in_flushed : Flushed → List Text
in_flushed (waiting f) = f.taken.acks
in_flushed (returned acks) = acks

-- How often the entry is acknowledged, abandoned or in some hand.
abbrev pub balance : Text → World → ℕ
balance a w =
    count a w.acknowledged
    + count a w.abandoned
    + count a w.writer.pending_acks
    + count a (in_batch w.consumer)
    + count a (in_jobs w.jobs)

abbrev pub IsBalanced : World → Type 0
IsBalanced w = (a : Text) → count a w.delivered ≡ balance a w

pub start_flush-cases : (w : Writer) → (start_flush w ≡ none) ⊎ (start_flush w ≡ some (flight_of w))
unfolding start_flush
start_flush-cases w = elim (Bool-cases (is_idle w.point_buffer w.state_buffer)) [
  | inl idle ↦ inl (rw idle)
  | inr busy ↦ inr (rw busy)
]

module _ (a : Text) where
  -- what the world has besides the consumer's batch
  abbrev pub others : World → ℕ
  others w =
      count a w.acknowledged
      + count a w.abandoned
      + count a w.writer.pending_acks
      + count a (in_jobs w.jobs)

  pub take_entry-balance :
      (json : Text → Parsed) (e : Entry) (rest : List Entry) (acked : List Text) (w : World)
      → balance a (take_entry json e rest acked w) ≡ others w + count a (e.id ∷ ids rest ++ acked)
  unfolding take_entry drop_entry throw_batch receive
  take_entry-balance json e rest acked w = ground (
    arith,
    count-append a (ids rest) acked,
    count-append a (ids rest) (acked ++ e.id ∷ []),
    count-append a acked (e.id ∷ []),
    count-append a (e.id ∷ ids rest ++ acked) w.abandoned,
  )

  pub consumer_flush-balance :
      (rest : List Entry) (acked : List Text) (w : World)
      → balance a (consumer_flush (start_flush w.writer) rest acked w)
        ≡ others w + count a (ids rest ++ acked)
  unfolding consumer_flush flight_of take_buffers clear_buffers
  consumer_flush-balance rest acked w = elim (start_flush-cases w.writer) [
    | inl idle ↦ rw idle (ground arith)
    | inr busy ↦ rw busy (ground (arith, count-append a w.writer.pending_acks (ids rest ++ acked)))
  ]

  pub answered-balance :
      (limits : Limits) (now : ℕ) (r : Resolution) (e : Entry) (m : Message) (rest : List Entry)
      (acked : List Text) (w : World)
      → balance a (answered limits now r e m rest acked w)
        ≡ others w + count a (e.id ∷ ids rest ++ acked)
  unfolding answered buffer_entry throw_batch
  answered-balance limits now (resolved v) e m rest acked w =
      let held = record w { writer = buffer_entry e.id m v w.writer } in
      ground (
        arith,
        consumer_flush-balance rest acked held,
        count-append a w.writer.pending_acks (e.id ∷ []),
      )
  answered-balance limits now unregistered e m rest acked w = ground arith
  answered-balance limits now thrown e m rest acked w =
      ground (arith, count-append a (e.id ∷ ids rest ++ acked) w.abandoned)

  -- what a statement leaves to the one who called `flushNow`, and in the buffers
  save-balance :
      (ok : Bool) (now : ℕ) (f : Flight) (d : Disk)
      → count a (in_flushed (save ok now f d).0) + count a (save ok now f d).1.writer.pending_acks
        ≡ count a f.taken.acks + count a d.writer.pending_acks
  unfolding save requeue points_saved flush_done
  save-balance true now f d = ground arith
  save-balance false now f d = ground (arith, count-append a f.taken.acks d.writer.pending_acks)

  consumer_after-count :
      (flushed : Flushed) (rest : List Entry) (acked : List Text)
      → count a (in_batch (consumer_after flushed rest acked))
        ≡ count a (in_flushed flushed) + count a (ids rest ++ acked)
  unfolding consumer_after
  consumer_after-count (waiting f) rest acked = count-append a f.taken.acks (ids rest ++ acked)
  consumer_after-count (returned acks) rest acked = ground (
    arith,
    count-append a (ids rest) (acked ++ acks),
    count-append a acked acks,
    count-append a (ids rest) acked,
  )

  pub consumer_saved-balance :
      (ok : Bool) (now : ℕ) (f : Flight) (rest : List Entry) (acked : List Text) (w : World)
      → balance a (consumer_saved ok now f rest acked w)
        ≡ others w + count a (f.taken.acks ++ (ids rest ++ acked))
  unfolding consumer_saved
  consumer_saved-balance ok now f rest acked w = omega (
    arith,
    consumer_after-count (save ok now f (disk w)).0 rest acked,
    save-balance ok now f (disk w),
    count-append a f.taken.acks (ids rest ++ acked),
  )

  pub start_job-balance :
      (job : Flight → Job) (w : World)
      → ((f : Flight) → in_job (job f) ≡ f.taken.acks)
      → balance a (start_job job (start_flush w.writer) w) ≡ balance a w
  unfolding start_job flight_of take_buffers clear_buffers
  start_job-balance job w same = elim (start_flush-cases w.writer) [
    | inl idle ↦ rw idle refl
    | inr busy ↦
        rw (busy, same (flight_of w.writer))
          (ground (arith, count-append a w.writer.pending_acks (in_jobs w.jobs)))
  ]

  in_jobs-count :
      (before mine after : List Job)
      → count a (in_jobs (before ++ mine ++ after))
        ≡ count a (in_jobs before) + count a (in_jobs mine) + count a (in_jobs after)
  in_jobs-count [] [] after = omega arith
  in_jobs-count [] (j ∷ mine) after = ground (
    arith,
    in_jobs-count [] mine after,
    count-append a (in_job j) (in_jobs (mine ++ after)),
    count-append a (in_job j) (in_jobs mine),
  )
  in_jobs-count (j ∷ before) mine after = ground (
    arith,
    in_jobs-count before mine after,
    count-append a (in_job j) (in_jobs (before ++ mine ++ after)),
    count-append a (in_job j) (in_jobs before),
  )

  timer_after-count : (flushed : Flushed) → in_job (timer_after flushed) ≡ in_flushed flushed
  unfolding timer_after
  timer_after-count (waiting f) = refl
  timer_after-count (returned acks) = refl

  closing_after-count :
      (flushed : Flushed)
      → count a (in_jobs (closing_after flushed)) + count a (closing_lost flushed)
        ≡ count a (in_flushed flushed)
  unfolding closing_after closing_lost
  closing_after-count (waiting f) = ground (arith, count-append a f.taken.acks [])
  closing_after-count (returned acks) = ground arith

  pub timer_saved-balance :
      (ok : Bool) (now : ℕ) (f : Flight) (before after : List Job) (w : World)
      → w.jobs ≡ before ++ timer_flush f ∷ [] ++ after
      → balance a (timer_saved ok now f before after w) ≡ balance a w
  unfolding timer_saved replace_job
  timer_saved-balance ok now f before after w at =
      let flushed = (save ok now f (disk w)).0 in
      omega (
        arith,
        save-balance ok now f (disk w),
        in_jobs-count before (timer_after flushed ∷ []) after,
        in_jobs-count before (timer_flush f ∷ []) after,
        ap (λ js. count a (in_jobs js)) at,
        ap (λ js. count a js) (timer_after-count flushed),
        count-append a (in_job (timer_after flushed)) [],
        count-append a f.taken.acks [],
      )

  pub closing_saved-balance :
      (ok : Bool) (now : ℕ) (f : Flight) (before after : List Job) (w : World)
      → w.jobs ≡ before ++ closing_flush f ∷ [] ++ after
      → balance a (closing_saved ok now f before after w) ≡ balance a w
  unfolding closing_saved replace_job
  closing_saved-balance ok now f before after w at =
      let flushed = (save ok now f (disk w)).0 in
      omega (
        arith,
        save-balance ok now f (disk w),
        in_jobs-count before (closing_after flushed) after,
        in_jobs-count before (closing_flush f ∷ []) after,
        ap (λ js. count a (in_jobs js)) at,
        closing_after-count flushed,
        count-append a (closing_lost flushed) w.abandoned,
        count-append a f.taken.acks [],
      )

  pub timer_acked-balance :
      (ok : Bool) (done : List Text) (before after : List Job) (w : World)
      → w.jobs ≡ before ++ timer_ack done ∷ [] ++ after
      → balance a (timer_acked ok done before after w) ≡ balance a w
  unfolding timer_acked replace_job acknowledge
  timer_acked-balance ok done before after w at = ground (
    arith,
    in_jobs-count before [] after,
    in_jobs-count before (timer_ack done ∷ []) after,
    ap (λ js. count a (in_jobs js)) at,
    count-append a done w.acknowledged,
    count-append a done w.abandoned,
    count-append a done [],
  )
