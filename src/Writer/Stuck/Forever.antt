-- ===== src/Writer/Stuck/Forever.antt =====
-- Such a batch is never saved.
use fueltracks.Prelude.{
  ℕ, ◌≡◌, inl, inr, refl, ap, ◌∙◌, Bool, true, false, ◌||◌, List, [], ◌∷◌, ◌++◌, Bool-cases, arith,
}
use fueltracks.Js.Text.{Text}
use fueltracks.Writer.{
  Parsed, Entry, LatestState, Limits, has_elapsed, requeue, points_saved, flush_done,
}
use fueltracks.Writer.Vehicles.{resolve_vehicle}
use fueltracks.Writer.System.{
  Flight, Stage, saving_points, saving_states, reading, Job, timer_flush, timer_ack, closing_flush,
  World, Disk, drop_entry, Flushed, waiting, returned, save, saved_stage, disk, with_disk,
  consumer_after, consumer_saved, timer_after, closing_after, tick,
}
use fueltracks.Writer.Steps.{
  Step, deliver, take, answer, recorded, statement_ended, finished, acks_sent, timer, timer_saves,
  timer_acks, shutdown, closing_saves, Reach, here, next, timer_saved, closing_saved, timer_acked,
  acknowledge, replace_job, can_run, can_save,
}
use fueltracks.Writer.Stuck.{
  repeats, repeats-left, repeats-right, in_consumer, in_job, in_jobs, in_jobs-parts, in_flushed,
  is_stuck, take_entry-stuck, answered-stuck, start_job-stuck,
}

consumer_after-stuck :
    (flushed : Flushed) (rest : List Entry) (done : List Text)
    → in_consumer (consumer_after flushed rest done) ≡ in_flushed flushed
unfolding consumer_after
consumer_after-stuck (waiting f) rest done = refl
consumer_after-stuck (returned acks) rest done = refl

timer_after-stuck : (flushed : Flushed) → in_job (timer_after flushed) ≡ in_flushed flushed
unfolding timer_after
timer_after-stuck (waiting f) = refl
timer_after-stuck (returned acks) = refl

closing_after-stuck : (flushed : Flushed) → in_jobs (closing_after flushed) ≡ in_flushed flushed
unfolding closing_after
closing_after-stuck (waiting f) = ground arith
closing_after-stuck (returned acks) = refl

acknowledge-stuck :
    (ok : Bool) (done : List Text) (w : World) → is_stuck (acknowledge ok done w) ≡ is_stuck w
unfolding acknowledge
acknowledge-stuck true done w = refl
acknowledge-stuck false done w = refl

timer_acked-stuck :
    (ok : Bool) (done : List Text) (before after : List Job) (w : World)
    → w.jobs ≡ before ++ timer_ack done ∷ [] ++ after
    → is_stuck w ≡ true
    → is_stuck (timer_acked ok done before after w) ≡ true
unfolding timer_acked replace_job acknowledge
timer_acked-stuck ok done before after w at h =
    let out = in_jobs-parts before [] after in
    let held = in_jobs-parts before (timer_ack done ∷ []) after in
    elim ok as (λ (b : Bool). is_stuck (timer_acked b done before after w) ≡ true) [
      | true ↦ ground (arith, ap in_jobs at, out, held)
      | false ↦ ground (arith, ap in_jobs at, out, held)
    ]

tick-stuck :
    (limits : Limits) (now : ℕ) (w : World)
    → is_stuck w ≡ true
    → is_stuck (tick limits now w) ≡ true
unfolding tick
tick-stuck limits now w h = elim (Bool-cases (has_elapsed limits now w.writer)) [
  | inl elapsed ↦ rw elapsed (start_job-stuck timer_flush w (λ f. refl) h)
  | inr early ↦ rw early h
]

-- PostgreSQL refuses to update a row twice in one statement.
abbrev pub Refuses : (List LatestState → Bool) → Type 0
Refuses accepts = (states : List LatestState) → repeats states ≡ true → accepts states ≡ false

module _ (accepts : List LatestState → Bool) (refuses : Refuses accepts) where
  can_run-not :
      (s : Stage) (states : List LatestState)
      → s ≡ saving_states
      → repeats states ≡ true
      → can_run accepts s states ≡ false
  unfolding can_run
  can_run-not saving_points states e h = cc
  can_run-not saving_states [] e h = cc
  can_run-not saving_states (x ∷ states) e h = refuses (x ∷ states) h

  saved_stage-stuck :
      (s : Stage) (now : ℕ) (f : Flight) (d : Disk)
      → can_run accepts s f.taken.states ≡ true
      → (in_flushed (saved_stage s now f d).0 ≡ repeats f.taken.states)
        × ((saved_stage s now f d).1.writer.state_buffer ≡ d.writer.state_buffer)
  unfolding saved_stage points_saved flush_done
  saved_stage-stuck saving_points now f d can = (refl, refl)
  saved_stage-stuck saving_states now f d can =
      (ground (arith, can_run-not saving_states f.taken.states refl), refl)

  save-stuck :
      (ok : Bool) (now : ℕ) (f : Flight) (d : Disk)
      → can_save accepts ok f ≡ true
      → (repeats f.taken.states || repeats d.writer.state_buffer) ≡ true
      → (in_flushed (save ok now f d).0 || repeats (save ok now f d).1.writer.state_buffer) ≡ true
  unfolding save can_save requeue
  save-stuck false now f d can h = ground (
    arith,
    repeats-left f.taken.states d.writer.state_buffer,
    repeats-right f.taken.states d.writer.state_buffer,
  )
  save-stuck true now f d can h = ground (
    arith,
    saved_stage-stuck f.stage now f d,
    ap repeats (saved_stage-stuck f.stage now f d can).1,
  )

  module _ (json : Text → Parsed) (limits : Limits) where
    Step-stuck :
        {w u : World} → Step json limits accepts w u → is_stuck w ≡ true → is_stuck u ≡ true
    unfolding drop_entry consumer_saved timer_saved closing_saved timer_acked replace_job disk
        with_disk
    Step-stuck {w} {u} (deliver entries at to) h = ground (arith, ap is_stuck to, ap in_consumer at)
    Step-stuck {w} {u} (take e rest done at to) h =
        ap is_stuck to ∙ take_entry-stuck json e rest done w at h
    Step-stuck {w} {u} (answer hash found now e m rest done at to) h =
        ap is_stuck to
        ∙ answered-stuck limits now (resolve_vehicle hash found).0 e m rest done w at h
    Step-stuck {w} {u} (recorded e rest done at to) h =
        ground (arith, ap is_stuck to, ap in_consumer at)
    Step-stuck {w} {u} (statement_ended ok now f rest done at can to) h = ground (
      arith,
      ap is_stuck to,
      ap in_consumer at,
      save-stuck ok now f (disk w) can,
      consumer_after-stuck (save ok now f (disk w)).0 rest done,
    )
    Step-stuck {w} {u} (finished done at to) h = ground (arith, ap is_stuck to, ap in_consumer at)
    Step-stuck {w} {u} (acks_sent ok done at to) h = ground (
      arith,
      ap is_stuck to,
      ap in_consumer at,
      acknowledge-stuck ok done (record w { consumer = reading }),
    )
    Step-stuck {w} {u} (timer now to) h = ap is_stuck to ∙ tick-stuck limits now w h
    Step-stuck {w} {u} (timer_saves ok now f before after at can to) h = ground (
      arith,
      ap is_stuck to,
      ap in_jobs at,
      in_jobs-parts before (timer_flush f ∷ []) after,
      in_jobs-parts before (timer_after (save ok now f (disk w)).0 ∷ []) after,
      timer_after-stuck (save ok now f (disk w)).0,
      save-stuck ok now f (disk w) can,
    )
    Step-stuck {w} {u} (timer_acks ok done before after at to) h =
        ap is_stuck to ∙ timer_acked-stuck ok done before after w at h
    Step-stuck {w} {u} (shutdown to) h =
        ap is_stuck to ∙ start_job-stuck closing_flush w (λ f. refl) h
    Step-stuck {w} {u} (closing_saves ok now f before after at can to) h = ground (
      arith,
      ap is_stuck to,
      ap in_jobs at,
      in_jobs-parts before (closing_flush f ∷ []) after,
      in_jobs-parts before (closing_after (save ok now f (disk w)).0) after,
      closing_after-stuck (save ok now f (disk w)).0,
      save-stuck ok now f (disk w) can,
    )

    -- If PostgreSQL refuses a statement that updates one vehicle twice, as it documents, then a batch
    -- with two states of one vehicle, in the buffer or in a flush, is there for ever: whatever the
    -- deliveries, the answers, the timer and the shutdown do, it is in the buffer or in a flush.
    pub Reach-stuck :
        {w u : World} → Reach json limits accepts w u → is_stuck w ≡ true → is_stuck u ≡ true
    Reach-stuck here h = h
    Reach-stuck (next r s) h = Step-stuck s (Reach-stuck r h)
