-- ===== src/Writer/Settled/Reached.antt =====
-- An acknowledgement keeps its promise in whatever order the steps of the writer come.
use fueltracks.Prelude.{
  ℕ, ◌≡◌, inl, inr, refl, subst, Bool, true, false, List, [], ◌∷◌, ◌++◌, All, All-append,
  Bool-cases,
}
use fueltracks.Js.Text.{Text}
use fueltracks.Writer.{Parsed, Entry, Limits, has_elapsed, clear_buffers}
use fueltracks.Writer.System.{
  Flight, Job, timer_flush, closing_flush, World, flight_of, start_flush, Flushed, waiting,
  returned, save, disk, with_disk, consumer_after, consumer_saved, timer_after, closing_after,
  start_job, tick,
}
use fueltracks.Writer.Counted.{start_flush-cases}
use fueltracks.Writer.Settled.{
  History, Log, log, IsBatch, IsSettled, IsFlying, IsConsumer, IsJob, IsSound,
}
use fueltracks.Writer.Settled.Grown.{IsBatch-grows, IsSettled-grow, IsConsumer-grows, jobs-grow}
use fueltracks.Writer.Settled.Kept.{disk_log, IsFlushed, Leaves, save-Leaves}
use fueltracks.Writer.Steps.{timer_saved, closing_saved, acknowledge, replace_job}
use fueltracks.Writer.Settled.Acknowledged.{flight_of-IsFlying}

module _ (json : Text → Parsed) (past : History) where
  -- A statement ends: the world with its disk, and what the flush is then.
  saved-world :
      (w : World) (ok : Bool) (now : ℕ) (f : Flight)
      → IsSound json past w
      → IsFlying (log json past w) f
      → Leaves json past (disk w) (save ok now f (disk w))
  unfolding disk
  saved-world w ok now f s flying = save-Leaves json past ok now f (disk w) flying s.buffers

  consumer_after_sound :
      (l : Log) (flushed : Flushed) (rest : List Entry) (done : List Text)
      → IsFlushed l flushed
      → IsBatch l rest done
      → IsConsumer l (consumer_after flushed rest done)
  unfolding consumer_after
  consumer_after_sound l (waiting f) rest done h k = (h, k)
  consumer_after_sound l (returned acks) rest done h (handed, k) =
      (handed, All-append (IsSettled l) done acks k h)

  timer_after_sound :
      (l : Log) (flushed : Flushed) → IsFlushed l flushed → IsJob l (timer_after flushed)
  unfolding timer_after
  timer_after_sound l (waiting f) h = h
  timer_after_sound l (returned acks) h = h

  closing_after_sound :
      (l : Log) (flushed : Flushed) → IsFlushed l flushed → All (IsJob l) (closing_after flushed)
  unfolding closing_after
  closing_after_sound l (waiting f) h = (h, tt)
  closing_after_sound l (returned acks) h = tt

  pub consumer_saved-IsSound :
      (ok : Bool) (now : ℕ) (f : Flight) (rest : List Entry) (done : List Text) (w : World)
      → IsFlying (log json past w) f
      → IsBatch (log json past w) rest done
      → IsSound json past w
      → IsSound json past (consumer_saved ok now f rest done w)
  unfolding consumer_saved with_disk disk
  consumer_saved-IsSound ok now f rest done w flying batch s =
      let r = save ok now f (disk w) in
      let (g, flushed, buffers) = saved-world w ok now f s flying in
      record {
        buffers = buffers;
        consumer_sound =
            consumer_after_sound (disk_log json past r.1) r.0 rest done flushed
              (IsBatch-grows g rest done batch);
        jobs_sound = jobs-grow g w.jobs s.jobs_sound;
        acknowledged_settled = IsSettled-grow g w.acknowledged s.acknowledged_settled;
      }

  pub start_job-IsSound :
      (job : Flight → Job) (w : World)
      → ((f : Flight) → IsFlying (log json past w) f → IsJob (log json past w) (job f))
      → IsSound json past w
      → IsSound json past (start_job job (start_flush w.writer) w)
  unfolding start_job clear_buffers
  start_job-IsSound job w as_job s = elim (start_flush-cases w.writer) [
    | inl idle ↦ rw idle s
    | inr busy ↦ rw busy (record {
      buffers = ([], refl, refl, refl, tt);
      consumer_sound = s.consumer_sound;
      jobs_sound = (as_job (flight_of w.writer) (flight_of-IsFlying json past w s), s.jobs_sound);
      acknowledged_settled = s.acknowledged_settled;
    })
  ]

  pub tick-IsSound :
      (limits : Limits) (now : ℕ) (w : World)
      → IsSound json past w
      → IsSound json past (tick limits now w)
  unfolding tick
  tick-IsSound limits now w s = elim (Bool-cases (has_elapsed limits now w.writer)) [
    | inl elapsed ↦ rw elapsed (start_job-IsSound timer_flush w (λ f h. h) s)
    | inr early ↦ rw early s
  ]

  -- The parts of a list of jobs around one of them.
  All-parts :
      (l : Log) (before mine after : List Job)
      → All (IsJob l) (before ++ mine ++ after)
      → All (IsJob l) before × All (IsJob l) mine × All (IsJob l) after
  All-parts l [] [] after h = (tt, tt, h)
  All-parts l [] (j ∷ mine) after (h, hs) =
      let (none_before, in_mine, behind) = All-parts l [] mine after hs in
      (tt, (h, in_mine), behind)
  All-parts l (j ∷ before) mine after (h, hs) =
      let (ahead, in_mine, behind) = All-parts l before mine after hs in
      ((h, ahead), in_mine, behind)

  pub jobs-around :
      (l : Log) (before mine after : List Job)
      → All (IsJob l) before
      → All (IsJob l) mine
      → All (IsJob l) after
      → All (IsJob l) (before ++ mine ++ after)
  jobs-around l before mine after h k m =
      All-append (IsJob l) (before ++ mine) after (All-append (IsJob l) before mine h k) m

  pub parts-at :
      (w : World) (before mine after : List Job)
      → IsSound json past w
      → w.jobs ≡ before ++ mine ++ after
      → All (IsJob (log json past w)) before
        × All (IsJob (log json past w)) mine
        × All (IsJob (log json past w)) after
  parts-at w before mine after s at =
      All-parts (log json past w) before mine after
        (subst (All (IsJob (log json past w))) at s.jobs_sound)

  pub timer_saved-IsSound :
      (ok : Bool) (now : ℕ) (f : Flight) (before after : List Job) (w : World)
      → w.jobs ≡ before ++ timer_flush f ∷ [] ++ after
      → IsSound json past w
      → IsSound json past (timer_saved ok now f before after w)
  unfolding timer_saved replace_job with_disk disk
  timer_saved-IsSound ok now f before after w at s =
      let (ahead, (flying, nothing), behind) = parts-at w before (timer_flush f ∷ []) after s at in
      let r = save ok now f (disk w) in
      let (g, flushed, buffers) = saved-world w ok now f s flying in
      let l = disk_log json past r.1 in
      record {
        buffers = buffers;
        consumer_sound = IsConsumer-grows g w.consumer s.consumer_sound;
        jobs_sound =
            jobs-around l before (timer_after r.0 ∷ []) after (jobs-grow g before ahead)
              (timer_after_sound l r.0 flushed, tt) (jobs-grow g after behind);
        acknowledged_settled = IsSettled-grow g w.acknowledged s.acknowledged_settled;
      }

  pub closing_saved-IsSound :
      (ok : Bool) (now : ℕ) (f : Flight) (before after : List Job) (w : World)
      → w.jobs ≡ before ++ closing_flush f ∷ [] ++ after
      → IsSound json past w
      → IsSound json past (closing_saved ok now f before after w)
  unfolding closing_saved replace_job with_disk disk
  closing_saved-IsSound ok now f before after w at s =
      let (ahead, (flying, nothing), behind) =
        parts-at w before (closing_flush f ∷ []) after s at in
      let r = save ok now f (disk w) in
      let (g, flushed, buffers) = saved-world w ok now f s flying in
      let l = disk_log json past r.1 in
      record {
        buffers = buffers;
        consumer_sound = IsConsumer-grows g w.consumer s.consumer_sound;
        jobs_sound =
            jobs-around l before (closing_after r.0) after (jobs-grow g before ahead)
              (closing_after_sound l r.0 flushed) (jobs-grow g after behind);
        acknowledged_settled = IsSettled-grow g w.acknowledged s.acknowledged_settled;
      }

  pub acknowledge-IsSound :
      (ok : Bool) (done : List Text) (w : World)
      → All (IsSettled (log json past w)) done
      → IsSound json past w
      → IsSound json past (acknowledge ok done w)
  unfolding acknowledge
  acknowledge-IsSound true done w h s = record {
    buffers = s.buffers;
    consumer_sound = s.consumer_sound;
    jobs_sound = s.jobs_sound;
    acknowledged_settled =
        All-append (IsSettled (log json past w)) done w.acknowledged h s.acknowledged_settled;
  }
  acknowledge-IsSound false done w h s = record {
    buffers = s.buffers;
    consumer_sound = s.consumer_sound;
    jobs_sound = s.jobs_sound;
    acknowledged_settled = s.acknowledged_settled;
  }
