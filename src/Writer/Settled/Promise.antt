-- ===== src/Writer/Settled/Promise.antt =====
-- The promise of an acknowledgement, over all runs of the writer.
use fueltracks.Prelude.{
  ◌≡◌, inl, inr, refl, sym, subst, Bool, true, false, List, [], ◌∷◌, ◌++◌, All,
}
use fueltracks.Js.Text.{Text}
use fueltracks.Writer.{Parsed, Entry, LatestState, Limits}
use fueltracks.Writer.Vehicles.{Resolution, resolve_vehicle}
use fueltracks.Writer.System.{
  reading, processing, resolving, recording, flushing, acking, Job, timer_ack, closing_flush, World,
  ids,
}
use fueltracks.Writer.Settled.{Has-right, All-Has, History, Log, log, IsJob, IsSound}
use fueltracks.Writer.Settled.Grown.{IsSound-later}
use fueltracks.Writer.Steps.{
  Step, deliver, take, answer, recorded, statement_ended, finished, acks_sent, timer, timer_saves,
  timer_acks, shutdown, closing_saves, Reach, here, next, timer_acked, acknowledge, replace_job,
}
use fueltracks.Writer.Settled.Acknowledged.{
  consumer-at, drop_entry-IsSound, moved-IsSound, take_entry-IsSound, answered-IsSound,
}
use fueltracks.Writer.Settled.Reached.{
  consumer_saved-IsSound, start_job-IsSound, tick-IsSound, parts-at, jobs-around,
  timer_saved-IsSound, closing_saved-IsSound, acknowledge-IsSound,
}

-- The history with more entries, and with one more answer.
abbrev handing : List Entry → History → History
handing entries past = record past { handed = entries ++ past.handed }

abbrev answering : Entry → Resolution → History → History
answering e r past = record past { answers = (e, r) ∷ past.answers }

module _ (json : Text → Parsed) (past : History) where
  handing-IsSound :
      (entries : List Entry) (w : World)
      → IsSound json past w
      → IsSound json (handing entries past) w
  handing-IsSound entries w s =
      IsSound-later w
        (record {
          same_parse = λ e p h. h;
          more_handed = λ x h. Has-right x entries past.handed h;
          more_answers = λ x h. h;
          more_points = λ x h. h;
          more_states = λ x h. h;
        })
        s

  answering-IsSound :
      (e : Entry) (r : Resolution) (w : World)
      → IsSound json past w
      → IsSound json (answering e r past) w
  answering-IsSound e r w s =
      IsSound-later w
        (record {
          same_parse = λ e p h. h;
          more_handed = λ x h. h;
          more_answers = λ x h. inr h;
          more_points = λ x h. h;
          more_states = λ x h. h;
        })
        s

  delivered-IsSound :
      (entries : List Entry) (w : World)
      → IsSound json past w
      → IsSound json
          (handing entries past)
          (record w { consumer = processing entries []; delivered = ids entries ++ w.delivered })
  delivered-IsSound entries w s =
      let known = handing-IsSound entries w s in
      record {
        buffers = known.buffers;
        consumer_sound = (All-Has entries past.handed, tt);
        jobs_sound = known.jobs_sound;
        acknowledged_settled = known.acknowledged_settled;
      }

  acknowledge-log :
      (ok : Bool) (done : List Text) (w : World)
      → log json past w ≡ log json past (acknowledge ok done w)
  unfolding acknowledge
  acknowledge-log true done w = refl
  acknowledge-log false done w = refl

  timer_acked-IsSound :
      (ok : Bool) (done : List Text) (before after : List Job) (w : World)
      → w.jobs ≡ before ++ timer_ack done ∷ [] ++ after
      → IsSound json past w
      → IsSound json past (timer_acked ok done before after w)
  unfolding timer_acked replace_job
  timer_acked-IsSound ok done before after w at s =
      let (ahead, (settled, nothing), behind) =
        parts-at json past w before (timer_ack done ∷ []) after s at in
      let sound : IsSound json past (acknowledge ok done w) =
        acknowledge-IsSound json past ok done w settled s in
      record {
        buffers = sound.buffers;
        consumer_sound = sound.consumer_sound;
        jobs_sound =
            subst (λ (l : Log). All (IsJob l) (before ++ [] ++ after)) (acknowledge-log ok done w)
              (jobs-around json past (log json past w) before [] after ahead tt behind);
        acknowledged_settled = sound.acknowledged_settled;
      }

module _ {json : Text → Parsed} {limits : Limits} {accepts : List LatestState → Bool} where
  -- What a step tells: the entries of a delivery, and the vehicle that is made of an answer.
  abbrev pub told : History → {w u : World} → Step json limits accepts w u → History
  told past (deliver entries at to) = handing entries past
  told past (answer hash found now e m rest acked at to) =
      answering e (resolve_vehicle hash found).0 past
  told past _ = past

  -- What a run tells, behind what was told before it.
  abbrev pub trace : History → {w u : World} → Reach json limits accepts w u → History
  trace past here = past
  trace past (next r step) = told (trace past r) step

  Step-IsSound :
      (past : History) {w u : World} (step : Step json limits accepts w u)
      → IsSound json past w
      → IsSound json (told past step) u
  Step-IsSound past {w} {u} (deliver entries at to) s =
      subst (IsSound json (handing entries past)) (sym to) (delivered-IsSound json past entries w s)
  Step-IsSound past {w} {u} (take e rest done at to) s =
      let settled = consumer-at json past w (processing (e ∷ rest) done) s at in
      subst (IsSound json past) (sym to) (take_entry-IsSound json past e rest done w settled s)
  Step-IsSound past {w} {u} (answer hash found now e m rest done at to) s =
      let r = (resolve_vehicle hash found).0 in
      let told : History = answering e r past in
      let known = answering-IsSound json past e r w s in
      let (taken, batch) = consumer-at json told w (resolving e m rest done) known at in
      subst (IsSound json told) (sym to)
        (answered-IsSound json told limits now r e m rest done w taken (inl refl) batch known)
  Step-IsSound past {w} {u} (recorded e rest done at to) s =
      let ((handed, refused), batch) = consumer-at json past w (recording e rest done) s at in
      subst (IsSound json past) (sym to)
        (drop_entry-IsSound json past e.id rest done w batch (e, refl, handed, inr (inl refused)) s)
  Step-IsSound past {w} {u} (statement_ended ok now f rest done at can to) s =
      let (flying, batch) = consumer-at json past w (flushing f rest done) s at in
      subst (IsSound json past) (sym to)
        (consumer_saved-IsSound json past ok now f rest done w flying batch s)
  Step-IsSound past {w} {u} (finished done at to) s =
      let settled = consumer-at json past w (processing [] done) s at in
      subst (IsSound json past) (sym to) (moved-IsSound json past w (acking done) s settled.1)
  Step-IsSound past {w} {u} (acks_sent ok done at to) s =
      let settled = consumer-at json past w (acking done) s at in
      subst (IsSound json past) (sym to) (
        acknowledge-IsSound json past ok done (record w { consumer = reading }) settled
          (moved-IsSound json past w reading s tt))
  Step-IsSound past {w} {u} (timer now to) s =
      subst (IsSound json past) (sym to) (tick-IsSound json past limits now w s)
  Step-IsSound past {w} {u} (timer_saves ok now f before after at can to) s =
      subst (IsSound json past) (sym to)
        (timer_saved-IsSound json past ok now f before after w at s)
  Step-IsSound past {w} {u} (timer_acks ok done before after at to) s =
      subst (IsSound json past) (sym to) (timer_acked-IsSound json past ok done before after w at s)
  Step-IsSound past {w} {u} (shutdown to) s =
      subst (IsSound json past) (sym to) (start_job-IsSound json past closing_flush w (λ f h. h) s)
  Step-IsSound past {w} {u} (closing_saves ok now f before after at can to) s =
      subst (IsSound json past) (sym to)
        (closing_saved-IsSound json past ok now f before after w at s)

  -- In whatever order the deliveries, the answers, the timer and the shutdown come, and whichever
  -- statements fail, this is kept: every acknowledged id is that of an entry that was handed out, and
  -- that entry is malformed, or `resolveVehicle` made of an answer for it that its IMEI is not
  -- registered, or the row of its message with the vehicle that was found for it is among the saved
  -- points and the one among the saved states; and the three buffers hold the rows and the ids of the
  -- same entries in the same order. What was handed out and answered is that of the run and of what was
  -- known before it.
  pub Reach-IsSound :
      (past : History) {w u : World} (r : Reach json limits accepts w u)
      → IsSound json past w
      → IsSound json (trace past r) u
  Reach-IsSound past here s = s
  Reach-IsSound past (next r step) s = Step-IsSound (trace past r) step (Reach-IsSound past r s)
