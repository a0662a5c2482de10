-- ===== src/Writer/Settled/Grown.antt =====
-- What is settled stays so when more is known and more is saved.
use fueltracks.Prelude.{◌≡◌, inl, inr, List, All}
use fueltracks.Js.Text.{Text}
use fueltracks.Writer.{Parsed, malformed, object, Entry, Point, LatestState}
use fueltracks.Writer.Vehicles.{Resolution, resolved, unregistered}
use fueltracks.Writer.System.{
  Flight, Stage, saving_points, saving_states, Consumer, reading, processing, resolving, recording,
  flushing, acking, Job, timer_flush, timer_ack, closing_flush, World, parse_payload,
}
use fueltracks.Writer.Settled.{
  Has, All-weaken, History, point_row, state_row, Log, log, Item, IsItem, Aligned, IsDone,
  IsSettled, AreSaved, IsFlying, IsBatch, IsConsumer, IsJob, IsSound,
}

-- The log only grows.
pub record Grows (l m : Log) : Type 0 where
  pub same_parse :
      (e : Entry) (p : Parsed)
      → parse_payload l.parse e.payload ≡ p
      → parse_payload m.parse e.payload ≡ p
  pub more_handed : (x : Entry) → Has x l.handed → Has x m.handed
  pub more_answers : (x : Entry × Resolution) → Has x l.answers → Has x m.answers
  pub more_points : (x : Point) → Has x l.points → Has x m.points
  pub more_states : (x : LatestState) → Has x l.states → Has x m.states

module _ {l m : Log} (g : Grows l m) where
  IsDone-grows : (e : Entry) → IsDone l e → IsDone m e
  IsDone-grows e (inl p) = inl (g.same_parse e malformed p)
  IsDone-grows e (inr (inl h)) = inr (inl (g.more_answers (e, unregistered) h))
  IsDone-grows e (inr (inr (x, v, parse, answer, p, s))) = inr (
      inr (
        x,
        v,
        g.same_parse e (object x) parse,
        g.more_answers (e, resolved v) answer,
        g.more_points (point_row x v) p,
        g.more_states (state_row x v) s,
      ))

  pub IsSettled-grows : (id : Text) → IsSettled l id → IsSettled m id
  IsSettled-grows id (e, same, handed, done) =
      (e, same, g.more_handed e handed, IsDone-grows e done)

  pub IsSettled-grow : (xs : List Text) → All (IsSettled l) xs → All (IsSettled m) xs
  IsSettled-grow xs h = All-weaken IsSettled-grows xs h

  IsItem-grows : (i : Item) → IsItem l i → IsItem m i
  IsItem-grows i (handed, parse, answer) = (
    g.more_handed i.entry handed,
    g.same_parse i.entry (object i.message) parse,
    g.more_answers (i.entry, resolved i.vehicle) answer,
  )

  pub Aligned-grows :
      (ps : List Point) (ss : List LatestState) (is : List Text)
      → Aligned l ps ss is
      → Aligned m ps ss is
  Aligned-grows ps ss is (items, p, s, a, known) =
      (items, p, s, a, All-weaken IsItem-grows items known)

  AreSaved-grows : (s : Stage) (ps : List Point) → AreSaved l s ps → AreSaved m s ps
  AreSaved-grows saving_points ps h = tt
  AreSaved-grows saving_states ps h = All-weaken g.more_points ps h

  pub IsFlying-grows : (f : Flight) → IsFlying l f → IsFlying m f
  IsFlying-grows f (aligned, saved) = (
    Aligned-grows f.taken.points f.taken.states f.taken.acks aligned,
    AreSaved-grows f.stage f.taken.points saved,
  )

  pub IsBatch-grows :
      (rest : List Entry) (acked : List Text) → IsBatch l rest acked → IsBatch m rest acked
  IsBatch-grows rest acked (handed, settled) =
      (All-weaken g.more_handed rest handed, IsSettled-grow acked settled)

  pub IsConsumer-grows : (c : Consumer) → IsConsumer l c → IsConsumer m c
  IsConsumer-grows reading h = tt
  IsConsumer-grows (processing rest acked) h = IsBatch-grows rest acked h
  IsConsumer-grows (resolving e x rest acked) ((handed, parse), h) =
      ((g.more_handed e handed, g.same_parse e (object x) parse), IsBatch-grows rest acked h)
  IsConsumer-grows (recording e rest acked) ((handed, answer), h) = (
    (g.more_handed e handed, g.more_answers (e, unregistered) answer),
    IsBatch-grows rest acked h,
  )
  IsConsumer-grows (flushing f rest acked) (h, k) = (IsFlying-grows f h, IsBatch-grows rest acked k)
  IsConsumer-grows (acking acked) h = IsSettled-grow acked h

  IsJob-grows : (j : Job) → IsJob l j → IsJob m j
  IsJob-grows (timer_flush f) h = IsFlying-grows f h
  IsJob-grows (timer_ack done) h = IsSettled-grow done h
  IsJob-grows (closing_flush f) h = IsFlying-grows f h

  pub jobs-grow : (js : List Job) → All (IsJob l) js → All (IsJob m) js
  jobs-grow js h = All-weaken IsJob-grows js h

-- More is known.
pub IsSound-later :
    {json : Text → Parsed} {past later : History} (w : World)
    → Grows (log json past w) (log json later w)
    → IsSound json past w
    → IsSound json later w
IsSound-later w g s = record {
  buffers =
      Aligned-grows g w.writer.point_buffer w.writer.state_buffer w.writer.pending_acks s.buffers;
  consumer_sound = IsConsumer-grows g w.consumer s.consumer_sound;
  jobs_sound = jobs-grow g w.jobs s.jobs_sound;
  acknowledged_settled = IsSettled-grow g w.acknowledged s.acknowledged_settled;
}
