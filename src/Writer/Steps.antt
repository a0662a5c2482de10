-- ===== src/Writer/Steps.antt =====
-- The steps of the writer, in any order: deliveries, answers of Redis and PostgreSQL, the timer, the
-- shutdown.
use fueltracks.Prelude.{ℕ, ◌≡◌, Bool, true, false, List, [], ◌∷◌, ◌++◌}
use fueltracks.Js.Text.{Text}
use fueltracks.Writer.{Message, Parsed, Entry, LatestState, Limits}
use fueltracks.Writer.Vehicles.{Hash, Found, resolve_vehicle}
use fueltracks.Writer.System.{
  Flight, saving_points, saving_states, reading, processing, resolving, recording, flushing, acking,
  Job, timer_flush, timer_ack, closing_flush, World, ids, take_entry, answered, drop_entry, save,
  disk, with_disk, consumer_saved, timer_after, closing_after, closing_lost, start_flush, start_job,
  tick, Stage,
}

-- Whether PostgreSQL can run the statement for the latest states; no statement is sent for none.
unfoldable pub can_run : (List LatestState → Bool) → Stage → List LatestState → Bool
can_run accepts saving_points states = true
can_run accepts saving_states [] = true
can_run accepts saving_states (s ∷ states) = accepts (s ∷ states)

unfoldable pub can_save : (List LatestState → Bool) → Bool → Flight → Bool
unfolding can_run
can_save accepts false f = true
can_save accepts true f = can_run accepts f.stage f.taken.states

unfoldable pub replace_job : List Job → List Job → List Job → World → World
replace_job before now_there after w = record w { jobs = before ++ now_there ++ after }

unfoldable pub timer_saved : Bool → ℕ → Flight → List Job → List Job → World → World
unfolding disk with_disk
timer_saved ok now f before after w =
    let (flushed, d) = save ok now f (disk w) in
    replace_job before (timer_after flushed ∷ []) after (with_disk d w)

unfoldable pub closing_saved : Bool → ℕ → Flight → List Job → List Job → World → World
unfolding disk with_disk
closing_saved ok now f before after w =
    let (flushed, d) = save ok now f (disk w) in
    record (replace_job before (closing_after flushed) after (with_disk d w)) {
      abandoned = closing_lost flushed ++ w.abandoned;
    }

-- `XACK` of the ids: it removes them from the pending entries, or it fails.
unfoldable pub acknowledge : Bool → List Text → World → World
acknowledge true done w = record w { acknowledged = done ++ w.acknowledged }
acknowledge false done w = record w { abandoned = done ++ w.abandoned }

unfoldable pub timer_acked : Bool → List Text → List Job → List Job → World → World
timer_acked ok done before after w = replace_job before [] after (acknowledge ok done w)

module _ (json : Text → Parsed) (limits : Limits) (accepts : List LatestState → Bool) where
  pub data Step (w : World) : World → Type 0 where
    deliver :
        (entries : List Entry) {u : World}
        → w.consumer ≡ reading
        → u ≡ record w { consumer = processing entries []; delivered = ids entries ++ w.delivered }
        → Step w u
    take :
        (e : Entry) (rest : List Entry) (acked : List Text) {u : World}
        → w.consumer ≡ processing (e ∷ rest) acked
        → u ≡ take_entry json e rest acked w
        → Step w u
    answer :
        (hash : Hash) (found : Found) (now : ℕ) (e : Entry) (m : Message) (rest : List Entry)
        (acked : List Text) {u : World}
        → w.consumer ≡ resolving e m rest acked
        → u ≡ answered limits now (resolve_vehicle hash found).0 e m rest acked w
        → Step w u
    recorded :
        (e : Entry) (rest : List Entry) (acked : List Text) {u : World}
        → w.consumer ≡ recording e rest acked
        → u ≡ drop_entry e.id rest acked w
        → Step w u
    statement_ended :
        (ok : Bool) (now : ℕ) (f : Flight) (rest : List Entry) (acked : List Text) {u : World}
        → w.consumer ≡ flushing f rest acked
        → can_save accepts ok f ≡ true
        → u ≡ consumer_saved ok now f rest acked w
        → Step w u
    finished :
        (acked : List Text) {u : World}
        → w.consumer ≡ processing [] acked
        → u ≡ record w { consumer = acking acked }
        → Step w u
    acks_sent :
        (ok : Bool) (done : List Text) {u : World}
        → w.consumer ≡ acking done
        → u ≡ acknowledge ok done (record w { consumer = reading })
        → Step w u
    timer : (now : ℕ) {u : World} → u ≡ tick limits now w → Step w u
    timer_saves :
        (ok : Bool) (now : ℕ) (f : Flight) (before after : List Job) {u : World}
        → w.jobs ≡ before ++ timer_flush f ∷ [] ++ after
        → can_save accepts ok f ≡ true
        → u ≡ timer_saved ok now f before after w
        → Step w u
    timer_acks :
        (ok : Bool) (done : List Text) (before after : List Job) {u : World}
        → w.jobs ≡ before ++ timer_ack done ∷ [] ++ after
        → u ≡ timer_acked ok done before after w
        → Step w u
    shutdown : {u : World} → u ≡ start_job closing_flush (start_flush w.writer) w → Step w u
    closing_saves :
        (ok : Bool) (now : ℕ) (f : Flight) (before after : List Job) {u : World}
        → w.jobs ≡ before ++ closing_flush f ∷ [] ++ after
        → can_save accepts ok f ≡ true
        → u ≡ closing_saved ok now f before after w
        → Step w u

  pub data Reach (w : World) : World → Type 0 where
    here : Reach w w
    next : {u v : World} → Reach w u → Step u v → Reach w v
