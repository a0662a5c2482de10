-- ===== src/Writer/Settled/Acknowledged.antt =====
-- The consumer's steps keep the promise of the acknowledgements.
use fueltracks.Prelude.{ℕ, ◌≡◌, inl, inr, refl, subst, List, [], ◌∷◌, ◌++◌, All-append, Bool-cases}
use fueltracks.Js.Text.{Text}
use fueltracks.Writer.{
  Message, Parsed, malformed, null_value, object, Entry, Vehicle, Limits, point_of, state_of,
  buffer_entry, is_due, clear_buffers, take_buffers,
}
use fueltracks.Writer.Vehicles.{Resolution, resolved, unregistered, thrown}
use fueltracks.Writer.System.{
  Consumer, processing, resolving, recording, World, ids, drop_entry, throw_batch, parsed_entry,
  take_entry, parse_payload, receive, flight_of, start_flush, consumer_flush, answered,
}
use fueltracks.Writer.Counted.{start_flush-cases}
use fueltracks.Writer.Settled.{
  Has, History, Item, log, IsBatch, IsTaken, IsSettled, IsFlying, IsConsumer, IsSound,
}
use fueltracks.Writer.Settled.Kept.{Aligned-append, AreSaved-first}

module _ (json : Text → Parsed) (past : History) where
  pub consumer-at :
      (w : World) (c : Consumer)
      → IsSound json past w
      → w.consumer ≡ c
      → IsConsumer (log json past w) c
  consumer-at w c s at = subst (IsConsumer (log json past w)) at s.consumer_sound

  pub drop_entry-IsSound :
      (id : Text) (rest : List Entry) (acked : List Text) (w : World)
      → IsBatch (log json past w) rest acked
      → IsSettled (log json past w) id
      → IsSound json past w
      → IsSound json past (drop_entry id rest acked w)
  unfolding drop_entry
  drop_entry-IsSound id rest acked w (handed, settled) done s = record {
    buffers = s.buffers;
    consumer_sound =
        (handed, All-append (IsSettled (log json past w)) acked (id ∷ []) settled (done, tt));
    jobs_sound = s.jobs_sound;
    acknowledged_settled = s.acknowledged_settled;
  }

  -- The consumer goes elsewhere, and nothing else changes but the counters.
  pub moved-IsSound :
      (w : World) (c : Consumer)
      → IsSound json past w
      → IsConsumer (log json past w) c
      → IsSound json past (record w { consumer = c })
  moved-IsSound w c s h = record {
    buffers = s.buffers;
    consumer_sound = h;
    jobs_sound = s.jobs_sound;
    acknowledged_settled = s.acknowledged_settled;
  }

  pub throw_batch-IsSound :
      (lost : List Text) (w : World) → IsSound json past w → IsSound json past (throw_batch lost w)
  unfolding throw_batch
  throw_batch-IsSound lost w s = record {
    buffers = s.buffers;
    consumer_sound = tt;
    jobs_sound = s.jobs_sound;
    acknowledged_settled = s.acknowledged_settled;
  }

  pub parsed_entry-IsSound :
      (p : Parsed) (e : Entry) (rest : List Entry) (acked : List Text) (w : World)
      → parse_payload json e.payload ≡ p
      → Has e past.handed
      → IsBatch (log json past w) rest acked
      → IsSound json past w
      → IsSound json past (parsed_entry p e rest acked w)
  unfolding parsed_entry
  parsed_entry-IsSound malformed e rest acked w parse handed h s =
      drop_entry-IsSound e.id rest acked w h (e, refl, handed, inl parse) s
  parsed_entry-IsSound null_value e rest acked w parse handed h s =
      throw_batch-IsSound (e.id ∷ ids rest ++ acked) w s
  parsed_entry-IsSound (object m) e rest acked w parse handed h s =
      moved-IsSound w (resolving e m rest acked) s ((handed, parse), h)

  pub take_entry-IsSound :
      (e : Entry) (rest : List Entry) (acked : List Text) (w : World)
      → IsBatch (log json past w) (e ∷ rest) acked
      → IsSound json past w
      → IsSound json past (take_entry json e rest acked w)
  unfolding take_entry receive
  take_entry-IsSound e rest acked w ((handed, later), h) s =
      parsed_entry-IsSound (parse_payload json e.payload) e rest acked
        (record w { writer = receive w.writer }) refl handed (later, h)
        (record {
          buffers = s.buffers;
          consumer_sound = s.consumer_sound;
          jobs_sound = s.jobs_sound;
          acknowledged_settled = s.acknowledged_settled;
        })

  pub flight_of-IsFlying :
      (w : World) → IsSound json past w → IsFlying (log json past w) (flight_of w.writer)
  unfolding flight_of take_buffers
  flight_of-IsFlying w s = (s.buffers, AreSaved-first (log json past w) w.writer.point_buffer)

  pub consumer_flush-IsSound :
      (rest : List Entry) (acked : List Text) (w : World)
      → IsBatch (log json past w) rest acked
      → IsSound json past w
      → IsSound json past (consumer_flush (start_flush w.writer) rest acked w)
  unfolding consumer_flush clear_buffers
  consumer_flush-IsSound rest acked w h s = elim (start_flush-cases w.writer) [
    | inl idle ↦ rw idle (moved-IsSound w (processing rest acked) s h)
    | inr busy ↦ rw busy (record {
      buffers = ([], refl, refl, refl, tt);
      consumer_sound = (flight_of-IsFlying w s, h);
      jobs_sound = s.jobs_sound;
      acknowledged_settled = s.acknowledged_settled;
    })
  ]

  pub buffered-IsSound :
      (e : Entry) (m : Message) (v : Vehicle) (w : World)
      → IsTaken (log json past w) e m
      → Has (e, resolved v) past.answers
      → IsSound json past w
      → IsSound json past (record w { writer = buffer_entry e.id m v w.writer })
  unfolding buffer_entry point_of state_of
  buffered-IsSound e m v w (handed, parse) answer s =
      let item : Item = record { entry = e; message = m; vehicle = v } in
      record {
        buffers =
            Aligned-append (log json past w) w.writer.point_buffer (point_of m v ∷ [])
              w.writer.state_buffer (state_of m v ∷ []) w.writer.pending_acks (e.id ∷ []) s.buffers
              (item ∷ [], refl, refl, refl, ((handed, parse, answer), tt));
        consumer_sound = s.consumer_sound;
        jobs_sound = s.jobs_sound;
        acknowledged_settled = s.acknowledged_settled;
      }

  pub answered-IsSound :
      (limits : Limits) (now : ℕ) (r : Resolution) (e : Entry) (m : Message) (rest : List Entry)
      (acked : List Text) (w : World)
      → IsTaken (log json past w) e m
      → Has (e, r) past.answers
      → IsBatch (log json past w) rest acked
      → IsSound json past w
      → IsSound json past (answered limits now r e m rest acked w)
  unfolding answered
  answered-IsSound limits now (resolved v) e m rest acked w (handed, parse) answer h s =
      let held : World = record w { writer = buffer_entry e.id m v w.writer } in
      let sound : IsSound json past held = buffered-IsSound e m v w (handed, parse) answer s in
      elim (Bool-cases (is_due limits now held.writer)) [
        | inl due ↦ rw due (consumer_flush-IsSound rest acked held h sound)
        | inr early ↦ rw early (moved-IsSound held (processing rest acked) sound h)
      ]
  answered-IsSound limits now unregistered e m rest acked w (handed, parse) answer h s =
      moved-IsSound w (recording e rest acked) s ((handed, answer), h)
  answered-IsSound limits now thrown e m rest acked w (handed, parse) answer h s =
      throw_batch-IsSound (e.id ∷ ids rest ++ acked) w s
