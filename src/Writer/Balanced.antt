-- ===== src/Writer/Balanced.antt =====
-- No step of the writer loses an entry or takes it twice.
use fueltracks.Prelude.{
  ℕ, ◌+◌, ◌≡◌, refl, sym, ap, ◌∙◌, inl, inr, Bool, true, false, List, [], ◌∷◌, ◌++◌, arith,
}
use fueltracks.Js.Text.{Text}
use fueltracks.Writer.{Parsed, Message, Entry, LatestState, Limits, buffer_entry}
use fueltracks.Writer.Vehicles.{Resolution, resolved, unregistered, thrown, resolve_vehicle}
use fueltracks.Writer.System.{
  Flight, timer_flush, closing_flush, Job, World, ids, take_entry, answered, drop_entry,
  consumer_saved, start_flush, start_job, tick, throw_batch, consumer_flush, Consumer, reading,
  processing, resolving, recording, flushing, acking,
}
use fueltracks.Writer.Steps.{
  Step, deliver, take, answer, recorded, statement_ended, finished, acks_sent, timer, timer_saves,
  timer_acks, shutdown, closing_saves, Reach, here, next, timer_saved, closing_saved, timer_acked,
  acknowledge, replace_job,
}
use fueltracks.Writer.Counted.{
  count, count-append, in_batch, balance, IsBalanced, others, start_flush-cases, take_entry-balance,
  answered-balance, consumer_saved-balance, start_job-balance, timer_saved-balance,
  closing_saved-balance, timer_acked-balance,
}

consumer_flush-delivered :
    (rest : List Entry) (acked : List Text) (w : World)
    → (consumer_flush (start_flush w.writer) rest acked w).delivered ≡ w.delivered
unfolding consumer_flush
consumer_flush-delivered rest acked w = elim (start_flush-cases w.writer) [
  | inl idle ↦ rw idle refl
  | inr busy ↦ rw busy refl
]

start_job-delivered :
    (job : Flight → Job) (w : World)
    → (start_job job (start_flush w.writer) w).delivered ≡ w.delivered
unfolding start_job
start_job-delivered job w = elim (start_flush-cases w.writer) [
  | inl idle ↦ rw idle refl
  | inr busy ↦ rw busy refl
]

take_entry-delivered :
    (json : Text → Parsed) (e : Entry) (rest : List Entry) (acked : List Text) (w : World)
    → (take_entry json e rest acked w).delivered ≡ w.delivered
unfolding take_entry drop_entry throw_batch
take_entry-delivered json e rest acked w = ground arith

answered-delivered :
    (limits : Limits) (now : ℕ) (r : Resolution) (e : Entry) (m : Message) (rest : List Entry)
    (acked : List Text) (w : World)
    → (answered limits now r e m rest acked w).delivered ≡ w.delivered
unfolding answered throw_batch
answered-delivered limits now (resolved v) e m rest acked w =
    let buffered = record w { writer = buffer_entry e.id m v w.writer } in
    ground (arith, consumer_flush-delivered rest acked buffered)
answered-delivered limits now unregistered e m rest acked w = refl
answered-delivered limits now thrown e m rest acked w = refl

acknowledge-balance :
    (a : Text) (ok : Bool) (done : List Text) (w : World)
    → balance a (acknowledge ok done w) ≡ balance a w + count a done
unfolding acknowledge
acknowledge-balance a true done w = omega (arith, count-append a done w.acknowledged)
acknowledge-balance a false done w = omega (arith, count-append a done w.abandoned)

acknowledge-delivered :
    (ok : Bool) (done : List Text) (w : World) → (acknowledge ok done w).delivered ≡ w.delivered
unfolding acknowledge
acknowledge-delivered true done w = refl
acknowledge-delivered false done w = refl

tick-kept :
    (limits : Limits) (now : ℕ) (a : Text) (w : World)
    → (balance a (tick limits now w) ≡ balance a w) × ((tick limits now w).delivered ≡ w.delivered)
unfolding tick
tick-kept limits now a w = ground (
  arith,
  start_job-balance a timer_flush w (λ (f : Flight). refl),
  start_job-delivered timer_flush w,
)

-- A step that keeps the balance and the deliveries keeps the equation.
keeps :
    (a : Text) (w v u : World)
    → u ≡ v
    → v.delivered ≡ w.delivered
    → balance a v ≡ balance a w
    → count a w.delivered ≡ balance a w
    → count a u.delivered ≡ balance a u
keeps a w v u to same kept b =
    ap (λ (x : World). count a x.delivered) to
    ∙ ap (count a) same
    ∙ b
    ∙ sym kept
    ∙ sym (ap (balance a) to)

-- What the world holds, where it is known what the consumer is at.
balance-at :
    (a : Text) (w : World) (c : Consumer)
    → w.consumer ≡ c
    → others a w + count a (in_batch c) ≡ balance a w
balance-at a w c at = omega (arith, ap (λ (x : Consumer). count a (in_batch x)) at)

module _ (json : Text → Parsed) (limits : Limits) (accepts : List LatestState → Bool) where
  Step-IsBalanced : {w u : World} → Step json limits accepts w u → IsBalanced w → IsBalanced u
  unfolding drop_entry consumer_saved timer_saved closing_saved timer_acked replace_job
  Step-IsBalanced {w} {u} (deliver entries at to) b a =
      ap (λ (x : World). count a x.delivered) to
      ∙ count-append a (ids entries) w.delivered
      ∙ omega (arith, b a, balance-at a w reading at, count-append a (ids entries) [])
      ∙ sym (ap (balance a) to)
  Step-IsBalanced {w} {u} (take e rest acked at to) b a =
      keeps a w (take_entry json e rest acked w) u to (take_entry-delivered json e rest acked w)
        (take_entry-balance a json e rest acked w ∙ balance-at a w (processing (e ∷ rest) acked) at)
        (b a)
  Step-IsBalanced {w} {u} (answer hash found now e m rest acked at to) b a =
      let r = (resolve_vehicle hash found).0 in
      keeps a w (answered limits now r e m rest acked w) u to
        (answered-delivered limits now r e m rest acked w)
        (answered-balance a limits now r e m rest acked w
          ∙ balance-at a w (resolving e m rest acked) at)
        (b a)
  Step-IsBalanced {w} {u} (recorded e rest acked at to) b a =
      keeps a w (drop_entry e.id rest acked w) u to refl
        (omega (
          arith,
          balance-at a w (recording e rest acked) at,
          count-append a (ids rest) (acked ++ e.id ∷ []),
          count-append a acked (e.id ∷ []),
          count-append a (ids rest) acked,
        ))
        (b a)
  Step-IsBalanced {w} {u} (statement_ended ok now f rest acked at can to) b a =
      keeps a w (consumer_saved ok now f rest acked w) u to refl
        (consumer_saved-balance a ok now f rest acked w ∙ balance-at a w (flushing f rest acked) at)
        (b a)
  Step-IsBalanced {w} {u} (finished acked at to) b a =
      keeps a w (record w { consumer = acking acked }) u to refl
        (omega (arith, balance-at a w (processing [] acked) at)) (b a)
  Step-IsBalanced {w} {u} (acks_sent ok done at to) b a =
      let idle = record w { consumer = reading } in
      keeps a w (acknowledge ok done idle) u to (acknowledge-delivered ok done idle)
        (omega (arith, acknowledge-balance a ok done idle, balance-at a w (acking done) at)) (b a)
  Step-IsBalanced {w} {u} (timer now to) b a =
      let (kept, same) = tick-kept limits now a w in
      keeps a w (tick limits now w) u to same kept (b a)
  Step-IsBalanced {w} {u} (timer_saves ok now f before after at can to) b a =
      keeps a w (timer_saved ok now f before after w) u to refl
        (timer_saved-balance a ok now f before after w at) (b a)
  Step-IsBalanced {w} {u} (timer_acks ok done before after at to) b a =
      keeps a w (timer_acked ok done before after w) u to (acknowledge-delivered ok done w)
        (timer_acked-balance a ok done before after w at) (b a)
  Step-IsBalanced {w} {u} (shutdown to) b a =
      keeps a w (start_job closing_flush (start_flush w.writer) w) u to
        (start_job-delivered closing_flush w)
        (start_job-balance a closing_flush w (λ (f : Flight). refl)) (b a)
  Step-IsBalanced {w} {u} (closing_saves ok now f before after at can to) b a =
      keeps a w (closing_saved ok now f before after w) u to refl
        (closing_saved-balance a ok now f before after w at) (b a)

  -- In whatever order the deliveries, the answers, the timer and the shutdown come, and whichever
  -- statements fail: from a world where it is so, every entry was delivered exactly as often as it is
  -- acknowledged, abandoned (its acknowledgement failed, its batch threw, or the shutdown saved it),
  -- or in one hand: the buffer, a flush that waits, the consumer's batch or its acknowledgements.
  pub Reach-IsBalanced : {w u : World} → Reach json limits accepts w u → IsBalanced w → IsBalanced u
  Reach-IsBalanced here b = b
  Reach-IsBalanced (next r s) b = Step-IsBalanced s (Reach-IsBalanced r b)
