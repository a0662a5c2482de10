-- ===== src/Writer/Settled/Kept.antt =====
-- The writer's steps keep the promise of the acknowledgements.
use fueltracks.Prelude.{
  ℕ, inr, refl, ap₂, sym, ◌∙◌, subst, Bool, true, false, List, [], ◌∷◌, ◌++◌, map, All, All-append,
}
use mathlib.Core.List.{map-append}
use fueltracks.Js.Text.{Text}
use fueltracks.Writer.{Parsed, Point, LatestState, Taken, requeue, points_saved, flush_done}
use fueltracks.Writer.System.{
  Flight, Stage, saving_points, saving_states, Disk, first_stage, Flushed, waiting, returned, save,
  saved_stage,
}
use fueltracks.Writer.Settled.{
  Has, Has-right, All-Has, History, Item, IsItem, item_point, item_state, item_id, Aligned, Log,
  IsSettled, AreSaved, IsFlying,
}
use fueltracks.Writer.Settled.Grown.{Aligned-grows, Grows}

pub Aligned-append :
    (l : Log) (ps qs : List Point) (ss ts : List LatestState) (is js : List Text)
    → Aligned l ps ss is
    → Aligned l qs ts js
    → Aligned l (ps ++ qs) (ss ++ ts) (is ++ js)
Aligned-append l ps qs ss ts is js (xs, p, s, a, known) (ys, q, t, b, more) = (
  xs ++ ys,
  ap₂ (λ u v. u ++ v) p q ∙ sym (map-append item_point xs ys),
  ap₂ (λ u v. u ++ v) s t ∙ sym (map-append item_state xs ys),
  ap₂ (λ u v. u ++ v) a b ∙ sym (map-append item_id xs ys),
  All-append (IsItem l) xs ys known more,
)

items-IsSettled :
    (l : Log) (items : List Item)
    → All (IsItem l) items
    → All (λ p. Has p l.points) (map item_point items)
    → All (λ s. Has s l.states) (map item_state items)
    → All (IsSettled l) (map item_id items)
items-IsSettled l [] known ps ss = tt
items-IsSettled l (i ∷ items) ((handed, parse, answer), known) (p, ps) (s, ss) = (
  (i.entry, refl, handed, inr (inr (i.message, i.vehicle, parse, answer, p, s))),
  items-IsSettled l items known ps ss,
)

acks-IsSettled :
    (l : Log) (ps : List Point) (ss : List LatestState) (is : List Text)
    → Aligned l ps ss is
    → All (λ p. Has p l.points) ps
    → All (λ s. Has s l.states) ss
    → All (IsSettled l) is
acks-IsSettled l ps ss is (items, p, s, a, known) hp hs = subst (All (IsSettled l)) (sym a) (
    items-IsSettled l items known (subst (All (λ x. Has x l.points)) p hp)
      (subst (All (λ x. Has x l.states)) s hs))

pub AreSaved-first : (l : Log) (ps : List Point) → AreSaved l (first_stage ps) ps
unfolding first_stage
AreSaved-first l [] = tt
AreSaved-first l (p ∷ ps) = tt

abbrev pub disk_log : (Text → Parsed) → History → Disk → Log
disk_log json past d = record {
  parse = json;
  handed = past.handed;
  answers = past.answers;
  points = d.saved_points;
  states = d.saved_states;
}

abbrev pub IsFlushed : Log → Flushed → Type 0
IsFlushed l (waiting f) = IsFlying l f
IsFlushed l (returned acks) = All (IsSettled l) acks

abbrev pub DiskAligned : Log → Disk → Type 0
DiskAligned l d = Aligned l d.writer.point_buffer d.writer.state_buffer d.writer.pending_acks

-- What a statement leaves behind.
abbrev pub Leaves : (Text → Parsed) → History → Disk → Flushed × Disk → Type 0
Leaves json past d r =
    Grows (disk_log json past d) (disk_log json past r.1)
    × IsFlushed (disk_log json past r.1) r.0
    × DiskAligned (disk_log json past r.1) r.1

pub Grows-same : (l : Log) → Grows l l
Grows-same l = record {
  same_parse = λ e p h. h;
  more_handed = λ x h. h;
  more_answers = λ x h. h;
  more_points = λ x h. h;
  more_states = λ x h. h;
}

saved_stage-Leaves :
    (json : Text → Parsed) (past : History) (s : Stage) (now : ℕ) (t : Taken) (d : Disk)
    → Aligned (disk_log json past d) t.points t.states t.acks
    → AreSaved (disk_log json past d) s t.points
    → DiskAligned (disk_log json past d) d
    → Leaves json past d (saved_stage s now (record { taken = t; stage = s }) d)
unfolding saved_stage points_saved flush_done
saved_stage-Leaves json past saving_points now t d aligned saved buffers =
    let g : Grows (disk_log json past d)
        (record (disk_log json past d) { points = t.points ++ d.saved_points }) =
      record {
        same_parse = λ e p h. h;
        more_handed = λ x h. h;
        more_answers = λ x h. h;
        more_points = λ x h. Has-right x t.points d.saved_points h;
        more_states = λ x h. h;
      } in
    (
      g,
      (Aligned-grows g t.points t.states t.acks aligned, All-Has t.points d.saved_points),
      Aligned-grows g d.writer.point_buffer d.writer.state_buffer d.writer.pending_acks buffers,
    )
saved_stage-Leaves json past saving_states now t d aligned saved buffers =
    let after = record (disk_log json past d) { states = t.states ++ d.saved_states } in
    let g : Grows (disk_log json past d) after = record {
      same_parse = λ e p h. h;
      more_handed = λ x h. h;
      more_answers = λ x h. h;
      more_points = λ x h. h;
      more_states = λ x h. Has-right x t.states d.saved_states h;
    } in
    (
      g,
      acks-IsSettled after t.points t.states t.acks
          (Aligned-grows g t.points t.states t.acks aligned) saved
          (All-Has t.states d.saved_states),
      Aligned-grows g d.writer.point_buffer d.writer.state_buffer d.writer.pending_acks buffers,
    )

pub save-Leaves :
    (json : Text → Parsed) (past : History) (ok : Bool) (now : ℕ) (f : Flight) (d : Disk)
    → IsFlying (disk_log json past d) f
    → DiskAligned (disk_log json past d) d
    → Leaves json past d (save ok now f d)
unfolding save requeue
save-Leaves json past false now f d (aligned, saved) buffers = (
  Grows-same (disk_log json past d),
  tt,
  Aligned-append (disk_log json past d) f.taken.points d.writer.point_buffer f.taken.states
      d.writer.state_buffer f.taken.acks d.writer.pending_acks aligned buffers,
)
save-Leaves json past true now f d (aligned, saved) buffers =
    saved_stage-Leaves json past f.stage now f.taken d aligned saved buffers
