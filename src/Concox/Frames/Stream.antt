-- ===== src/Concox/Frames/Stream.antt =====
-- What `parseConcoxBuffer` makes of a part of a stream of built frames.
use fueltracks.Prelude.{
  ℕ, zero, suc, ◌+◌, ◌^◌, ◌≤◌, ◌<◌, ◌≡◌, ◌≢◌, refl, sym, ap, ap₂, ◌∙◌, false, inl, inr, Option,
  List, [], ◌∷◌, ◌++◌, length, drop, length-append, All, ltb, ltb→lt, lt→ltb, Bool-cases, arith,
}
use fueltracks.Js.Buffer.{Bytes, byte}
use fueltracks.Js.Text.{Text}
use fueltracks.Concox.Acks.{high, low, build_concox_frame}
use fueltracks.Concox.Acks.Frames.{sum_of, build_concox_frame-summed}
use fueltracks.Concox.Packets.{Packet}
use fueltracks.Concox.Frames.{
  dispatch, packets_of, Frame, wait, frame, frame_round, round, Parsed, put, parse_concox_buffer,
}
use fueltracks.Concox.Frames.Wire.{wire}
use fueltracks.Concox.Frames.Remainder.{parse-wait}
use fueltracks.Concox.Frames.RoundTrip.{
  found, round-build_concox_frame, length-build_concox_frame, parse-build_concox_frame,
}

-- what a device sends in one frame
pub record Message : Type 0 where
  pub protocol : ℕ
  pub content : Bytes
  pub serial : ℕ

abbrev pub IsSendable : Message → Type 0
IsSendable m = (length m.content ≤ 250) × (m.serial < 2 ^ 16)

abbrev pub sent : Message → Bytes
sent m = build_concox_frame m.protocol m.content m.serial

-- the bytes of the messages, one after the other
unfoldable pub stream : List Message → Bytes
stream [] = []
stream (m ∷ ms) = sent m ++ stream ms

get_or-left : (i : ℕ) (xs ys : Bytes) → i < length xs → byte xs i ≡ byte (xs ++ ys) i
get_or-left i [] ys h = absurd (omega arith)
get_or-left zero (x ∷ xs) ys h = refl
get_or-left (suc i) (x ∷ xs) ys h = get_or-left i xs ys (omega (arith, h))

no_tail : (xs ys : Bytes) → length (xs ++ ys) ≤ length xs → ys ≡ []
no_tail xs [] h = refl
no_tail xs (y ∷ ys) h = absurd (omega (arith, length-append xs (y ∷ ys)))

frame_round-short :
    (length_field frame_size : ℕ) (rest : Bytes)
    → length rest < frame_size
    → frame_round length_field frame_size rest ≡ wait
unfolding frame_round
frame_round-short length_field frame_size rest h = rw (lt→ltb (length rest) frame_size h) refl

-- a part of a frame waits for the rest of it
round-part :
    (m : Message) (part missing : Bytes)
    → length m.content ≤ 250
    → sent m ≡ part ++ missing
    → length part < length m.content + 10
    → round part ≡ wait
unfolding round
round-part m part missing fits e short =
    let size : ℕ = length m.content + 5 in
    let sum = sum_of size m.protocol m.content m.serial in
    let whole = sym e ∙ build_concox_frame-summed m.protocol m.content m.serial fits in
    let at : (i : ℕ)
        → i < length part
        → byte part i
          ≡ byte
              (wire size m.protocol m.content (high m.serial) (low m.serial) (high sum) (low sum))
              i =
      λ i h. get_or-left i part missing h ∙ ap (λ r. byte r i) whole in
    let second = at 2 in
    ground (arith, at 0, at 1, second, frame_round-short 1 (2 + 1 + byte part 2 + 2) part)

++-cancel : (xs ys zs : Bytes) → xs ++ ys ≡ xs ++ zs → ys ≡ zs
++-cancel [] ys zs e = e
++-cancel (x ∷ xs) ys zs e = ++-cancel xs ys zs (ap (drop 1) e)

ltb-le : (m n : ℕ) → ltb m n ≡ false → n ≤ m
ltb-le m n e = ground arith

-- If what is there is as long as the frame, it begins with the frame.
begins :
    (xs ys part missing : Bytes)
    → part ++ missing ≡ xs ++ ys
    → length xs ≤ length part
    → (later : Bytes) × (part ≡ xs ++ later) × (later ++ missing ≡ ys)
begins [] ys part missing e h = (part, refl, e)
begins (x ∷ xs) ys [] missing e h = absurd (omega (arith, h))
begins (x ∷ xs) ys (p ∷ part) missing e h =
    let (later, same, rest) = begins xs ys part missing (ap (drop 1) e) (omega (arith, h)) in
    (later, ap₂ (λ a t. a ∷ t) (ap (λ t. byte t 0) e) same, rest)

-- If it is shorter, it is a part of the frame.
part_of :
    (xs ys part missing : Bytes)
    → part ++ missing ≡ xs ++ ys
    → length part ≤ length xs
    → (lacking : Bytes) × (xs ≡ part ++ lacking)
part_of xs ys [] missing e h = (xs, refl)
part_of [] ys (p ∷ part) missing e h = absurd (omega (arith, h))
part_of (x ∷ xs) ys (p ∷ part) missing e h =
    let (lacking, same) = part_of xs ys part missing (ap (drop 1) e) (omega (arith, h)) in
    (lacking, ap₂ (λ a t. a ∷ t) (ap (λ t. byte t 0) (sym e)) same)

module _ (date_parse : Text → Option ℕ) (imei : Option Text) where
  abbrev parse : Bytes → Parsed
  parse buffer = parse_concox_buffer date_parse imei buffer

  -- the packets of the messages, as the dispatcher makes them
  unfoldable pub expected : List Message → List Packet
  expected [] = []
  expected (m ∷ ms) =
      packets_of (dispatch date_parse imei m.protocol m.content m.serial) (sent m) ++ expected ms

  -- What is parsed of a stream of which only `part` is there: a group of messages that are complete, and
  -- less than a frame that waits.
  abbrev pub Split : List Message → Bytes → Bytes → Type 0
  Split ms part missing =
      (group : List Message) × (rest : Bytes) × (later : List Message) × (parse part
        ≡ record { packets = expected group; remainder = rest })
      × (round rest ≡ wait)
      × (length rest < 260)
      × (rest ++ missing ≡ stream later)
      × All IsSendable later
      × (ms ≡ group ++ later)

  pub split :
      (ms : List Message) (part missing : Bytes)
      → All IsSendable ms
      → part ++ missing ≡ stream ms
      → Split ms part missing
  unfolding stream round expected
  split [] [] missing ok e =
      ([], [], [], parse-wait date_parse imei [] refl, refl, omega arith, e, tt, refl)
  split [] (p ∷ part) missing ok e = absurd (omega (arith, ap length e))
  split (m ∷ ms) part missing (ok, oks) e =
      elim (Bool-cases (ltb (length part) (length (sent m)))) [
        | inl short ↦
            let less = ltb→lt (length part) (length (sent m)) short in
            let whole = length-build_concox_frame m.protocol m.content m.serial ok.0 in
            let (lacking, same) =
              part_of (sent m) (stream ms) part missing e (omega (arith, less)) in
            let waits = round-part m part lacking ok.0 same (omega (arith, less, whole)) in
            (
              [],
              part,
              m ∷ ms,
              parse-wait date_parse imei part waits,
              waits,
              omega (arith, less, whole, ok.0),
              e,
              (ok, oks),
              refl,
            )
        | inr enough ↦
            let (after, same, e_after) =
              begins (sent m) (stream ms) part missing e
                (ltb-le (length part) (length (sent m)) enough) in
            let (group, rest, later, parsed, waits, short, joins, fine, says) =
              split ms after missing oks e_after in
            let own =
              packets_of (dispatch date_parse imei m.protocol m.content m.serial) (sent m) in
            (
              m ∷ group,
              rest,
              later,
              ap parse same
                  ∙ parse-build_concox_frame m.protocol m.content m.serial ok.0 date_parse imei
                      after ok.1
                  ∙ ap (put own) parsed,
              waits,
              short,
              joins,
              fine,
              ap (λ l. m ∷ l) says,
            )
      ]

frame-not-wait : (f : Frame) → frame f ≢ wait
frame-not-wait f e = cc

-- What waits is no message.
pub waits-empty :
    (ms : List Message) (buffer : Bytes)
    → All IsSendable ms
    → round buffer ≡ wait
    → buffer ≡ stream ms
    → (ms ≡ []) × (buffer ≡ [])
unfolding stream
waits-empty [] buffer ok waits e = (refl, e)
waits-empty (m ∷ ms) buffer ok waits e = absurd (
    frame-not-wait (found m.protocol m.content m.serial) (
      sym (round-build_concox_frame m.protocol m.content m.serial ok.0.0 (stream ms) ok.0.1)
      ∙ ap round (sym e)
      ∙ waits))
