-- ===== src/Concox/Frames/Remainder.antt =====
-- What `parseConcoxBuffer` leaves over.
use fueltracks.Prelude.{
  ℕ, zero, suc, ◌+◌, ◌*◌, ◌^◌, ◌≤◌, ◌<◌, ◌≡◌, ◌≢◌, refl, sym, ap, subst, ◌∙◌, Option, [], ◌∷◌, ◌++◌,
  append_assoc, All, length, take, drop, length-drop, length-append, take-append-drop, arith,
}
use fueltracks.Js.Buffer.{Bytes, IsByte, byte}
use fueltracks.Js.Text.{Text}
use fueltracks.Concox.Frames.{
  Round, wait, skip, text, frame, text_round, frame_round, round, Parsed, parse_concox_buffer,
}
use fueltracks.Concox.Frames.Progress.{
  Advances, round-Advances, Follows, parse_concox_buffer-Follows,
}

-- `rest` is the end of the buffer, and a round waits there.
abbrev Leaves : Bytes → Bytes → Type 0
Leaves buffer rest = (consumed : Bytes) × (buffer ≡ consumed ++ rest) × (round rest ≡ wait)

more : (buffer : Bytes) (n : ℕ) (rest : Bytes) → Leaves (drop n buffer) rest → Leaves buffer rest
more buffer n rest l = (
  take n buffer ++ l.0,
  sym (take-append-drop n buffer)
      ∙ ap (◌++◌ (take n buffer)) l.1
      ∙ sym (append_assoc (take n buffer) l.0 rest),
  l.2,
)

module _ (date_parse : Text → Option ℕ) (imei : Option Text) where
  abbrev left : Bytes → Bytes
  left buffer = (parse_concox_buffer date_parse imei buffer).remainder

  go_on :
      (buffer : Bytes) (r : Round)
      → round buffer ≡ r
      → Advances buffer r
      → ((n : ℕ) → 1 ≤ n → n ≤ length buffer → Leaves (drop n buffer) (left (drop n buffer)))
      → (out : Parsed) → Follows date_parse imei buffer r out
      → Leaves buffer out.remainder
  go_on buffer wait e a ih out f = rw f ([], refl, e)
  go_on buffer skip e a ih out f =
      rw f (more buffer 1 (left (drop 1 buffer)) (ih 1 (omega arith) a))
  go_on buffer (text s n) e a ih out f = rw f (more buffer n (left (drop n buffer)) (ih n a.0 a.1))
  go_on buffer (frame x) e a ih out f =
      rw f (more buffer x.size (left (drop x.size buffer)) (ih x.size a.0 a.1))

  Leaves-bound : (k : ℕ) (buffer : Bytes) → length buffer ≤ k → Leaves buffer (left buffer)
  Leaves-bound zero [] h =
      go_on [] (round []) refl (round-Advances []) (λ n l m. absurd (omega arith))
        (parse_concox_buffer date_parse imei []) (parse_concox_buffer-Follows date_parse imei [])
  Leaves-bound zero (b ∷ buffer) h = absurd (omega arith)
  Leaves-bound (suc k) buffer h =
      go_on buffer (round buffer) refl (round-Advances buffer)
        (λ n l m. Leaves-bound k (drop n buffer) (omega (arith, length-drop n buffer)))
        (parse_concox_buffer date_parse imei buffer)
        (parse_concox_buffer-Follows date_parse imei buffer)

  -- At bytes where a round waits the parser takes nothing.
  pub parse-wait :
      (rest : Bytes)
      → round rest ≡ wait
      → parse_concox_buffer date_parse imei rest ≡ record { packets = []; remainder = rest }
  parse-wait rest e =
      subst (λ r. Follows date_parse imei rest r (parse_concox_buffer date_parse imei rest)) e
        (parse_concox_buffer-Follows date_parse imei rest)

-- What is left over is no longer than the buffer.
pub parse-length :
    (date_parse : Text → Option ℕ) (imei : Option Text) (buffer : Bytes)
    → length (parse_concox_buffer date_parse imei buffer).remainder ≤ length buffer
parse-length date_parse imei buffer =
    let rest = (parse_concox_buffer date_parse imei buffer).remainder in
    let (consumed, splits, waits) =
      Leaves-bound date_parse imei (length buffer) buffer (omega arith) in
    omega (arith, ap length splits, length-append consumed rest)

text_round_moves : (rest : Bytes) → text_round rest ≢ wait
unfolding text_round
text_round_moves rest e = ground arith

frame_round_waits :
    (length_field frame_size : ℕ) (rest : Bytes)
    → frame_round length_field frame_size rest ≡ wait
    → length rest < frame_size
unfolding frame_round
frame_round_waits length_field frame_size rest e = ground arith

byte-lt : (rest : Bytes) (i : ℕ) → All IsByte rest → byte rest i < 256
byte-lt [] i h = omega arith
byte-lt (b ∷ rest) zero h = h.0
byte-lt (b ∷ rest) (suc i) h = byte-lt rest i h.1

waits_short : (rest : Bytes) → All IsByte rest → round rest ≡ wait → length rest < 65545
unfolding round
waits_short rest bytes e = ground (
  arith,
  text_round_moves rest,
  frame_round_waits 1 (2 + 1 + byte rest 2 + 2) rest,
  frame_round_waits 2 (2 + 2 + (byte rest 2 * 2 ^ 8 + byte rest 3) + 2 + 2 + 2) rest,
  byte-lt rest 2 bytes,
  byte-lt rest 3 bytes,
)

All-suffix : (xs ys : Bytes) → All IsByte (xs ++ ys) → All IsByte ys
All-suffix [] ys h = h
All-suffix (x ∷ xs) ys h = All-suffix xs ys h.1

-- Of a buffer of bytes the parser leaves over the end, unchanged and shorter than the longest frame
-- (65545 bytes), and parsing what is left over again gives no packet and leaves over the same.
pub parse_concox_buffer-remainder :
    (date_parse : Text → Option ℕ) (imei : Option Text) (buffer : Bytes)
    → All IsByte buffer
    → let rest = (parse_concox_buffer date_parse imei buffer).remainder in
      ((consumed : Bytes) × (buffer ≡ consumed ++ rest))
      × (length rest < 65545)
      × (parse_concox_buffer date_parse imei rest ≡ record { packets = []; remainder = rest })
parse_concox_buffer-remainder date_parse imei buffer bytes =
    let (consumed, splits, waits) =
      Leaves-bound date_parse imei (length buffer) buffer (omega arith) in
    let rest = (parse_concox_buffer date_parse imei buffer).remainder in
    (
      (consumed, splits),
      waits_short rest (All-suffix consumed rest (subst (All IsByte) splits bytes)) waits,
      parse-wait date_parse imei rest waits,
    )
