-- ===== src/Concox/Frames/Progress.antt =====
-- Every round of `parseConcoxBuffer` that does not wait takes bytes, so that its loop ends; what it
-- leaves over is the end of the buffer, at which it waits.
use fueltracks.Prelude.{
  ℕ, zero, suc, ◌+◌, ◌*◌, ◌^◌, ◌≤◌, ◌≡◌, refl, sym, ap, ◌∙◌, Option, some, [], ◌∷◌, length, drop,
  length-drop, arith,
}
use fueltracks.Js.Buffer.{Bytes, byte}
use fueltracks.Js.Text.{Text}
use fueltracks.Concox.Packets.{ascii_message}
use fueltracks.Concox.Frames.{
  dispatch, packets_of, Round, wait, skip, text, frame, crlf_from, text_round, frame_round, round,
  Parsed, put, parse_loop, parse_concox_buffer,
}

-- how many bytes a round takes
abbrev pub taken : Round → ℕ
taken wait = 0
taken skip = 1
taken (text s n) = n
taken (frame f) = f.size

-- A round that does not wait takes one byte at least, and no more than there are.
abbrev pub Advances : Bytes → Round → Type 0
Advances rest wait = Unit
Advances rest skip = 1 ≤ length rest
Advances rest (text s n) = (1 ≤ n) × (n ≤ length rest)
Advances rest (frame f) = (1 ≤ f.size) × (f.size ≤ length rest)

crlf_from-fits : (i j : ℕ) (rest : Bytes) → crlf_from i rest ≡ some j → j + 2 ≤ i + length rest
unfolding crlf_from
crlf_from-fits i j [] e = cc
crlf_from-fits i j (a ∷ []) e = cc
crlf_from-fits i j (a ∷ b ∷ rest) e = ground (arith, crlf_from-fits (i + 1) j (b ∷ rest))

text_round-Advances : (rest : Bytes) → 2 ≤ length rest → Advances rest (text_round rest)
unfolding text_round
text_round-Advances rest h = grind (arith, crlf_from-fits 0)

frame_round-Advances :
    (length_field frame_size : ℕ) (rest : Bytes)
    → 1 ≤ frame_size
    → 2 ≤ length rest
    → Advances rest (frame_round length_field frame_size rest)
unfolding frame_round
frame_round-Advances length_field frame_size rest h l = ground arith

pub round-Advances : (rest : Bytes) → Advances rest (round rest)
unfolding round
round-Advances rest = ground (
  arith,
  text_round-Advances rest,
  frame_round-Advances 1 (2 + 1 + byte rest 2 + 2) rest,
  frame_round-Advances 2 (2 + 2 + (byte rest 2 * 2 ^ 8 + byte rest 3) + 2 + 2 + 2) rest,
)

module _ (date_parse : Text → Option ℕ) (imei : Option Text) where
  -- how the loop goes on from a round, with the fuel left
  abbrev pub continue : ℕ → Bytes → Round → Parsed
  continue fuel rest wait = record { packets = []; remainder = rest }
  continue fuel rest skip = parse_loop date_parse imei fuel (drop 1 rest)
  continue fuel rest (text s n) =
      put (ascii_message s ∷ []) (parse_loop date_parse imei fuel (drop n rest))
  continue fuel rest (frame f) =
      put (packets_of (dispatch date_parse imei f.protocol f.content f.serial) f.raw)
        (parse_loop date_parse imei fuel (drop f.size rest))

  pub loop-continue :
      (fuel : ℕ) (rest : Bytes)
      → parse_loop date_parse imei (suc fuel) rest ≡ continue fuel rest (round rest)
  unfolding parse_loop
  loop-continue fuel rest = go (round rest)
    where
      go :
          (r : Round)
          → elim r [
            | wait ↦ record { packets = []; remainder = rest }
            | skip ↦ parse_loop date_parse imei fuel (drop 1 rest)
            | text s n ↦ put (ascii_message s ∷ []) (parse_loop date_parse imei fuel (drop n rest))
            | frame f ↦
                put
                  (packets_of (dispatch date_parse imei f.protocol f.content f.serial) f.raw)
                  (parse_loop date_parse imei fuel (drop f.size rest))
          ]
            ≡ continue fuel rest r
      go wait = refl
      go skip = refl
      go (text s n) = refl
      go (frame f) = refl

  continue-enough :
      (f g : ℕ) (rest : Bytes)
      → ((n : ℕ)
          → 1 ≤ n
          → n ≤ length rest
          → parse_loop date_parse imei f (drop n rest) ≡ parse_loop date_parse imei g (drop n rest))
      → (r : Round) → Advances rest r
      → continue f rest r ≡ continue g rest r
  continue-enough f g rest ih wait a = refl
  continue-enough f g rest ih skip a = ih 1 (omega arith) a
  continue-enough f g rest ih (text s n) a = ap (put (ascii_message s ∷ [])) (ih n a.0 a.1)
  continue-enough f g rest ih (frame x) a =
      ap (put (packets_of (dispatch date_parse imei x.protocol x.content x.serial) x.raw))
        (ih x.size a.0 a.1)

  loop-empty : (f : ℕ) → parse_loop date_parse imei f [] ≡ record { packets = []; remainder = [] }
  unfolding parse_loop round
  loop-empty zero = refl
  loop-empty (suc f) = refl

  loop-enough :
      (f g : ℕ) (rest : Bytes)
      → length rest ≤ f
      → length rest ≤ g
      → parse_loop date_parse imei f rest ≡ parse_loop date_parse imei g rest
  loop-enough zero g [] p q = loop-empty zero ∙ sym (loop-empty g)
  loop-enough zero g (x ∷ rest) p q = absurd (omega arith)
  loop-enough (suc f) zero [] p q = loop-empty (suc f) ∙ sym (loop-empty zero)
  loop-enough (suc f) zero (x ∷ rest) p q = absurd (omega arith)
  loop-enough (suc f) (suc g) rest p q =
      loop-continue f rest
      ∙ continue-enough f g rest
          (λ n l h.
            loop-enough f g (drop n rest) (omega (arith, length-drop n rest))
              (omega (arith, length-drop n rest)))
          (round rest) (round-Advances rest)
      ∙ sym (loop-continue g rest)

  -- what the parser makes of a buffer, from its first round and from what is behind that
  abbrev pub Follows : Bytes → Round → Parsed → Type 0
  Follows buffer wait r = r ≡ record { packets = []; remainder = buffer }
  Follows buffer skip r = r ≡ parse_concox_buffer date_parse imei (drop 1 buffer)
  Follows buffer (text s n) r =
      r ≡ put (ascii_message s ∷ []) (parse_concox_buffer date_parse imei (drop n buffer))
  Follows buffer (frame f) r =
      r
      ≡ put (packets_of (dispatch date_parse imei f.protocol f.content f.serial) f.raw)
          (parse_concox_buffer date_parse imei (drop f.size buffer))

  follows :
      (f : ℕ) (rest : Bytes)
      → length rest ≤ suc f
      → (r : Round) → Advances rest r
      → Follows rest r (continue f rest r)
  unfolding parse_concox_buffer
  follows f rest p wait a = refl
  follows f rest p skip a =
      loop-enough f (length (drop 1 rest)) (drop 1 rest) (omega (arith, length-drop 1 rest))
        (omega arith)
  follows f rest p (text s n) a = ap (put (ascii_message s ∷ [])) (
      loop-enough f (length (drop n rest)) (drop n rest) (omega (arith, length-drop n rest))
        (omega arith))
  follows f rest p (frame x) a =
      ap (put (packets_of (dispatch date_parse imei x.protocol x.content x.serial) x.raw)) (
        loop-enough f (length (drop x.size rest)) (drop x.size rest)
          (omega (arith, length-drop x.size rest)) (omega arith))

  -- The parser is the recursion on its rounds, without any bound on their number: a buffer at which a
  -- round waits is left over whole, a skipped byte is dropped, a line of text or a frame is followed
  -- by whatever the bytes behind it give.
  pub parse_concox_buffer-Follows :
      (buffer : Bytes) → Follows buffer (round buffer) (parse_concox_buffer date_parse imei buffer)
  unfolding parse_concox_buffer
  parse_concox_buffer-Follows [] = rw (loop-empty zero) (unfold round in refl)
  parse_concox_buffer-Follows (b ∷ buffer) = rw (loop-continue (length buffer) (b ∷ buffer)) (
      follows (length buffer) (b ∷ buffer) (omega arith) (round (b ∷ buffer))
        (round-Advances (b ∷ buffer)))
