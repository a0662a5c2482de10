-- ===== src/Concox/Frames/Wire.antt =====
-- The layout of a 0x78 0x78 frame on the wire, and what a round of `parseConcoxBuffer` makes of it.
use fueltracks.Prelude.{
  ℕ, ◌+◌, ◌-◌, ◌≤◌, ◌≡◌, refl, ap, ◌∙◌, true, false, not, [], ◌∷◌, ◌++◌, append_assoc, length,
  get_or, take, drop, length-append, take-append, get_or-append, ltb-false, ◌==◌, if◌then◌else◌,
  arith,
}
use fueltracks.Js.Buffer.{Bytes, byte, word, slice}
use fueltracks.Concox.Crc.{crc_itu}
use fueltracks.Concox.Frames.{skip, frame, frame_parts, frame_round, round}

-- what the sum is taken over: from the length byte to the serial number
abbrev pub checked : ℕ → ℕ → Bytes → ℕ → ℕ → Bytes
checked size protocol content s1 s2 = size ∷ protocol ∷ (content ++ (s1 ∷ s2 ∷ []))

-- a frame with length byte, serial number and check bytes given
abbrev pub wire : ℕ → ℕ → Bytes → ℕ → ℕ → ℕ → ℕ → Bytes
wire size protocol content s1 s2 c1 c2 =
    0x78 ∷ 0x78 ∷ (checked size protocol content s1 s2 ++ (c1 ∷ c2 ∷ 0x0d ∷ 0x0a ∷ []))

frame_round-lem :
    (length_field frame_size : ℕ) (rest : Bytes)
    → frame_size ≤ length rest
    → byte rest (frame_size - 2) ≡ 0x0d
    → byte rest (frame_size - 1) ≡ 0x0a
    → frame_round length_field frame_size rest ≡ (
        if crc_itu (slice 2 (frame_size - 4) rest)
          == word (byte rest (frame_size - 4)) (byte rest (frame_size - 3))
        then frame (frame_parts length_field frame_size rest)
        else skip)
unfolding frame_round
frame_round-lem length_field frame_size rest long cr lf =
    rw (ltb-false (length rest) frame_size long, cr, lf)
      (elim (crc_itu (slice 2 (frame_size - 4) rest)
          == word (byte rest (frame_size - 4)) (byte rest (frame_size - 3)))
        as (λ b.
          (if not b then skip else frame (frame_parts length_field frame_size rest))
          ≡ (if b then frame (frame_parts length_field frame_size rest) else skip)) [
            | true ↦ refl
            | false ↦ refl
          ])

-- The bytes of a buffer that begins with a frame, in two halves.
abbrev head : ℕ → ℕ → Bytes → Bytes
head size protocol content = 0x78 ∷ 0x78 ∷ size ∷ protocol ∷ content

abbrev tail : ℕ → ℕ → ℕ → ℕ → Bytes → Bytes
tail s1 s2 c1 c2 after = s1 ∷ s2 ∷ c1 ∷ c2 ∷ 0x0d ∷ 0x0a ∷ after

wire-split :
    (size protocol : ℕ) (content : Bytes) (s1 s2 c1 c2 : ℕ) (after : Bytes)
    → wire size protocol content s1 s2 c1 c2 ++ after
      ≡ head size protocol content ++ tail s1 s2 c1 c2 after
wire-split size protocol content s1 s2 c1 c2 after =
    ap (λ t. 0x78 ∷ 0x78 ∷ size ∷ protocol ∷ t)
      (ap (λ t. t ++ after) (append_assoc content (s1 ∷ s2 ∷ []) (c1 ∷ c2 ∷ 0x0d ∷ 0x0a ∷ []))
        ∙ append_assoc content (s1 ∷ s2 ∷ c1 ∷ c2 ∷ 0x0d ∷ 0x0a ∷ []) after)

pub length-wire :
    (size protocol : ℕ) (content : Bytes) (s1 s2 c1 c2 : ℕ)
    → length (wire size protocol content s1 s2 c1 c2) ≡ length content + 10
length-wire size protocol content s1 s2 c1 c2 = omega (
  arith,
  length-append (content ++ (s1 ∷ s2 ∷ [])) (c1 ∷ c2 ∷ 0x0d ∷ 0x0a ∷ []),
  length-append content (s1 ∷ s2 ∷ []),
)

module _ (size protocol : ℕ) (content : Bytes) (s1 s2 c1 c2 : ℕ) (after rest : Bytes)
    (fits : size ≡ length content + 5)
    (starts : rest ≡ wire size protocol content s1 s2 c1 c2 ++ after) where
  at_tail :
      (n k : ℕ) → n ≡ length content + 4 + k → byte rest n ≡ get_or (tail s1 s2 c1 c2 after) k 0
  at_tail n k e =
      ap (λ r. byte r n) (starts ∙ wire-split size protocol content s1 s2 c1 c2 after)
      ∙ get_or-append n k (head size protocol content) (tail s1 s2 c1 c2 after) 0 (omega (arith, e))

  long : length content + 10 ≤ length rest
  long = omega (
    arith,
    ap length starts,
    length-append (wire size protocol content s1 s2 c1 c2) after,
    length-wire size protocol content s1 s2 c1 c2,
  )

  whole_slice : slice 0 (2 + 1 + size + 2) rest ≡ wire size protocol content s1 s2 c1 c2
  unfolding slice
  whole_slice =
      ap (take (2 + 1 + size + 2 - 0)) starts
      ∙ take-append (2 + 1 + size + 2 - 0) (wire size protocol content s1 s2 c1 c2) after
          (omega (arith, length-wire size protocol content s1 s2 c1 c2))

  content_slice : slice (2 + 1 + 1) (2 + 1 + size + 2 - 6) rest ≡ content
  unfolding slice
  content_slice =
      ap (λ r. take (2 + 1 + size + 2 - 6 - 4) (drop 4 r))
        (starts ∙ wire-split size protocol content s1 s2 c1 c2 after)
      ∙ take-append (2 + 1 + size + 2 - 6 - 4) content (tail s1 s2 c1 c2 after) (omega arith)

  checked-slice : slice 2 (2 + 1 + size + 2 - 4) rest ≡ checked size protocol content s1 s2
  unfolding slice
  checked-slice =
      ap (λ r. take (2 + 1 + size + 2 - 4 - 2) (drop 2 r))
        (starts
          ∙ ap (λ t. 0x78 ∷ 0x78 ∷ t)
              (append_assoc (checked size protocol content s1 s2) (c1 ∷ c2 ∷ 0x0d ∷ 0x0a ∷ [])
                after))
      ∙ take-append (2 + 1 + size + 2 - 4 - 2) (checked size protocol content s1 s2)
          (c1 ∷ c2 ∷ 0x0d ∷ 0x0a ∷ after) (omega (arith, length-append content (s1 ∷ s2 ∷ [])))

  at_head : (n : ℕ) → byte rest n ≡ byte (head size protocol content ++ tail s1 s2 c1 c2 after) n
  at_head n = ap (λ r. byte r n) (starts ∙ wire-split size protocol content s1 s2 c1 c2 after)

  enters : round rest ≡ frame_round 1 (2 + 1 + size + 2) rest
  unfolding round
  enters =
      let room : length content + 10 ≤ length rest = long in
      rw
        (
          ltb-false (length rest) 2 (omega arith),
          at_head 0,
          at_head 1,
          ltb-false (length rest) 3 (omega arith),
          at_head 2,
        )
        refl

  parts : frame_parts 1 (2 + 1 + size + 2) rest ≡ record {
    protocol = protocol;
    content = content;
    serial = word s1 s2;
    raw = wire size protocol content s1 s2 c1 c2;
    size = length content + 10;
  }
  parts =
      let protocol_byte : byte rest 3 ≡ protocol = at_head 3 in
      let high : byte rest (2 + 1 + size + 2 - 6) ≡ s1 =
        at_tail (2 + 1 + size + 2 - 6) 0 (omega arith) in
      let low : byte rest (2 + 1 + size + 2 - 5) ≡ s2 =
        at_tail (2 + 1 + size + 2 - 5) 1 (omega arith) in
      let sized : 2 + 1 + size + 2 ≡ length content + 10 = omega arith in
      λ i. record {
        protocol = protocol_byte i;
        content = content_slice i;
        serial = word (high i) (low i);
        raw = whole_slice i;
        size = sized i;
      }

  -- A buffer that begins with the layout is read as that frame if the check bytes are its sum, and is
  -- scanned on by one byte if they are not.
  pub round-wire : round rest ≡ (
      if crc_itu (checked size protocol content s1 s2) == word c1 c2
      then frame (record {
        protocol = protocol;
        content = content;
        serial = word s1 s2;
        raw = wire size protocol content s1 s2 c1 c2;
        size = length content + 10;
      })
      else skip)
  round-wire =
      enters
      ∙ frame_round-lem 1 (2 + 1 + size + 2) rest (omega (arith, long))
          (at_tail (2 + 1 + size + 2 - 2) 4 (omega arith))
          (at_tail (2 + 1 + size + 2 - 1) 5 (omega arith))
      ∙ rw
          (
            checked-slice,
            at_tail (2 + 1 + size + 2 - 4) 2 (omega arith),
            at_tail (2 + 1 + size + 2 - 3) 3 (omega arith),
            parts,
          )
          refl
