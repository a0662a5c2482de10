-- ===== src/Concox/Frames/Sound.antt =====
-- A frame with damaged content is not taken for a frame.
use fueltracks.Prelude.{
  ℕ, ◌+◌, ◌/◌, ◌^◌, ◌<◌, ◌≡◌, ◌≢◌, refl, sym, ap, ◌∙◌, [], ◌∷◌, ◌++◌, append_assoc, All, All-append,
  length, length-append, ==-false, bit_and, arith,
}
use fueltracks.Prelude.Bits.{bit_and_mask}
use fueltracks.Js.Buffer.{Bytes, IsByte, word}
use fueltracks.Concox.Crc.{crc_itu}
use fueltracks.Concox.Crc.Register.{crc_itu-lt}
use fueltracks.Concox.Crc.Detection.{crc_itu_detects}
use fueltracks.Concox.Acks.{high, low}
use fueltracks.Concox.Acks.Frames.{word-high-low, sum_of}
use fueltracks.Concox.Frames.{skip, round}
use fueltracks.Concox.Frames.Wire.{checked, wire, round-wire}

masked-IsByte : (n : ℕ) → IsByte (bit_and n 0xff)
masked-IsByte n = omega (arith, bit_and_mask 8 n)

checked-split :
    (size protocol : ℕ) (before after : Bytes) (a b s1 s2 : ℕ)
    → checked size protocol (before ++ (a ∷ b ∷ after)) s1 s2
      ≡ (size ∷ protocol ∷ before) ++ (a ∷ b ∷ (after ++ (s1 ∷ s2 ∷ [])))
checked-split size protocol before after a b s1 s2 =
    ap (λ t. size ∷ protocol ∷ t) (append_assoc before (a ∷ b ∷ after) (s1 ∷ s2 ∷ []))

module _ (protocol : ℕ) (before after : Bytes) (serial x u y v : ℕ) where
  -- the frame that was sent, of content `before x u after`
  abbrev pub sent_sum : ℕ
  sent_sum = sum_of (length before + length after + 7) protocol (before ++ (x ∷ u ∷ after)) serial

  -- what arrives: the same frame and check bytes, with `y v` for `x u`
  abbrev pub damaged : Bytes
  damaged =
      wire (length before + length after + 7) protocol (before ++ (y ∷ v ∷ after)) (high serial)
        (low serial) (high sent_sum) (low sent_sum)

  sums_differ :
      x < 256
      → u < 256
      → y < 256
      → v < 256
      → All IsByte after
      → ¬ ((x ≡ y) × (u ≡ v))
      → crc_itu (
          checked
            (length before + length after + 7)
            protocol
            (before ++ (y ∷ v ∷ after))
            (high serial)
            (low serial))
        ≢ sent_sum
  sums_differ hx hu hy hv bytes differ e =
      let size : ℕ = length before + length after + 7 in
      let same =
        crc_itu_detects (size ∷ protocol ∷ before) (after ++ (high serial ∷ low serial ∷ [])) y x v
          u hy hx hv hu
          (All-append IsByte after (high serial ∷ low serial ∷ []) bytes
            (masked-IsByte (serial / 2 ^ 8), (masked-IsByte serial, tt)))
          (ap crc_itu
              (sym (checked-split size protocol before after y v (high serial) (low serial)))
            ∙ e
            ∙ ap crc_itu
                (checked-split size protocol before after x u (high serial) (low serial))) in
      differ (sym same.0, sym same.1)

  -- A frame whose content was damaged in two neighbouring bytes is scanned on, not accepted: no check
  -- bytes of the original fit the changed content.
  pub round-damaged :
      (rest : Bytes)
      → x < 256
      → u < 256
      → y < 256
      → v < 256
      → All IsByte after
      → ¬ ((x ≡ y) × (u ≡ v))
      → round (damaged ++ rest) ≡ skip
  round-damaged rest hx hu hy hv bytes differ =
      let size : ℕ = length before + length after + 7 in
      let content = before ++ (y ∷ v ∷ after) in
      let reads =
        round-wire size protocol content (high serial) (low serial) (high sent_sum) (low sent_sum)
          rest (damaged ++ rest) (omega (arith, length-append before (y ∷ v ∷ after))) refl in
      let sent_word : word (high sent_sum) (low sent_sum) ≡ sent_sum = word-high-low sent_sum (
        crc_itu-lt
          (checked size protocol (before ++ (x ∷ u ∷ after)) (high serial) (low serial))) in
      reads
      ∙ rw
          (
            sent_word,
            ==-false (crc_itu (checked size protocol content (high serial) (low serial))) sent_sum
                (sums_differ hx hu hy hv bytes differ),
          )
          refl
