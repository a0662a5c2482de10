-- ===== src/Concox/Acks/Frames.antt =====
-- What the builders build: the frame layout, with the right check bytes.
use fueltracks.Prelude.{
  ℕ, ◌+◌, ◌/◌, ◌%◌, ◌^◌, ◌≤◌, ◌<◌, ◌≡◌, refl, sym, ap, ap₂, ◌∙◌, [], ◌∷◌, append_assoc, bit_and,
  length, arith,
}
use fueltracks.Prelude.Bits.{bit_and_mask}
use fueltracks.Js.Buffer.{Bytes, word, word-sum}
use fueltracks.Concox.Crc.{crc_itu}
use fueltracks.Concox.Acks.{
  high, low, build_login_ack, build_heartbeat_ack, build_alarm_ack, build_concox_frame,
}
use fueltracks.Concox.Frames.Wire.{checked, wire}

high-eq : (n : ℕ) → n < 2 ^ 16 → high n ≡ n / 256
high-eq n h = bit_and_mask 8 (n / 2 ^ 8) ∙ omega arith

low-eq : (n : ℕ) → low n ≡ n % 256
low-eq n = bit_and_mask 8 n

-- The two bytes of a number give it back.
pub word-high-low : (n : ℕ) → n < 2 ^ 16 → word (high n) (low n) ≡ n
word-high-low n h =
    ap₂ word (high-eq n h) (low-eq n) ∙ word-sum (n / 256) (n % 256) (omega arith) ∙ omega arith

abbrev pub sum_of : ℕ → ℕ → Bytes → ℕ → ℕ
sum_of size protocol content serial =
    crc_itu (checked size protocol content (high serial) (low serial))

-- the layout with the check bytes that belong to it
abbrev pub summed : ℕ → ℕ → Bytes → ℕ → Bytes
summed size protocol content serial =
    let sum = sum_of size protocol content serial in
    wire size protocol content (high serial) (low serial) (high sum) (low sum)

pub build_concox_frame-summed :
    (protocol : ℕ) (content : Bytes) (serial : ℕ)
    → length content ≤ 250
    → build_concox_frame protocol content serial
      ≡ summed (length content + 5) protocol content serial
unfolding build_concox_frame
build_concox_frame-summed protocol content serial h =
    let sized : bit_and (1 + length content + 2 + 2) 0xff ≡ length content + 5 =
      bit_and_mask 8 (1 + length content + 2 + 2) ∙ omega arith in
    rw sized (
      let sum = sum_of (length content + 5) protocol content serial in
      ap (λ t. 0x78 ∷ 0x78 ∷ (length content + 5) ∷ protocol ∷ t)
        (sym (
          append_assoc content (high serial ∷ low serial ∷ [])
            (high sum ∷ low sum ∷ 0x0d ∷ 0x0a ∷ []))))

-- The three ACKs are the frames with no content: the device gets back the serial number, under the
-- protocol number that it sent, in a frame with the right length and the right check bytes.
pub acks-build_concox_frame :
    (protocol serial : ℕ)
    → (build_login_ack serial ≡ build_concox_frame 0x01 [] serial)
      × (build_heartbeat_ack serial protocol ≡ build_concox_frame protocol [] serial)
      × (build_alarm_ack protocol serial ≡ build_concox_frame protocol [] serial)
unfolding build_login_ack build_heartbeat_ack build_alarm_ack build_concox_frame
acks-build_concox_frame protocol serial = (refl, refl, refl)
