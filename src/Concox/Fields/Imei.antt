-- ===== src/Concox/Fields/Imei.antt =====
-- IMEIs: what `decodeImei` gives, and `packImei` of scripts/deviceSimulator.js.
use fueltracks.Prelude.{
  ℕ, zero, suc, ◌+◌, ◌-◌, ◌*◌, ◌/◌, ◌%◌, ◌^◌, ◌≤◌, ◌<◌, ◌≡◌, refl, Bool, true, ◌&&◌, [], ◌∷◌,
  bit_or, length, leb, lt→ltb, if◌then◌else◌, arith,
}
use fueltracks.Prelude.Bits.{bit_or_packed}
use fueltracks.Js.Buffer.{Bytes}
use fueltracks.Js.Text.{Text, is_digit, hex_digit}
use fueltracks.Concox.Fields.{hex, drop_zero, decode_imei, all_digits, is_imei}

-- `parseInt(padded[i], 10) << 4 | parseInt(padded[i + 1], 10)` for each pair of digits
unfoldable pub pack_pairs : Text → Bytes
pack_pairs [] = []
pack_pairs (a ∷ []) = []
pack_pairs (a ∷ b ∷ rest) = bit_or ((a - b'0') * 2 ^ 4) (b - b'0') ∷ pack_pairs rest

-- `imei.padStart(16, '0')`
pad_start : ℕ → Text → Text
pad_start zero s = s
pad_start (suc n) s = if leb (suc n) (length s) then s else b'0' ∷ pad_start n s

unfoldable pub pack_imei : Text → Bytes
unfolding pack_pairs pad_start
pack_imei imei = pack_pairs (pad_start 16 imei)

digit-range : (c : ℕ) (b : Bool) → is_digit c && b ≡ true → (48 ≤ c) × (c ≤ 57) × (b ≡ true)
digit-range c b e = ground arith

hex_digit-decimal : (d : ℕ) → d < 10 → hex_digit d ≡ 48 + d
unfolding hex_digit
hex_digit-decimal d h = rw (lt→ltb d 10 h) refl

length-pack_pairs : (n : ℕ) (s : Text) → length s ≡ n + n → length (pack_pairs s) ≡ n
unfolding pack_pairs
length-pack_pairs n [] even = omega (arith, even)
length-pack_pairs n (a ∷ []) even = absurd (omega (arith, even))
length-pack_pairs n (a ∷ b ∷ rest) even =
    omega (arith, even, length-pack_pairs (n - 1) rest (omega (arith, even)))

hex-pack_pairs :
    (n : ℕ) (s : Text) → all_digits s ≡ true → length s ≡ n + n → hex (pack_pairs s) ≡ s
unfolding hex pack_pairs all_digits
hex-pack_pairs n [] digits even = refl
hex-pack_pairs n (a ∷ []) digits even = absurd (omega (arith, even))
hex-pack_pairs n (a ∷ b ∷ rest) digits even =
    let (a_low, a_high, others) = digit-range a (all_digits (b ∷ rest)) digits in
    let (b_low, b_high, more) = digit-range b (all_digits rest) others in
    let packed : bit_or ((a - 48) * 2 ^ 4) (b - 48) ≡ (a - 48) * 16 + (b - 48) =
      bit_or_packed 4 (a - 48) (b - 48) (omega arith) in
    let first : bit_or ((a - 48) * 2 ^ 4) (b - 48) / 16 ≡ a - 48 = omega (arith, packed) in
    let second : bit_or ((a - 48) * 2 ^ 4) (b - 48) % 16 ≡ b - 48 = omega (arith, packed) in
    let first_back : 48 + (a - 48) ≡ a = omega arith in
    let second_back : 48 + (b - 48) ≡ b = omega arith in
    rw
      (
        first,
        second,
        hex_digit-decimal (a - 48) (omega arith),
        hex_digit-decimal (b - 48) (omega arith),
        hex-pack_pairs (n - 1) rest more (omega (arith, even)),
        first_back,
        second_back,
      )
      refl

-- An IMEI of fifteen digits that a device packs is read back, and it passes the test of `parseLogin`.
pub decode_imei-pack_imei :
    (imei : Text)
    → all_digits imei ≡ true
    → length imei ≡ 15
    → (decode_imei (pack_imei imei) ≡ imei) × (is_imei (decode_imei (pack_imei imei)) ≡ true)
unfolding decode_imei pack_imei pad_start drop_zero all_digits is_imei
decode_imei-pack_imei imei digits fifteen =
    let padded : pad_start 16 imei ≡ b'0' ∷ imei = rw fifteen refl in
    let packed : hex (pack_pairs (b'0' ∷ imei)) ≡ b'0' ∷ imei =
      hex-pack_pairs 8 (b'0' ∷ imei) digits (omega (arith, fifteen)) in
    let same : decode_imei (pack_imei imei) ≡ imei = rw (padded, packed) refl in
    (same, rw (same, digits, fifteen) refl)

pub length-pack_imei : (imei : Text) → length imei ≡ 15 → length (pack_imei imei) ≡ 8
unfolding pack_imei pad_start
length-pack_imei imei fifteen =
    let padded : pad_start 16 imei ≡ b'0' ∷ imei = rw fifteen refl in
    rw padded (length-pack_pairs 8 (b'0' ∷ imei) (omega (arith, fifteen)))
