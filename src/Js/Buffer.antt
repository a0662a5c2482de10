-- ===== src/Js/Buffer.antt =====
-- Node's `Buffer` as a list of bytes, and exceptions as results.
use fueltracks.Prelude.{
  ℕ, ◌+◌, ◌-◌, ◌*◌, ◌^◌, ◌≤◌, ◌<◌, ◌≡◌, List, bit_or, length, get_or, take, drop, ltb, ltb-false,
  if◌then◌else◌,
}
use fueltracks.Prelude.Bits.{bit_or_packed}

abbrev pub Bytes : Type 0
Bytes = List ℕ

abbrev pub IsByte : ℕ → Type 0
IsByte b = b < 256

-- What the sub-parsers throw: their own errors, and those of the runtime.
pub data Error : Type 0 where
  too_short invalid_imei range_error type_error : Error

pub data Result {ℓ} (A : Type ℓ) : Type ℓ where
  ok : A → Result A
  err : Error → Result A

-- The steps of a `do` block; what is thrown passes by the rest.
infixl 5 ◌>>=◌ ◌>>◌
abbrev pub ◌>>=◌ {i j} : {X : Type i} {Y : Type j} → Result X → (X → Result Y) → Result Y
err thrown >>= rest = err thrown
ok value >>= rest = rest value

abbrev pub ◌>>◌ {j} : {Y : Type j} → Result (Unit {0}) → Result Y → Result Y
check >> rest = check >>= λ _. rest

-- `buf.slice(start, end)`
unfoldable pub slice : ℕ → ℕ → Bytes → Bytes
slice start end buf = take (end - start) (drop start buf)

-- `(high << 8) | low`
abbrev pub word : ℕ → ℕ → ℕ
word high low = bit_or (high * 2 ^ 8) low

-- `buf[i]` where the code has checked the length, or uses the byte as a bit pattern only: there
-- `undefined` counts as 0.
abbrev pub byte : Bytes → ℕ → ℕ
byte buf i = get_or buf i 0

-- `buf.readUInt16BE(offset)`
unfoldable pub read_u16_be : Bytes → ℕ → Result ℕ
read_u16_be buf offset =
    if ltb (length buf) (offset + 2)
    then err range_error
    else ok (byte buf offset * 2 ^ 8 + byte buf (offset + 1))

-- `buf.readUInt32BE(offset)`
unfoldable pub read_u32_be : Bytes → ℕ → Result ℕ
read_u32_be buf offset =
    if ltb (length buf) (offset + 4)
    then err range_error
    else ok (
        byte buf offset * 2 ^ 24
        + byte buf (offset + 1) * 2 ^ 16
        + byte buf (offset + 2) * 2 ^ 8
        + byte buf (offset + 3))

pub read_u16_be-ok :
    (buf : Bytes) (offset : ℕ)
    → offset + 2 ≤ length buf
    → read_u16_be buf offset ≡ ok (byte buf offset * 2 ^ 8 + byte buf (offset + 1))
unfolding read_u16_be
read_u16_be-ok buf offset h = rw (ltb-false (length buf) (offset + 2) h)

pub read_u32_be-ok :
    (buf : Bytes) (offset : ℕ)
    → offset + 4 ≤ length buf
    → read_u32_be buf offset
      ≡ ok (
          byte buf offset * 2 ^ 24
          + byte buf (offset + 1) * 2 ^ 16
          + byte buf (offset + 2) * 2 ^ 8
          + byte buf (offset + 3))
unfolding read_u32_be
read_u32_be-ok buf offset h = rw (ltb-false (length buf) (offset + 4) h)

pub word-sum : (high low : ℕ) → low < 256 → word high low ≡ high * 256 + low
word-sum high low h = bit_or_packed 8 high low h
