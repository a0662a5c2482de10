-- ===== src/Concox/Crc/Register.antt =====
-- CRC-16/X-25 by its shift register, one bit a round, with the reflected polynomial 0x8408 that the
-- header of tcp-server/parser/concoxCrc.js names (0x1021 reflected); the table agrees with it.
use fueltracks.Prelude.{
  ℕ, zero, suc, ◌*◌, ◌/◌, ◌%◌, ◌^◌, ◌<◌, ◌≡◌, refl, sym, ap, ◌∙◌, Bool, true, ◌&&◌, List, [], ◌∷◌,
  All, get_or, bit_and, bit_xor, ◌==◌, if◌then◌else◌, arith,
}
use native.Mathlib.Nat.{pow-suc}
use fueltracks.Prelude.Bits.{bit_and_mask}
use fueltracks.Prelude.Xor.{
  xor-half, xor-parity, xor-zero, xor-lt, xor-div, xor_packed, xor_interchange,
}
use fueltracks.Js.Buffer.{IsByte}
use fueltracks.Concox.Crc.{crc_step, crc_loop, crc_itu}
use fueltracks.Concox.Crc.Table.{crc_table}

abbrev pub feedback : ℕ → ℕ
feedback x = if x % 2 == 1 then 0x8408 else 0

-- one round: the lowest bit falls out and feeds the polynomial back
abbrev pub round : ℕ → ℕ
round x = bit_xor (x / 2) (feedback x)

unfoldable pub rounds : ℕ → ℕ → ℕ
rounds zero x = x
rounds (suc k) x = rounds k (round x)

register_loop : ℕ → List ℕ → ℕ
register_loop crc [] = crc
register_loop crc (b ∷ buf) = register_loop (rounds 8 (bit_xor crc b)) buf

unfoldable pub crc_register : List ℕ → ℕ
unfolding register_loop rounds
crc_register buf = bit_xor (register_loop 0xffff buf) 0xffff

feedback-xor : (a b : ℕ) → feedback (bit_xor a b) ≡ bit_xor (feedback a) (feedback b)
feedback-xor a b = ground (arith, xor-parity a b)

round-xor : (a b : ℕ) → round (bit_xor a b) ≡ bit_xor (round a) (round b)
round-xor a b =
    ap (λ t. bit_xor t (feedback (bit_xor a b))) (xor-half a b)
    ∙ ap (bit_xor (bit_xor (a / 2) (b / 2))) (feedback-xor a b)
    ∙ xor_interchange (a / 2) (b / 2) (feedback a) (feedback b)

pub rounds-xor : (k a b : ℕ) → rounds k (bit_xor a b) ≡ bit_xor (rounds k a) (rounds k b)
unfolding rounds
rounds-xor zero a b = refl
rounds-xor (suc k) a b = ap (rounds k) (round-xor a b) ∙ rounds-xor k (round a) (round b)

-- `k` rounds shift a number whose low `k` bits are clear.
rounds-shift : (k h : ℕ) → rounds k (h * 2 ^ k) ≡ h
unfolding rounds
rounds-shift zero h = omega arith
rounds-shift (suc k) h =
    let grows : h * 2 ^ suc k ≡ h * 2 ^ k * 2 =
      omega (arith, ap (λ (t : ℕ). h * t) (pow-suc 2 k)) in
    let even : h * 2 ^ suc k % 2 ≡ 0 = omega arith in
    let half : h * 2 ^ suc k / 2 ≡ h * 2 ^ k = omega arith in
    ap (rounds k) (rw (even, half) (xor-zero (h * 2 ^ k))) ∙ rounds-shift k h

pub rounds-lt : (k x : ℕ) → x < 2 ^ 16 → rounds k x < 2 ^ 16
unfolding rounds
rounds-lt zero x h = h
rounds-lt (suc k) x h =
    rounds-lt k (round x) (xor-lt 16 (x / 2) (feedback x) (omega arith) (ground arith))

table_is : ℕ → Bool
table_is zero = true
table_is (suc n) = get_or crc_table n 0 == rounds 8 n && table_is n

table_checked : table_is 256 ≡ true
unfolding table_is crc_table rounds
table_checked = refl

table_is-lookup : (n i : ℕ) → table_is n ≡ true → i < n → get_or crc_table i 0 ≡ rounds 8 i
unfolding table_is
table_is-lookup zero i h lt = absurd (omega arith)
table_is-lookup (suc n) i h lt = ground (arith, table_is-lookup n i)

table-lookup : (i : ℕ) → i < 256 → get_or crc_table i 0 ≡ rounds 8 i
table-lookup i = table_is-lookup 256 i table_checked

-- Eight rounds move the high byte down and feed the low byte's table entry in.
rounds-byte : (x : ℕ) → rounds 8 x ≡ bit_xor (x / 2 ^ 8) (rounds 8 (x % 2 ^ 8))
rounds-byte x =
    let split : x ≡ bit_xor (x / 2 ^ 8 * 2 ^ 8) (x % 2 ^ 8) =
      omega (arith, xor_packed 8 (x / 2 ^ 8) (x % 2 ^ 8) (omega arith)) in
    ap (rounds 8) split
    ∙ rounds-xor 8 (x / 2 ^ 8 * 2 ^ 8) (x % 2 ^ 8)
    ∙ ap (λ t. bit_xor t (rounds 8 (x % 2 ^ 8))) (rounds-shift 8 (x / 2 ^ 8))

-- One table step is eight rounds of the register.
pub crc_step-rounds :
    (crc b : ℕ) → crc < 2 ^ 16 → b < 256 → crc_step crc b ≡ rounds 8 (bit_xor crc b)
unfolding crc_step
crc_step-rounds crc b h k =
    let x = bit_xor crc b in
    let low : bit_and x 0xff ≡ x % 2 ^ 8 = bit_and_mask 8 x in
    let entry : get_or crc_table (bit_and x 0xff) 0 ≡ rounds 8 (x % 2 ^ 8) =
      ap (λ i. get_or crc_table i 0) low ∙ table-lookup (x % 2 ^ 8) (omega arith) in
    let high : x / 2 ^ 8 ≡ crc / 2 ^ 8 =
      xor-div 8 crc b ∙ ap (bit_xor (crc / 2 ^ 8)) (omega arith) ∙ xor-zero (crc / 2 ^ 8) in
    let sum : bit_xor (crc / 2 ^ 8) (get_or crc_table (bit_and x 0xff) 0) ≡ rounds 8 x =
      rw (entry, ← high) (sym (rounds-byte x)) in
    let small : rounds 8 x < 2 ^ 16 = rounds-lt 8 x (xor-lt 16 crc b h (omega arith)) in
    bit_and_mask 16 (bit_xor (crc / 2 ^ 8) (get_or crc_table (bit_and x 0xff) 0))
    ∙ ap (λ t. t % 2 ^ 16) sum
    ∙ omega arith

pub crc_step-lt : (crc b : ℕ) → crc_step crc b < 2 ^ 16
unfolding crc_step
crc_step-lt crc b =
    let y = bit_xor (crc / 2 ^ 8) (get_or crc_table (bit_and (bit_xor crc b) 0xff) 0) in
    rw (bit_and_mask 16 y) (omega arith)

crc_loop-register :
    (buf : List ℕ) (crc : ℕ)
    → crc < 2 ^ 16
    → All IsByte buf
    → crc_loop crc buf ≡ register_loop crc buf
unfolding crc_loop register_loop
crc_loop-register [] crc h bytes = refl
crc_loop-register (b ∷ buf) crc h bytes =
    crc_loop-register buf (crc_step crc b) (crc_step-lt crc b) bytes.1
    ∙ ap (λ t. register_loop t buf) (crc_step-rounds crc b h bytes.0)

-- Over every buffer of bytes the table-driven sum is the sum of the bitwise shift register with the
-- reflected polynomial 0x8408, initial value 0xffff and final inversion.
pub crc_itu-eq-crc_register : (buf : List ℕ) → All IsByte buf → crc_itu buf ≡ crc_register buf
unfolding crc_itu crc_register
crc_itu-eq-crc_register buf bytes =
    ap (λ t. bit_xor t 0xffff) (crc_loop-register buf 0xffff (omega arith) bytes)

pub crc_loop-lt : (buf : List ℕ) (crc : ℕ) → crc < 2 ^ 16 → crc_loop crc buf < 2 ^ 16
unfolding crc_loop
crc_loop-lt [] crc h = h
crc_loop-lt (b ∷ buf) crc h = crc_loop-lt buf (crc_step crc b) (crc_step-lt crc b)

-- The sum fits two bytes.
pub crc_itu-lt : (buf : List ℕ) → crc_itu buf < 2 ^ 16
unfolding crc_itu
crc_itu-lt buf =
    xor-lt 16 (crc_loop 0xffff buf) 0xffff (crc_loop-lt buf 0xffff (omega arith)) (omega arith)
