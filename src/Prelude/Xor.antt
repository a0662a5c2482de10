-- ===== src/Prelude/Xor.antt =====
-- `bit_xor` is the sum of two binary numbers without carries: a commutative group in which every
-- number is its own inverse, and it acts on the digits below and above a place apart.
use Prim.Native.Nat.{ℕ, zero, suc, ◌+◌, ◌*◌, ◌/◌, ◌%◌, ◌^◌, ◌≤◌, ◌<◌, bit_xor, bit_xor-bitwise}
use mathlib.Core.Path.{◌≡◌, refl, ap, ap₂, sym, ◌∙◌}
use native.Mathlib.Nat.{pow-suc, div-div-eq-div-mul, mul_comm}
use native.Mathlib.Omega.{arith}
use fueltracks.Prelude.Bits.{xor_lowest}

pub xor-half : (a b : ℕ) → bit_xor a b / 2 ≡ bit_xor (a / 2) (b / 2)
xor-half a b = omega (arith, xor_lowest a b)

pub xor-parity : (a b : ℕ) → bit_xor a b % 2 ≡ (a + b) % 2
xor-parity a b = omega (arith, xor_lowest a b)

-- The halves and the parities determine a number.
by_halves : (a b : ℕ) → a / 2 ≡ b / 2 → a % 2 ≡ b % 2 → a ≡ b
by_halves a b h p = omega arith

comm_bound : (n a b : ℕ) → a ≤ n → b ≤ n → bit_xor a b ≡ bit_xor b a
comm_bound zero a b h k =
    let ea : a ≡ 0 = omega arith in let eb : b ≡ 0 = omega arith in rw (ea, eb) refl
comm_bound (suc n) a b h k =
    by_halves _ _
      (xor-half a b ∙ comm_bound n (a / 2) (b / 2) (omega arith) (omega arith) ∙ sym (xor-half b a))
      (omega (arith, xor-parity a b, xor-parity b a))

pub xor_comm : (a b : ℕ) → bit_xor a b ≡ bit_xor b a
xor_comm a b = comm_bound (a + b) a b (omega arith) (omega arith)

assoc_bound :
    (n a b c : ℕ) → a ≤ n → b ≤ n → c ≤ n → bit_xor (bit_xor a b) c ≡ bit_xor a (bit_xor b c)
assoc_bound zero a b c h k l =
    let ea : a ≡ 0 = omega arith in
    let eb : b ≡ 0 = omega arith in let ec : c ≡ 0 = omega arith in rw (ea, eb, ec) refl
assoc_bound (suc n) a b c h k l =
    by_halves _ _
      (xor-half (bit_xor a b) c
        ∙ ap (λ t. bit_xor t (c / 2)) (xor-half a b)
        ∙ assoc_bound n (a / 2) (b / 2) (c / 2) (omega arith) (omega arith) (omega arith)
        ∙ ap (bit_xor (a / 2)) (sym (xor-half b c))
        ∙ sym (xor-half a (bit_xor b c)))
      (omega (
        arith,
        xor-parity (bit_xor a b) c,
        xor-parity a b,
        xor-parity a (bit_xor b c),
        xor-parity b c,
      ))

pub xor_assoc : (a b c : ℕ) → bit_xor (bit_xor a b) c ≡ bit_xor a (bit_xor b c)
xor_assoc a b c = assoc_bound (a + b + c) a b c (omega arith) (omega arith) (omega arith)

self_bound : (n a : ℕ) → a ≤ n → bit_xor a a ≡ 0
self_bound zero a h = let e : a ≡ 0 = omega arith in rw e refl
self_bound (suc n) a h = omega (arith, xor_lowest a a, self_bound n (a / 2) (omega arith))

pub xor_self : (a : ℕ) → bit_xor a a ≡ 0
xor_self a = self_bound a a (omega arith)

pub zero-xor : (a : ℕ) → bit_xor 0 a ≡ a
zero-xor a = bit_xor-bitwise 0 a

pub xor-zero : (a : ℕ) → bit_xor a 0 ≡ a
xor-zero a = xor_comm a 0 ∙ zero-xor a

-- Equal sums with one summand in common have the other summand in common too.
pub xor-cancel_left : (a b c : ℕ) → bit_xor a b ≡ bit_xor a c → b ≡ c
xor-cancel_left a b c e = undo b ∙ ap (bit_xor a) e ∙ sym (undo c)
  where
    undo : (x : ℕ) → x ≡ bit_xor a (bit_xor a x)
    undo x = sym (zero-xor x) ∙ ap (λ t. bit_xor t x) (sym (xor_self a)) ∙ xor_assoc a a x

pub xor-cancel_right : (a b c : ℕ) → bit_xor a c ≡ bit_xor b c → a ≡ b
xor-cancel_right a b c e = xor-cancel_left c a b (xor_comm c a ∙ e ∙ xor_comm b c)

pub xor-lt : (k a b : ℕ) → a < 2 ^ k → b < 2 ^ k → bit_xor a b < 2 ^ k
xor-lt zero a b h l =
    let ea : a ≡ 0 = omega arith in let eb : b ≡ 0 = omega arith in rw (ea, eb) (omega arith)
xor-lt (suc k) a b h l = omega (
  arith,
  pow-suc 2 k,
  xor_lowest a b,
  xor-lt k (a / 2) (b / 2) (omega (arith, pow-suc 2 k)) (omega (arith, pow-suc 2 k)),
)

-- Cutting off the lowest places commutes with the sum.
pub xor-div : (k a b : ℕ) → bit_xor a b / 2 ^ k ≡ bit_xor (a / 2 ^ k) (b / 2 ^ k)
xor-div zero a b =
    let whole : (x : ℕ) → x / 1 ≡ x = λ x. omega arith in
    rw (whole a, whole b) (whole (bit_xor a b))
xor-div (suc k) a b =
    let first : (x : ℕ) → x / 2 ^ suc k ≡ x / 2 / 2 ^ k =
      λ x. ap (◌/◌ x) (pow-suc 2 k ∙ mul_comm (2 ^ k) 2) ∙ sym (div-div-eq-div-mul x 2 (2 ^ k)) in
    first (bit_xor a b)
    ∙ ap (λ t. t / 2 ^ k) (xor-half a b)
    ∙ xor-div k (a / 2) (b / 2)
    ∙ ap₂ bit_xor (sym (first a)) (sym (first b))

-- `h << k` and a number of `k` bits do not overlap.
pub xor_packed : (k h l : ℕ) → l < 2 ^ k → bit_xor (h * 2 ^ k) l ≡ h * 2 ^ k + l
xor_packed zero h l p = let e : l ≡ 0 = omega arith in rw e (omega (arith, xor-zero (h * 1)))
xor_packed (suc k) h l p =
    let grows : h * 2 ^ suc k ≡ h * 2 ^ k * 2 =
      omega (arith, ap (λ (t : ℕ). h * t) (pow-suc 2 k)) in
    let half : h * 2 ^ suc k / 2 ≡ h * 2 ^ k = omega arith in
    let low : bit_xor (h * 2 ^ k) (l / 2) ≡ h * 2 ^ k + l / 2 =
      xor_packed k h (l / 2) (omega (arith, pow-suc 2 k)) in
    omega (arith, xor_lowest (h * 2 ^ suc k) l, ap (λ t. bit_xor t (l / 2)) half)

-- Two sums of two are the sums of the parts.
pub xor_interchange :
    (a b c d : ℕ) → bit_xor (bit_xor a b) (bit_xor c d) ≡ bit_xor (bit_xor a c) (bit_xor b d)
xor_interchange a b c d =
    xor_assoc a b (bit_xor c d)
    ∙ ap (bit_xor a)
        (sym (xor_assoc b c d) ∙ ap (λ t. bit_xor t d) (xor_comm b c) ∙ xor_assoc c b d)
    ∙ sym (xor_assoc a c (bit_xor b d))
