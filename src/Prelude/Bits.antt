-- ===== src/Prelude/Bits.antt =====
-- The laws of `bit_and`, `bit_or` and `bit_xor` at variables that the wire formats need: each
-- operation by its lowest digit, and from that masks, packed bytes and the group laws of xor.
use Prim.Native.Nat.{
  ℕ, zero, suc, ◌+◌, ◌-◌, ◌*◌, ◌/◌, ◌%◌, ◌^◌, ◌≤◌, ◌<◌, min, max, bit_and, bit_or, bit_xor, digits,
  differ, bit_and-bitwise, bit_or-bitwise, bit_xor-bitwise,
}
use mathlib.Core.Path.{◌≡◌, refl, ap, ◌∙◌}
use native.Mathlib.Nat.{pow-suc, one-le-pow, div-add-mod}
use native.Mathlib.Omega.{arith}

module _ (rest : ℕ → ℕ) (bit : ℕ → ℕ → ℕ) where
  -- Any two amounts of fuel that reach `a` give one value.
  digits-enough : (a b j k : ℕ) → a ≤ j → a ≤ k → digits rest bit j a b ≡ digits rest bit k a b
  digits-enough zero b zero zero p q = refl
  digits-enough zero b zero (suc k) p q = refl
  digits-enough zero b (suc j) zero p q = refl
  digits-enough zero b (suc j) (suc k) p q = refl
  digits-enough (suc a) b zero k p q = absurd (omega arith)
  digits-enough (suc a) b (suc j) zero p q = absurd (omega arith)
  digits-enough (suc a) b (suc j) (suc k) p q =
      ap (λ t. t * 2 + bit (suc a % 2) (b % 2))
        (digits-enough (suc a / 2) (b / 2) j k (omega arith) (omega arith))

pub and_lowest : (x : ℕ) → (y : ℕ) → bit_and x y ≡ bit_and (x / 2) (y / 2) * 2 + min (x % 2) (y % 2)
and_lowest zero y = simp bit_and-bitwise (omega arith)
and_lowest (suc x) y = simp bit_and-bitwise (
    ap (λ t. t * 2 + min (suc x % 2) (y % 2))
      (digits-enough (λ _. 0) min (suc x / 2) (y / 2) x (suc x / 2) (omega arith) (omega arith)))

pub or_lowest : (x : ℕ) → (y : ℕ) → bit_or x y ≡ bit_or (x / 2) (y / 2) * 2 + max (x % 2) (y % 2)
or_lowest zero y = simp bit_or-bitwise (omega arith)
or_lowest (suc x) y = simp bit_or-bitwise (
    ap (λ t. t * 2 + max (suc x % 2) (y % 2))
      (digits-enough (λ t. t) max (suc x / 2) (y / 2) x (suc x / 2) (omega arith) (omega arith)))

differ-mod : (x y : ℕ) → x < 2 → y < 2 → differ x y ≡ (x + y) % 2
differ-mod zero y p q = omega arith
differ-mod (suc zero) zero p q = refl
differ-mod (suc zero) (suc zero) p q = refl
differ-mod (suc zero) (suc (suc y)) p q = absurd (omega arith)
differ-mod (suc (suc x)) y p q = absurd (omega arith)

pub xor_lowest : (x : ℕ) → (y : ℕ) → bit_xor x y ≡ bit_xor (x / 2) (y / 2) * 2 + (x + y) % 2
xor_lowest zero y = simp bit_xor-bitwise (omega arith)
xor_lowest (suc x) y = simp bit_xor-bitwise (
    ap (λ t. t * 2 + differ (suc x % 2) (y % 2))
      (digits-enough (λ t. t) differ (suc x / 2) (y / 2) x (suc x / 2) (omega arith) (omega arith))
    ∙ omega (arith, differ-mod (suc x % 2) (y % 2) (omega arith) (omega arith)))

and-zero_bound : (n a : ℕ) → a ≤ n → bit_and a 0 ≡ 0
and-zero_bound zero a h = let e : a ≡ 0 = omega arith in rw e refl
and-zero_bound (suc n) a h = omega (arith, and_lowest a 0, and-zero_bound n (a / 2) (omega arith))

or-zero_bound : (n a : ℕ) → a ≤ n → bit_or a 0 ≡ a
or-zero_bound zero a h = let e : a ≡ 0 = omega arith in rw e refl
or-zero_bound (suc n) a h = omega (arith, or_lowest a 0, or-zero_bound n (a / 2) (omega arith))

pub bit_or-zero : (a : ℕ) → bit_or a 0 ≡ a
bit_or-zero a = or-zero_bound a a (omega arith)

-- One bit that moves from the number into the mask.
mask_step : (k a : ℕ) → bit_and a (2 ^ suc k - 1) ≡ bit_and (a / 2) (2 ^ k - 1) * 2 + a % 2
mask_step k a =
    let grows : 2 ^ suc k ≡ 2 ^ k * 2 = pow-suc 2 k in
    let positive : 1 ≤ 2 ^ k = one-le-pow k 2 (omega arith) in
    let half : (2 ^ suc k - 1) / 2 ≡ 2 ^ k - 1 = omega arith in
    rw (← half) (omega (arith, and_lowest a (2 ^ suc k - 1)))

-- The remainder by an even number, from the remainder of the half.
mod_double : (m a : ℕ) → a / 2 % m * 2 + a % 2 ≡ a % (m * 2)
mod_double m a = grind (arith, div-add-mod (a / 2) m)

-- A mask of `k` ones keeps the remainder by `2 ^ k`.
pub bit_and_mask : (k a : ℕ) → bit_and a (2 ^ k - 1) ≡ a % 2 ^ k
bit_and_mask zero a = omega (arith, and-zero_bound a a (omega arith))
bit_and_mask (suc k) a =
    mask_step k a ∙ rw (bit_and_mask k (a / 2), pow-suc 2 k) (mod_double (2 ^ k) a)

-- `(h << k) | l` is a sum when `l` fits `k` bits.
pub bit_or_packed : (k h l : ℕ) → l < 2 ^ k → bit_or (h * 2 ^ k) l ≡ h * 2 ^ k + l
bit_or_packed zero h l p = let e : l ≡ 0 = omega arith in rw e (omega (arith, bit_or-zero (h * 1)))
bit_or_packed (suc k) h l p =
    let grows : h * 2 ^ suc k ≡ h * 2 ^ k * 2 =
      omega (arith, ap (λ (t : ℕ). h * t) (pow-suc 2 k)) in
    let half : h * 2 ^ suc k / 2 ≡ h * 2 ^ k = omega arith in
    let low : bit_or (h * 2 ^ k) (l / 2) ≡ h * 2 ^ k + l / 2 =
      bit_or_packed k h (l / 2) (omega (arith, pow-suc 2 k)) in
    omega (arith, or_lowest (h * 2 ^ suc k) l, ap (λ t. bit_or t (l / 2)) half)
