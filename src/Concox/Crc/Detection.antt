-- ===== src/Concox/Crc/Detection.antt =====
-- What the sum of tcp-server/parser/concoxCrc.js detects: damage to one byte, or to two neighbours.
use fueltracks.Prelude.{
  ℕ, zero, suc, ◌/◌, ◌^◌, ◌<◌, ◌≡◌, refl, sym, ap, ap₂, ◌∙◌, Bool, true, ◌&&◌, ◌||◌, List, [], ◌∷◌,
  ◌++◌, All, bit_xor, leb, ◌==◌, arith,
}
use fueltracks.Prelude.Xor.{
  xor_self, xor-lt, xor-zero, zero-xor, xor_interchange, xor-cancel_left, xor-cancel_right,
}
use fueltracks.Js.Buffer.{IsByte}
use fueltracks.Concox.Crc.{crc_step, crc_loop, crc_itu}
use fueltracks.Concox.Crc.Register.{
  round, rounds, rounds-xor, rounds-lt, crc_step-lt, crc_step-rounds, crc_loop-lt,
}

xor-eq-zero : (a b : ℕ) → bit_xor a b ≡ 0 → a ≡ b
xor-eq-zero a b e = xor-cancel_right a b b (e ∙ sym (xor_self b))

-- Nothing but 0 is sent to 0, since the halves stay below 0x8000.
round-zero : (x : ℕ) → x < 2 ^ 16 → round x ≡ 0 → x ≡ 0
round-zero x h e = ground (arith, xor-zero (x / 2), xor-eq-zero (x / 2) 0x8408)

rounds-zero : (k x : ℕ) → x < 2 ^ 16 → rounds k x ≡ 0 → x ≡ 0
unfolding rounds
rounds-zero zero x h e = e
rounds-zero (suc k) x h e = round-zero x h (rounds-zero k (round x) (rounds-lt 1 x h) e)

rounds-injective : (k a b : ℕ) → a < 2 ^ 16 → b < 2 ^ 16 → rounds k a ≡ rounds k b → a ≡ b
rounds-injective k a b h l e = xor-eq-zero a b (
    rounds-zero k (bit_xor a b) (xor-lt 16 a b h l)
      (rounds-xor k a b ∙ ap (λ t. bit_xor t (rounds k b)) e ∙ xor_self (rounds k b)))

-- The sum so far can be recovered from the sum after one byte more.
crc_step-injective :
    (c d b : ℕ) → c < 2 ^ 16 → d < 2 ^ 16 → b < 256 → crc_step c b ≡ crc_step d b → c ≡ d
crc_step-injective c d b h l k e = xor-cancel_right c d b (
    rounds-injective 8 (bit_xor c b) (bit_xor d b) (xor-lt 16 c b h (omega arith))
      (xor-lt 16 d b l (omega arith)) (sym (crc_step-rounds c b h k) ∙ e ∙ crc_step-rounds d b l k))

crc_loop-injective :
    (buf : List ℕ) (c d : ℕ)
    → c < 2 ^ 16
    → d < 2 ^ 16
    → All IsByte buf
    → crc_loop c buf ≡ crc_loop d buf
    → c ≡ d
unfolding crc_loop
crc_loop-injective [] c d h l bytes e = e
crc_loop-injective (b ∷ buf) c d h l bytes e = crc_step-injective c d b h l bytes.0 (
    crc_loop-injective buf (crc_step c b) (crc_step d b) (crc_step-lt c b) (crc_step-lt d b) bytes.1
      e)

-- The table entry of a nonzero byte has a nonzero high byte.
high_set : ℕ → Bool
high_set zero = true
high_set (suc n) = (n == 0 || leb 256 (rounds 8 n)) && high_set n

high_checked : high_set 256 ≡ true
unfolding high_set rounds
high_checked = refl

high_set-lookup : (n i : ℕ) → high_set n ≡ true → i < n → rounds 8 i < 256 → i ≡ 0
unfolding high_set
high_set-lookup zero i h lt small = absurd (omega arith)
high_set-lookup (suc n) i h lt small = ground (arith, high_set-lookup n i)

-- After two bytes the sums agree only if both bytes do.
two_steps :
    (c x y u v : ℕ)
    → c < 2 ^ 16
    → x < 256
    → y < 256
    → u < 256
    → v < 256
    → crc_step (crc_step c x) u ≡ crc_step (crc_step c y) v
    → (x ≡ y) × (u ≡ v)
two_steps c x y u v hc hx hy hu hv e =
    let sx = crc_step c x in
    let sy = crc_step c y in
    let sums : bit_xor sx u ≡ bit_xor sy v =
      rounds-injective 8 (bit_xor sx u) (bit_xor sy v)
        (xor-lt 16 sx u (crc_step-lt c x) (omega arith))
        (xor-lt 16 sy v (crc_step-lt c y) (omega arith))
        (sym (crc_step-rounds sx u (crc_step-lt c x) hu)
          ∙ e
          ∙ crc_step-rounds sy v (crc_step-lt c y) hv) in
    let apart : bit_xor (bit_xor sx sy) (bit_xor u v) ≡ 0 =
      sym (xor_interchange sx u sy v)
      ∙ ap (λ t. bit_xor t (bit_xor sy v)) sums
      ∙ xor_self (bit_xor sy v) in
    let same_start : bit_xor (bit_xor c x) (bit_xor c y) ≡ bit_xor x y =
      xor_interchange c x c y
      ∙ ap (λ t. bit_xor t (bit_xor x y)) (xor_self c)
      ∙ zero-xor (bit_xor x y) in
    let image : rounds 8 (bit_xor x y) ≡ bit_xor u v =
      ap (rounds 8) (sym same_start)
      ∙ rounds-xor 8 (bit_xor c x) (bit_xor c y)
      ∙ ap₂ bit_xor (sym (crc_step-rounds c x hc hx)) (sym (crc_step-rounds c y hc hy))
      ∙ xor-eq-zero (bit_xor sx sy) (bit_xor u v) apart in
    let small : rounds 8 (bit_xor x y) < 256 = omega (arith, image, xor-lt 8 u v hu hv) in
    let first : x ≡ y =
      xor-eq-zero x y (high_set-lookup 256 (bit_xor x y) high_checked (xor-lt 8 x y hx hy) small) in
    (first, xor-cancel_left sx u v (sums ∙ ap (λ t. bit_xor (crc_step c t) v) (sym first)))

crc_loop-append : (xs ys : List ℕ) (c : ℕ) → crc_loop c (xs ++ ys) ≡ crc_loop (crc_loop c xs) ys
unfolding crc_loop
crc_loop-append [] ys c = refl
crc_loop-append (x ∷ xs) ys c = crc_loop-append xs ys (crc_step c x)

-- Two buffers of bytes that differ in at most two neighbouring bytes, and nowhere else, have the same
-- sum only if they are equal: every error confined to two neighbouring bytes changes the sum.
pub crc_itu_detects :
    (before after : List ℕ) (x y u v : ℕ)
    → x < 256
    → y < 256
    → u < 256
    → v < 256
    → All IsByte after
    → crc_itu (before ++ (x ∷ u ∷ after)) ≡ crc_itu (before ++ (y ∷ v ∷ after))
    → (x ≡ y) × (u ≡ v)
unfolding crc_itu crc_loop
crc_itu_detects before after x y u v hx hy hu hv bytes e =
    let c = crc_loop 0xffff before in
    let loops : crc_loop c (x ∷ u ∷ after) ≡ crc_loop c (y ∷ v ∷ after) =
      sym (crc_loop-append before (x ∷ u ∷ after) 0xffff)
      ∙ xor-cancel_right _ _ 0xffff e
      ∙ crc_loop-append before (y ∷ v ∷ after) 0xffff in
    two_steps c x y u v (crc_loop-lt before 0xffff (omega arith)) hx hy hu hv (
      crc_loop-injective after (crc_step (crc_step c x) u) (crc_step (crc_step c y) v)
        (crc_step-lt (crc_step c x) u) (crc_step-lt (crc_step c y) v) bytes loops)
