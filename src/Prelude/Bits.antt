-- ===== src/Prelude/Bits.antt =====
-- Laws of `&`, `|` and `^` at variables. Each comes from one equation for the lowest binary digit.
use Prim.Native.Nat.{
  ℕ, zero, suc, ◌+◌, ◌-◌, ◌*◌, ◌/◌, ◌%◌, ◌^◌, ◌≤◌, ◌<◌, min, max, digits, differ, bitwise,
  bit_and-bitwise, bit_or-bitwise, bit_xor-bitwise,
}
use mathlib.Core.Path.{◌≡◌, refl, ap, ◌∙◌}
use native.Mathlib.Nat.{pow-suc, one-le-pow}
use native.Mathlib.Omega.{arith}
pub use Prim.Native.Nat.{bit_and, bit_or, bit_xor}

module _ (last : ℕ → ℕ) (on_digit : ℕ → ℕ → ℕ) where
  -- Fuel beyond the number itself changes nothing.
  spare_fuel : (n a b : ℕ) → a ≤ n → digits last on_digit (suc n) a b ≡ digits last on_digit n a b
  spare_fuel zero zero b h = refl
  spare_fuel zero (suc a) b h = absurd (omega arith)
  spare_fuel (suc n) zero b h = refl
  spare_fuel (suc n) (suc a) b h =
      ap (λ t. t * 2 + on_digit (suc a % 2) (b % 2))
        (spare_fuel n (suc a / 2) (b / 2) (omega arith))

  enough_fuel : (n k a b : ℕ) → n ≡ a + k → digits last on_digit n a b ≡ digits last on_digit a a b
  enough_fuel n zero a b e =
      let same : n ≡ a = omega arith in ap (λ t. digits last on_digit t a b) same
  enough_fuel n (suc k) a b e =
      let more : n ≡ suc (a + k) = omega arith in
      ap (λ t. digits last on_digit t a b) more
      ∙ spare_fuel (a + k) a b (omega arith)
      ∙ enough_fuel (a + k) k a b refl

  low_digit :
      (a b : ℕ)
      → bitwise last on_digit (suc a) b
        ≡ bitwise last on_digit (suc a / 2) (b / 2) * 2 + on_digit (suc a % 2) (b % 2)
  low_digit a b =
      ap (λ t. t * 2 + on_digit (suc a % 2) (b % 2))
        (enough_fuel a (a - suc a / 2) (suc a / 2) (b / 2) (omega arith))

-- The lowest digit of `&` is the smaller one, and that of `|` the larger.
pub bit_and_step : (x y : ℕ) → bit_and x y ≡ min (x % 2) (y % 2) + 2 * bit_and (x / 2) (y / 2)
bit_and_step zero y = simp bit_and-bitwise (omega arith)
bit_and_step (suc x) y = simp bit_and-bitwise (omega (arith, low_digit (λ d. 0) min x y))

differ_mod : (x y : ℕ) → x < 2 → y < 2 → differ x y ≡ (x + y) % 2
differ_mod zero y p q = omega arith
differ_mod (suc zero) zero p q = refl
differ_mod (suc zero) (suc zero) p q = refl
differ_mod (suc zero) (suc (suc y)) p q = absurd (omega arith)
differ_mod (suc (suc x)) y p q = absurd (omega arith)

pub bit_xor_step : (a b : ℕ) → bit_xor a b ≡ bit_xor (a / 2) (b / 2) * 2 + (a % 2 + b % 2) % 2
bit_xor_step zero b = simp bit_xor-bitwise (omega arith)
bit_xor_step (suc a) b = simp bit_xor-bitwise (
    low_digit (λ y. y) differ a b
    ∙ ap (λ t. bitwise (λ y. y) differ (suc a / 2) (b / 2) * 2 + t)
        (differ_mod (suc a % 2) (b % 2) (omega arith) (omega arith)))

pub bit_or_step : (x y : ℕ) → bit_or x y ≡ max (x % 2) (y % 2) + 2 * bit_or (x / 2) (y / 2)
bit_or_step zero y = simp bit_or-bitwise (omega arith)
bit_or_step (suc x) y = simp bit_or-bitwise (omega (arith, low_digit (λ d. d) max x y))

-- The second argument at zero, by halving down to a bound on the first.
zero_right : (n a : ℕ) → a ≤ n → (bit_and a 0 ≡ 0) × (bit_or a 0 ≡ a) × (bit_xor a 0 ≡ a)
zero_right n zero h = (refl, refl, refl)
zero_right zero (suc a) h = absurd (omega arith)
zero_right (suc n) (suc a) h =
    let half = zero_right n (suc a / 2) (omega arith) in
    (
      omega (arith, bit_and_step (suc a) 0, half),
      omega (arith, bit_or_step (suc a) 0, half),
      omega (arith, bit_xor_step (suc a) 0, half),
    )

pub bit_or-zero : (a : ℕ) → bit_or a 0 ≡ a
bit_or-zero a = (zero_right a a (omega arith)).1

shift_suc : (q k : ℕ) → q * 2 ^ suc k ≡ 2 * (q * 2 ^ k)
shift_suc q k = omega (arith, ap (λ (t : ℕ). q * t) (pow-suc 2 k))

pub zero-bit_xor : (b : ℕ) → bit_xor 0 b ≡ b
zero-bit_xor b = bit_xor-bitwise 0 b

-- `(q << k) | r` is a sum where `r` has at most `k` bits.
pub bit_or_fields : (k q r : ℕ) → r < 2 ^ k → bit_or (q * 2 ^ k) r ≡ q * 2 ^ k + r
bit_or_fields zero q r h = ground (arith, bit_or-zero q)
bit_or_fields (suc k) q r h = ground (
  arith,
  bit_or_step (q * 2 ^ suc k) r,
  shift_suc q k,
  pow-suc 2 k,
  bit_or_fields k q (r / 2) (omega (arith, pow-suc 2 k)),
)

pub two_pow_pos : (k : ℕ) → 1 ≤ 2 ^ k
two_pow_pos k = one-le-pow k 2 (omega arith)

halve : (a p : ℕ) → 1 ≤ p → a / 2 % p * 2 + a % 2 ≡ a % (p * 2)
halve a p h = grind arith

xor_half :
    (a m : ℕ) → bit_xor (bit_xor (a / 2) (m / 2)) (m / 2) ≡ a / 2 → bit_xor (bit_xor a m) m ≡ a
xor_half a m ih =
    let up : bit_xor a m / 2 ≡ bit_xor (a / 2) (m / 2) = omega (arith, bit_xor_step a m) in
    let back : bit_xor (bit_xor a m / 2) (m / 2) ≡ a / 2 = ap (λ t. bit_xor t (m / 2)) up ∙ ih in
    omega (arith, bit_xor_step a m, bit_xor_step (bit_xor a m) m, back)

-- `a & (2 ^ k - 1)` keeps the `k` low bits.
pub bit_and_mask : (k a : ℕ) → bit_and a (2 ^ k - 1) ≡ a % 2 ^ k
bit_and_mask zero a = ground (arith, (zero_right a a (omega arith)).0)
bit_and_mask (suc k) a =
    let full : (2 ^ suc k - 1) / 2 ≡ 2 ^ k - 1 = omega (arith, pow-suc 2 k) in
    let rest : bit_and (a / 2) ((2 ^ suc k - 1) / 2) ≡ a / 2 % 2 ^ k =
      ap (bit_and (a / 2)) full ∙ bit_and_mask k (a / 2) in
    let low : (2 ^ suc k - 1) % 2 ≡ 1 = omega (arith, pow-suc 2 k, two_pow_pos k) in
    let wide : a % 2 ^ suc k ≡ a % (2 ^ k * 2) = ap (λ t. a % t) (pow-suc 2 k) in
    omega (arith, bit_and_step a (2 ^ suc k - 1), rest, low, wide, halve a (2 ^ k) (two_pow_pos k))

-- Masking twice by one key gives the value back, by halving down to a bound on both.
xor_twice : (n a m : ℕ) → a + m ≤ n → bit_xor (bit_xor a m) m ≡ a
xor_twice n zero zero h = refl
xor_twice zero zero (suc m) h = absurd (omega arith)
xor_twice zero (suc a) m h = absurd (omega arith)
xor_twice (suc n) zero (suc m) h =
    xor_half zero (suc m) (xor_twice n zero (suc m / 2) (omega arith))
xor_twice (suc n) (suc a) m h = xor_half (suc a) m (xor_twice n (suc a / 2) (m / 2) (omega arith))

pub bit_xor_cancel : (a m : ℕ) → bit_xor (bit_xor a m) m ≡ a
bit_xor_cancel a m = xor_twice (a + m) a m (omega arith)

pub bit_xor-lt : (k a b : ℕ) → a < 2 ^ k → b < 2 ^ k → bit_xor a b < 2 ^ k
bit_xor-lt zero zero zero p q = omega arith
bit_xor-lt zero (suc a) b p q = absurd (omega arith)
bit_xor-lt zero zero (suc b) p q = absurd (omega arith)
bit_xor-lt (suc k) a b p q = omega (
  arith,
  pow-suc 2 k,
  bit_xor_step a b,
  bit_xor-lt k (a / 2) (b / 2) (omega (arith, pow-suc 2 k)) (omega (arith, pow-suc 2 k)),
)
