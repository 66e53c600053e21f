-- ===== src/Base/Bits.antt =====
-- Facts about `bit_and` and `bit_or` at variables, from the digit recursions that the
-- native operations stand for.
use Prim.Native.Nat.{
  ℕ, zero, suc, ◌+◌, ◌-◌, ◌*◌, ◌/◌, ◌%◌, ◌^◌, ◌≤◌, ◌<◌, min, max, bit_and, bit_or, digits,
  bit_and-bitwise, bit_or-bitwise,
}
use mathlib.Core.Path.{◌≡◌, refl, ap}
use mathlib.Core.Logic.{◌≢◌}
use mathlib.Core.Bool.{Bool, false, ◌||◌}
use native.Mathlib.Nat.{pow-suc}
use native.Mathlib.Omega.{arith}
use tpa.Base.Tests.{◌==◌}

-- What `digits` gives does not depend on its fuel, once there is as much as the first number.
module _ (rest : ℕ → ℕ) (digit : ℕ → ℕ → ℕ) where
  digits_any : (x y k l : ℕ) → x ≤ k → x ≤ l → digits rest digit k x y ≡ digits rest digit l x y
  digits_any x y zero l in_k in_l = let none_left : x ≡ 0 = omega arith in rw none_left (at_zero l)
    where
      at_zero : (l : ℕ) → digits rest digit 0 0 y ≡ digits rest digit l 0 y
      at_zero zero = refl
      at_zero (suc l) = refl
  digits_any zero y (suc k) zero in_k in_l = refl
  digits_any zero y (suc k) (suc l) in_k in_l = refl
  digits_any (suc x) y (suc k) zero in_k in_l = elim in_l [ ]
  digits_any (suc x) y (suc k) (suc l) in_k in_l =
      let halves = digits_any (suc x / 2) (y / 2) k l (omega arith) (omega arith) in
      omega (arith, halves)

pub bit_and_step : (a b : ℕ) → bit_and a b ≡ bit_and (a / 2) (b / 2) * 2 + min (a % 2) (b % 2)
bit_and_step zero b = omega (arith, bit_and-bitwise 0 b, bit_and-bitwise 0 (b / 2))
bit_and_step (suc x) y =
    let half = suc x / 2 in
    let enough = digits_any (λ _. zero) min half (y / 2) x half (omega arith) (omega arith) in
    omega (arith, bit_and-bitwise half (y / 2), bit_and-bitwise (suc x) y, enough)

pub bit_or_step : (a b : ℕ) → bit_or a b ≡ bit_or (a / 2) (b / 2) * 2 + max (a % 2) (b % 2)
bit_or_step zero b = omega (arith, bit_or-bitwise 0 b, bit_or-bitwise 0 (b / 2))
bit_or_step (suc x) y =
    let half = suc x / 2 in
    let enough = digits_any (λ n. n) max half (y / 2) x half (omega arith) (omega arith) in
    omega (arith, bit_or-bitwise half (y / 2), bit_or-bitwise (suc x) y, enough)

-- Bit `i` of `b`.
abbrev pub has_bit : ℕ → ℕ → Bool
has_bit b zero = b % 2 == 1
has_bit b (suc i) = has_bit (b / 2) i

pub has_bit-or : (a b i : ℕ) → has_bit (bit_or a b) i ≡ (has_bit a i || has_bit b i)
has_bit-or a b zero = ground (arith, bit_or_step a b)
has_bit-or a b (suc i) =
    let e : bit_or a b / 2 ≡ bit_or (a / 2) (b / 2) = omega (arith, bit_or_step a b) in
    ground (arith, ap (λ (n : ℕ). has_bit n i) e, has_bit-or (a / 2) (b / 2) i)

has_bit-zero : (i : ℕ) → has_bit 0 i ≡ false
has_bit-zero zero = refl
has_bit-zero (suc i) = has_bit-zero i

pub has_bit-pow : (k i : ℕ) → has_bit (2 ^ k) i ≡ (i == k)
has_bit-pow zero zero = refl
has_bit-pow zero (suc i) = ground (arith, has_bit-zero i)
has_bit-pow (suc k) zero = ground (arith, pow-suc 2 k)
has_bit-pow (suc k) (suc i) =
    let e : 2 ^ suc k / 2 ≡ 2 ^ k = omega (arith, pow-suc 2 k) in
    ground (arith, ap (λ (n : ℕ). has_bit n i) e, has_bit-pow k i)

-- Setting a bit keeps a number within its width.
pub bit_or-lt : (k a b : ℕ) → a < 2 ^ k → b < 2 ^ k → bit_or a b < 2 ^ k
bit_or-lt zero a b p q = let e : a ≡ 0 = omega arith in rw e (omega (arith, bit_or-bitwise 0 b))
bit_or-lt (suc k) a b p q = omega (
  arith,
  bit_or_step a b,
  pow-suc 2 k,
  bit_or-lt k (a / 2) (b / 2) (omega (arith, pow-suc 2 k)) (omega (arith, pow-suc 2 k)),
)

pub bit_or-one : (a : ℕ) → bit_or a 1 % 2 ≡ 1
bit_or-one a = omega (arith, bit_or_step a 1)

bit_and_self_fuel : (n a : ℕ) → a ≤ n → bit_and a a ≡ a
bit_and_self_fuel n zero h = refl
bit_and_self_fuel zero (suc a) h = absurd (omega arith)
bit_and_self_fuel (suc n) (suc a) h =
    omega (arith, bit_and_step (suc a) (suc a), bit_and_self_fuel n (suc a / 2) (omega arith))

pub bit_and_self : (a : ℕ) → bit_and a a ≡ a
bit_and_self a = bit_and_self_fuel a a (omega arith)

-- `b & (b - 1)` clears the lowest bit: here one binary digit at a time.
pub clear_lowest_odd : (b : ℕ) → b % 2 ≡ 1 → bit_and b (b - 1) ≡ b / 2 * 2
clear_lowest_odd b odd =
    let e : (b - 1) / 2 ≡ b / 2 = omega arith in
    omega (arith, bit_and_step b (b - 1), ap (λ (n : ℕ). bit_and (b / 2) n) e, bit_and_self (b / 2))

pub clear_lowest_even :
    (b : ℕ) → b % 2 ≡ 0 → b ≢ 0 → bit_and b (b - 1) ≡ bit_and (b / 2) (b / 2 - 1) * 2
clear_lowest_even b even ne =
    let e : (b - 1) / 2 ≡ b / 2 - 1 = omega arith in
    omega (arith, bit_and_step b (b - 1), ap (λ (n : ℕ). bit_and (b / 2) n) e)

bit_and_le_fuel : (n a b : ℕ) → a ≤ n → bit_and a b ≤ a
bit_and_le_fuel n zero b h = omega (arith, bit_and-bitwise 0 b)
bit_and_le_fuel zero (suc a) b h = absurd (omega arith)
bit_and_le_fuel (suc n) (suc a) b h =
    omega (arith, bit_and_step (suc a) b, bit_and_le_fuel n (suc a / 2) (b / 2) (omega arith))

pub bit_and-le : (a b : ℕ) → bit_and a b ≤ a
bit_and-le a b = bit_and_le_fuel a a b (omega arith)
