-- ===== src/Shared/Masks.antt =====
-- Masks and disjunctions at any width, from the recursion on binary digits.
use Prim.Native.Nat.{
  ℕ, zero, suc, ◌+◌, ◌-◌, ◌*◌, ◌/◌, ◌%◌, ◌^◌, ◌≤◌, ◌<◌, min, max, bit_and, bit_or, digits,
  bit_and-bitwise, bit_or-bitwise,
}
use mathlib.Core.Path.{◌≡◌, refl, sym, ◌∙◌, ap, ap₂}
use native.Mathlib.Omega.{arith}

-- Digit by digit, with `rest` of the second number where the first has no digit left.
module _ (rest : ℕ → ℕ) (op : ℕ → ℕ → ℕ) where
  digits-none : (n b : ℕ) → digits rest op n zero b ≡ rest b
  digits-none zero b = refl
  digits-none (suc n) b = refl

  -- Any fuel that covers the first number gives the same digits.
  digits-agree : (a b n m : ℕ) → a ≤ n → a ≤ m → digits rest op n a b ≡ digits rest op m a b
  digits-agree zero b n m p q = digits-none n b ∙ sym (digits-none m b)
  digits-agree (suc a) b zero m p q = absurd (omega (arith, p))
  digits-agree (suc a) b n zero p q = absurd (omega (arith, q))
  digits-agree (suc a) b (suc n) (suc m) p q =
      ap (λ high. high * 2 + op (suc a % 2) (b % 2))
        (digits-agree (suc a / 2) (b / 2) n m (omega arith) (omega arith))

  lowest_digit :
      (a b : ℕ)
      → digits rest op (suc a) (suc a) b
        ≡ digits rest op (suc a / 2) (suc a / 2) (b / 2) * 2 + op (suc a % 2) (b % 2)
  lowest_digit a b =
      ap (λ high. high * 2 + op (suc a % 2) (b % 2))
        (digits-agree (suc a / 2) (b / 2) a (suc a / 2) (omega arith) (omega arith))

and_lowest : (a b : ℕ) → bit_and a b ≡ bit_and (a / 2) (b / 2) * 2 + min (a % 2) (b % 2)
and_lowest zero b = omega (arith, bit_and-bitwise 0 b, bit_and-bitwise 0 (b / 2))
and_lowest (suc a) b =
    bit_and-bitwise (suc a) b
    ∙ lowest_digit (λ c. zero) min a b
    ∙ ap (λ high. high * 2 + min (suc a % 2) (b % 2)) (sym (bit_and-bitwise (suc a / 2) (b / 2)))

or_lowest : (a b : ℕ) → bit_or a b ≡ bit_or (a / 2) (b / 2) * 2 + max (a % 2) (b % 2)
or_lowest zero b = omega (arith, bit_or-bitwise 0 b, bit_or-bitwise 0 (b / 2))
or_lowest (suc a) b =
    bit_or-bitwise (suc a) b
    ∙ lowest_digit (λ c. c) max a b
    ∙ ap (λ high. high * 2 + max (suc a % 2) (b % 2)) (sym (bit_or-bitwise (suc a / 2) (b / 2)))

pow_suc : (k : ℕ) → 2 ^ suc k ≡ 2 * 2 ^ k
pow_suc k = omega arith

pub pow_pos : (k : ℕ) → 1 ≤ 2 ^ k
pow_pos zero = omega arith
pow_pos (suc k) = omega (arith, pow_suc k, pow_pos k)

-- The mask of the `k` lowest bits leaves a number of `k` bits as it is.
bit_and_ones : (k a : ℕ) → a < 2 ^ k → bit_and a (2 ^ k - 1) ≡ a
bit_and_ones zero zero h = refl
bit_and_ones zero (suc a) h = absurd (omega arith)
bit_and_ones (suc k) a h =
    let half : (2 ^ suc k - 1) / 2 ≡ 2 ^ k - 1 = omega (arith, pow_suc k, pow_pos k) in
    let odd : (2 ^ suc k - 1) % 2 ≡ 1 = omega (arith, pow_suc k, pow_pos k) in
    let rest = bit_and_ones k (a / 2) (omega (arith, pow_suc k)) in
    omega (arith, and_lowest a (2 ^ suc k - 1), ap (λ m. bit_and (a / 2) m) half)

-- `x & ~0xF` on a word of `k + 4` bits clears the low four.
bit_and_doubled : (a m : ℕ) → bit_and a (2 * m) ≡ 2 * bit_and (a / 2) m
bit_and_doubled a m =
    let half : 2 * m / 2 ≡ m = omega arith in
    omega (arith, and_lowest a (2 * m), ap (λ n. bit_and (a / 2) n) half)

pub clear_nibble : (k a : ℕ) → a < 16 * 2 ^ k → bit_and a (16 * 2 ^ k - 16) ≡ 16 * (a / 16)
clear_nibble k a h =
    let m = 2 ^ k - 1 in
    let mask : 16 * 2 ^ k - 16 ≡ 2 * (2 * (2 * (2 * m))) = omega (arith, pow_pos k) in
    let high : a / 2 / 2 / 2 / 2 ≡ a / 16 = omega arith in
    omega (
      arith,
      ap (λ n. bit_and a n) mask,
      bit_and_doubled a (2 * (2 * (2 * m))),
      bit_and_doubled (a / 2) (2 * (2 * m)),
      bit_and_doubled (a / 2 / 2) (2 * m),
      bit_and_doubled (a / 2 / 2 / 2) m,
      bit_and_ones k (a / 2 / 2 / 2 / 2) (omega arith),
    )

or_nothing : (n a : ℕ) → a ≤ n → bit_or a 0 ≡ a
or_nothing n zero h = refl
or_nothing zero (suc a) h = absurd (omega (arith, h))
or_nothing (suc n) (suc a) h =
    let low = or_lowest (suc a) 0 in
    let high = or_nothing n (suc a / 2) (omega arith) in omega (arith, low, high)

bit_or-zero : (a : ℕ) → bit_or a 0 ≡ a
bit_or-zero a = or_nothing a a (omega arith)

bit_or_doubled : (a b : ℕ) → bit_or (2 * a) b ≡ 2 * bit_or a (b / 2) + b % 2
bit_or_doubled a b =
    let half : 2 * a / 2 ≡ a = omega arith in
    omega (arith, or_lowest (2 * a) b, ap (λ n. bit_or n (b / 2)) half)

-- A number below `2 ^ k` beside a multiple of `2 ^ k`.
pub or_beside : (k a b : ℕ) → b < 2 ^ k → bit_or (2 ^ k * a) b ≡ 2 ^ k * a + b
or_beside zero a b h =
    let none : b ≡ 0 = omega arith in
    let whole : 2 ^ 0 * a ≡ a = omega arith in
    omega (arith, ap₂ (λ m n. bit_or m n) whole none, bit_or-zero a)
or_beside (suc k) a b h =
    let doubled : 2 ^ suc k * a ≡ 2 * (2 ^ k * a) =
      grind (arith, ap (λ (p : ℕ). p * a) (pow_suc k)) in
    let rest = or_beside k a (b / 2) (omega (arith, pow_suc k)) in
    omega (arith, ap (λ m. bit_or m b) doubled, bit_or_doubled (2 ^ k * a) b)
