-- ===== src/Shared/Bits.antt =====
-- Masks, shifts and disjunctions of bits on small numbers, as arithmetic. Each law is a table that
-- is checked by evaluation.
use Prim.Native.Nat.{ℕ, zero, suc, ◌+◌, ◌*◌, ◌/◌, ◌%◌, ◌^◌, ◌<◌, bit_and, bit_or}
use mathlib.Core.Path.{◌≡◌, refl, ap₂, sym, ◌∙◌}
use mathlib.Core.Bool.{Bool, true, ◌&&◌}
use native.Mathlib.Omega.{arith}
use kaonic_comm.Shared.Tests.{◌==◌}

infixl 75 ◌<<<◌ ◌>>>◌
abbrev pub ◌<<<◌ : ℕ → ℕ → ℕ
x <<< k = x * 2 ^ k

abbrev pub ◌>>>◌ : ℕ → ℕ → ℕ
x >>> k = x / 2 ^ k

infixl 60 ◌|||◌
abbrev pub ◌|||◌ : ℕ → ℕ → ℕ
a ||| b = bit_or a b

infixl 62 ◌&&&◌
abbrev pub ◌&&&◌ : ℕ → ℕ → ℕ
a &&& b = bit_and a b

-- The two functions agree on every number below the bound.
same_below : ℕ → (ℕ → ℕ) → (ℕ → ℕ) → Bool
same_below zero f g = true
same_below (suc n) f g = (f n == g n) && same_below n f g

same_below→eq : (n : ℕ) (f g : ℕ → ℕ) → same_below n f g ≡ true → (x : ℕ) → x < n → f x ≡ g x
unfolding same_below
same_below→eq zero f g h x lt = absurd (omega arith)
same_below→eq (suc n) f g h x lt = ground (arith, same_below→eq n f g (ground arith) x)

pub mask_one : (x : ℕ) → x < 256 → x &&& 1 ≡ x % 2
unfolding same_below
mask_one = same_below→eq 256 (λ x. x &&& 1) (λ x. x % 2) refl

pub mask_two : (x : ℕ) → x < 256 → x &&& 0b11 ≡ x % 4
unfolding same_below
mask_two = same_below→eq 256 (λ x. x &&& 0b11) (λ x. x % 4) refl

pub mask_three : (x : ℕ) → x < 256 → x &&& 0b111 ≡ x % 8
unfolding same_below
mask_three = same_below→eq 256 (λ x. x &&& 0b111) (λ x. x % 8) refl

pub mask_four : (x : ℕ) → x < 256 → x &&& 0b1111 ≡ x % 16
unfolding same_below
mask_four = same_below→eq 256 (λ x. x &&& 0b1111) (λ x. x % 16) refl

pub mask_byte : (x : ℕ) → x < 2 ^ 16 → x &&& 0b11111111 ≡ x % 256
unfolding same_below
mask_byte = same_below→eq (2 ^ 16) (λ x. x &&& 0b11111111) (λ x. x % 256) refl

-- The ninth and the tenth bit do not survive a cast to eight bits.
pub mask_high_cast : (x : ℕ) → x < 2 ^ 16 → (x &&& 0b1100000000) % 2 ^ 8 ≡ 0
unfolding same_below
mask_high_cast = same_below→eq (2 ^ 16) (λ x. (x &&& 0b1100000000) % 2 ^ 8) (λ x. 0) refl

-- A byte is the disjunction of its parts above and below a bit.
module _ (m : ℕ) (table : same_below 256 (λ x. x / m * m ||| x % m) (λ x. x) ≡ true) where
  or_parts : (a b : ℕ) → (a + b) / m * m ≡ a → (a + b) % m ≡ b → a + b < 256 → a ||| b ≡ a + b
  or_parts a b p q h =
      ap₂ (λ u v. u ||| v) (sym p) (sym q)
      ∙ same_below→eq 256 (λ x. x / m * m ||| x % m) (λ x. x) table (a + b) h

pub or_above_one : (a b : ℕ) → a % 2 ≡ 0 → b < 2 → a + b < 256 → a ||| b ≡ a + b
unfolding same_below
or_above_one a b p q h = or_parts 2 refl a b (omega arith) (omega arith) h

pub or_above_two : (a b : ℕ) → a % 4 ≡ 0 → b < 4 → a + b < 256 → a ||| b ≡ a + b
unfolding same_below
or_above_two a b p q h = or_parts 4 refl a b (omega arith) (omega arith) h

pub or_above_three : (a b : ℕ) → a % 8 ≡ 0 → b < 8 → a + b < 256 → a ||| b ≡ a + b
unfolding same_below
or_above_three a b p q h = or_parts 8 refl a b (omega arith) (omega arith) h

pub or_above_four : (a b : ℕ) → a % 16 ≡ 0 → b < 16 → a + b < 256 → a ||| b ≡ a + b
unfolding same_below
or_above_four a b p q h = or_parts 16 refl a b (omega arith) (omega arith) h

pub or_above_five : (a b : ℕ) → a % 32 ≡ 0 → b < 32 → a + b < 256 → a ||| b ≡ a + b
unfolding same_below
or_above_five a b p q h = or_parts 32 refl a b (omega arith) (omega arith) h

pub or_above_six : (a b : ℕ) → a % 64 ≡ 0 → b < 64 → a + b < 256 → a ||| b ≡ a + b
unfolding same_below
or_above_six a b p q h = or_parts 64 refl a b (omega arith) (omega arith) h

pub or_above_seven : (a b : ℕ) → a % 128 ≡ 0 → b < 128 → a + b < 256 → a ||| b ≡ a + b
unfolding same_below
or_above_seven a b p q h = or_parts 128 refl a b (omega arith) (omega arith) h

pub or_zero : (a : ℕ) → a < 256 → a ||| 0 ≡ a
unfolding same_below
or_zero = same_below→eq 256 (λ a. a ||| 0) (λ a. a) refl
