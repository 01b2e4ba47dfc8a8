-- ===== src/Common/Bits.antt =====
-- Bits of a number: `bit_or` and `bit_and`, Go's `|` and `&`, read bit by bit.
use Prim.Native.Nat.{
  ℕ, zero, suc, ◌+◌, ◌*◌, ◌/◌, ◌%◌, ◌^◌, ◌≤◌, ◌<◌, min, max, bit_and, bit_or, digits,
  bit_and-bitwise, bit_or-bitwise,
}
use mathlib.Core.Path.{◌≡◌, refl, sym, ap, ◌∙◌}
use native.Mathlib.Nat.{pow-suc}
use native.Mathlib.Omega.{arith}

-- Both operations run over the digits of their first number, on fuel that this number bounds.
module _ (base : ℕ → ℕ) (digit : ℕ → ℕ → ℕ) where
  digits_enough : (x y f g : ℕ) → x ≤ f → x ≤ g → digits base digit f x y ≡ digits base digit g x y
  digits_enough zero y zero zero p q = refl
  digits_enough zero y zero (suc g) p q = refl
  digits_enough zero y (suc f) zero p q = refl
  digits_enough zero y (suc f) (suc g) p q = refl
  digits_enough (suc x) y zero g p q = absurd (omega arith)
  digits_enough (suc x) y (suc f) zero p q = absurd (omega arith)
  digits_enough (suc x) y (suc f) (suc g) p q =
      ap (λ d. d * 2 + digit (suc x % 2) (y % 2))
        (digits_enough (suc x / 2) (y / 2) f g (omega arith) (omega arith))

  digits_step :
      (x y : ℕ)
      → base y ≡ base (y / 2) * 2 + digit 0 (y % 2)
      → digits base digit x x y
        ≡ digits base digit (x / 2) (x / 2) (y / 2) * 2 + digit (x % 2) (y % 2)
  digits_step zero y h = h
  digits_step (suc x) y h =
      ap (λ d. d * 2 + digit (suc x % 2) (y % 2))
        (digits_enough (suc x / 2) (y / 2) x (suc x / 2) (omega arith) (omega arith))

pub zero-bit_or : (b : ℕ) → bit_or 0 b ≡ b
zero-bit_or b = bit_or-bitwise 0 b

bit_and_step : (a b : ℕ) → bit_and a b ≡ bit_and (a / 2) (b / 2) * 2 + min (a % 2) (b % 2)
bit_and_step a b =
    bit_and-bitwise a b
    ∙ digits_step (λ _. 0) min a b (omega arith)
    ∙ ap (λ d. d * 2 + min (a % 2) (b % 2)) (sym (bit_and-bitwise (a / 2) (b / 2)))

bit_or_step : (a b : ℕ) → bit_or a b ≡ bit_or (a / 2) (b / 2) * 2 + max (a % 2) (b % 2)
bit_or_step a b =
    bit_or-bitwise a b
    ∙ digits_step (λ y. y) max a b (omega arith)
    ∙ ap (λ d. d * 2 + max (a % 2) (b % 2)) (sym (bit_or-bitwise (a / 2) (b / 2)))

-- Bit `k` of `x`, as 0 or 1.
unfoldable pub bit : ℕ → ℕ → ℕ
bit zero x = x % 2
bit (suc k) x = bit k (x / 2)

pub bit_le_one : (k x : ℕ) → bit k x ≤ 1
unfolding bit
bit_le_one zero x = omega arith
bit_le_one (suc k) x = bit_le_one k (x / 2)

pub bit-zero : (k : ℕ) → bit k 0 ≡ 0
unfolding bit
bit-zero zero = refl
bit-zero (suc k) = bit-zero k

and_half : (a b : ℕ) → bit_and a b / 2 ≡ bit_and (a / 2) (b / 2)
and_half a b = omega (arith, bit_and_step a b)

or_half : (a b : ℕ) → bit_or a b / 2 ≡ bit_or (a / 2) (b / 2)
or_half a b = omega (arith, bit_or_step a b)

pub bit-bit_and : (k a b : ℕ) → bit k (bit_and a b) ≡ min (bit k a) (bit k b)
unfolding bit
bit-bit_and zero a b = omega (arith, bit_and_step a b)
bit-bit_and (suc k) a b = rw and_half (bit-bit_and k (a / 2) (b / 2))

pub bit-bit_or : (k a b : ℕ) → bit k (bit_or a b) ≡ max (bit k a) (bit k b)
unfolding bit
bit-bit_or zero a b = omega (arith, bit_or_step a b)
bit-bit_or (suc k) a b = rw or_half (bit-bit_or k (a / 2) (b / 2))

-- A number with a bit set is not 0, and one that is not 0 has a bit set.
pub bit_pos : (k x : ℕ) → bit k x ≡ 1 → 0 < x
unfolding bit
bit_pos zero x h = omega arith
bit_pos (suc k) x h = omega (arith, bit_pos k (x / 2) h)

has_bit_fuel : (n x : ℕ) → x ≤ n → 0 < x → (k : ℕ) × (bit k x ≡ 1)
unfolding bit
has_bit_fuel zero x le h = absurd (omega arith)
has_bit_fuel (suc n) zero le h = absurd (omega arith)
has_bit_fuel (suc n) (suc zero) le h = (0, refl)
has_bit_fuel (suc n) (suc (suc x)) le h =
    let (k, e) = has_bit_fuel n (suc (suc x) / 2) (omega arith) (omega arith) in (suc k, e)

pub has_bit : (x : ℕ) → 0 < x → (k : ℕ) × (bit k x ≡ 1)
has_bit x h = has_bit_fuel x x (omega arith) h

-- A number below `2 ^ n` has no bit from `n` on.
pub bit_lt : (n k x : ℕ) → x < 2 ^ n → bit k x ≡ 1 → k < n
unfolding bit
bit_lt zero k zero h e = absurd (omega (arith, bit-zero k))
bit_lt zero k (suc x) h e = absurd (omega arith)
bit_lt (suc n) zero x h e = omega arith
bit_lt (suc n) (suc k) x h e = omega (arith, bit_lt n k (x / 2) (omega (arith, pow-suc 2 n)) e)

bits_eq_fuel : (n a b : ℕ) → a ≤ n → b ≤ n → ((k : ℕ) → bit k a ≡ bit k b) → a ≡ b
unfolding bit
bits_eq_fuel zero a b p q h = omega arith
bits_eq_fuel (suc n) a b p q h =
    omega (arith, h 0, bits_eq_fuel n (a / 2) (b / 2) (omega arith) (omega arith) (λ k. h (suc k)))

-- Numbers with the same bits are equal.
pub bits_eq : (a b : ℕ) → ((k : ℕ) → bit k a ≡ bit k b) → a ≡ b
bits_eq a b h = bits_eq_fuel (a + b) a b (omega arith) (omega arith) h

pub bit_or_assoc : (a b c : ℕ) → bit_or (bit_or a b) c ≡ bit_or a (bit_or b c)
bit_or_assoc a b c = bits_eq _ _ λ k. omega (
  arith,
  bit-bit_or k (bit_or a b) c,
  bit-bit_or k a b,
  bit-bit_or k a (bit_or b c),
  bit-bit_or k b c,
)

bit_and-zero : (a : ℕ) → bit_and a 0 ≡ 0
bit_and-zero a = bits_eq _ _ λ k. omega (arith, bit-bit_and k a 0, bit-zero k, bit_le_one k a)

-- The mask of the bits 0 and 2.
pub bit_and_five : (x : ℕ) → bit_and x 5 ≡ bit 2 x * 4 + bit 0 x
unfolding bit
bit_and_five x = omega (
  arith,
  bit_and_step x 5,
  bit_and_step (x / 2) 2,
  bit_and_step (x / 2 / 2) 1,
  bit_and-zero (x / 2 / 2 / 2),
)

pub bit_or-zero : (a : ℕ) → bit_or a 0 ≡ a
bit_or-zero a = bits_eq _ _ λ k. omega (arith, bit-bit_or k a 0, bit-zero k)
