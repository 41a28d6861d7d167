-- ===== src/Prelude/Bits.antt =====
-- Bit fields and bitmaps: `|` of disjoint fields, `&` with a low mask, and single bits of a word.
use Prim.Native.Nat.{
  ℕ, zero, suc, ◌+◌, ◌-◌, ◌*◌, ◌/◌, ◌%◌, ◌^◌, ◌≤◌, ◌<◌, min, max, bit_and, bit_or, digits, bitwise,
  bit_and-bitwise, bit_or-bitwise,
}
use mathlib.Core.Path.{◌≡◌, refl, sym, ap, ap₂, ◌∙◌}
use mathlib.Core.Bool.{Bool, true, false, not, ◌&&◌, ◌||◌}
use native.Mathlib.Nat.{pow-suc, one-le-pow, pow-le-pow_right, div-div-eq-div-mul}
use native.Mathlib.Omega.{arith}
use hiom.Prelude.Tests.{◌==◌}

-- `x << k` (before any cut to the word) and `x >> k`.
abbrev pub shl : ℕ → ℕ → ℕ
shl x k = x * 2 ^ k

abbrev pub shr : ℕ → ℕ → ℕ
shr x k = x / 2 ^ k

-- `(1 << k) - 1`
abbrev pub mask : ℕ → ℕ
mask k = 2 ^ k - 1

-- `~x` in a word of `w` bits.
abbrev pub bit_not : ℕ → ℕ → ℕ
bit_not w x = mask w - x

-- `((x >> i) & 1) != 0`, a digit at a time.
unfoldable pub bit : ℕ → ℕ → Bool
bit x zero = x % 2 == 1
bit x (suc i) = bit (x / 2) i

module _ (past : ℕ → ℕ) (op : ℕ → ℕ → ℕ) where
  -- Two counts that both reach the end of the first number give the same digits.
  digits_count : (a b n m : ℕ) → a ≤ n → a ≤ m → digits past op n a b ≡ digits past op m a b
  digits_count zero b zero zero h k = refl
  digits_count zero b zero (suc m) h k = refl
  digits_count zero b (suc n) zero h k = refl
  digits_count zero b (suc n) (suc m) h k = refl
  digits_count (suc a) b zero m h k = absurd (omega arith)
  digits_count (suc a) b (suc n) zero h k = absurd (omega arith)
  digits_count (suc a) b (suc n) (suc m) h k =
      ap (λ (t : ℕ). t * 2 + op (suc a % 2) (b % 2))
        (digits_count (suc a / 2) (b / 2) n m (omega arith) (omega arith))

  -- What the native operations stand for, with no count: the lowest digit, and the rest.
  bitwise_digit :
      (a b : ℕ)
      → bitwise past op (suc a) b ≡ bitwise past op (suc a / 2) (b / 2) * 2 + op (suc a % 2) (b % 2)
  bitwise_digit a b =
      ap (λ (t : ℕ). t * 2 + op (suc a % 2) (b % 2))
        (digits_count (suc a / 2) (b / 2) a (suc a / 2) (omega arith) (omega arith))

pub or_digit : (a b : ℕ) → bit_or a b ≡ bit_or (a / 2) (b / 2) * 2 + max (a % 2) (b % 2)
or_digit zero b = omega (arith, bit_or-bitwise 0 b, bit_or-bitwise 0 (b / 2))
or_digit (suc a) b = omega (
  arith,
  bit_or-bitwise (suc a) b,
  bit_or-bitwise (suc a / 2) (b / 2),
  bitwise_digit (λ y. y) max a b,
)

pub and_digit : (a b : ℕ) → bit_and a b ≡ bit_and (a / 2) (b / 2) * 2 + min (a % 2) (b % 2)
and_digit zero b = omega (arith, bit_and-bitwise 0 b, bit_and-bitwise 0 (b / 2))
and_digit (suc a) b = omega (
  arith,
  bit_and-bitwise (suc a) b,
  bit_and-bitwise (suc a / 2) (b / 2),
  bitwise_digit (λ _. 0) min a b,
)

pub or-half : (a b : ℕ) → bit_or a b / 2 ≡ bit_or (a / 2) (b / 2)
or-half a b = omega (arith, or_digit a b)

pub and-half : (a b : ℕ) → bit_and a b / 2 ≡ bit_and (a / 2) (b / 2)
and-half a b = omega (arith, and_digit a b)

-- One bit of a result.
pub bit-or : (a b i : ℕ) → bit (bit_or a b) i ≡ (bit a i || bit b i)
unfolding bit
bit-or a b zero = ground (arith, or_digit a b)
bit-or a b (suc i) = rw (or-half a b) (bit-or (a / 2) (b / 2) i)

pub bit-and : (a b i : ℕ) → bit (bit_and a b) i ≡ (bit a i && bit b i)
unfolding bit
bit-and a b zero = ground (arith, and_digit a b)
bit-and a b (suc i) = rw (and-half a b) (bit-and (a / 2) (b / 2) i)

pub bit-zero : (i : ℕ) → bit 0 i ≡ false
unfolding bit
bit-zero zero = refl
bit-zero (suc i) = bit-zero i

half-pow : (j : ℕ) → 2 ^ suc j / 2 ≡ 2 ^ j
half-pow j = omega (arith, pow-suc 2 j)

pub bit-pow : (j i : ℕ) → bit (2 ^ j) i ≡ (i == j)
unfolding bit
bit-pow zero zero = refl
bit-pow zero (suc i) = rw (bit-zero i) (ground arith)
bit-pow (suc j) zero = ground (arith, pow-suc 2 j)
bit-pow (suc j) (suc i) = rw (half-pow j, bit-pow j i) (ground arith)

half-not : (w x : ℕ) → bit_not (suc w) x / 2 ≡ bit_not w (x / 2)
half-not w x = omega (arith, pow-suc 2 w)

pub bit-not : (w x i : ℕ) → i < w → x < 2 ^ w → bit (bit_not w x) i ≡ not (bit x i)
unfolding bit
bit-not zero x i h k = absurd (omega arith)
bit-not (suc w) x zero h k = ground (arith, pow-suc 2 w)
bit-not (suc w) x (suc i) h k =
    rw (half-not w x) (bit-not w (x / 2) i (omega arith) (omega (arith, pow-suc 2 w)))

-- A whole field of a result.
pub lt-pow : (a : ℕ) → a < 2 ^ a
lt-pow zero = omega arith
lt-pow (suc a) = omega (arith, pow-suc 2 a, lt-pow a)

or-zero : (k a : ℕ) → a < 2 ^ k → bit_or a 0 ≡ a
or-zero zero a h = ground (arith, or_digit a 0)
or-zero (suc k) a h = omega (arith, or_digit a 0, pow-suc 2 k, or-zero k (a / 2))

pub or_zero : (a : ℕ) → bit_or a 0 ≡ a
or_zero a = or-zero a a (lt-pow a)

and_zero : (k a : ℕ) → a < 2 ^ k → bit_and a 0 ≡ 0
and_zero zero a h = ground (arith, and_digit a 0)
and_zero (suc k) a h = omega (arith, and_digit a 0, pow-suc 2 k, and_zero k (a / 2))

pub twice_shl : (q k : ℕ) → q * 2 ^ suc k ≡ 2 * (q * 2 ^ k)
twice_shl q k = omega (arith, ap (λ (t : ℕ). q * t) (pow-suc 2 k))

mod_twice : (m a : ℕ) → 0 < m → a % (m * 2) ≡ a / 2 % m * 2 + a % 2
mod_twice m a h = grind arith

mod_digit : (k a : ℕ) → a % 2 ^ suc k ≡ a / 2 % 2 ^ k * 2 + a % 2
mod_digit k a = omega (
  arith,
  pow-suc 2 k,
  ap (λ (t : ℕ). a % t) (pow-suc 2 k),
  mod_twice (2 ^ k) a (one-le-pow k 2 (omega arith)),
)

pub or_fields : (k q r : ℕ) → r < 2 ^ k → bit_or (shl q k) r ≡ q * 2 ^ k + r
or_fields zero q r h = ground (arith, or_zero q)
or_fields (suc k) q r h = ground (
  arith,
  or_digit (q * 2 ^ suc k) r,
  twice_shl q k,
  pow-suc 2 k,
  or_fields k q (r / 2) (omega (arith, pow-suc 2 k)),
)

half_mask : (k : ℕ) → mask (suc k) / 2 ≡ mask k
half_mask k = omega (arith, pow-suc 2 k)

odd_mask : (k : ℕ) → mask (suc k) % 2 ≡ 1
odd_mask k = omega (arith, pow-suc 2 k, one-le-pow k 2)

pub and_mask : (k a : ℕ) → bit_and a (mask k) ≡ a % 2 ^ k
and_mask zero a = omega (arith, and_zero a a (lt-pow a))
and_mask (suc k) a = omega (
  arith,
  and_digit a (mask (suc k)),
  pow-suc 2 k,
  half_mask k,
  odd_mask k,
  ap (bit_and (a / 2)) (half_mask k),
  and_mask k (a / 2),
  mod_digit k a,
)

zero_of_lt_one : (b : ℕ) → b < 1 → b ≡ 0
zero_of_lt_one b h = omega arith

pub or-lt : (k a b : ℕ) → a < 2 ^ k → b < 2 ^ k → bit_or a b < 2 ^ k
or-lt zero a b h g = omega (arith, or_zero a, ap (bit_or a) (zero_of_lt_one b g))
or-lt (suc k) a b h g = omega (arith, or_digit a b, pow-suc 2 k, or-lt k (a / 2) (b / 2))

div-one : (a : ℕ) → a / 1 ≡ a
div-one a = omega arith

shr_half : (k a : ℕ) → shr a (suc k) ≡ shr (a / 2) k
shr_half k a =
    ap (λ (t : ℕ). a / t) (omega (arith, pow-suc 2 k)) ∙ sym (div-div-eq-div-mul a 2 (2 ^ k))

pub shr-or : (k a b : ℕ) → shr (bit_or a b) k ≡ bit_or (shr a k) (shr b k)
shr-or zero a b = omega (arith, ap₂ bit_or (div-one a) (div-one b))
shr-or (suc k) a b =
    shr_half k (bit_or a b)
    ∙ ap (λ (t : ℕ). shr t k) (or-half a b)
    ∙ shr-or k (a / 2) (b / 2)
    ∙ ap₂ bit_or (sym (shr_half k a)) (sym (shr_half k b))

and-lt : (k a b : ℕ) → a < 2 ^ k → bit_and a b < 2 ^ k
and-lt zero a b h =
    ground (arith, ap (λ (t : ℕ). bit_and t b) (zero_of_lt_one a h), bit_and-bitwise 0 b)
and-lt (suc k) a b h = omega (arith, and_digit a b, pow-suc 2 k, and-lt k (a / 2) (b / 2))

one_shl : (i : ℕ) → shl 1 i ≡ 2 ^ i
one_shl i = omega arith

pow-lt-pow : (i w : ℕ) → i < w → 2 ^ i < 2 ^ w
pow-lt-pow i w h =
    omega (arith, pow-suc 2 i, pow-le-pow_right {n = 2} (omega arith) h, one-le-pow i 2)

pub shl_one-lt : (i w : ℕ) → i < w → shl 1 i < 2 ^ w
shl_one-lt i w h = omega (arith, pow-lt-pow i w h)

-- `w |= 1 << i`
unfoldable pub set_bit : ℕ → ℕ → ℕ
set_bit w i = bit_or w (shl 1 i)

-- `w &= ~(1 << i)` in a word of the given width.
unfoldable pub clear_bit : ℕ → ℕ → ℕ → ℕ
clear_bit width w i = bit_and w (bit_not width (shl 1 i))

pub bit-set_bit : (w i j : ℕ) → bit (set_bit w i) j ≡ ((j == i) || bit w j)
unfolding set_bit
bit-set_bit w i j =
    ground (arith, bit-or w (shl 1 i) j, bit-pow i j, ap (λ (t : ℕ). bit t j) (one_shl i))

pub bit-clear_bit :
    (width w i j : ℕ)
    → i < width
    → j < width
    → bit (clear_bit width w i) j ≡ (not (j == i) && bit w j)
unfolding clear_bit
bit-clear_bit width w i j hi hj = ground (
  arith,
  bit-and w (bit_not width (shl 1 i)) j,
  bit-not width (shl 1 i) j hj (shl_one-lt i width hi),
  bit-pow i j,
  ap (λ (t : ℕ). bit t j) (one_shl i),
)

pub set_bit-lt : (width w i : ℕ) → w < 2 ^ width → i < width → set_bit w i < 2 ^ width
unfolding set_bit
set_bit-lt width w i h hi = or-lt width w (shl 1 i) h (shl_one-lt i width hi)

pub clear_bit-lt : (width w i : ℕ) → w < 2 ^ width → clear_bit width w i < 2 ^ width
unfolding clear_bit
clear_bit-lt width w i h = and-lt width w (bit_not width (shl 1 i)) h

pub zero_or : (b : ℕ) → bit_or 0 b ≡ b
zero_or b = bit_or-bitwise 0 b

pub bit-mask : (k i : ℕ) → i < k → bit (mask k) i ≡ true
bit-mask k i h =
    ap (λ (t : ℕ). bit t i) (omega arith)
    ∙ bit-not k 0 i h (one-le-pow k 2 (omega arith))
    ∙ ap not (bit-zero i)

half_shl : (x k : ℕ) → shl x (suc k) / 2 ≡ shl x k
half_shl x k = omega (arith, twice_shl x k)

-- Shifted-in bits are clear.
pub bit-shl : (x k i : ℕ) → i < k → bit (shl x k) i ≡ false
unfolding bit
bit-shl x zero i h = absurd (omega arith)
bit-shl x (suc k) zero h = ground (arith, twice_shl x k)
bit-shl x (suc k) (suc i) h = rw (half_shl x k) (bit-shl x k i (omega arith))
