-- ===== src/HotTier/States.antt =====
-- The 2-bit states in one word: a change of one slot's state is a change of that slot's only.
use native.Mathlib.Decide.{dec_lt}
use native.Mathlib.Nat.{
  mul-div_cancel, one-le-pow, pow-suc, div-div-eq-div-mul, pow-le-pow_right, mul-le-mul,
}
use hiom.Prelude.{
  ◌≡◌, refl, suc, zero, true, false, ℕ, bit, Bool, shr, ◌%◌, ◌*◌, ◌/◌, ◌+◌, arith, ap, ◌^◌, ◌∙◌,
  sym, and_mask, ◌<◌, shl, ◌==◌, ◌≤◌, ◌&&◌, ◌||◌, bit-zero, bit-shl, if◌then◌else◌, ◌-◌, bit-and,
  bit_or, bit_not, bit-or, bit-not, not, ap₂,
}
use hiom.HotTier.Layout.{
  BucketMeta, get_state, field, force_pinned, force_unpinned, pinned, unpinned, slots_per_bucket,
}

abbrev pub digit : Bool → ℕ
digit true = 1
digit false = 0

pub shr-suc : (w k : ℕ) → shr w (suc k) ≡ shr (w / 2) k
shr-suc w k =
    let twice : 2 ^ suc k ≡ 2 * 2 ^ k = omega (arith, pow-suc 2 k) in
    ap (λ (t : ℕ). w / t) twice ∙ sym (div-div-eq-div-mul w 2 (2 ^ k))

bit-shr : (w k i : ℕ) → bit (shr w k) i ≡ bit w (k + i)
unfolding bit
bit-shr w zero i =
    let whole : w / 2 ^ 0 ≡ w = omega arith in
    let same : 0 + i ≡ i = omega arith in rw (whole, same) refl
bit-shr w (suc k) i =
    let next : suc k + i ≡ suc (k + i) = omega arith in rw (shr-suc w k, next) (bit-shr (w / 2) k i)

low_digits : (w : ℕ) → w % 4 ≡ digit (bit w 0) + 2 * digit (bit w 1)
unfolding bit
low_digits w = ground arith

pub get_state-digits :
    (m : BucketMeta) (i : ℕ)
    → get_state m i ≡ digit (bit m.state (2 * i)) + 2 * digit (bit m.state (2 * i + 1))
unfolding get_state
get_state-digits m i =
    let all : 2 * i + 0 ≡ 2 * i = omega arith in
    and_mask 2 (shr m.state (2 * i))
    ∙ low_digits (shr m.state (2 * i))
    ∙ rw (bit-shr m.state (2 * i) 0, bit-shr m.state (2 * i) 1, all) refl

-- A code of two bits moved to the field of slot `i` fits the word.
pub field_uncut : (code i : ℕ) → code < 4 → i < 16 → field code i ≡ shl code (2 * i)
field_uncut code i hc hi =
    let room : 2 ^ (2 * i) ≤ 2 ^ 30 = pow-le-pow_right (omega arith) {j = 30} (omega arith) in
    let le : code ≤ 3 = omega arith in omega (arith, mul-le-mul le room)

pub shl-shr : (x k : ℕ) → shr (shl x k) k ≡ x
shl-shr x k = mul-div_cancel x (one-le-pow k 2 (omega arith))

bit_past : (code d : ℕ) → code < 4 → bit code (suc (suc d)) ≡ false
unfolding bit
bit_past code d h = let gone : code / 2 / 2 ≡ 0 = omega arith in rw gone (bit-zero d)

shifted_bit : (x k d : ℕ) → bit (shl x k) (k + d) ≡ bit x d
shifted_bit x k d = sym (bit-shr (shl x k) k d) ∙ ap (λ (t : ℕ). bit t d) (shl-shr x k)

by_distance :
    (code k d : ℕ)
    → code < 4
    → bit (shl code k) (k + d) ≡ ((d == 0 && bit code 0) || (d == 1 && bit code 1))
by_distance code k zero h = shifted_bit code k 0 ∙ ground arith
by_distance code k (suc zero) h = shifted_bit code k 1 ∙ ground arith
by_distance code k (suc (suc d)) h =
    shifted_bit code k (suc (suc d)) ∙ bit_past code d h ∙ ground arith

-- Its bits are the code's.
bit-field :
    (code i n : ℕ)
    → code < 4
    → i < 16
    → bit (field code i) n ≡ ((n == 2 * i && bit code 0) || (n == 2 * i + 1 && bit code 1))
bit-field code i n hc hi =
    ap (λ (t : ℕ). bit t n) (field_uncut code i hc hi) ∙ elim (dec_lt n (2 * i)) [
      | yes below ↦ bit-shl code (2 * i) n below ∙ ground arith
      | no above ↦
          let at : n ≡ 2 * i + (n - 2 * i) = omega arith in
          ap (bit (shl code (2 * i))) at ∙ by_distance code (2 * i) (n - 2 * i) hc ∙ ground arith
    ]

pub field_low :
    (code i j : ℕ) → code < 4 → i < 16 → bit (field code i) (2 * j) ≡ (j == i && bit code 0)
field_low code i j hc hi = bit-field code i (2 * j) hc hi ∙ ground arith

pub field_high :
    (code i j : ℕ) → code < 4 → i < 16 → bit (field code i) (2 * j + 1) ≡ (j == i && bit code 1)
field_high code i j hc hi = bit-field code i (2 * j + 1) hc hi ∙ ground arith

pub field-lt : (code i : ℕ) → field code i < 2 ^ 32
field-lt code i = omega arith

module _ (m : BucketMeta) (i j : ℕ) (hi : i < slots_per_bucket) (hj : j < slots_per_bucket) where
  bit-force_pinned :
      (n : ℕ)
      → n < 32
      → bit (force_pinned m i).state n
        ≡ ((bit m.state n || bit (field 1 i) n) && not (bit (field 2 i) n))
  unfolding force_pinned
  bit-force_pinned n h =
      bit-and (bit_or m.state (field 1 i)) (bit_not 32 (field 2 i)) n
      ∙ ap₂ (λ (a b : Bool). a && b) (bit-or m.state (field 1 i) n)
          (bit-not 32 (field 2 i) n h (field-lt 2 i))

  bit-force_unpinned :
      (n : ℕ)
      → n < 32
      → bit (force_unpinned m i).state n ≡ (bit m.state n && not (bit (field 3 i) n))
  unfolding force_unpinned
  bit-force_unpinned n h =
      bit-and m.state (bit_not 32 (field 3 i)) n
      ∙ ap (λ (b : Bool). bit m.state n && b) (bit-not 32 (field 3 i) n h (field-lt 3 i))

  -- `force_pinned` sets this slot's state to pinned, and keeps every other slot's.
  pub get_state-force_pinned :
      get_state (force_pinned m i) j ≡ (if j == i then pinned else get_state m j)
  unfolding bit
  get_state-force_pinned =
      get_state-digits (force_pinned m i) j
      ∙ rw
          (
            bit-force_pinned (2 * j) (omega arith),
            bit-force_pinned (2 * j + 1) (omega arith),
            field_low 1 i j (omega arith) hi,
            field_low 2 i j (omega arith) hi,
            field_high 1 i j (omega arith) hi,
            field_high 2 i j (omega arith) hi,
          )
          (ground (arith, get_state-digits m j))

  -- `force_unpinned` sets this slot's state to unpinned, and keeps every other slot's.
  pub get_state-force_unpinned :
      get_state (force_unpinned m i) j ≡ (if j == i then unpinned else get_state m j)
  unfolding bit
  get_state-force_unpinned =
      get_state-digits (force_unpinned m i) j
      ∙ rw
          (
            bit-force_unpinned (2 * j) (omega arith),
            bit-force_unpinned (2 * j + 1) (omega arith),
            field_low 3 i j (omega arith) hi,
            field_high 3 i j (omega arith) hi,
          )
          (ground (arith, get_state-digits m j))
