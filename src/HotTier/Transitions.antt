-- ===== src/HotTier/Transitions.antt =====
-- The compare-and-swap of a slot's state, in the bucket and in the table.
use native.Mathlib.Decide.{ℕ_discrete}
use native.Mathlib.Nat.{one-le-pow}
use hiom.Prelude.{
  ◌≡◌, refl, suc, zero, ℕ, bit, Bool, shr, ◌%◌, ◌*◌, ◌/◌, ◌+◌, arith, ap, ◌^◌, ◌∙◌, sym, ◌<◌, shl,
  ◌==◌, ◌&&◌, ◌||◌, if◌then◌else◌, bit-and, bit_and, bit_or, bit_not, bit-or, bit-not, not,
  and_digit, Bool-cases, inl, inr, ◌≢◌, and_mask, twice_shl,
}
use hiom.HotTier.Layout.{BucketMeta, get_state, field, cas_state, slots_per_bucket}
use hiom.HotTier.States.{
  get_state-digits, field_uncut, field_low, field_high, field-lt, shl-shr, shr-suc,
}

-- A field of a word, in place.
and_field : (w x k : ℕ) → bit_and w (shl x k) ≡ shl (bit_and (shr w k) x) k
and_field w x zero =
    let a : x * 2 ^ 0 ≡ x = omega arith in
    let b : w / 2 ^ 0 ≡ w = omega arith in rw (a, b) (omega arith)
and_field w x (suc k) =
    let d = twice_shl x k in
    let half : shl x (suc k) / 2 ≡ shl x k = omega (arith, d) in
    let even : shl x (suc k) % 2 ≡ 0 = omega (arith, d) in
    and_digit w (shl x (suc k))
    ∙ rw (half, even, and_field (w / 2) x k, shr-suc w k)
        (omega (arith, twice_shl (bit_and (shr (w / 2) k) x) k))

same_shl : (x y k : ℕ) → (shl x k == shl y k) ≡ (x == y)
same_shl x y k = elim (ℕ_discrete x y) [
  | yes e ↦ rw e (ground arith)
  | no ne ↦
      let apart : shl x k ≢ shl y k =
        λ e. ne (sym (shl-shr x k) ∙ ap (λ (t : ℕ). shr t k) e ∙ shl-shr y k) in
      ground (arith, apart)
]

module _ (m : BucketMeta) (i : ℕ) (hi : i < slots_per_bucket) where
  -- The test compares the state of the slot.
  state_test :
      (old : ℕ)
      → old < 4
      → (bit_and m.state (field 0x3 i) == field (bit_and old 0x3) i) ≡ (get_state m i == old)
  unfolding get_state
  state_test old h =
      let code : bit_and old 3 ≡ old = omega (arith, and_mask 2 old) in
      let pos = one-le-pow (2 * i) 2 (omega arith) in
      rw
        (
          code,
          field_uncut 3 i (omega arith) hi,
          field_uncut old i h hi,
          and_field m.state 3 (2 * i),
        )
        (same_shl (get_state m i) old (2 * i))

  abbrev swapped : ℕ → BucketMeta
  swapped new = record m {
    state = bit_or (bit_and m.state (bit_not 32 (field 0x3 i))) (field new i);
  }

  bit-swapped :
      (new n : ℕ)
      → n < 32
      → bit (swapped new).state n
        ≡ ((bit m.state n && not (bit (field 3 i) n)) || bit (field new i) n)
  bit-swapped new n h =
      bit-or (bit_and m.state (bit_not 32 (field 0x3 i))) (field new i) n
      ∙ ap (λ (b : Bool). b || bit (field new i) n)
          (bit-and m.state (bit_not 32 (field 3 i)) n
            ∙ ap (λ (b : Bool). bit m.state n && b) (bit-not 32 (field 3 i) n h (field-lt 3 i)))

  get_state-swapped :
      (new j : ℕ)
      → new < 4
      → j < slots_per_bucket
      → get_state (swapped new) j ≡ (if j == i then new else get_state m j)
  unfolding bit
  get_state-swapped new j hn hj =
      get_state-digits (swapped new) j
      ∙ rw
          (
            bit-swapped new (2 * j) (omega arith),
            bit-swapped new (2 * j + 1) (omega arith),
            field_low 3 i j (omega arith) hi,
            field_low new i j hn hi,
            field_high 3 i j (omega arith) hi,
            field_high new i j hn hi,
          )
          (ground (arith, get_state-digits m j))

  -- `cas_state` succeeds exactly where the slot is in the state `old`; then the slot is in the state
  -- `new` and every other slot keeps its state. Where it fails, nothing changes.
  pub cas_state-states :
      (old new j : ℕ)
      → old < 4
      → new < 4
      → j < slots_per_bucket
      → ((cas_state m i old new).0 ≡ (get_state m i == old))
        × (get_state (cas_state m i old new).1 j
            ≡ (if j == i && get_state m i == old then new else get_state m j))
  unfolding cas_state
  cas_state-states old new j ho hn hj =
      let code : bit_and new 3 ≡ new = omega (arith, and_mask 2 new) in
      let test = state_test old ho in
      elim (Bool-cases (get_state m i == old)) [
        | inl there ↦
            rw (cas_state, test, there, code) (refl, get_state-swapped new j hn hj ∙ ground arith)
        | inr other ↦ rw (cas_state, test, other) (refl, ground arith)
      ]
