-- ===== src/HotTier/Sweep.antt =====
-- One step of the SIEVE sweep.
use hiom.Prelude.{
  ◌≡◌, true, false, some, none, ℕ, Option, arith, ◌<◌, bit, ◌≢◌, Bool, get_or-set_ne, length,
  bit-clear_bit, get_or-set_self,
}
use hiom.HotTier.Layout.{Cell, get_state, unpinned}
use hiom.HotTier.{slot_at, sweep_slot}

abbrev pub freed_some : Option ℕ → Bool
freed_some none = false
freed_some (some i) = true

module _ (c : Cell) (i : ℕ) where
  abbrev result : Option ℕ × Cell
  result = sweep_slot c i

  -- No step changes a state.
  pub sweep_slot-state : result.1.meta.state ≡ c.meta.state
  unfolding sweep_slot
  sweep_slot-state = ground arith

  -- A visited bit that is clear stays clear.
  pub sweep_slot-visited :
      (j : ℕ) → i < 16 → j < 16 → bit c.meta.visited j ≡ false → bit result.1.meta.visited j ≡ false
  unfolding sweep_slot
  sweep_slot-visited j hi hj h = ground (arith, bit-clear_bit 16 c.meta.visited i j hi hj)

  -- A slot that may go and was not visited is freed.
  pub sweep_slot_frees :
      get_state c.meta i ≡ unpinned → bit c.meta.visited i ≡ false → freed_some result.0 ≡ true
  unfolding sweep_slot
  sweep_slot_frees free clear = ground arith

  -- One that was visited loses its bit.
  pub sweep_slot_clears :
      i < 16
      → get_state c.meta i ≡ unpinned
      → freed_some result.0 ≡ false
      → bit result.1.meta.visited i ≡ false
  unfolding sweep_slot
  sweep_slot_clears hi free h = ground (arith, bit-clear_bit 16 c.meta.visited i i)

  -- A slot that is not freed here keeps its word.
  pub sweep_slot-other : (j : ℕ) → result.0 ≢ some j → slot_at result.1 j ≡ slot_at c j
  unfolding sweep_slot
  sweep_slot-other j h = ground (arith, get_or-set_ne c.slots i j 0 0)

  -- What is freed was not pinned and is empty now.
  pub sweep_slot-freed :
      (j : ℕ)
      → i < length c.slots
      → result.0 ≡ some j
      → (j ≡ i) × (get_state c.meta j ≡ unpinned) × (slot_at result.1 j ≡ 0)
  unfolding sweep_slot
  sweep_slot-freed j inside h = ground (arith, get_or-set_self c.slots i 0 0)
