-- ===== src/HotTier/Eviction.antt =====
-- The whole SIEVE sweep: which slot it frees, and that it frees one.

use hiom.Prelude.{
  ◌≡◌, refl, suc, zero, true, false, inl, inr, some, ℕ, ◌+◌, arith, ◌<◌, Option, length, ◌%◌, bit,
  ◌∙◌, ◌-◌, ◌≢◌, length-set, Bool-cases, ap, sym,
}
use hiom.HotTier.Layout.{BucketMeta, Cell, get_state, unpinned, slots_per_bucket}
use hiom.HotTier.{slot_at, sweep_slot, sweep, sieve_evict}
use hiom.HotTier.Sweep.{
  freed_some, sweep_slot-state, sweep_slot-visited, sweep_slot_frees, sweep_slot_clears,
  sweep_slot-other, sweep_slot-freed,
}

abbrev at_step : ℕ → ℕ → ℕ
at_step hand k = (hand + k) % slots_per_bucket

sweep_stop :
    (left hand k : ℕ) (c : Cell)
    → freed_some (sweep_slot c (at_step hand k)).0 ≡ true
    → sweep (suc left) hand k c ≡ sweep_slot c (at_step hand k)
unfolding sweep
sweep_stop left hand k c h = ground arith

sweep_on :
    (left hand k : ℕ) (c : Cell)
    → freed_some (sweep_slot c (at_step hand k)).0 ≡ false
    → sweep (suc left) hand k c ≡ sweep left hand (k + 1) (sweep_slot c (at_step hand k)).1
unfolding sweep
sweep_on left hand k c h = ground arith

get_state_congr : (m m' : BucketMeta) (i : ℕ) → m.state ≡ m'.state → get_state m i ≡ get_state m' i
unfolding get_state
get_state_congr m m' i e = rw e refl

still_free :
    (c : Cell) (step i : ℕ)
    → get_state c.meta i ≡ unpinned
    → get_state (sweep_slot c step).1.meta i ≡ unpinned
still_free c step i free =
    get_state_congr (sweep_slot c step).1.meta c.meta i (sweep_slot-state c step) ∙ free

-- A slot that may go and was not visited is met in time.
meets_unvisited :
    (d left hand k i : ℕ) (c : Cell)
    → d < left
    → at_step hand (k + d) ≡ i
    → get_state c.meta i ≡ unpinned
    → bit c.meta.visited i ≡ false
    → freed_some (sweep left hand k c).0 ≡ true
meets_unvisited d zero hand k i c enough at free clear = absurd (omega arith)
meets_unvisited zero (suc left) hand k i c enough at free clear =
    let here : at_step hand k ≡ i = omega arith in
    let stops =
      sweep_slot_frees c (at_step hand k) (ap (get_state c.meta) here ∙ free)
        (ap (bit c.meta.visited) here ∙ clear) in
    rw (sweep_stop left hand k c stops) stops
meets_unvisited (suc d) (suc left) hand k i c enough at free clear =
    elim (Bool-cases (freed_some (sweep_slot c (at_step hand k)).0)) [
      | inl stops ↦ rw (sweep_stop left hand k c stops) stops
      | inr goes ↦ rw (sweep_on left hand k c goes) (
          meets_unvisited d left hand (k + 1) i (sweep_slot c (at_step hand k)).1 (omega arith)
            (omega arith) (still_free c (at_step hand k) i free)
            (sweep_slot-visited c (at_step hand k) i (omega arith) (omega arith) clear))
    ]

-- One that was visited is met twice.
meets :
    (d left hand k i : ℕ) (c : Cell)
    → d + 16 < left
    → at_step hand (k + d) ≡ i
    → get_state c.meta i ≡ unpinned
    → freed_some (sweep left hand k c).0 ≡ true
meets d zero hand k i c enough at free = absurd (omega arith)
meets zero (suc left) hand k i c enough at free =
    elim (Bool-cases (freed_some (sweep_slot c (at_step hand k)).0)) [
      | inl stops ↦ rw (sweep_stop left hand k c stops) stops
      | inr goes ↦
          let here : at_step hand k ≡ i = omega arith in
          rw (sweep_on left hand k c goes) (
            meets_unvisited 15 left hand (k + 1) i (sweep_slot c (at_step hand k)).1 (omega arith)
              (omega arith) (still_free c (at_step hand k) i free)
              (ap (bit (sweep_slot c (at_step hand k)).1.meta.visited) (sym here)
                ∙ sweep_slot_clears c (at_step hand k) (omega arith)
                    (ap (get_state c.meta) here ∙ free) goes))
    ]
meets (suc d) (suc left) hand k i c enough at free =
    elim (Bool-cases (freed_some (sweep_slot c (at_step hand k)).0)) [
      | inl stops ↦ rw (sweep_stop left hand k c stops) stops
      | inr goes ↦ rw (sweep_on left hand k c goes) (
          meets d left hand (k + 1) i (sweep_slot c (at_step hand k)).1 (omega arith) (omega arith)
            (still_free c (at_step hand k) i free))
    ]

-- Wherever the hand stands and whichever slots were visited, the sweep frees a slot if any of the
-- sixteen slots is neither pinned nor in flush.
pub sieve_evict_frees :
    (c : Cell) (i : ℕ)
    → i < slots_per_bucket
    → get_state c.meta i ≡ unpinned
    → freed_some (sieve_evict c).0 ≡ true
unfolding sieve_evict
sieve_evict_frees c i hi free =
    meets ((i + 16 - c.meta.hand % 16) % 16) 32 c.meta.hand 0 i c (omega arith) (omega arith) free

-- What a sweep leaves: the states, and every slot but the freed one.
pub record Swept (c : Cell) (freed : Option ℕ) (c' : Cell) : Type 0 where
  pub states : c'.meta.state ≡ c.meta.state
  pub width : length c'.slots ≡ length c.slots
  pub others : (j : ℕ) → freed ≢ some j → slot_at c' j ≡ slot_at c j
  pub gone :
      (j : ℕ)
      → freed ≡ some j
      → (j < slots_per_bucket) × (get_state c.meta j ≡ unpinned) × (slot_at c' j ≡ 0)

sweep_slot-width : (c : Cell) (i : ℕ) → length (sweep_slot c i).1.slots ≡ length c.slots
unfolding sweep_slot
sweep_slot-width c i = ground (arith, length-set c.slots i 0)

sweep-Swept :
    (left hand k : ℕ) (c : Cell)
    → length c.slots ≡ slots_per_bucket
    → Swept c (sweep left hand k c).0 (sweep left hand k c).1
unfolding sweep
sweep-Swept zero hand k c wide = record {
  states = refl;
  width = refl;
  others = λ j h. refl;
  gone = λ j h. absurd (cc);
}
sweep-Swept (suc left) hand k c wide =
    let i = at_step hand k in
    let c' = (sweep_slot c i).1 in
    elim (Bool-cases (freed_some (sweep_slot c i).0)) [
      | inl stops ↦ rw (sweep_stop left hand k c stops) (record {
        states = sweep_slot-state c i;
        width = sweep_slot-width c i;
        others = sweep_slot-other c i;
        gone = λ j h.
            let (at, free, empty) = sweep_slot-freed c i j (omega arith) h in
            (omega arith, free, empty);
      })
      | inr goes ↦
          let rest = sweep-Swept left hand (k + 1) c' (sweep_slot-width c i ∙ wide) in
          rw (sweep_on left hand k c goes) (record {
            states = rest.states ∙ sweep_slot-state c i;
            width = rest.width ∙ sweep_slot-width c i;
            others = λ j h. rest.others j h ∙ sweep_slot-other c i j (λ e. absurd (ground arith));
            gone = λ j h.
                let (lt, free, empty) = rest.gone j h in
                (lt, get_state_congr c.meta c'.meta j (sym (sweep_slot-state c i)) ∙ free, empty);
          })
    ]

-- The sweep changes no state, frees only a slot that is neither pinned nor in flush, leaves it
-- empty, and keeps every other slot.
pub sieve_evict-Swept :
    (c : Cell) → length c.slots ≡ slots_per_bucket → Swept c (sieve_evict c).0 (sieve_evict c).1
unfolding sieve_evict
sieve_evict-Swept c wide = sweep-Swept 32 c.meta.hand 0 c wide
