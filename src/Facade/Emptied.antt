-- ===== src/Facade/Emptied.antt =====
-- include/viper/hiom/hiom.hpp: `drain_to_empty_and_apply_locked` ends and empties the flusher's lanes.
use hiom.Prelude.{
  ℕ, zero, suc, ◌+◌, ◌==◌, ◌<◌, ◌≡◌, refl, ◌∙◌, ap, arith, Bool-cases, inl, inr, Option, some, none,
  true, false, bit, bit_and, bit-and, bit-zero,
}
use hiom.CommitBuffer.Queue.{ConcurrentQueue}
use hiom.CommitBuffer.{CommitBuffer, num_lanes, lane_at, lanes_mask_for_flusher}
use hiom.CommitBuffer.Lanes.{every}
use hiom.Facade.Batch.{HiomState}
use hiom.Facade.Backed.{in_lanes}
use hiom.Facade.Flush.{flush_lanes, drain_to_empty_and_apply}
use hiom.Facade.Kept.{Keeps-refl, Keeps-trans}
use hiom.Facade.Rounds.{FlushIsValid, Flushed, LanesSpec, DrainSpec, flush_lanes-LanesSpec}

module _ (cq : ConcurrentQueue) (slot_key : ℕ → Option ℕ) (fuel flusher_id num_flushers : ℕ) where
  open cq use {Queue, count}

  abbrev mine : ℕ
  mine = lanes_mask_for_flusher flusher_id num_flushers

  abbrev mask_of : CommitBuffer Queue → ℕ
  mask_of b = bit_and b.nonempty_mask mine

  -- A round looks at lanes of the flusher only.
  within : (b : CommitBuffer Queue) (i : ℕ) → bit (mask_of b) i ≡ true → bit mine i ≡ true
  within b i on = ground (arith, bit-and b.nonempty_mask mine i, on)

  -- A lane of the flusher whose bit is clear holds nothing.
  clear_empty :
      (b : CommitBuffer Queue) (s : HiomState) (i : ℕ)
      → FlushIsValid cq b s
      → i < num_lanes
      → bit mine i ≡ true
      → bit (mask_of b) i ≡ false
      → count every (lane_at cq b i).q ≡ 0
  clear_empty b s i v hi on off =
      ground (arith, (v.buffer.lane i hi).flagged, bit-and b.nonempty_mask mine i, on, off)

  round_empty :
      (n : ℕ) (b b' : CommitBuffer Queue) (s s' : HiomState) (i : ℕ)
      → FlushIsValid cq b s
      → LanesSpec cq slot_key fuel mine num_lanes 0 (mask_of b) b s (some (n, b', s'))
      → i < num_lanes
      → bit mine i ≡ true
      → count every (lane_at cq b' i).q ≡ 0
  round_empty n b b' s s' i v (valid, k, total, emptied, same, back) hi on =
      elim (Bool-cases (bit (mask_of b) i)) [
        | inl set_bit ↦ emptied i (omega arith) (omega (arith, hi)) set_bit
        | inr off ↦
            ap (λ lane. count every lane.q) (same i (inr off)) ∙ clear_empty b s i v hi on off
      ]

  further :
      (n : ℕ) (b b' : CommitBuffer Queue) (s s' : HiomState) (o : Flushed cq slot_key fuel mine)
      → LanesSpec cq slot_key fuel mine num_lanes 0 (mask_of b) b s (some (n, b', s'))
      → DrainSpec cq slot_key fuel mine b' s' o
      → DrainSpec cq slot_key fuel mine b s (elim o as (λ _. Flushed cq slot_key fuel mine) [
        | none ↦ none
        | some (total, b'', s'') ↦ some (n + total, b'', s'')
      ])
  further n b b' s s' none (valid, k, total, emptied, same, back) stuck = back stuck
  further n b b' s s' (some (m, b'', s'')) (valid, k, total, emptied, same, back)
        (valid', k', total', empty) =
      (valid', Keeps-trans s s' s'' k k', omega (arith, total, total'), empty)

  one_round :
      (rounds : ℕ) (b : CommitBuffer Queue) (s : HiomState) (o : Flushed cq slot_key fuel mine)
      → flush_lanes cq slot_key fuel num_lanes 0 (mask_of b) b s ≡ o
      → LanesSpec cq slot_key fuel mine num_lanes 0 (mask_of b) b s o
      → FlushIsValid cq b s
      → in_lanes cq every b.lanes < suc rounds
      → in_lanes cq every b.lanes < fuel
      → (mask_of b == 0) ≡ false
      → ((b' : CommitBuffer Queue) (s' : HiomState)
          → FlushIsValid cq b' s'
          → in_lanes cq every b'.lanes < rounds
          → in_lanes cq every b'.lanes < fuel
          → DrainSpec cq slot_key fuel mine b' s'
              (drain_to_empty_and_apply cq slot_key rounds fuel flusher_id num_flushers b' s'))
      → DrainSpec cq slot_key fuel mine b s
          (drain_to_empty_and_apply cq slot_key (suc rounds) fuel flusher_id num_flushers b s)
  unfolding drain_to_empty_and_apply
  one_round rounds b s none run stuck v few enough some_set rest =
      rw (drain_to_empty_and_apply, some_set, run) stuck
  one_round rounds b s (some (n, b', s')) run spec v few enough some_set rest =
      let (valid, k, total, emptied, same, back) = spec in
      elim (Bool-cases (n == 0)) [
        | inl last ↦
            rw (drain_to_empty_and_apply, some_set, run, last)
              (
                valid,
                k,
                ground (arith, total, last),
                λ i hi on. round_empty n b b' s s' i v spec hi on,
              )
        | inr more ↦
            rw (drain_to_empty_and_apply, some_set, run, more)
              (further n b b' s s'
                (drain_to_empty_and_apply cq slot_key rounds fuel flusher_id num_flushers b' s')
                spec
                (rest b' s' valid (ground (arith, total, more, few))
                  (omega (arith, total, enough))))
      ]

  -- With a checkpoint attached, while the size and the bit of each lane agree with its entries (a bit
  -- that was lost hides its lane from the drain), the ring is well formed and it counts every entry that
  -- waits in the buffer: a flusher's drain ends, given as many rounds and as much fuel as there are
  -- entries, and one more. Its lanes are empty then, the number it returns is the number of entries that
  -- left the buffer, all this holds again, and the slots of the hot tier, the base map and the clients
  -- are as they were. It aborts only where, after some of its lanes were flushed, the cold tier does
  -- not take all the puts that wait in one of its lanes.
  pub drain_to_empty_and_apply-DrainSpec :
      (rounds : ℕ) (b : CommitBuffer Queue) (s : HiomState)
      → FlushIsValid cq b s
      → in_lanes cq every b.lanes < rounds
      → in_lanes cq every b.lanes < fuel
      → DrainSpec cq slot_key fuel
          (lanes_mask_for_flusher flusher_id num_flushers)
          b
          s
          (drain_to_empty_and_apply cq slot_key rounds fuel flusher_id num_flushers b s)
  unfolding drain_to_empty_and_apply
  drain_to_empty_and_apply-DrainSpec zero b s v few enough = absurd (omega (arith, few))
  drain_to_empty_and_apply-DrainSpec (suc rounds) b s v few enough =
      elim (Bool-cases (mask_of b == 0)) [
        | inl nothing ↦
            rw (drain_to_empty_and_apply, nothing)
              (
                v,
                Keeps-refl s,
                omega arith,
                λ i hi on.
                    clear_empty b s i v hi on
                      (ap (λ (t : ℕ). bit t i) (ground (arith, nothing)) ∙ bit-zero i),
              )
        | inr some_set ↦
            one_round rounds b s (flush_lanes cq slot_key fuel num_lanes 0 (mask_of b) b s) refl
              (flush_lanes-LanesSpec cq slot_key fuel mine num_lanes 0 (mask_of b) b s v enough
                (omega arith) (within b))
              v few enough some_set
              (λ b' s' v' few' enough'.
                drain_to_empty_and_apply-DrainSpec rounds b' s' v' few' enough')
      ]
