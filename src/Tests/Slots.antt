-- ===== src/Tests/Slots.antt =====
-- A bucket of the hot tier.

use hiom.Prelude.{◌≡◌, refl, ℕ, true, replicate, set, arith, get_or-set, get_or-replicate}
use hiom.HotTier.Layout.{Cell, get_state, unpinned, unpack_fp}
use hiom.HotTier.{sieve_evict, upsert_pinned_cell}
use hiom.HotTier.Sweep.{freed_some}
use hiom.HotTier.Eviction.{Swept, sieve_evict_frees, sieve_evict-Swept}
use hiom.HotTier.Placement.{CellIsValid}
use hiom.HotTier.Pinning.{PinSpec, upsert_pinned_cell-PinSpec}

-- Full; every slot was visited, and every slot but slot 5 is pinned.
abbrev crowded : Cell
crowded = record {
  slots = replicate 16 0x7_0000_0008;
  meta = record { visited = 0xffff; hand = 9; state = 0x5555_5155 };
  size = 16;
  eviction_count = 0;
  pin_failures = 0;
}

-- Fingerprint 7 in slot 3, in flush.
abbrev one_slot : Cell
one_slot = record {
  slots = set (replicate 16 0) 3 0x7_0000_0008;
  meta = record { visited = 0; hand = 0; state = 0xc0 };
  size = 1;
  eviction_count = 0;
  pin_failures = 0;
}

only_five : get_state crowded.meta 5 ≡ unpinned
unfolding get_state
only_five = refl

sieve_evict_frees_example : freed_some (sieve_evict crowded).0 ≡ true
sieve_evict_frees_example = sieve_evict_frees crowded 5 (omega arith) only_five

sieve_evict-Swept_example : Swept crowded (sieve_evict crowded).0 (sieve_evict crowded).1
sieve_evict-Swept_example = sieve_evict-Swept crowded refl

seven : unpack_fp 0x7_0000_0008 ≡ 7
unfolding unpack_fp
seven = refl

one_slot-CellIsValid : CellIsValid one_slot
one_slot-CellIsValid = record {
  width = refl;
  blank = λ j.
      get_or-set (λ (x : ℕ). unpack_fp x ≡ 0 → x ≡ 0) (replicate 16 0) 3 j 0x7_0000_0008 0
        (λ h. absurd (omega (arith, seven, h))) (λ _. get_or-replicate 16 j 0);
}

upsert_pinned_cell-PinSpec_example :
    PinSpec one_slot 7 99 (upsert_pinned_cell 7 99 one_slot).0 (upsert_pinned_cell 7 99 one_slot).1
upsert_pinned_cell-PinSpec_example = upsert_pinned_cell-PinSpec one_slot 7 99 one_slot-CellIsValid
