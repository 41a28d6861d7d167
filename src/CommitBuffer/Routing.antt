-- ===== src/CommitBuffer/Routing.antt =====
-- Which lane an entry goes to, and which flusher a lane belongs to.

use hiom.Prelude.{
  ◌≡◌, zero, suc, inl, inr, ℕ, ◌<◌, bit, ◌⊎◌, ◌^◌, leb, ◌==◌, ◌/◌, ◌&&◌, arith, ltb, and_mask, ◌+◌,
  shr, bit-zero, bit-set_bit, ◌*◌,
}
use hiom.CommitBuffer.{lane_of_fp64, flusher_of_lane, lanes_from, lanes_mask_for_flusher, num_lanes}
use hiom.ColdTier.Layout.{region_id_of}

-- An entry's lane is one of the eight, and holds exactly the fingerprints of four neighbouring cold
-- regions, so that all entries of a region meet in one lane.
pub lane_of_fp64-region :
    (fp64 : ℕ)
    → fp64 < 2 ^ 64
    → (lane_of_fp64 fp64 < num_lanes) × (lane_of_fp64 fp64 ≡ region_id_of fp64 / 4)
unfolding lane_of_fp64 region_id_of
lane_of_fp64-region fp64 h = (
  omega (arith, and_mask 3 (shr fp64 61)),
  omega (arith, and_mask 3 (shr fp64 61), and_mask 5 (shr fp64 59)),
)

lanes_from_bits :
    (start count lane : ℕ)
    → bit (lanes_from start count) lane ≡ (leb start lane && ltb lane (start + count))
unfolding lanes_from
lanes_from_bits start zero lane = rw (bit-zero lane) (ground arith)
lanes_from_bits start (suc count) lane = ground (
  arith,
  bit-set_bit (lanes_from start count) (start + count) lane,
  lanes_from_bits start count lane,
)

-- The flushers share the lanes out: for each number of flushers that divides eight, a lane's bit is
-- in the mask of exactly the flusher that the lane is assigned to, and that flusher exists.
pub lanes_mask_for_flusher_iff :
    (num_flushers lane flusher : ℕ)
    → (num_flushers ≡ 1) ⊎ (num_flushers ≡ 2) ⊎ (num_flushers ≡ 4) ⊎ (num_flushers ≡ 8)
    → lane < num_lanes
    → (bit (lanes_mask_for_flusher flusher num_flushers) lane
        ≡ (flusher == flusher_of_lane lane num_flushers))
      × (flusher_of_lane lane num_flushers < num_flushers)
unfolding lanes_mask_for_flusher flusher_of_lane
lanes_mask_for_flusher_iff num_flushers lane flusher divides hl = elim divides [
  | inl e ↦ rw e (ground (arith, lanes_from_bits (flusher * 8) 8 lane), omega arith)
  | inr (inl e) ↦ rw e (ground (arith, lanes_from_bits (flusher * 4) 4 lane), omega arith)
  | inr (inr (inl e)) ↦ rw e (ground (arith, lanes_from_bits (flusher * 2) 2 lane), omega arith)
  | inr (inr (inr e)) ↦ rw e (ground (arith, lanes_from_bits (flusher * 1) 1 lane), omega arith)
]
