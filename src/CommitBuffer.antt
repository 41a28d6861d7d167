-- ===== src/CommitBuffer.antt =====
-- include/viper/hiom/commit_buffer.hpp: eight lanes of commit entries with a bitmap of the lanes
-- that hold some, and the assignment of lanes to flushers of include/viper/hiom/hiom.hpp.
-- The queue of a lane is a third-party header and a parameter here. Each operation runs alone;
-- CommitBuffer/Race takes a lane apart into its single atomic steps.
pub mod Queue
pub mod Routing
pub mod Lanes
pub mod Drain
pub mod Race
pub mod Starved
use hiom.Prelude.{
  ℕ, zero, suc, ◌+◌, ◌-◌, ◌/◌, ◌%◌, ◌^◌, ◌*◌, Bool, List, [], ◌∷◌, ◌++◌, ◌==◌, if◌then◌else◌,
  get_or, set, length, replicate, bit, bit_and, bit_or, bit_not, shl, shr, mask, min, ltb, ◌&&◌,
  Option, none, some, set_bit, clear_bit,
}
use Queue.{CommitEntry, ConcurrentQueue}

abbrev pub num_lanes : ℕ
num_lanes = 8

-- `kRegionsPerLane` is 4, so `kLaneShift` is 59 + 2.
unfoldable pub lane_of_fp64 : ℕ → ℕ
lane_of_fp64 fp64 = bit_and (shr fp64 61) (num_lanes - 1)

unfoldable pub flusher_of_lane : ℕ → ℕ → ℕ
flusher_of_lane lane_id num_flushers = lane_id / (num_lanes / num_flushers)

-- The loop of `lanes_mask_for_flusher`: `count` lanes from `start` on.
lanes_from : ℕ → ℕ → ℕ
lanes_from start zero = 0
lanes_from start (suc count) = set_bit (lanes_from start count) (start + count)

unfoldable pub lanes_mask_for_flusher : ℕ → ℕ → ℕ
unfolding lanes_from
lanes_mask_for_flusher flusher_id num_flushers =
    let lanes_per = num_lanes / num_flushers in lanes_from (flusher_id * lanes_per) lanes_per

pub record Lane (Q : Type 0) : Type 0 where
  pub q : Q
  pub approx_size : ℕ

pub record CommitBuffer (Q : Type 0) : Type 0 where
  pub lanes : List (Lane Q)
  pub nonempty_mask : ℕ

module _ (cq : ConcurrentQueue) where
  open cq use {Queue, empty, enqueue, try_dequeue_bulk}

  abbrev pub no_lane : Lane Queue
  no_lane = record { q = empty; approx_size = 0 }

  unfoldable pub new : CommitBuffer Queue
  new = record { lanes = replicate num_lanes no_lane; nonempty_mask = 0 }

  abbrev pub lane_at : CommitBuffer Queue → ℕ → Lane Queue
  lane_at b lane_id = get_or b.lanes lane_id no_lane

  -- The lane after `fetch_add` and `enqueue`, and the bitmap after the test for the first entry.
  -- The atomics are 64 bits wide. Returns the depth after the push.
  unfoldable pub push : ℕ → ℕ → CommitEntry → CommitBuffer Queue → ℕ × CommitBuffer Queue
  push tok lane_id e b =
      let lane = lane_at b lane_id in
      let before = lane.approx_size in
      (
        (before + 1) % 2 ^ 64,
        record {
          lanes =
              set b.lanes lane_id
                (record { q = enqueue tok e lane.q; approx_size = (before + 1) % 2 ^ 64 });
          nonempty_mask = if before == 0 then set_bit b.nonempty_mask lane_id else b.nonempty_mask;
        },
      )

  -- The bookkeeping of `try_drain_lane` after the bulk dequeue gave `got` entries and left `rest`.
  unfoldable pub settle : ℕ → ℕ → Queue → CommitBuffer Queue → CommitBuffer Queue
  settle lane_id got rest b =
      let before = (lane_at b lane_id).approx_size in
      record {
        lanes = set b.lanes lane_id (record {
          q = rest;
          approx_size = if ltb 0 got then (before + 2 ^ 64 - got) % 2 ^ 64 else before;
        });
        nonempty_mask =
            if ltb 0 got && before == got
            then clear_bit 64 b.nonempty_mask lane_id
            else b.nonempty_mask;
      }

  -- Appends what it drains to `out`; the number drained comes first.
  unfoldable pub try_drain_lane :
      ℕ → List CommitEntry → ℕ → CommitBuffer Queue → ℕ × List CommitEntry × CommitBuffer Queue
  unfolding settle
  try_drain_lane lane_id out max b =
      let lane = lane_at b lane_id in
      let cap = min max (lane.approx_size + 64) in
      let (es, rest) = try_dequeue_bulk cap lane.q in
      let got = length es in
      if max == 0
      then (0, out, b)
      else if cap == 0
      then (0, out, b)
      else (got, out ++ es, settle lane_id got rest b)

  -- `size_hint()`: the sum over all lanes.
  sizes : List (Lane Queue) → ℕ
  sizes [] = 0
  sizes (lane ∷ lanes) = lane.approx_size + sizes lanes

  unfoldable pub size_hint : CommitBuffer Queue → ℕ
  unfolding sizes
  size_hint b = sizes b.lanes % 2 ^ 64

  -- The loop over one lane of `HiOM::drain_to_empty_and_apply_locked`: until a call drains nothing.
  -- `none` means that the fuel ran out.
  unfoldable pub drain_lane :
      ℕ
      → ℕ
      → ℕ
      → List CommitEntry
      → ℕ
      → CommitBuffer Queue
      → Option (ℕ × List CommitEntry × CommitBuffer Queue)
  drain_lane zero lane_id per_call out total b = none
  drain_lane (suc fuel) lane_id per_call out total b =
      let (got, out', b') = try_drain_lane lane_id out per_call b in
      let rest = drain_lane fuel lane_id per_call out' (total + got) b' in
      if got == 0 then some (total, out', b') else rest
