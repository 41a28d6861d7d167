-- ===== src/Pending.antt =====
-- include/viper/hiom/hiom.hpp: the ring of pending blocks that bounds the checkpoint frontier, one
-- call at a time. The wait of a producer that meets an older block is an outcome of its own: it is
-- over when `retire_gen` moves, and the call is made again.
pub mod Counts
pub mod Earliest
pub mod Clients
use hiom.Prelude.{
  ℕ, zero, suc, Bool, true, false, ◌+◌, ◌-◌, ◌^◌, ◌%◌, ◌==◌, ◌||◌, not, if◌then◌else◌, bit_and,
  bit_or, shl, shr, ltb,
}

-- `kWindow`
unfoldable pub window : ℕ
window = 65536

abbrev pub count_mask : ℕ
count_mask = 0xffff_ffff

-- The array of slots, by index, and `pending_retire_gen_`.
pub record PendingBlocks : Type 0 where
  pub slot : ℕ → ℕ
  pub retire_gen : ℕ

unfoldable pub pack : ℕ → ℕ → ℕ
pack block count = bit_or (shl block 32) count

unfoldable pub block_of : ℕ → ℕ
block_of s = shr s 32

unfoldable pub count_of : ℕ → ℕ
count_of s = bit_and s count_mask

unfoldable pub slot_of : ℕ → ℕ
slot_of b = bit_and b (window - 1)

-- The call returned with a new ring, is to wait, or aborted the process.
pub data Outcome : Type 0 where
  done : PendingBlocks → Outcome
  stalled : Outcome
  aborted : Outcome

abbrev pub store : PendingBlocks → ℕ → ℕ → PendingBlocks
store r i s = record r { slot = λ j. if j == i then s else r.slot j }

unfoldable pub pending_register : ℕ → PendingBlocks → Outcome
pending_register b r =
    let cur = r.slot (slot_of b) in
    if ltb count_mask b
    then aborted
    else if count_of cur == 0
    then done (store r (slot_of b) (pack b 1))
    else if block_of cur == b
    then (if count_of cur == count_mask then aborted else done (store r (slot_of b) (cur + 1)))
    else stalled

unfoldable pub pending_retire : ℕ → PendingBlocks → Outcome
pending_retire b r =
    let cur = r.slot (slot_of b) in
    let after = store r (slot_of b) (cur - 1) in
    if not (block_of cur == b) || count_of cur == 0
    then aborted
    else if count_of (cur - 1) == 0
    then done (record after { retire_gen = (r.retire_gen + 1) % 2 ^ 64 })
    else done after

abbrev pub no_active_block : ℕ
no_active_block = 0xffff_ffff_ffff_ffff

-- The scan over the first `n` slots.
unfoldable pub scan : ℕ → PendingBlocks → ℕ
scan zero r = no_active_block
scan (suc n) r =
    let min_b = scan n r in
    let s = r.slot n in
    if count_of s == 0 then min_b else if ltb (block_of s) min_b then block_of s else min_b

unfoldable pub earliest_pending_block : PendingBlocks → ℕ
earliest_pending_block r = scan window r
