-- ===== src/Facade/Batch.antt =====
-- include/viper/hiom/hiom.hpp: `apply_batch` and `try_write_checkpoint` on the state that they share.
-- The checkpoint's lock is free, and `apply_batch` runs with a cold tier. A process that aborts has no
-- state after it. The frontier of the store is `hiom_vpage_frontier` of include/viper/viper.hpp.
use hiom.Prelude.{
  ℕ, zero, suc, ◌+◌, ◌-◌, ◌/◌, ◌%◌, ◌^◌, ◌==◌, ◌&&◌, not, if◌then◌else◌, min, Bool, true, false,
  Option, some, none, List, [], ◌∷◌, length,
}
use hiom.Codec.{BlockBaseMap, key_value_offset, get_offsets, is_tombstone}
use hiom.CommitBuffer.Queue.{CommitEntry, SlotRef}
use hiom.HotTier.Layout.{pinned, in_flush, unpinned}
use hiom.HotTier.Table.{HotTier, cas_slot_state}
use hiom.ColdTier.Layout.{ColdTier}
use hiom.ColdTier.Bulk.{BulkEntry, approx_size}
use hiom.ColdTier.BulkUpsert.{bulk_upsert}
use hiom.Checkpoint.{CheckpointRecord, PmFile, write, zero_record}
use hiom.Pending.{PendingBlocks, done, stalled, aborted, pending_retire, earliest_pending_block}
use hiom.Pending.Clients.{ClientSlot, min_active_writer_block}
use hiom.Facade.Replay.{proto_durable_frontier}
use hiom.Facade.Winner.{is_put, winners}

pub record HiomState : Type 0 where
  pub hot : HotTier
  pub cold : ColdTier
  pub checkpoint : Option PmFile
  pub pending : PendingBlocks
  pub clients : List ClientSlot
  pub flushed_count : ℕ
  pub seq : ℕ
  pub base_map : BlockBaseMap
  pub cadence_entries : ℕ
  pub vpage_frontier : ℕ

unfoldable pub safe_block : HiomState → ℕ
safe_block s =
    let client_min = min_active_writer_block s.clients in
    let viper_next = (get_offsets s.vpage_frontier).0 in
    let pending_min = earliest_pending_block s.pending in
    min (min client_min viper_next) pending_min

unfoldable pub next_record : HiomState → CheckpointRecord
next_record s = record zero_record {
  seq = (s.seq + 1) % 2 ^ 64;
  flushed_count = s.flushed_count;
  vpage_frontier = key_value_offset (safe_block s) 0 0;
  cold_size = approx_size s.cold.regions;
  reserved_0 = proto_durable_frontier;
}

-- Called only where there is a checkpoint.
unfoldable pub try_write_checkpoint : HiomState → HiomState
try_write_checkpoint s = elim s.checkpoint [
  | some pm ↦ record s { seq = (s.seq + 1) % 2 ^ 64; checkpoint = some (write pm (next_record s)) }
  | none ↦ s
]

unfoldable pub write_checkpoints : ℕ → HiomState → HiomState
write_checkpoints zero s = s
write_checkpoints (suc n) s = write_checkpoints n (try_write_checkpoint s)

-- The puts among the winners, as `bulk_upsert` takes them, and the removes.
unfoldable pub puts_of : List CommitEntry → List BulkEntry
puts_of [] = []
puts_of (e ∷ es) =
    let rest = puts_of es in
    if is_put e.op then record { fp = e.fp64; key_id = e.key_id; off = e.off } ∷ rest else rest

unfoldable pub apply_removes : List CommitEntry → ColdTier → ColdTier
apply_removes [] c = c
apply_removes (e ∷ es) c =
    let (found, c') = hiom.ColdTier.remove c e.fp64 e.key_id in
    apply_removes es (if is_put e.op then c else c')

-- The entries that `push_commit` registered.
unfoldable pub is_registered : CommitEntry → Bool
is_registered e = is_put e.op && not (is_tombstone e.off)

unfoldable pub retire_each : List CommitEntry → PendingBlocks → Option PendingBlocks
retire_each [] r = some r
retire_each (e ∷ es) r = elim (is_registered e) [
  | false ↦ retire_each es r
  | true ↦ elim (pending_retire (get_offsets e.off).0 r) [
    | done r' ↦ retire_each es r'
    | stalled ↦ none
    | aborted ↦ none
  ]
]

-- Stage 2 on one entry.
unfoldable pub drive_slot : HotTier → SlotRef → HotTier
drive_slot hot ref =
    let (we_own, hot') = cas_slot_state hot ref pinned in_flush in
    let (_, hot'') = cas_slot_state hot' ref in_flush unpinned in if we_own then hot'' else hot'

unfoldable pub drive_each : List CommitEntry → HotTier → HotTier
unfolding drive_slot
drive_each [] hot = hot
drive_each (e ∷ es) hot = drive_each es (drive_slot hot e.hot_slot)

-- The count of flushed entries, and one checkpoint per cadence boundary that the batch crossed.
unfoldable pub count_flushed : ℕ → HiomState → HiomState
unfolding write_checkpoints
count_flushed n s =
    let before = s.flushed_count in
    let after = (before + n) % 2 ^ 64 in
    let counted : HiomState = record s { flushed_count = after } in
    let crossed = after / s.cadence_entries - before / s.cadence_entries in
    elim s.checkpoint [
      | none ↦ counted
      | some pm ↦ if s.cadence_entries == 0 then counted else write_checkpoints crossed counted
    ]

module _ (slot_key : ℕ → Option ℕ) where
  unfoldable pub apply_batch : List CommitEntry → HiomState → Option HiomState
  unfolding retire_each drive_each count_flushed
  apply_batch [] s = some s
  apply_batch (e ∷ es) s =
      let batch = e ∷ es in
      let chosen = winners slot_key s.hot s.base_map batch in
      let puts = puts_of chosen in
      let (wrote, cold) = bulk_upsert puts (apply_removes chosen s.cold) in
      let retired = elim s.checkpoint as (λ _. Option PendingBlocks) [
        | some pm ↦ retire_each batch s.pending
        | none ↦ some s.pending
      ] in
      let finish = elim retired as (λ _. Option HiomState) [
        | none ↦ none
        | some pending ↦ some (
            count_flushed (length batch)
              (record s { cold = cold; pending = pending; hot = drive_each batch s.hot }))
      ] in
      if wrote == length puts then finish else none
