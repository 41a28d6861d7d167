-- ===== src/Facade/Drained.antt =====
-- include/viper/hiom/hiom.hpp: what a flush of one lane does to the lane, to the ring of pending blocks
-- and to the cold tier, where a checkpoint is attached.
use hiom.Prelude.{
  ◌≢◌, ℕ, zero, suc, ◌+◌, ◌-◌, ◌/◌, ◌%◌, ◌^◌, ◌==◌, ◌<◌, ◌≡◌, Bool, false, Option, some, none, List,
  [], ◌∷◌, length, refl, arith, inl, inr, Bool-cases, ap, ◌∙◌, sym, subst, ◌≤◌,
}
use hiom.CommitBuffer.Queue.{CommitEntry, ConcurrentQueue, count_in}
use hiom.CommitBuffer.{CommitBuffer, num_lanes, lane_at, drain_lane}
use hiom.CommitBuffer.Lanes.{IsValid, every}
use hiom.CommitBuffer.Drain.{drain_lane-empties}
use hiom.ColdTier.BulkUpsert.{bulk_upsert}
use hiom.Checkpoint.{PmFile}
use hiom.Pending.{PendingBlocks}
use hiom.Facade.Batch.{
  HiomState, apply_batch, retire_each, puts_of, apply_removes, try_write_checkpoint,
  write_checkpoints, count_flushed, drive_each,
}
use hiom.Facade.Winner.{winners}
use hiom.Facade.Order.{stable_sort, count_in-stable_sort}
use hiom.Pending.Counts
use hiom.Facade.Retire.{is_of, retire_each-RetiredSpec}
use hiom.Facade.Backed.{
  OthersSpec, drain_lane-OthersSpec, IsBacked, in_lanes, KeptSpec, drain_lane-KeptSpec, retired,
}
use hiom.Facade.Flush.{per_call, flush_lane}

checkpoint-pending :
    (s : HiomState) (c : Option PmFile)
    → s.checkpoint ≡ c
    → (try_write_checkpoint s).pending ≡ s.pending
unfolding try_write_checkpoint
checkpoint-pending s none e = rw (try_write_checkpoint, e) refl
checkpoint-pending s (some pm) e = rw (try_write_checkpoint, e) refl

write_checkpoints-pending : (n : ℕ) (s : HiomState) → (write_checkpoints n s).pending ≡ s.pending
unfolding write_checkpoints
write_checkpoints-pending zero s = refl
write_checkpoints-pending (suc n) s =
    write_checkpoints-pending n (try_write_checkpoint s) ∙ checkpoint-pending s s.checkpoint refl

count_flushed-pending :
    (n : ℕ) (s : HiomState) (c : Option PmFile)
    → s.checkpoint ≡ c
    → (count_flushed n s).pending ≡ s.pending
unfolding count_flushed
count_flushed-pending n s none e = rw (count_flushed, e) refl
count_flushed-pending n s (some pm) e =
    rw (count_flushed, e)
      (elim (Bool-cases (s.cadence_entries == 0)) [
        | inl never ↦ rw never refl
        | inr often ↦ rw often (
            write_checkpoints-pending
              (((s.flushed_count + n) % 2 ^ 64) / s.cadence_entries
                - s.flushed_count / s.cadence_entries)
              (record s { flushed_count = (s.flushed_count + n) % 2 ^ 64 }))
      ])

module _ (slot_key : ℕ → Option ℕ) where
  -- The cold tier did not take all the puts of a batch.
  abbrev pub IsShort : List CommitEntry → HiomState → Type 0
  IsShort batch s =
      let chosen = winners slot_key s.hot s.base_map batch in
      (bulk_upsert (puts_of chosen) (apply_removes chosen s.cold)).0 == length (puts_of chosen)
      ≡ false

  -- A batch is applied and its blocks are retired, or the cold tier is short.
  abbrev pub AppliedSpec : List CommitEntry → HiomState → PendingBlocks → Option HiomState → Type 0
  AppliedSpec batch s r (some s') = s'.pending ≡ r
  AppliedSpec batch s r none = IsShort batch s

  apply_batch-AppliedSpec :
      (batch : List CommitEntry) (s : HiomState) (pm : PmFile) (r : PendingBlocks)
      → s.checkpoint ≡ some pm
      → retire_each batch s.pending ≡ some r
      → AppliedSpec batch s r (apply_batch slot_key batch s)
  unfolding apply_batch retire_each
  apply_batch-AppliedSpec [] s pm r e retired =
      ap (λ (o : Option PendingBlocks). elim o [ some t ↦ t | none ↦ s.pending ]) retired
  apply_batch-AppliedSpec (entry ∷ es) s pm r e retired =
      let chosen = winners slot_key s.hot s.base_map (entry ∷ es) in
      let (wrote, cold) = bulk_upsert (puts_of chosen) (apply_removes chosen s.cold) in
      elim (Bool-cases (wrote == length (puts_of chosen))) [
        | inl full ↦
            rw (apply_batch, e, retired, full)
              (count_flushed-pending (length (entry ∷ es))
                (record s { cold = cold; pending = r; hot = drive_each (entry ∷ es) s.hot })
                s.checkpoint refl)
        | inr short ↦ rw (apply_batch, short) short
      ]

module _ (cq : ConcurrentQueue) (slot_key : ℕ → Option ℕ) where
  open cq use {Queue, count}

  -- The batch has as many entries as the queue, each of them from it.
  abbrev pub IsTaken : Queue → List CommitEntry → Type 0
  IsTaken q batch =
      ((p : CommitEntry → Bool) → count_in p batch ≤ count p q)
      × (count_in every batch ≡ count every q)

  -- The lane is empty and the ring still counts what waits; or the cold tier was short on the batch of
  -- the lane's entries.
  abbrev pub FlushSpec :
      ℕ → CommitBuffer Queue → HiomState → Option (ℕ × CommitBuffer Queue × HiomState) → Type 0
  FlushSpec lane_id b s (some (got, b', s')) =
      IsValid cq b'
      × hiom.Pending.Counts.IsValid s'.pending
      × IsBacked cq s'.pending b'
      × (got ≡ count every (lane_at cq b lane_id).q)
      × (count every (lane_at cq b' lane_id).q ≡ 0)
      × (got + in_lanes cq every b'.lanes ≡ in_lanes cq every b.lanes)
      × ((i : ℕ) → i ≢ lane_id → lane_at cq b' i ≡ lane_at cq b i)
  FlushSpec lane_id b s none =
      (batch : List CommitEntry) × IsTaken (lane_at cq b lane_id).q batch × IsShort slot_key batch s

  finished :
      (fuel lane_id : ℕ) (b : CommitBuffer Queue) (s : HiomState) (total : ℕ)
      (batch : List CommitEntry) (b' : CommitBuffer Queue) (r : PendingBlocks)
      (o : Option HiomState)
      → drain_lane cq fuel lane_id per_call [] 0 b ≡ some (total, batch, b')
      → (total == 0) ≡ false
      → apply_batch slot_key (stable_sort batch) s ≡ o
      → AppliedSpec slot_key (stable_sort batch) s r o
      → IsValid cq b'
      → hiom.Pending.Counts.IsValid r
      → IsBacked cq r b'
      → total ≡ count every (lane_at cq b lane_id).q
      → count every (lane_at cq b' lane_id).q ≡ 0
      → total + in_lanes cq every b'.lanes ≡ in_lanes cq every b.lanes
      → ((i : ℕ) → i ≢ lane_id → lane_at cq b' i ≡ lane_at cq b i)
      → IsTaken (lane_at cq b lane_id).q (stable_sort batch)
      → FlushSpec lane_id b s (flush_lane cq slot_key fuel lane_id b s)
  unfolding flush_lane
  finished fuel lane_id b s total batch b' r (some s') run waits applied same vb vr backed sum empty
        left others all =
      rw (flush_lane, run, waits, applied)
        (
          vb,
          subst hiom.Pending.Counts.IsValid (sym same) vr,
          subst (λ (t : PendingBlocks). IsBacked cq t b') (sym same) backed,
          sum,
          empty,
          left,
          others,
        )
  finished fuel lane_id b s total batch b' r none run waits applied short vb vr backed sum empty
        left others all =
      rw (flush_lane, run, waits, applied) (stable_sort batch, all, short)

  -- With a checkpoint attached, and while the ring counts every entry that waits in the buffer, a flush
  -- of a lane ends, given fuel above the number of its entries. It empties the lane, returns how many
  -- entries it held, leaves the other lanes as they are and the ring counting every entry that still
  -- waits; it aborts only where the
  -- cold tier does not take all the puts that it keeps of the lane's entries.
  pub flush_lane-FlushSpec :
      (fuel lane_id : ℕ) (b : CommitBuffer Queue) (s : HiomState) (pm : PmFile)
      → s.checkpoint ≡ some pm
      → IsValid cq b
      → hiom.Pending.Counts.IsValid s.pending
      → IsBacked cq s.pending b
      → lane_id < num_lanes
      → count every (lane_at cq b lane_id).q < fuel
      → FlushSpec lane_id b s (flush_lane cq slot_key fuel lane_id b s)
  unfolding flush_lane count_in
  flush_lane-FlushSpec fuel lane_id b s pm e vb vr backed hl enough =
      let (result, run, rv, empty, clear, sum, kept) =
        drain_lane-empties cq fuel lane_id per_call [] 0 b vb hl (omega arith) enough in
      let (total, batch, b') = result in
      let moved : (p : CommitEntry → Bool)
          → count_in p batch + in_lanes cq p b'.lanes ≡ in_lanes cq p b.lanes =
        λ p. omega (
          arith,
          subst (KeptSpec cq p [] b) run
              (drain_lane-KeptSpec cq p fuel lane_id per_call [] 0 b vb hl),
        ) in
      let sorted : IsTaken (lane_at cq b lane_id).q (stable_sort batch) = (
        λ p. omega (arith, count_in-stable_sort p batch, kept p),
        omega (arith, count_in-stable_sort every batch, kept every, empty),
      ) in
      let (r, retires, vr', backed') =
        retired cq (stable_sort batch) s.pending b b' (retire_each (stable_sort batch) s.pending)
          refl (retire_each-RetiredSpec (stable_sort batch) s.pending vr) backed
          (λ p. omega (arith, count_in-stable_sort p batch, moved p)) in
      let left : total + in_lanes cq every b'.lanes ≡ in_lanes cq every b.lanes =
        omega (arith, sum, kept every, empty, moved every) in
      let others : (i : ℕ) → i ≢ lane_id → lane_at cq b' i ≡ lane_at cq b i =
        subst (OthersSpec cq lane_id b) run
          (drain_lane-OthersSpec cq fuel lane_id per_call [] 0 b) in
      elim (Bool-cases (total == 0)) [
        | inl none_there ↦
            rw (flush_lane, run, none_there)
              (
                rv,
                vr,
                λ k. omega (arith, backed k, moved (is_of k)),
                ground (arith, sum, none_there),
                empty,
                ground (arith, none_there, left),
                others,
              )
        | inr waits ↦
            finished fuel lane_id b s total batch b' r (apply_batch slot_key (stable_sort batch) s)
              run waits refl (apply_batch-AppliedSpec slot_key (stable_sort batch) s pm r e retires)
              rv vr' backed' (omega (arith, sum)) empty left others sorted
      ]
