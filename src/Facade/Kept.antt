-- ===== src/Facade/Kept.antt =====
-- What `apply_batch` and the checkpoints leave as it is: the slots of the hot tier, the base map and
-- the clients. A checkpoint stays attached.
use hiom.Prelude.{
  bit, bit_and, ℕ, zero, suc, ◌+◌, ◌-◌, ◌/◌, ◌%◌, ◌^◌, ◌==◌, ◌≡◌, refl, ◌∙◌, Bool-cases, inl, inr,
  Option, some, none, List, [], ◌∷◌, length, true, false, if◌then◌else◌,
}
use hiom.CommitBuffer.Queue.{CommitEntry, ConcurrentQueue, SlotRef}
use hiom.CommitBuffer.{CommitBuffer, drain_lane, num_lanes, lanes_mask_for_flusher}
use hiom.HotTier.Layout.{pinned, in_flush, unpinned}
use hiom.HotTier.Table.{HotTier, cas_slot_state}
use hiom.Checkpoint.{PmFile, write}
use hiom.Pending.{PendingBlocks}
use hiom.ColdTier.BulkUpsert.{bulk_upsert}
use hiom.Facade.Winner.{winners}
use hiom.Facade.Order.{stable_sort}
use hiom.Facade.Batch.{
  HiomState, apply_batch, retire_each, puts_of, apply_removes, next_record, try_write_checkpoint,
  write_checkpoints, count_flushed, drive_slot, drive_each,
}
use hiom.Facade.Flush.{per_call, flush_lane, flush_lanes, drain_to_empty_and_apply}

abbrev pub HasCheckpoint : HiomState → Type 0
HasCheckpoint s = (pm : PmFile) × (s.checkpoint ≡ some pm)

abbrev pub SameSlots : HotTier → HotTier → Type 0
SameSlots t t' = (t'.buckets ≡ t.buckets) × (t'.num_buckets ≡ t.num_buckets)

pub record Keeps (s s' : HiomState) : Type 0 where
  pub slots : SameSlots s.hot s'.hot
  pub base_map : s'.base_map ≡ s.base_map
  pub clients : s'.clients ≡ s.clients
  pub attached : HasCheckpoint s → HasCheckpoint s'

pub Keeps-refl : (s : HiomState) → Keeps s s
Keeps-refl s = record { slots = (refl, refl); base_map = refl; clients = refl; attached = λ h. h }

pub Keeps-trans : (s s' s'' : HiomState) → Keeps s s' → Keeps s' s'' → Keeps s s''
Keeps-trans s s' s'' k k' = record {
  slots = (k'.slots.0 ∙ k.slots.0, k'.slots.1 ∙ k.slots.1);
  base_map = k'.base_map ∙ k.base_map;
  clients = k'.clients ∙ k.clients;
  attached = λ h. k'.attached (k.attached h);
}

checkpoint-Keeps : (s : HiomState) → Keeps s (try_write_checkpoint s)
unfolding try_write_checkpoint
checkpoint-Keeps s =
    elim s.checkpoint
      as (λ c. Keeps s (elim c as (λ _. HiomState) [
        | some pm ↦ record s {
          seq = (s.seq + 1) % 2 ^ 64;
          checkpoint = some (write pm (next_record s));
        }
        | none ↦ s
      ])) [
        | none ↦ Keeps-refl s
        | some pm ↦ record {
          slots = (refl, refl);
          base_map = refl;
          clients = refl;
          attached = λ h. (write pm (next_record s), refl);
        }
      ]

write_checkpoints-Keeps : (n : ℕ) (s : HiomState) → Keeps s (write_checkpoints n s)
unfolding write_checkpoints
write_checkpoints-Keeps zero s = Keeps-refl s
write_checkpoints-Keeps (suc n) s =
    Keeps-trans s (try_write_checkpoint s) (write_checkpoints n (try_write_checkpoint s))
      (checkpoint-Keeps s) (write_checkpoints-Keeps n (try_write_checkpoint s))

counted-Keeps : (s : HiomState) (n : ℕ) → Keeps s (record s { flushed_count = n })
counted-Keeps s n = record {
  slots = (refl, refl);
  base_map = refl;
  clients = refl;
  attached = λ h. h;
}

count_flushed-Keeps : (n : ℕ) (s : HiomState) → Keeps s (count_flushed n s)
unfolding count_flushed
count_flushed-Keeps n s =
    let after = (s.flushed_count + n) % 2 ^ 64 in
    let counted : HiomState = record s { flushed_count = after } in
    let crossed = after / s.cadence_entries - s.flushed_count / s.cadence_entries in
    let here = counted-Keeps s after in
    elim s.checkpoint
      as (λ c. Keeps s (elim c as (λ _. HiomState) [
        | none ↦ counted
        | some pm ↦ if s.cadence_entries == 0 then counted else write_checkpoints crossed counted
      ])) [
        | none ↦ here
        | some pm ↦ elim (Bool-cases (s.cadence_entries == 0)) [
          | inl never ↦ rw never here
          | inr often ↦ rw often (
              Keeps-trans s counted (write_checkpoints crossed counted) here
                (write_checkpoints-Keeps crossed counted))
        ]
      ]

cas_slot_state-SameSlots :
    (t : HotTier) (ref : SlotRef) (from to : ℕ) → SameSlots t (cas_slot_state t ref from to).1
unfolding cas_slot_state
cas_slot_state-SameSlots t ref from to = elim (Bool-cases ref.valid) [
  | inl there ↦ rw there (refl, refl)
  | inr gone ↦ rw gone (refl, refl)
]

drive_slot-SameSlots : (t : HotTier) (ref : SlotRef) → SameSlots t (drive_slot t ref)
unfolding drive_slot
drive_slot-SameSlots t ref =
    let first = cas_slot_state t ref pinned in_flush in
    let a = cas_slot_state-SameSlots t ref pinned in_flush in
    let b = cas_slot_state-SameSlots first.1 ref in_flush unpinned in
    elim (Bool-cases first.0) [ inl own ↦ rw own (b.0 ∙ a.0, b.1 ∙ a.1) | inr other ↦ rw other a ]

drive_each-SameSlots : (es : List CommitEntry) (t : HotTier) → SameSlots t (drive_each es t)
unfolding drive_each
drive_each-SameSlots [] t = (refl, refl)
drive_each-SameSlots (e ∷ es) t =
    let a = drive_slot-SameSlots t e.hot_slot in
    let b = drive_each-SameSlots es (drive_slot t e.hot_slot) in (b.0 ∙ a.0, b.1 ∙ a.1)

abbrev KeepsAll : HiomState → Option HiomState → Type 0
KeepsAll s none = Unit {0}
KeepsAll s (some s') = Keeps s s'

module _ (slot_key : ℕ → Option ℕ) where
  applied_with :
      (e : CommitEntry) (es : List CommitEntry) (s : HiomState) (retired : Option PendingBlocks)
      → (elim s.checkpoint as (λ _. Option PendingBlocks) [
        | some pm ↦ retire_each (e ∷ es) s.pending
        | none ↦ some s.pending
      ])
        ≡ retired
      → KeepsAll s (apply_batch slot_key (e ∷ es) s)
  unfolding apply_batch
  applied_with e es s none h =
      let chosen = winners slot_key s.hot s.base_map (e ∷ es) in
      let (wrote, cold) = bulk_upsert (puts_of chosen) (apply_removes chosen s.cold) in
      elim (Bool-cases (wrote == length (puts_of chosen))) [
        | inl full ↦ simp (full, h) tt
        | inr short ↦ simp short tt
      ]
  applied_with e es s (some r) h =
      let chosen = winners slot_key s.hot s.base_map (e ∷ es) in
      let (wrote, cold) = bulk_upsert (puts_of chosen) (apply_removes chosen s.cold) in
      let s' : HiomState = record s { cold = cold; pending = r; hot = drive_each (e ∷ es) s.hot } in
      elim (Bool-cases (wrote == length (puts_of chosen))) [
        | inl full ↦
            simp (full, h)
              (Keeps-trans s s' (count_flushed (length (e ∷ es)) s')
                (record {
                  slots = drive_each-SameSlots (e ∷ es) s.hot;
                  base_map = refl;
                  clients = refl;
                  attached = λ held. held;
                })
                (count_flushed-Keeps (length (e ∷ es)) s'))
        | inr short ↦ simp short tt
      ]

  apply_batch-KeepsAll :
      (es : List CommitEntry) (s : HiomState) → KeepsAll s (apply_batch slot_key es s)
  unfolding apply_batch
  apply_batch-KeepsAll [] s = Keeps-refl s
  apply_batch-KeepsAll (e ∷ es) s =
      applied_with e es s
        (elim s.checkpoint as (λ _. Option PendingBlocks) [
          | some pm ↦ retire_each (e ∷ es) s.pending
          | none ↦ some s.pending
        ])
        refl

module _ (cq : ConcurrentQueue) (slot_key : ℕ → Option ℕ) where
  open cq use {Queue}

  -- A flush that returns leaves these as they are.
  abbrev pub FlushKeeps : HiomState → Option (ℕ × CommitBuffer Queue × HiomState) → Type 0
  FlushKeeps s none = Unit {0}
  FlushKeeps s (some (n, b, s')) = Keeps s s'

  applied_batch :
      (s : HiomState) (n : ℕ) (b : CommitBuffer Queue) (o : Option HiomState)
      → KeepsAll s o
      → FlushKeeps s (elim o as (λ _. Option (ℕ × CommitBuffer Queue × HiomState)) [
        | none ↦ none
        | some s' ↦ some (n, b, s')
      ])
  applied_batch s n b none k = tt
  applied_batch s n b (some s') k = k

  flushed_with :
      (fuel lane_id : ℕ) (b : CommitBuffer Queue) (s : HiomState)
      (o : Option (ℕ × List CommitEntry × CommitBuffer Queue))
      → drain_lane cq fuel lane_id per_call [] 0 b ≡ o
      → FlushKeeps s (flush_lane cq slot_key fuel lane_id b s)
  unfolding flush_lane
  flushed_with fuel lane_id b s none h = rw (flush_lane, h) tt
  flushed_with fuel lane_id b s (some (total, batch, b')) h = elim (Bool-cases (total == 0)) [
    | inl none_there ↦ rw (flush_lane, h, none_there) (Keeps-refl s)
    | inr waits ↦
        rw (flush_lane, h, waits)
          (applied_batch s total b' (apply_batch slot_key (stable_sort batch) s)
            (apply_batch-KeepsAll slot_key (stable_sort batch) s))
  ]

  pub flush_lane-FlushKeeps :
      (fuel lane_id : ℕ) (b : CommitBuffer Queue) (s : HiomState)
      → FlushKeeps s (flush_lane cq slot_key fuel lane_id b s)
  flush_lane-FlushKeeps fuel lane_id b s =
      flushed_with fuel lane_id b s (drain_lane cq fuel lane_id per_call [] 0 b) refl

  kept_through :
      (s s' : HiomState) (n : ℕ) (o : Option (ℕ × CommitBuffer Queue × HiomState))
      → Keeps s s'
      → FlushKeeps s' o
      → FlushKeeps s (elim o as (λ _. Option (ℕ × CommitBuffer Queue × HiomState)) [
        | none ↦ none
        | some (m, b, t) ↦ some (n + m, b, t)
      ])
  kept_through s s' n none k h = tt
  kept_through s s' n (some (m, b, t)) k h = Keeps-trans s s' t k h

  lane_kept :
      (fuel left lane_id mask : ℕ) (b : CommitBuffer Queue) (s : HiomState)
      (o : Option (ℕ × CommitBuffer Queue × HiomState))
      → flush_lane cq slot_key fuel lane_id b s ≡ o
      → FlushKeeps s o
      → bit mask lane_id ≡ true
      → ((b' : CommitBuffer Queue) (s' : HiomState)
          → FlushKeeps s' (flush_lanes cq slot_key fuel left (lane_id + 1) mask b' s'))
      → FlushKeeps s (flush_lanes cq slot_key fuel (suc left) lane_id mask b s)
  unfolding flush_lanes
  lane_kept fuel left lane_id mask b s none run k on rest = rw (flush_lanes, on, run) tt
  lane_kept fuel left lane_id mask b s (some (n, b', s')) run k on rest =
      rw (flush_lanes, on, run)
        (kept_through s s' n (flush_lanes cq slot_key fuel left (lane_id + 1) mask b' s') k
          (rest b' s'))

  flush_lanes-FlushKeeps :
      (fuel left lane_id mask : ℕ) (b : CommitBuffer Queue) (s : HiomState)
      → FlushKeeps s (flush_lanes cq slot_key fuel left lane_id mask b s)
  unfolding flush_lanes
  flush_lanes-FlushKeeps fuel zero lane_id mask b s = Keeps-refl s
  flush_lanes-FlushKeeps fuel (suc left) lane_id mask b s = elim (Bool-cases (bit mask lane_id)) [
    | inl on ↦
        lane_kept fuel left lane_id mask b s (flush_lane cq slot_key fuel lane_id b s) refl
          (flush_lane-FlushKeeps fuel lane_id b s) on
          (λ b' s'. flush_lanes-FlushKeeps fuel left (lane_id + 1) mask b' s')
    | inr off ↦ rw (flush_lanes, off) (flush_lanes-FlushKeeps fuel left (lane_id + 1) mask b s)
  ]

  round_kept :
      (rounds fuel flusher_id num_flushers : ℕ) (b : CommitBuffer Queue) (s : HiomState)
      (o : Option (ℕ × CommitBuffer Queue × HiomState))
      → flush_lanes cq slot_key fuel num_lanes 0
          (bit_and b.nonempty_mask (lanes_mask_for_flusher flusher_id num_flushers))
          b
          s
        ≡ o
      → FlushKeeps s o
      → (bit_and b.nonempty_mask (lanes_mask_for_flusher flusher_id num_flushers) == 0) ≡ false
      → ((b' : CommitBuffer Queue) (s' : HiomState)
          → FlushKeeps s'
              (drain_to_empty_and_apply cq slot_key rounds fuel flusher_id num_flushers b' s'))
      → FlushKeeps s
          (drain_to_empty_and_apply cq slot_key (suc rounds) fuel flusher_id num_flushers b s)
  unfolding drain_to_empty_and_apply
  round_kept rounds fuel flusher_id num_flushers b s none run k some_set rest =
      rw (drain_to_empty_and_apply, some_set, run) tt
  round_kept rounds fuel flusher_id num_flushers b s (some (n, b', s')) run k some_set rest =
      elim (Bool-cases (n == 0)) [
        | inl last ↦ rw (drain_to_empty_and_apply, some_set, run, last) k
        | inr more ↦
            rw (drain_to_empty_and_apply, some_set, run, more)
              (kept_through s s' n
                (drain_to_empty_and_apply cq slot_key rounds fuel flusher_id num_flushers b' s') k
                (rest b' s'))
      ]

  pub drain_to_empty_and_apply-FlushKeeps :
      (rounds fuel flusher_id num_flushers : ℕ) (b : CommitBuffer Queue) (s : HiomState)
      → FlushKeeps s (drain_to_empty_and_apply cq slot_key rounds fuel flusher_id num_flushers b s)
  unfolding drain_to_empty_and_apply
  drain_to_empty_and_apply-FlushKeeps zero fuel flusher_id num_flushers b s = tt
  drain_to_empty_and_apply-FlushKeeps (suc rounds) fuel flusher_id num_flushers b s =
      let mask = bit_and b.nonempty_mask (lanes_mask_for_flusher flusher_id num_flushers) in
      elim (Bool-cases (mask == 0)) [
        | inl nothing ↦ rw (drain_to_empty_and_apply, nothing) (Keeps-refl s)
        | inr some_set ↦
            round_kept rounds fuel flusher_id num_flushers b s
              (flush_lanes cq slot_key fuel num_lanes 0 mask b s) refl
              (flush_lanes-FlushKeeps fuel num_lanes 0 mask b s) some_set
              (λ b' s'.
                drain_to_empty_and_apply-FlushKeeps rounds fuel flusher_id num_flushers b' s')
      ]
