-- ===== src/ColdTier/Bulk.antt =====
-- include/viper/hiom/cold_tier.hpp: `apply_bucket_group`, which stages the entries of one bucket and
-- then publishes them, and the scan of a region. The stores of each phase keep their order; flushes
-- and drains have no effect here.
use hiom.Prelude.{
  refl, ◌≡◌, ℕ, zero, suc, Bool, true, false, Option, some, none, List, [], ◌∷◌, ◌++◌, ◌+◌, ◌-◌,
  ◌==◌, ◌&&◌, not, if◌then◌else◌, bit_and, bit_or, shl, length, ltb, ◌≤◌, arith, ◌%◌, ◌^◌,
}
use hiom.ColdTier.Layout.{
  Entry, Bucket, Region, Sizing, next_of, overflow_bucket_of, slot_published, tombstone_offset,
  no_overflow,
}
use hiom.ColdTier.{
  bucket_at, entry_at, store_entry, store_header, attach_header, scan_slots, SlotRef, hit, miss,
  Walk, matched, absent,
}

-- `DirtyBucket`, by the bucket's position.
pub record DirtyBucket : Type 0 where
  pub position : ℕ
  pub add_bits : ℕ

pub record Batch : Type 0 where
  pub region : Region
  pub dirty : List DirtyBucket
  pub written : ℕ

unfoldable pub batch_claimed_bits : List DirtyBucket → ℕ → ℕ
batch_claimed_bits [] p = 0
batch_claimed_bits (d ∷ ds) p =
    let rest = batch_claimed_bits ds p in if d.position == p then d.add_bits else rest

-- `find_or_create_dirty`, and the bits that its caller adds.
unfoldable pub touch_dirty : List DirtyBucket → ℕ → ℕ → List DirtyBucket
touch_dirty [] p bits = record { position = p; add_bits = bits } ∷ []
touch_dirty (d ∷ ds) p bits =
    let rest = touch_dirty ds p bits in
    if d.position == p then record d { add_bits = bit_or d.add_bits bits } ∷ ds else d ∷ rest

-- The walk of one entry: a slot is live if it is published or claimed earlier in this batch.
unfoldable pub group_walk :
    ℕ → Sizing → List Bucket → List DirtyBucket → ℕ → ℕ → Option SlotRef → Walk
group_walk zero sizing bs dirty p key reusable = Walk.out_of_fuel
group_walk (suc fuel) sizing bs dirty p key reusable =
    let b = bucket_at bs p in
    let live = bit_and (bit_or b.header (batch_claimed_bits dirty p)) 0x7f in
    let next_idx = next_of b.header in
    elim (scan_slots live key p 0 reusable b.entries) [
      | hit i ↦ matched (record { bucket = p; slot = i })
      | miss reusable' ↦ elim (next_idx == no_overflow) [
        | true ↦ absent reusable' p
        | false ↦ group_walk fuel sizing bs dirty (overflow_bucket_of sizing next_idx) key reusable'
      ]
    ]

pub record BulkEntry : Type 0 where
  pub fp : ℕ
  pub key_id : ℕ
  pub off : ℕ

-- One round of the loop over the entries; `false` leaves the loop.
unfoldable pub apply_entry : Sizing → ℕ → BulkEntry → Batch → Bool × Batch
apply_entry sizing head e batch =
    let r = batch.region in
    elim (group_walk (length r.buckets) sizing r.buckets batch.dirty head e.key_id none) [
      | matched s ↦ (
        true,
        record {
          region = record r {
            buckets =
                store_entry r.buckets s
                  (record { key_id = (entry_at r.buckets s).key_id; offset = e.off });
          };
          dirty = touch_dirty batch.dirty s.bucket 0;
          written = batch.written + 1;
        },
      )
      | absent (some s) tail ↦ (
        true,
        record {
          region = record r {
            num_entries = r.num_entries + 1;
            buckets = store_entry r.buckets s (record { key_id = e.key_id; offset = e.off });
          };
          dirty = touch_dirty batch.dirty s.bucket (shl 1 s.slot);
          written = batch.written + 1;
        },
      )
      | absent none tail ↦
          let alloc_idx = r.next_overflow_alloc + 1 in
          let nb = overflow_bucket_of sizing alloc_idx in
          let placed =
            store_entry r.buckets (record { bucket = nb; slot = 0 })
              (record { key_id = e.key_id; offset = e.off }) in
          if ltb sizing.overflow_slots alloc_idx
          then (false, record batch { region = record r { next_overflow_alloc = alloc_idx - 1 } })
          else (
            true,
            record {
              region = record {
                num_entries = r.num_entries + 1;
                next_overflow_alloc = alloc_idx;
                buckets =
                    store_header placed tail
                      (attach_header (bucket_at placed tail).header alloc_idx);
              };
              dirty = touch_dirty (touch_dirty batch.dirty nb 1) tail 0;
              written = batch.written + 1;
            },
          )
      | _ ↦ (false, batch)
    ]

unfoldable pub apply_entries : Sizing → ℕ → List BulkEntry → Batch → Batch
apply_entries sizing head [] batch = batch
apply_entries sizing head (e ∷ es) batch =
    let (go_on, batch') = apply_entry sizing head e batch in
    let rest = apply_entries sizing head es batch' in if go_on then rest else batch'

-- Phase 2: the staged occupancy bits.
unfoldable pub flip_bits : List DirtyBucket → List Bucket → List Bucket
flip_bits [] bs = bs
flip_bits (d ∷ ds) bs = flip_bits ds (
    if d.add_bits == 0
    then bs
    else store_header bs d.position (bit_or (bucket_at bs d.position).header d.add_bits))

unfoldable pub apply_bucket_group : Sizing → ℕ → List BulkEntry → Region → ℕ × Region
apply_bucket_group sizing bid entries r =
    let batch = apply_entries sizing bid entries (record { region = r; dirty = []; written = 0 }) in
    (batch.written, record batch.region { buckets = flip_bits batch.dirty batch.region.buckets })

-- What `scan_chain` hands to its visitor: the published entries that are not removed.
unfoldable pub scan_bucket : ℕ → ℕ → List Entry → List Entry
scan_bucket hdr i [] = []
scan_bucket hdr i (e ∷ es) =
    let rest = scan_bucket hdr (i + 1) es in
    if slot_published hdr i && not (e.offset == tombstone_offset) then e ∷ rest else rest

unfoldable pub scan_chain : ℕ → Sizing → List Bucket → ℕ → List Entry
scan_chain zero sizing bs p = []
scan_chain (suc fuel) sizing bs p =
    let b = bucket_at bs p in
    let next_idx = next_of b.header in
    let rest = scan_chain fuel sizing bs (overflow_bucket_of sizing next_idx) in
    scan_bucket b.header 0 b.entries ++ (if next_idx == no_overflow then [] else rest)

apply_entry-bounds :
    (sizing : Sizing) (head : ℕ) (e : BulkEntry) (batch : Batch) (w : Walk)
    → group_walk
        (length batch.region.buckets)
        sizing
        batch.region.buckets
        batch.dirty
        head
        e.key_id
        none
      ≡ w
    → batch.region.next_overflow_alloc ≤ sizing.overflow_slots
    → ((apply_entry sizing head e batch).1.region.next_overflow_alloc ≤ sizing.overflow_slots)
      × ((apply_entry sizing head e batch).1.written ≤ batch.written + 1)
unfolding apply_entry
apply_entry-bounds sizing head e batch (matched s) h le =
    rw (apply_entry, h) (omega arith, omega arith)
apply_entry-bounds sizing head e batch (absent (some s) tail) h le =
    rw (apply_entry, h) (omega arith, omega arith)
apply_entry-bounds sizing head e batch (absent none tail) h le =
    rw (apply_entry, h) (ground arith, ground arith)
apply_entry-bounds sizing head e batch Walk.out_of_fuel h le =
    rw (apply_entry, h) (omega arith, omega arith)

apply_entries-bounds :
    (sizing : Sizing) (head : ℕ) (es : List BulkEntry) (batch : Batch)
    → batch.region.next_overflow_alloc ≤ sizing.overflow_slots
    → ((apply_entries sizing head es batch).region.next_overflow_alloc ≤ sizing.overflow_slots)
      × ((apply_entries sizing head es batch).written ≤ batch.written + length es)
unfolding apply_entries
apply_entries-bounds sizing head [] batch le = (le, omega arith)
apply_entries-bounds sizing head (e ∷ es) batch le =
    let step = apply_entry sizing head e batch in
    let (alloc, more) =
      apply_entry-bounds sizing head e batch
        (group_walk (length batch.region.buckets) sizing batch.region.buckets batch.dirty head
          e.key_id none)
        refl le in
    let (alloc', more') = apply_entries-bounds sizing head es step.1 alloc in
    (ground (arith, alloc, alloc'), ground (arith, more, more'))

-- A batch never hands out more overflow buckets than the region has, and reports at most as many
-- entries written as it was given.
pub apply_bucket_group-bounds :
    (sizing : Sizing) (bid : ℕ) (entries : List BulkEntry) (r : Region)
    → r.next_overflow_alloc ≤ sizing.overflow_slots
    → ((apply_bucket_group sizing bid entries r).1.next_overflow_alloc ≤ sizing.overflow_slots)
      × ((apply_bucket_group sizing bid entries r).0 ≤ length entries)
unfolding apply_bucket_group
apply_bucket_group-bounds sizing bid entries r le =
    let (alloc, count) =
      apply_entries-bounds sizing bid entries (record { region = r; dirty = []; written = 0 }) le in
    (alloc, omega (arith, count))

-- `approx_size` and `approx_overflow_used`: sums over the regions.
pub approx_size : List Region → ℕ
approx_size [] = 0
approx_size (r ∷ rs) = (r.num_entries + approx_size rs) % 2 ^ 64

pub approx_overflow_used : List Region → ℕ
approx_overflow_used [] = 0
approx_overflow_used (r ∷ rs) = (r.next_overflow_alloc + approx_overflow_used rs) % 2 ^ 64
