-- ===== src/ColdTier.antt =====
-- include/viper/hiom/cold_tier.hpp: the operations of the cold tier on one region and on the table.
-- Every writer holds the region's lock, so an operation runs alone on its region. The stores of
-- `upsert` keep their order; a fault point cuts the operation short where the source's own fault
-- injection does.
pub mod Layout
pub mod Slots
pub mod Buckets
pub mod Chain
pub mod Header
pub mod Search
pub mod Placing
pub mod Valid
pub mod Upsert
pub mod Extend
pub mod Effect
pub mod Table
pub mod Fresh
pub mod Bulk
pub mod BulkUpsert
pub mod Refinement
pub mod Room
use hiom.Prelude.{
  ℕ, zero, suc, ◌+◌, ◌-◌, ◌^◌, ◌%◌, Bool, true, false, Option, none, some, List, [], ◌∷◌, get_or,
  set, length, ltb, ◌==◌, ◌&&◌, if◌then◌else◌, bit_and, bit_or, shl, set_bit,
}
use Layout.{
  Entry, no_entry, Bucket, zero_bucket, Region, Sizing, ColdTier, slot_published, next_of,
  region_id_of, bucket_id_of, overflow_bucket_of, tombstone_offset, no_overflow,
}

-- A slot: the position of its bucket, and its index there.
pub record SlotRef : Type 0 where
  pub bucket : ℕ
  pub slot : ℕ

abbrev pub bucket_at : List Bucket → ℕ → Bucket
bucket_at bs p = get_or bs p zero_bucket

-- The inner loop of `lookup` and `remove`: the first published slot from `i` on with this key.
unfoldable pub find_slot : ℕ → ℕ → ℕ → List Entry → Option ℕ
find_slot hdr key i [] = none
find_slot hdr key i (e ∷ es) =
    let rest = find_slot hdr key (i + 1) es in
    if slot_published hdr i && e.key_id == key then some i else rest

pub data Seek : Type 0 where
  found : SlotRef → Seek
  missing : Seek
  out_of_fuel : Seek

-- The outer loop, along the chain from the bucket at `p`.
unfoldable pub seek : ℕ → Sizing → List Bucket → ℕ → ℕ → Seek
seek zero sizing bs p key = out_of_fuel
seek (suc fuel) sizing bs p key =
    let b = bucket_at bs p in
    let next_idx = next_of b.header in
    let rest = seek fuel sizing bs (overflow_bucket_of sizing next_idx) key in
    elim (find_slot b.header key 0 b.entries) [
      | some i ↦ found (record { bucket = p; slot = i })
      | none ↦ if next_idx == no_overflow then missing else rest
    ]

-- One round over the slots of a bucket in `upsert`: a published match, or else the first reusable
-- slot of the chain so far.
pub data Scan : Type 0 where
  hit : (i : ℕ) → Scan
  miss : Option SlotRef → Scan

abbrev pub or_first : Option SlotRef → SlotRef → Option SlotRef
or_first none s = some s
or_first (some s) _ = some s

unfoldable pub scan_slots : ℕ → ℕ → ℕ → ℕ → Option SlotRef → List Entry → Scan
scan_slots hdr key p i reusable [] = miss reusable
scan_slots hdr key p i reusable (e ∷ es) =
    let reusable' =
      if slot_published hdr i
      then reusable
      else or_first reusable (record { bucket = p; slot = i }) in
    let rest = scan_slots hdr key p (i + 1) reusable' es in
    if slot_published hdr i && e.key_id == key then hit i else rest

pub data Walk : Type 0 where
  matched : SlotRef → Walk
  absent : (reusable : Option SlotRef) (tail : ℕ) → Walk
  out_of_fuel : Walk

unfoldable pub walk : ℕ → Sizing → List Bucket → ℕ → ℕ → Option SlotRef → Walk
walk zero sizing bs p key reusable = Walk.out_of_fuel
walk (suc fuel) sizing bs p key reusable =
    let b = bucket_at bs p in
    let next_idx = next_of b.header in
    elim (scan_slots b.header key p 0 reusable b.entries) [
      | hit i ↦ matched (record { bucket = p; slot = i })
      | miss reusable' ↦ elim (next_idx == no_overflow) [
        | true ↦ absent reusable' p
        | false ↦ walk fuel sizing bs (overflow_bucket_of sizing next_idx) key reusable'
      ]
    ]

-- A store to one entry, and a store to the header.
unfoldable pub store_entry : List Bucket → SlotRef → Entry → List Bucket
store_entry bs s e =
    let b = bucket_at bs s.bucket in set bs s.bucket (record b { entries = set b.entries s.slot e })

unfoldable pub store_header : List Bucket → ℕ → ℕ → List Bucket
store_header bs p hdr = set bs p (record (bucket_at bs p) { header = hdr })

abbrev pub entry_at : List Bucket → SlotRef → Entry
entry_at bs s = get_or (bucket_at bs s.bucket).entries s.slot no_entry

pub data FaultPoint : Type 0 where
  no_fault after_key_id_before_entry after_entry_before_bit after_overflow_before_chain : FaultPoint

-- `upsert` on the region, whose chain starts at the main bucket `p`. The walk has as much fuel as
-- there are buckets. Returns whether the entry was written.
unfoldable pub claim_slot : FaultPoint → Region → SlotRef → ℕ → ℕ → Bool × Region
claim_slot fault r s key off =
    let old = entry_at r.buckets s in
    let keyed = store_entry r.buckets s (record { key_id = key; offset = old.offset }) in
    let full = store_entry r.buckets s (record { key_id = key; offset = off }) in
    let hdr = (bucket_at r.buckets s.bucket).header in
    elim fault [
      | after_key_id_before_entry ↦ (false, record r { buckets = keyed })
      | after_entry_before_bit ↦ (false, record r { buckets = full })
      | _ ↦ (
        true,
        record r {
          num_entries = r.num_entries + 1;
          buckets = store_header full s.bucket (set_bit hdr s.slot);
        },
      )
    ]

-- `(cur_hdr & 0x7f) | (1 << 7) | (new_idx << 8)`
unfoldable pub attach_header : ℕ → ℕ → ℕ
attach_header hdr new_idx = bit_or (bit_or (bit_and hdr 0x7f) (shl 1 7)) (shl new_idx 8 % 2 ^ 64)

unfoldable pub extend_chain : FaultPoint → Sizing → Region → ℕ → ℕ → ℕ → Bool × Region
extend_chain fault sizing r tail key off =
    let new_idx = r.next_overflow_alloc + 1 in
    let nb = overflow_bucket_of sizing new_idx in
    let filled =
      store_header
        (store_entry r.buckets (record { bucket = nb; slot = 0 })
          (record { key_id = key; offset = off }))
        nb 1 in
    let taken : Region = record r { next_overflow_alloc = new_idx; buckets = filled } in
    if ltb sizing.overflow_slots new_idx
    then (false, record r { next_overflow_alloc = new_idx - 1 })
    else elim fault [
      | after_overflow_before_chain ↦ (false, taken)
      | _ ↦ (
        true,
        record {
          num_entries = r.num_entries + 1;
          next_overflow_alloc = new_idx;
          buckets = store_header filled tail (attach_header (bucket_at filled tail).header new_idx);
        },
      )
    ]

unfoldable pub upsert_region : FaultPoint → Sizing → Region → ℕ → ℕ → ℕ → Bool × Region
upsert_region fault sizing r p key off =
    elim (walk (length r.buckets) sizing r.buckets p key none) [
      | matched s ↦ (
        true,
        record r {
          buckets =
              store_entry r.buckets s
                (record { key_id = (entry_at r.buckets s).key_id; offset = off });
        },
      )
      | absent (some s) tail ↦ claim_slot fault r s key off
      | absent none tail ↦ extend_chain fault sizing r tail key off
      | _ ↦ (false, r)
    ]

unfoldable pub lookup_region : Sizing → Region → ℕ → ℕ → Option ℕ
lookup_region sizing r p key = elim (seek (length r.buckets) sizing r.buckets p key) [
  | found s ↦
      let off = (entry_at r.buckets s).offset in if off == tombstone_offset then none else some off
  | _ ↦ none
]

unfoldable pub remove_region : Sizing → Region → ℕ → ℕ → Bool × Region
remove_region sizing r p key = elim (seek (length r.buckets) sizing r.buckets p key) [
  | found s ↦ (
    true,
    record r {
      buckets =
          store_entry r.buckets s
            (record { key_id = (entry_at r.buckets s).key_id; offset = tombstone_offset });
    },
  )
  | _ ↦ (false, r)
]

-- The operations on the table: route by the fingerprint, match by the key.
abbrev pub no_region : Region
no_region = record { num_entries = 0; next_overflow_alloc = 0; buckets = [] }

-- `upsert` asserts that `off` is not the tombstone; here it may be any word.
unfoldable pub upsert : FaultPoint → ColdTier → ℕ → ℕ → ℕ → Bool × ColdTier
upsert fault c fp64_route key_id off =
    let rid = region_id_of fp64_route in
    let (done, r) =
      upsert_region fault c.sizing (get_or c.regions rid no_region)
        (bucket_id_of c.sizing fp64_route) key_id off in
    (done, record c { regions = set c.regions rid r })

unfoldable pub lookup : ColdTier → ℕ → ℕ → Option ℕ
lookup c fp64_route key_id =
    lookup_region c.sizing (get_or c.regions (region_id_of fp64_route) no_region)
      (bucket_id_of c.sizing fp64_route) key_id

unfoldable pub remove : ColdTier → ℕ → ℕ → Bool × ColdTier
remove c fp64_route key_id =
    let rid = region_id_of fp64_route in
    let (done, r) =
      remove_region c.sizing (get_or c.regions rid no_region) (bucket_id_of c.sizing fp64_route)
        key_id in
    (done, record c { regions = set c.regions rid r })
