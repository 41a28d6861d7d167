-- ===== src/HotTier/Table.antt =====
-- include/viper/hiom/hot_tier.hpp: the table of buckets. Each operation works on the bucket of its
-- fingerprint; the counters belong to the whole table. A fingerprint is never `kEmptyFp` and a
-- reference is never past the table, as the source asserts.
use hiom.Prelude.{ℕ, Bool, false, Option, some, none, List, if◌then◌else◌, get_or, set, [], true}
use hiom.CommitBuffer.Queue.{SlotRef}
use hiom.HotTier.Layout.{
  BucketMeta, no_meta, Cell, bucket_index, cas_state, force_unpinned, unpack_fp, unpack_off,
  empty_fp,
}
use hiom.HotTier.{
  upsert_cell, upsert_pinned_cell, lookup_cell, peek_cell, remove_cell, max_upsert_retries,
}

pub record HotTier : Type 0 where
  pub num_buckets : ℕ
  pub buckets : List (List ℕ)
  pub metas : List BucketMeta
  pub size : ℕ
  pub eviction_count : ℕ
  pub pin_failures : ℕ

-- A default-constructed reference; its bucket is never read.
abbrev pub no_ref : SlotRef
no_ref = record { bucket_idx = 0; slot_idx = 0; valid = false }

-- One bucket with the counters, and the table after an operation on it.
unfoldable pub cell_at : HotTier → ℕ → Cell
cell_at t bidx = record {
  slots = get_or t.buckets bidx [];
  meta = get_or t.metas bidx no_meta;
  size = t.size;
  eviction_count = t.eviction_count;
  pin_failures = t.pin_failures;
}

unfoldable pub put_cell : HotTier → ℕ → Cell → HotTier
put_cell t bidx c = record {
  num_buckets = t.num_buckets;
  buckets = set t.buckets bidx c.slots;
  metas = set t.metas bidx c.meta;
  size = c.size;
  eviction_count = c.eviction_count;
  pin_failures = c.pin_failures;
}

unfoldable pub upsert : HotTier → ℕ → ℕ → ℕ × HotTier
upsert t fp off =
    let bidx = bucket_index t.num_buckets fp in
    let (old, c) = upsert_cell fp off (cell_at t bidx) in (old, put_cell t bidx c)

unfoldable pub upsert_pinned : HotTier → ℕ → ℕ → SlotRef × HotTier
upsert_pinned t fp off =
    let bidx = bucket_index t.num_buckets fp in
    let (at, c) = upsert_pinned_cell fp off (cell_at t bidx) in
    (
      elim at [ some i ↦ record { bucket_idx = bidx; slot_idx = i; valid = true } | none ↦ no_ref ],
      put_cell t bidx c,
    )

unfoldable pub lookup : HotTier → ℕ → Option ℕ × HotTier
lookup t fp =
    let bidx = bucket_index t.num_buckets fp in
    let (off, c) = lookup_cell fp (cell_at t bidx) in (off, put_cell t bidx c)

unfoldable pub peek : HotTier → ℕ → Option ℕ
peek t fp = peek_cell fp (cell_at t (bucket_index t.num_buckets fp))

unfoldable pub remove : HotTier → ℕ → Bool × HotTier
remove t fp =
    let bidx = bucket_index t.num_buckets fp in
    let (done, c) = remove_cell max_upsert_retries fp (cell_at t bidx) in (done, put_cell t bidx c)

abbrev put_meta : HotTier → ℕ → BucketMeta → HotTier
put_meta t bidx m = record t { metas = set t.metas bidx m }

unfoldable pub cas_slot_state : HotTier → SlotRef → ℕ → ℕ → Bool × HotTier
cas_slot_state t ref from to =
    let (done, m) = cas_state (get_or t.metas ref.bucket_idx no_meta) ref.slot_idx from to in
    if ref.valid then (done, put_meta t ref.bucket_idx m) else (false, t)

unfoldable pub unpin : HotTier → SlotRef → HotTier
unpin t ref =
    if ref.valid
    then put_meta t ref.bucket_idx
        (force_unpinned (get_or t.metas ref.bucket_idx no_meta) ref.slot_idx)
    else t

pub record SlotView : Type 0 where
  pub fp : ℕ
  pub packed_off : ℕ

unfoldable pub read_slot : HotTier → SlotRef → SlotView
read_slot t ref =
    let v = get_or (get_or t.buckets ref.bucket_idx []) ref.slot_idx 0 in
    if ref.valid
    then record { fp = unpack_fp v; packed_off = unpack_off v }
    else record { fp = empty_fp; packed_off = 0 }
