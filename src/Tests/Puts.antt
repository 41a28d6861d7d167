-- ===== src/Tests/Puts.antt =====
-- Puts of a client, with a list as the queue of each lane and one bucket in the hot tier.

use hiom.Prelude.{
  sym, ◌∙◌, ◌≢◌, Bool, Bool-cases, inl, inr, ℕ, ◌≡◌, refl, ◌+◌, ◌<◌, ◌^◌, ◌%◌, ◌==◌, arith, true,
  false, some, none, [], ◌∷◌, replicate, get_or-replicate, and_mask, Option, List, if◌then◌else◌,
  bit_xor, shr, ◌*◌,
}
use hiom.Codec.{key_value_offset, encode, is_tombstone, get_offsets, pack_fields, base_of}
use hiom.HotTier.{lookup_cell, find_fp}
use hiom.ColdTier.Fresh.{lookup-create}
use hiom.CommitBuffer.Queue.{CommitEntry, SlotRef}
use hiom.CommitBuffer.{new}
use hiom.HotTier.Layout.{no_meta, bucket_index, unpack_fp, pack}
use hiom.HotTier.Table.{HotTier, upsert_pinned, cell_at, put_cell, no_ref}
use hiom.HotTier.Valid.{HotIsValid}
use hiom.HotTier.Found.{lookup-upsert_pinned}
use hiom.HotTier.{upsert_pinned_cell, place, probe, cas_slot, lookup_cell}
use hiom.Pending.Clients.{note_client_block, note_inflight_block}
use hiom.Viper.{Read, ok, transient, slot_free}
use hiom.Facade.Batch.{is_registered}
use hiom.Pending.{pending_register, count_of}
use hiom.Facade.Commit.{KeyHash, push_commit}
use hiom.Facade.Reads.{Keys, get}
use hiom.Facade.Writes.{Writer, Written, wrote, put, pin_retry, mirror_write_with_offset}
use hiom.Facade.Unread.{OnlyAt}
use hiom.Facade.Written.{encoded_offset, get-put_unencoded}
use hiom.Facade.ReadBack.{announced, tries_of, get-put}
use hiom.Tests.Fifo.{fifo}
use hiom.Tests.Ring.{empty_ring, at_work}

abbrev pub one_bucket : HotTier
one_bucket = record {
  num_buckets = 1;
  buckets = replicate 16 0 ∷ [];
  metas = no_meta ∷ [];
  size = 0;
  eviction_count = 0;
  pin_failures = 0;
}

-- The mixing of a fingerprint before it is masked.
abbrev hashed : ℕ → ℕ
hashed fp = bit_xor fp (shr fp 16) * 0x085e_bca6_b9c1_cdcb % 2 ^ 64

pub one_bucket-IsValid : HotIsValid one_bucket
unfolding cell_at bucket_index
one_bucket-IsValid = record {
  cells = λ i hi.
      let first : i ≡ 0 = omega (arith, hi) in
      rw first (record { width = refl; blank = λ j h. get_or-replicate 16 j 0 });
  routed = λ fp. omega (arith, and_mask 0 (bit_xor (hashed fp) (shr (hashed fp) 13)));
}

abbrev pub keys : Keys ℕ
keys = record {
  key_fingerprint = λ k. k + 1;
  key_fingerprint64 = λ k. k + 1;
  key_id_of = λ k. k;
  same_key = λ j k. j == k;
}

abbrev seventy : KeyHash
seventy = record { fp32 = 71; fp64 = 71; key_id = 70 }

abbrev pub before : Writer (List CommitEntry)
before = record {
  store = record at_work { hot = one_bucket; pending = empty_ring };
  commit_buf = new fifo;
  client_seq = 0;
}

-- In block 9, page 2 and slot 7.
abbrev spot : ℕ
spot = key_value_offset 9 2 7

abbrev read_spot : ℕ → ℕ → Read ℕ ℕ
read_spot off attempt = if off == spot then ok 70 500 else transient

abbrev packed : ℕ
packed = elim (encoded_offset spot []) [ some x ↦ x | none ↦ 0 ]

spot_compact : encoded_offset spot [] ≡ some packed
unfolding encode get_offsets key_value_offset base_of pack_fields
spot_compact = refl

abbrev pinned_tries : Option (SlotRef × Writer (List CommitEntry))
pinned_tries =
    tries_of fifo (λ _. none) 9 1 2 0 0 (λ _. []) [] seventy spot packed
      (announced fifo (λ _. none) 9 1 2 0 0 9 before)

abbrev pub ref_of :
    Option (SlotRef × Writer (List CommitEntry)) → SlotRef × Writer (List CommitEntry)
ref_of (some r) = r
ref_of none = (no_ref, before)

spot_pinned : pinned_tries ≡ some (ref_of pinned_tries)
unfolding pin_retry upsert_pinned upsert_pinned_cell place probe cas_slot encode get_offsets
    key_value_offset base_of pack_fields bucket_index cell_at put_cell pack unpack_fp
    note_client_block note_inflight_block
spot_pinned = refl

spot_valid : (ref_of pinned_tries).0.valid ≡ true
unfolding pin_retry upsert_pinned upsert_pinned_cell place probe cas_slot encode get_offsets
    key_value_offset base_of pack_fields bucket_index cell_at put_cell pack unpack_fp
    note_client_block note_inflight_block
spot_valid = refl

abbrev put_seventy : Written (List CommitEntry)
put_seventy = put fifo (λ _. none) 9 1 2 0 0 (λ _. []) [] seventy 9 spot before

abbrev pub writer_of : Written (List CommitEntry) → Writer (List CommitEntry)
writer_of (wrote w) = w
writer_of _ = before

put_returns : put_seventy ≡ wrote (writer_of put_seventy)
unfolding put mirror_write_with_offset upsert_pinned_cell place probe cas_slot encode get_offsets
    key_value_offset base_of pack_fields bucket_index cell_at put_cell pack unpack_fp push_commit
    is_tombstone upsert_pinned is_registered pending_register count_of
put_returns = refl

spot_small : spot < 2 ^ 64
unfolding key_value_offset
spot_small = omega arith

spot_there : is_tombstone spot ≡ false
unfolding key_value_offset is_tombstone
spot_there = refl

spot_read : read_spot spot 0 ≡ ok 70 500
unfolding key_value_offset
spot_read = refl

get-put_example :
    (get keys
      (writer_of put_seventy).store.cold
      (writer_of put_seventy).store.base_map
      read_spot
      70
      (writer_of put_seventy).store.hot).0
    ≡ some 500
get-put_example =
    get-put fifo (λ _. none) 9 1 2 0 0 keys read_spot 70 70 500 (λ _. []) [] seventy 9 spot packed
      before (ref_of pinned_tries).1 (writer_of put_seventy) (ref_of pinned_tries).0
      one_bucket-IsValid refl (omega arith) (omega arith) spot_small spot_there spot_compact
      spot_pinned spot_valid put_returns refl spot_read

-- Slot 300 of a page has no compact form.
abbrev far : ℕ
far = key_value_offset 9 2 300

far_unencoded : encoded_offset far [] ≡ none
unfolding encode get_offsets key_value_offset base_of
far_unencoded = refl

abbrev put_far : Written (List CommitEntry)
put_far = put fifo (λ _. none) 9 1 2 0 0 (λ _. []) [] seventy 9 far before

far_returns : put_far ≡ wrote (writer_of put_far)
unfolding put mirror_write_with_offset encode get_offsets key_value_offset base_of push_commit
    is_tombstone is_registered pending_register count_of
far_returns = refl

-- The store after Viper's put: key 70 stands in the far slot.
abbrev read_far : ℕ → ℕ → Read ℕ ℕ
read_far off attempt = if off == far then ok 70 500 else slot_free

far_only : OnlyAt keys before.store.cold before.store.base_map read_far far 70
far_only q n k v e mine = elim (Bool-cases (q == far)) [
  | inl here ↦ ground (arith, here)
  | inr other ↦ absurd (answered (q == far) other e)
]
  where
    answered : (b : Bool) → b ≡ false → (if b then ok 70 500 else slot_free) ≢ ok k v
    answered true h = absurd (ground (arith, h))
    answered false h = λ e. ground (arith, e)

hot_misses : (hiom.HotTier.Table.lookup before.store.hot 71).0 ≡ none
unfolding hiom.HotTier.Table.lookup lookup_cell find_fp cell_at bucket_index unpack_fp
hot_misses = refl

cold_misses : hiom.ColdTier.lookup before.store.cold 71 70 ≡ none
cold_misses = lookup-create 3 2 71 70 (omega arith)

not_hot : (p : ℕ) → (hiom.HotTier.Table.lookup before.store.hot 71).0 ≢ some p
not_hot p e = ground (arith, sym hot_misses ∙ e)

not_cold : hiom.ColdTier.lookup before.store.cold 71 70 ≢ some far
not_cold e = ground (arith, sym cold_misses ∙ e)

get-put_unencoded_example :
    (get keys
      (writer_of put_far).store.cold
      (writer_of put_far).store.base_map
      read_far
      70
      (writer_of put_far).store.hot).0
    ≡ none
get-put_unencoded_example =
    get-put_unencoded fifo (λ _. none) 9 1 2 0 0 keys read_far (λ _. []) [] seventy 9 far before
      (writer_of put_far) 70 far_unencoded far_returns far_only (λ p e. absurd (not_hot p e))
      not_cold

pinned_71 : (upsert_pinned one_bucket 71 10759).0.valid ≡ true
unfolding upsert_pinned upsert_pinned_cell place probe cas_slot cell_at put_cell pack unpack_fp
    bucket_index
pinned_71 = refl

lookup-upsert_pinned_example :
    (hiom.HotTier.Table.lookup (upsert_pinned one_bucket 71 10759).1 71).0 ≡ some 10759
lookup-upsert_pinned_example =
    lookup-upsert_pinned one_bucket 71 10759
      (one_bucket-IsValid.cells (bucket_index 1 71) (one_bucket-IsValid.routed 71))
      (one_bucket-IsValid.routed 71) (omega arith) (omega arith) (omega arith) pinned_71
