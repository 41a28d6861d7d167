-- ===== src/Tests/Whole.antt =====
-- A put and a get of HiOM over a pool of Viper.
use hiom.Prelude.{ℕ, ◌≡◌, refl, arith, true, false, Option, some, none, List, [], ◌∷◌, inr}
use hiom.Codec.{key_value_offset, encode, is_tombstone, get_offsets, pack_fields, base_of}
use hiom.CommitBuffer.Queue.{CommitEntry, SlotRef}
use hiom.HotTier.Layout.{bucket_index, unpack_fp, pack}
use hiom.HotTier.Table.{upsert_pinned, cell_at, put_cell}
use hiom.HotTier.{upsert_pinned_cell, place, probe, cas_slot}
use hiom.Pending.Clients.{note_client_block, note_inflight_block}
use hiom.Pending.{pending_register, count_of}
use hiom.Viper.{VPage, lock, unlock, init, put_on_page, find_first, invalidate_record}
use hiom.Viper.Client.{
  Pool, ViperClient, update_access_information, get_block_based_access, claim_block, get_new_block,
  modify_page, free_occupied_slot,
}
use hiom.Facade.Batch.{is_registered}
use hiom.Facade.Commit.{KeyHash, push_commit}
use hiom.Facade.Reads.{get}
use hiom.Facade.Writes.{Writer, Written, wrote, put, pin_retry, mirror_write_with_offset}
use hiom.Facade.Written.{encoded_offset}
use hiom.Facade.ReadBack.{announced, tries_of}
use hiom.Facade.Whole.{pool_read, get-put_pool}
use hiom.Tests.Fifo.{fifo}
use hiom.Tests.Puts.{keys, before, one_bucket-IsValid, ref_of, writer_of}
use hiom.Tests.Clients.{pool, client, pool_valid, client_valid, old_current, requests, with_pages}

abbrev spot : ℕ
spot = key_value_offset 0 1 0

-- The pool and the client after the put, which found its page full.
abbrev pool_after : Pool ℕ ℕ
pool_after =
    with_pages
      (record {
        version_lock = 200;
        free_slots = true ∷ false ∷ [];
        records = (1, 10) ∷ (2, 20) ∷ [];
      })
      (record {
        version_lock = 66;
        free_slots = false ∷ true ∷ [];
        records = (1, 11) ∷ (0, 0) ∷ [];
      })

abbrev client_after : ViperClient
client_after = record {
  has_block = true;
  v_block_number = 0;
  v_page_number = 1;
  num_v_pages_processed = 1;
  last_put_offset = spot;
}

viper_returns :
    hiom.Viper.Client.put 2 requests 1 11 0 client pool ≡ some (false, client_after, pool_after)
unfolding hiom.Viper.Client.put put_on_page find_first lock unlock init modify_page
    update_access_information get_block_based_access claim_block get_new_block free_occupied_slot
    invalidate_record is_tombstone get_offsets
viper_returns = refl

abbrev first_key : KeyHash
first_key = record { fp32 = 2; fp64 = 2; key_id = 1 }

abbrev packed : ℕ
packed = elim (encoded_offset spot []) [ some x ↦ x | none ↦ 0 ]

spot_compact : encoded_offset spot [] ≡ some packed
unfolding encode get_offsets key_value_offset base_of pack_fields
spot_compact = refl

abbrev pinned_tries : Option (SlotRef × Writer (List CommitEntry))
pinned_tries =
    tries_of fifo (λ _. none) 9 1 2 0 0 (λ _. []) [] first_key spot packed
      (announced fifo (λ _. none) 9 1 2 0 0 0 before)

spot_pinned : pinned_tries ≡ some (ref_of pinned_tries)
unfolding pin_retry upsert_pinned upsert_pinned_cell place probe cas_slot encode get_offsets
    key_value_offset base_of pack_fields bucket_index cell_at put_cell pack unpack_fp
    note_client_block note_inflight_block
spot_pinned = refl

spot_valid : (ref_of pinned_tries).0.valid ≡ true
unfolding pin_retry upsert_pinned upsert_pinned_cell place probe cas_slot encode get_offsets
    key_value_offset base_of pack_fields bucket_index cell_at put_cell pack unpack_fp
    note_client_block note_inflight_block
spot_valid = refl

abbrev put_first : Written (List CommitEntry)
put_first = put fifo (λ _. none) 9 1 2 0 0 (λ _. []) [] first_key 0 spot before

put_returns : put_first ≡ wrote (writer_of put_first)
unfolding put mirror_write_with_offset upsert_pinned_cell place probe cas_slot encode get_offsets
    key_value_offset base_of pack_fields bucket_index cell_at put_cell pack unpack_fp push_commit
    is_tombstone upsert_pinned is_registered pending_register count_of
put_returns = refl

get-put_pool_example :
    (get keys
      (writer_of put_first).store.cold
      (writer_of put_first).store.base_map
      (pool_read pool_after)
      1
      (writer_of put_first).store.hot).0
    ≡ some 11
get-put_pool_example =
    get-put_pool fifo (λ _. none) 9 1 2 0 0 keys 1 11 refl 0 requests 0 client client_after pool
      pool_after false pool_valid client_valid (inr old_current) (omega arith) viper_returns
      (omega arith) (omega arith) (omega arith) (λ _. []) [] first_key 0 packed before
      (ref_of pinned_tries).1 (writer_of put_first) (ref_of pinned_tries).0 one_bucket-IsValid refl
      (omega arith) (omega arith) spot_compact spot_pinned spot_valid put_returns
