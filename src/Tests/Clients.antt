-- ===== src/Tests/Clients.antt =====
-- The client of Viper on a brand-new pool of three blocks of two pages, of two slots each.
use hiom.Prelude.{
  ℕ, ◌+◌, ◌≡◌, Bool, true, false, Option, some, none, [], ◌∷◌, refl, inl, inr, arith, subst, ◌==◌,
}
use hiom.Codec.{get_offsets, is_tombstone, invalid_offset, key_value_offset}
use hiom.Viper.{VPage, lock, unlock, init, put_on_page, find_first, record_at, is_used}
use hiom.Viper.Client.{
  Pool, ViperClient, put, remove, zero_page, new_pool, get_client, update_access_information,
  get_block_based_access, claim_block, get_new_block, modify_page,
}
use hiom.Viper.Client.Update.{update}
use hiom.Viper.Client.Walk.{PoolIsValid, ClientIsValid}
use hiom.Viper.Client.Moves.{MoveSpec, update_access_information-MoveSpec}
use hiom.Viper.Client.Start.{Begins, new_pool-PoolIsValid, get_client-Begins}
use hiom.Viper.Client.Stored.{live_at}
use hiom.Viper.Client.Live.{Stores, Returned, put-Stores, put-Returned}
use hiom.Viper.Client.Updated.{IsNamed, Updates, target, update-Updates}
use hiom.Viper.Client.Removed.{RemoveSpec, remove-RemoveSpec}

abbrev pub requests : ℕ → Option ℕ × ℕ
requests tries = (none, 5)

abbrev pub fresh_pool : Pool ℕ ℕ
fresh_pool = new_pool 3 2 2 (0, 0)

abbrev pub blank : VPage ℕ ℕ
blank = zero_page 2 (0, 0)

-- The pool once a client has its first block, with the pages of that block.
abbrev pub with_pages : VPage ℕ ℕ → VPage ℕ ℕ → Pool ℕ ℕ
with_pages first second = record {
  blocks = (first ∷ second ∷ []) ∷ (blank ∷ blank ∷ []) ∷ (blank ∷ blank ∷ []) ∷ [];
  num_pages_per_block = 2;
  current_block = 1;
  current_page = 1;
  num_used_blocks = 1;
}

abbrev pub client_at : ℕ → ViperClient
client_at off = record {
  has_block = true;
  v_block_number = 0;
  v_page_number = 0;
  num_v_pages_processed = 0;
  last_put_offset = off;
}

abbrev pool1 : Pool ℕ ℕ
pool1 =
    with_pages
      (record { version_lock = 192; free_slots = true ∷ true ∷ []; records = (0, 0) ∷ (0, 0) ∷ [] })
      blank

abbrev pool2 : Pool ℕ ℕ
pool2 =
    with_pages
      (record {
        version_lock = 194;
        free_slots = false ∷ true ∷ [];
        records = (1, 10) ∷ (0, 0) ∷ [];
      })
      blank

-- The client's page is full.
abbrev pub pool : Pool ℕ ℕ
pool =
    with_pages
      (record {
        version_lock = 196;
        free_slots = false ∷ false ∷ [];
        records = (1, 10) ∷ (2, 20) ∷ [];
      })
      blank

abbrev pub client : ViperClient
client = client_at 0x1_0000_0000_0000

begins : get_client none 1 fresh_pool ≡ some (client_at 0, pool1)
unfolding get_client get_block_based_access claim_block get_new_block modify_page init new_pool
begins = refl

first_put : put 2 requests 1 10 invalid_offset (client_at 0) pool1 ≡ some (true, client_at 0, pool2)
unfolding put put_on_page find_first lock unlock modify_page is_tombstone key_value_offset
first_put = refl

second_put : put 2 requests 2 20 invalid_offset (client_at 0) pool2 ≡ some (true, client, pool)
unfolding put put_on_page find_first lock unlock modify_page is_tombstone key_value_offset
second_put = refl

begun : Begins fresh_pool (some (client_at 0, pool1))
unfolding new_pool
begun = subst (Begins fresh_pool) begins (
    get_client-Begins none 1 fresh_pool
      (new_pool-PoolIsValid 3 2 2 (0, 0) (omega arith) (omega arith)) (omega arith))

no_old : is_tombstone invalid_offset ≡ true
unfolding is_tombstone
no_old = refl

one_stored : Returned 1 10 invalid_offset pool1 (some (true, client_at 0, pool2))
one_stored = subst (Returned 1 10 invalid_offset pool1) first_put (
    put-Returned 0 requests 1 10 invalid_offset (client_at 0) pool1 begun.1 begun.2 (inl no_old)
      (omega arith))

two_stored : Returned 2 20 invalid_offset pool2 (some (true, client, pool))
two_stored = subst (Returned 2 20 invalid_offset pool2) second_put (
    put-Returned 0 requests 2 20 invalid_offset (client_at 0) pool2 one_stored.valid
      one_stored.client (inl no_old) (omega arith))

pub pool_valid : PoolIsValid pool
pool_valid = two_stored.valid

pub client_valid : ClientIsValid client pool
client_valid = two_stored.client

pub old_current : (is_tombstone 0 ≡ false) × ((r : ℕ × ℕ) × (live_at pool (get_offsets 0) ≡ some r))
unfolding is_tombstone get_offsets record_at is_used
old_current = (refl, ((1, 10), refl))

put-Stores_example : Stores 1 11 0 pool (put 2 requests 1 11 0 client pool)
put-Stores_example =
    put-Stores 0 requests 1 11 0 client pool pool_valid client_valid (inr old_current) (omega arith)

update_access_information-MoveSpec_example :
    (c' : ViperClient) × (pool' : Pool ℕ ℕ) × (update_access_information none 5 client pool
      ≡ some (c', pool'))
    × MoveSpec pool c' pool'
update_access_information-MoveSpec_example =
    update_access_information-MoveSpec none 5 client pool pool_valid client_valid (omega arith)

abbrev one_more : ℕ → ℕ
one_more v = v + 1

reached : IsNamed 0 pool
unfolding get_offsets is_used
reached h = refl

update-Updates_example :
    Updates ◌==◌ 1 one_more (target ◌==◌ 1 one_more 0 0 pool) pool (update ◌==◌ 1 one_more 0 0 pool)
update-Updates_example = update-Updates ◌==◌ 1 one_more 0 0 pool pool_valid reached reached

remove-RemoveSpec_example :
    (done : Bool) × (pool' : Pool ℕ ℕ) × (remove 0 client pool ≡ some (done, pool'))
    × RemoveSpec 0 client pool done pool'
remove-RemoveSpec_example =
    remove-RemoveSpec 0 client pool pool_valid client_valid (inr old_current)
