-- ===== src/Viper/Client.antt =====
-- include/viper/viper.hpp: a brand-new pool, a client's blocks and its put, for records of fixed size, one client at work.
-- Arguments are what `free_blocks_` (a third-party queue) gives to a request, the random first page, and
-- the old offset that the index or HiOM's resolver returns. A wait, for a mapping or for a lock, is
-- `none`; counters, prefaulting and the reclaiming thread have no part here.
pub mod Kept
pub mod Walk
pub mod Moves
pub mod Start
pub mod Writes
pub mod Stored
pub mod Rewrites
pub mod Frees
pub mod Live
pub mod Update
pub mod InPlace
pub mod Updated
pub mod Removed
use hiom.Prelude.{
  replicate, not, ℕ, zero, suc, ◌+◌, ◌%◌, ◌==◌, ◌&&◌, if◌then◌else◌, leb, ltb, Bool, true, false,
  Option, some, none, List, get_or, set, length, bit_and, bit_or, max, [],
}
use hiom.Codec.{get_offsets, key_value_offset, is_tombstone}
use hiom.Viper.{
  VPage, PagePut, written, full, busy, lock, unlock, init, client_bit, put_on_page,
  invalidate_record, page_at, no_page,
}

abbrev pub no_client_bit : ℕ
no_client_bit = 0x7f

-- `current_block_page_` is the next block that no client has claimed, with its first page.
pub record Pool (K V : Type 0) : Type 0 where
  pub blocks : List (List (VPage K V))
  pub num_pages_per_block : ℕ
  pub current_block : ℕ
  pub current_page : ℕ
  pub num_used_blocks : ℕ

-- `has_block` says that `v_block_` is not null.
pub record ViperClient : Type 0 where
  pub has_block : Bool
  pub v_block_number : ℕ
  pub v_page_number : ℕ
  pub num_v_pages_processed : ℕ
  pub last_put_offset : ℕ

abbrev pub new_client : ViperClient
new_client = record {
  has_block = false;
  v_block_number = 0;
  v_page_number = 0;
  num_v_pages_processed = 0;
  last_put_offset = 0;
}

module _ {K V : Type 0} where
  unfoldable pub modify_page : ℕ → ℕ → (VPage K V → VPage K V) → Pool K V → Pool K V
  modify_page b p f pool = record pool {
    blocks = set pool.blocks b (set (get_or pool.blocks b []) p (f (page_at pool.blocks b p)));
  }

  -- Whether a client works in the block.
  unfoldable pub is_owned : List (VPage K V) → Bool
  is_owned v_pages = not (bit_and (get_or v_pages 0 no_page).version_lock client_bit == 0)

  -- The block and page that are claimed. `none` is a wait, or that the assertion on the next block fails.
  unfoldable pub get_new_block : ℕ → Pool K V → Option (ℕ × ℕ × Pool K V)
  get_new_block random pool =
      if leb (length pool.blocks) (pool.current_block + 1)
      then none
      else some (
        pool.current_block,
        pool.current_page,
        record pool {
          current_block = pool.current_block + 1;
          current_page = random % pool.num_pages_per_block;
        },
      )

  -- What a request gets: a freed block from its page 0 on, or a new one.
  unfoldable pub claim_block : Option ℕ → ℕ → Pool K V → Option (ℕ × ℕ × Pool K V)
  unfolding get_new_block
  claim_block free_block random pool = elim free_block as (λ _. Option (ℕ × ℕ × Pool K V)) [
    | some b ↦ some (b, 0, pool)
    | none ↦ get_new_block random pool
  ]

  abbrev pub drop_client : VPage K V → VPage K V
  drop_client page = record page { version_lock = bit_and page.version_lock no_client_bit }

  abbrev pub take_client : VPage K V → VPage K V
  take_client page = record page { version_lock = bit_or page.version_lock client_bit }

  unfoldable pub get_block_based_access :
      Option ℕ → ℕ → ViperClient → Pool K V → Option (ViperClient × Pool K V)
  unfolding claim_block modify_page
  get_block_based_access free_block random c pool =
      elim (claim_block free_block random pool) as (λ _. Option (ViperClient × Pool K V)) [
        | none ↦ none
        | some (b, p, pool1) ↦
            let pool2 =
              if c.has_block then modify_page c.v_block_number 0 drop_client pool1 else pool1 in
            let pool3 = modify_page b 0 take_client (modify_page b p init pool2) in
            some (
              record c {
                has_block = true;
                v_block_number = b;
                v_page_number = p;
                num_v_pages_processed = 0;
              },
              record pool3 { num_used_blocks = max pool3.num_used_blocks (b + 1) },
            )
      ]

  -- A brand-new pool is all zero: no page is in use, and no slot is marked free.
  abbrev pub zero_page : ℕ → K × V → VPage K V
  zero_page num_slots zeros = record {
    version_lock = 0;
    free_slots = replicate num_slots false;
    records = replicate num_slots zeros;
  }

  unfoldable pub new_pool : ℕ → ℕ → ℕ → K × V → Pool K V
  new_pool num_blocks num_pages num_slots zeros = record {
    blocks = replicate num_blocks (replicate num_pages (zero_page num_slots zeros));
    num_pages_per_block = num_pages;
    current_block = 0;
    current_page = 0;
    num_used_blocks = 0;
  }

  unfoldable pub get_client : Option ℕ → ℕ → Pool K V → Option (ViperClient × Pool K V)
  unfolding get_block_based_access
  get_client free_block random pool = get_block_based_access free_block random new_client pool

  unfoldable pub update_access_information :
      Option ℕ → ℕ → ViperClient → Pool K V → Option (ViperClient × Pool K V)
  unfolding get_block_based_access
  update_access_information free_block random c pool =
      let processed = c.num_v_pages_processed + 1 in
      let next_page = (c.v_page_number + 1) % pool.num_pages_per_block in
      let moved : Option (ViperClient × Pool K V) =
        if processed == pool.num_pages_per_block
        then get_block_based_access free_block random
            (record c { num_v_pages_processed = processed }) pool
        else some
            (record c { num_v_pages_processed = processed; v_page_number = next_page }, pool) in
      elim moved as (λ _. Option (ViperClient × Pool K V)) [
        | none ↦ none
        | some (c', pool') ↦ some (c', modify_page c'.v_block_number c'.v_page_number init pool')
      ]

  -- `free_occupied_slot`: the slot on the client's own page, whose lock it holds, or on another page,
  -- which it locks.
  unfoldable pub free_occupied_slot : ℕ → ViperClient → Pool K V → Option (Pool K V)
  unfolding modify_page
  free_occupied_slot off c pool =
      let (b, p, slot) = get_offsets off in
      let page = page_at pool.blocks b p in
      if c.v_block_number == b && c.v_page_number == p
      then some (modify_page b p (λ vp. invalidate_record vp slot) pool)
      else elim (lock page.version_lock) as (λ _. Option (Pool K V)) [
        | none ↦ none
        | some held ↦ some (
            modify_page b p
              (λ vp. record (invalidate_record vp slot) { version_lock = unlock held }) pool)
      ]

  -- `put`: whether the key is new, with `tries` pages at most. The lock of the client's page is free
  -- again when the old slot on another page is freed, which does not show with one client.
  unfoldable pub put :
      ℕ
      → (ℕ → Option ℕ × ℕ)
      → K
      → V
      → ℕ
      → ViperClient
      → Pool K V
      → Option (Bool × ViperClient × Pool K V)
  unfolding modify_page update_access_information free_occupied_slot
  put zero requests key value old c pool = none
  put (suc tries) requests key value old c pool =
      let again = λ (page : VPage K V).
        elim (update_access_information (requests tries).0 (requests tries).1 c
            (modify_page c.v_block_number c.v_page_number (λ _. page) pool))
          as (λ _. Option (Bool × ViperClient × Pool K V)) [
            | none ↦ none
            | some (c', pool') ↦ put tries requests key value old c' pool'
          ] in
      elim (put_on_page key value (page_at pool.blocks c.v_block_number c.v_page_number))
        as (λ _. Option (Bool × ViperClient × Pool K V)) [
          | busy ↦ none
          | full page ↦ again page
          | written slot page ↦
              let pool1 = modify_page c.v_block_number c.v_page_number (λ _. page) pool in
              let c1 : ViperClient = record c {
                last_put_offset = key_value_offset c.v_block_number c.v_page_number slot;
              } in
              if is_tombstone old
              then some (true, c1, pool1)
              else elim (free_occupied_slot old c1 pool1)
                  as (λ _. Option (Bool × ViperClient × Pool K V)) [
                    | none ↦ none
                    | some pool2 ↦ some (false, c1, pool2)
                  ]
        ]

  -- `remove` frees the slot that the index has for the key.
  unfoldable pub remove : ℕ → ViperClient → Pool K V → Option (Bool × Pool K V)
  unfolding free_occupied_slot
  remove off c pool =
      if is_tombstone off
      then some (false, pool)
      else elim (free_occupied_slot off c pool) as (λ _. Option (Bool × Pool K V)) [
        | none ↦ none
        | some pool' ↦ some (true, pool')
      ]
