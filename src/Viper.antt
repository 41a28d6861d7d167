-- ===== src/Viper.antt =====
-- include/viper/viper.hpp: the pages of the store, for records of fixed size. One operation runs at a
-- time; where the source reads the version twice, the version at the second read is an argument.
-- Mapping, resizing, prefetching and flushing have no part here.
pub mod Versions
pub mod Pages
pub mod Visits
pub mod Intents
pub mod Client
use hiom.Prelude.{
  ℕ, zero, suc, ◌+◌, ◌-◌, ◌*◌, ◌^◌, ◌%◌, ◌==◌, ◌&&◌, ◌||◌, not, if◌then◌else◌, leb, ltb, Bool, true,
  false, Option, some, none, List, [], ◌∷◌, ◌++◌, length, get_or, set, replicate, bit_and, bit_or,
  min,
}
use hiom.Codec.{get_offsets, key_value_offset}

abbrev pub client_bit : ℕ
client_bit = 0x80

abbrev pub used_bit : ℕ
used_bit = 0x40

abbrev pub unlocked_bit : ℕ
unlocked_bit = 0xfe

unfoldable pub is_locked : ℕ → Bool
is_locked lock = not (bit_and lock 1 == 0)

unfoldable pub is_used : ℕ → Bool
is_used lock = not (bit_and lock used_bit == 0)

-- One attempt of `lock` on the version: `none` where the lock bit is set.
unfoldable pub lock : ℕ → Option ℕ
lock version =
    let lock_value = bit_and version unlocked_bit in
    if version == lock_value then some (lock_value + 1) else none

unfoldable pub unlock : ℕ → ℕ
unlock current_version =
    bit_or (bit_or ((current_version + 1) % used_bit) used_bit) (bit_and current_version client_bit)

pub record VPage (K V : Type 0) : Type 0 where
  pub version_lock : ℕ
  pub free_slots : List Bool
  pub records : List (K × V)

module _ {K V : Type 0} where
  abbrev pub no_page : VPage K V
  no_page = record { version_lock = 0; free_slots = []; records = [] }

  unfoldable pub init : VPage K V → VPage K V
  init page = record page {
    version_lock = used_bit;
    free_slots = replicate (length page.free_slots) true;
  }

  -- An access to the array of records; past its end there is none.
  unfoldable pub record_at : List (K × V) → ℕ → Option (K × V)
  record_at [] i = none
  record_at (r ∷ rs) zero = some r
  record_at (r ∷ rs) (suc i) = record_at rs i

  abbrev pub is_free : VPage K V → ℕ → Bool
  is_free page slot = get_or page.free_slots slot true

-- `_Find_first`: the number of slots where none is free.
unfoldable pub find_first : List Bool → ℕ
find_first [] = 0
find_first (b ∷ bs) = let rest = find_first bs in if b then 0 else rest + 1

pub data PagePut (K V : Type 0) : Type 0 where
  written : (slot : ℕ) (page : VPage K V) → PagePut K V
  full : (page : VPage K V) → PagePut K V
  busy : PagePut K V

module _ {K V : Type 0} where
  -- What `Client::put` does to the client's page: to the record and its slot, between `lock` and
  -- `unlock`. Freeing the old record is an operation of its own.
  unfoldable pub put_on_page : K → V → VPage K V → PagePut K V
  put_on_page key value page =
      let slot = find_first page.free_slots in
      elim (lock page.version_lock) [
        | none ↦ busy
        | some held ↦
            if leb (length page.free_slots) slot
            then full (record page { version_lock = unlock held })
            else written slot (record {
              version_lock = unlock held;
              free_slots = set page.free_slots slot false;
              records = set page.records slot (key, value);
            })
      ]

  unfoldable pub invalidate_record : VPage K V → ℕ → VPage K V
  invalidate_record page slot = record page { free_slots = set page.free_slots slot true }

  -- The blocks of the pool, and their pages.
  abbrev pub page_at : List (List (VPage K V)) → ℕ → ℕ → VPage K V
  page_at blocks block page = get_or (get_or blocks block []) page no_page

  unfoldable pub is_offset_alive : List (List (VPage K V)) → ℕ → Bool
  is_offset_alive blocks off =
      let (block, page, slot) = get_offsets off in
      if leb (length blocks) block then false else not (is_free (page_at blocks block page) slot)

  unfoldable pub get_slot_key : List (List (VPage K V)) → ℕ → Option K
  get_slot_key blocks off =
      let (block, page, slot) = get_offsets off in
      let vp = page_at blocks block page in
      if leb (length blocks) block
      then none
      else if is_free vp slot
      then none
      else elim (record_at vp.records slot) [ some (key, value) ↦ some key | none ↦ none ]

-- `ReadStatus`, with what was read.
pub data Read (K V : Type 0) : Type 0 where
  ok : (key : K) (value : V) → Read K V
  transient : Read K V
  slot_free : Read K V

-- What `hiom_visit_records` hands to its visitor.
pub record Visited (K V : Type 0) : Type 0 where
  pub key : K
  pub value : V
  pub off : ℕ

module _ {K V : Type 0} where
  -- `version` is what the second load of the version returns.
  unfoldable pub read_at_offset_status : VPage K V → ℕ → ℕ → Read K V
  read_at_offset_status page slot version =
      if is_free page slot
      then slot_free
      else if is_locked page.version_lock
      then transient
      else if not (page.version_lock == version)
      then transient
      else elim (record_at page.records slot) [
        | some (key, value) ↦ ok key value
        | none ↦ slot_free
      ]

  -- `hiom_clear_stale_page_locks` on one page: whether it cleared a lock, and the page after it.
  unfoldable pub clear_stale_lock : VPage K V → Bool × VPage K V
  clear_stale_lock page =
      let lv = page.version_lock in
      if not (is_used lv)
      then (false, page)
      else if not (is_locked lv)
      then (false, page)
      else (true, record page { version_lock = bit_and lv unlocked_bit })

  -- The records of a page from slot `i` on, with their offsets.
  unfoldable pub visit_slots : ℕ → ℕ → ℕ → List Bool → List (K × V) → List (Visited K V)
  visit_slots block page i [] rs = []
  visit_slots block page i (free ∷ bs) [] = []
  visit_slots block page i (free ∷ bs) ((key, value) ∷ rs) =
      let rest = visit_slots block page (i + 1) bs rs in
      if free
      then rest
      else record { key = key; value = value; off = key_value_offset block page i } ∷ rest

  unfoldable pub visit_pages : ℕ → ℕ → List (VPage K V) → List (Visited K V)
  visit_pages block page [] = []
  visit_pages block page (vp ∷ vps) =
      let rest = visit_pages block (page + 1) vps in
      if is_used vp.version_lock
      then visit_slots block page 0 vp.free_slots vp.records ++ rest
      else rest

  -- `left` more blocks from block `bn` on; a block past the end of the pool is not visited.
  unfoldable pub visit_blocks : ℕ → ℕ → List (List (VPage K V)) → List (Visited K V)
  visit_blocks zero bn blocks = []
  visit_blocks (suc left) bn blocks =
      visit_pages bn 0 (get_or blocks bn []) ++ visit_blocks left (bn + 1) blocks

  unfoldable pub visit_records : ℕ → ℕ → List (List (VPage K V)) → List (Visited K V)
  visit_records block_lo block_hi blocks =
      visit_blocks (min block_hi (length blocks) - block_lo) block_lo blocks
