-- ===== src/HotTier.antt =====
-- include/viper/hiom/hot_tier.hpp: the operations of the hot tier on a bucket and on the table, one
-- at a time. A compare-and-swap compares with the slot as it is then.
pub mod Layout
pub mod Sweep
pub mod Eviction
pub mod Placement
pub mod States
pub mod Pinning
pub mod Table
pub mod Transitions
pub mod Found
pub mod Valid
use hiom.Prelude.{
  ℕ, zero, suc, Bool, true, false, Option, some, none, List, [], ◌∷◌, ◌+◌, ◌-◌, ◌*◌, ◌^◌, ◌%◌, ◌==◌,
  ◌&&◌, not, if◌then◌else◌, get_or, set, length, bit, clear_bit, replicate,
}
use Layout.{
  slots_per_bucket, empty_fp, invalid_offset32, unpinned, pinned, in_flush, BucketMeta, no_meta,
  Cell, pack, unpack_fp, unpack_off, bucket_index, set_visited, clear_visited, get_state, cas_state,
  force_pinned, force_unpinned,
}

abbrev pub slot_at : Cell → ℕ → ℕ
slot_at c i = get_or c.slots i 0

-- `compare_exchange_strong` on slot `i`.
unfoldable pub cas_slot : Cell → ℕ → ℕ → ℕ → Bool × Cell
cas_slot c i expected desired =
    if slot_at c i == expected
    then (true, record c { slots = set c.slots i desired })
    else (false, c)

-- One step of the sweep at slot `i`: the slot that it frees, and the bucket after it.
unfoldable pub sweep_slot : Cell → ℕ → Option ℕ × Cell
sweep_slot c i =
    let next_hand : BucketMeta = record c.meta { hand = (i + 1) % slots_per_bucket } in
    if not (get_state c.meta i == unpinned)
    then (none, c)
    else if bit c.meta.visited i
    then (none, record c { meta = record c.meta { visited = clear_bit 16 c.meta.visited i } })
    else if slot_at c i == 0
    then (some i, record c { meta = next_hand })
    else (
      some i,
      record c {
        slots = set c.slots i 0;
        meta = next_hand;
        size = (c.size + 2 ^ 64 - 1) % 2 ^ 64;
        eviction_count = (c.eviction_count + 1) % 2 ^ 64;
      },
    )

-- `left` more steps from step `k` on; the hand stays where it was when the sweep began.
unfoldable pub sweep : ℕ → ℕ → ℕ → Cell → Option ℕ × Cell
sweep zero hand k c = (none, c)
sweep (suc left) hand k c =
    let (freed, c') = sweep_slot c ((hand + k) % slots_per_bucket) in
    let rest = sweep left hand (k + 1) c' in elim freed [ some i ↦ (some i, c') | none ↦ rest ]

unfoldable pub sieve_evict : Cell → Option ℕ × Cell
sieve_evict c = sweep (2 * slots_per_bucket) c.meta.hand 0 c

-- The probe: the first slot from `i` on with this fingerprint, or else the first empty one.
pub data Probe : Type 0 where
  match_at : (i : ℕ) → Probe
  no_match : Option ℕ → Probe

abbrev or_slot : Option ℕ → ℕ → Option ℕ
or_slot none i = some i
or_slot (some j) i = some j

unfoldable pub probe : ℕ → ℕ → Option ℕ → List ℕ → Probe
probe fp i first_empty [] = no_match first_empty
probe fp i first_empty (v ∷ vs) =
    let rest =
      probe fp (i + 1) (if unpack_fp v == empty_fp then or_slot first_empty i else first_empty)
        vs in
    if unpack_fp v == fp then match_at i else rest

-- `size_.fetch_add(1)` and the visited bit of a new entry.
abbrev claimed : Cell → ℕ → Cell
claimed c i = record c { size = (c.size + 1) % 2 ^ 64; meta = clear_visited c.meta i }

-- The body of `upsert` and `upsert_pinned`: the slot that was written, with the word it held before
-- if the fingerprint was there. `tries` counts the retries that are left.
pub data Placed : Type 0 where
  updated : (i old : ℕ) → Placed
  inserted : (i : ℕ) → Placed
  no_slot : Placed
  no_retry : Placed

unfoldable pub place : ℕ → ℕ → ℕ → Cell → Placed × Cell
place zero fp off c = (no_retry, c)
place (suc tries) fp off c = elim (probe fp 0 none c.slots) [
  | match_at i ↦
      let (done, c') = cas_slot c i (slot_at c i) (pack fp off) in
      elim done [
        | true ↦ (updated i (slot_at c i), record c' { meta = set_visited c'.meta i })
        | false ↦ place tries fp off c'
      ]
  | no_match first_empty ↦
      let (target, c1) = elim first_empty as (λ _. Option ℕ × Cell) [
        | some i ↦ (some i, c)
        | none ↦ sieve_evict c
      ] in
      elim target [
        | none ↦ (no_slot, c1)
        | some i ↦
            let (done, c2) = cas_slot c1 i 0 (pack fp off) in
            elim done [ true ↦ (inserted i, claimed c2 i) | false ↦ place tries fp off c2 ]
      ]
]

abbrev pub max_upsert_retries : ℕ
max_upsert_retries = 16

-- `upsert` on its bucket returns the offset that was there, or `kInvalidOffset`.
unfoldable pub upsert_cell : ℕ → ℕ → Cell → ℕ × Cell
upsert_cell fp off c =
    let (placed, c') = place max_upsert_retries fp off c in
    elim placed [ updated i old ↦ (unpack_off old, c') | _ ↦ (invalid_offset32, c') ]

-- `upsert_pinned`, with the slot of the reference that it returns, or `none` for `SlotRef{}`.
unfoldable pub upsert_pinned_cell : ℕ → ℕ → Cell → Option ℕ × Cell
upsert_pinned_cell fp off c =
    let (placed, c') = place max_upsert_retries fp off c in
    elim placed [
      | updated i old ↦ (some i, record c' { meta = force_pinned c'.meta i })
      | inserted i ↦ (some i, record c' { meta = force_pinned c'.meta i })
      | _ ↦ (none, record c' { pin_failures = (c'.pin_failures + 1) % 2 ^ 64 })
    ]

-- The first slot from `i` on with this fingerprint.
unfoldable pub find_fp : ℕ → ℕ → List ℕ → Option ℕ
find_fp fp i [] = none
find_fp fp i (v ∷ vs) =
    let rest = find_fp fp (i + 1) vs in if unpack_fp v == fp then some i else rest

unfoldable pub peek_cell : ℕ → Cell → Option ℕ
peek_cell fp c = elim (find_fp fp 0 c.slots) [
  | some i ↦ some (unpack_off (slot_at c i))
  | none ↦ none
]

unfoldable pub lookup_cell : ℕ → Cell → Option ℕ × Cell
lookup_cell fp c = elim (find_fp fp 0 c.slots) [
  | some i ↦ (some (unpack_off (slot_at c i)), record c { meta = set_visited c.meta i })
  | none ↦ (none, c)
]

-- `remove`; it calls itself where its compare-and-swap fails.
unfoldable pub remove_cell : ℕ → ℕ → Cell → Bool × Cell
remove_cell zero fp c = (false, c)
remove_cell (suc tries) fp c = elim (find_fp fp 0 c.slots) [
  | none ↦ (false, c)
  | some i ↦
      let (done, c') = cas_slot c i (slot_at c i) 0 in
      elim done [
        | true ↦ (
          true,
          record c' { size = (c'.size + 2 ^ 64 - 1) % 2 ^ 64; meta = clear_visited c'.meta i },
        )
        | false ↦ remove_cell tries fp c'
      ]
]
