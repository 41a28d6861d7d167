-- ===== src/Facade/Winner.antt =====
-- include/viper/hiom/hiom.hpp: the first stage of `apply_batch`, which picks the entries of a sorted
-- batch that reach the cold tier. `slot_key` is `hiom_get_slot_key` of include/viper/viper.hpp with
-- `key_id_of` applied to the key: what key a slot of the store holds, if it is in use.
use hiom.Prelude.{
  ℕ, ◌==◌, ◌&&◌, not, if◌then◌else◌, Bool, true, false, Option, some, none, List, [], ◌∷◌, ◌++◌,
}
use hiom.Codec.{decode, key_value_offset, BlockBaseMap}
use hiom.CommitBuffer.Queue.{CommitEntry, SlotRef, Op, put, remove}
use hiom.HotTier.Layout.{empty_fp}
use hiom.HotTier.Table.{HotTier, read_slot, no_ref}

abbrev pub is_put : Op → Bool
is_put put = true
is_put remove = false

-- The distinct keys of a run, in the order of their first entries.
unfoldable pub seen_in : ℕ → List ℕ → Bool
seen_in kid [] = false
seen_in kid (s ∷ ss) = let rest = seen_in kid ss in if s == kid then true else rest

unfoldable pub kids_in_run : List ℕ → List CommitEntry → List ℕ
unfolding seen_in
kids_in_run kids [] = kids
kids_in_run kids (e ∷ es) =
    kids_in_run (if seen_in e.key_id kids then kids else kids ++ e.key_id ∷ []) es

-- Step 1: the slot of the hot tier that the key's puts share.
unfoldable pub hot_slot_of : ℕ → List CommitEntry → SlotRef
hot_slot_of kid [] = no_ref
hot_slot_of kid (e ∷ es) =
    let rest = hot_slot_of kid es in
    if not (e.key_id == kid)
    then rest
    else if is_put e.op && e.hot_slot.valid
    then e.hot_slot
    else rest

-- The offset that the hot tier has there.
unfoldable pub canonical_off : HotTier → BlockBaseMap → SlotRef → Option ℕ
canonical_off hot base_map ref =
    let view = read_slot hot ref in
    let d = decode view.packed_off 0 base_map in
    if not ref.valid
    then none
    else if view.fp == empty_fp
    then none
    else some (key_value_offset d.block_number d.page_number d.data_offset)

module _ (slot_key : ℕ → Option ℕ) where
  -- The slot is in use and holds this key.
  unfoldable pub holds : ℕ → ℕ → Bool
  holds off kid = elim (slot_key off) [ some kid' ↦ kid' == kid | none ↦ false ]

  -- Step 2: the first put of the key at this offset.
  unfoldable pub put_at : ℕ → ℕ → List CommitEntry → Option CommitEntry
  put_at kid canonical [] = none
  put_at kid canonical (e ∷ es) =
      let rest = put_at kid canonical es in
      if not (e.key_id == kid)
      then rest
      else if not (is_put e.op)
      then rest
      else if not (e.off == canonical)
      then rest
      else if holds e.off kid
      then some e
      else rest

  -- Step 3: the last remove of the key, or put of it whose slot still holds it.
  unfoldable pub last_alive : ℕ → List CommitEntry → Option CommitEntry
  last_alive kid [] = none
  last_alive kid (e ∷ es) =
      let this =
        if not (e.key_id == kid)
        then none
        else if not (is_put e.op)
        then some e
        else if holds e.off kid
        then some e
        else none in
      elim (last_alive kid es) [ some w ↦ some w | none ↦ this ]

  module _ (hot : HotTier) (base_map : BlockBaseMap) where
    unfoldable pub winner : ℕ → List CommitEntry → Option CommitEntry
    winner kid run =
        let by_hot_tier : Option CommitEntry =
          elim (canonical_off hot base_map (hot_slot_of kid run)) [
            | some canonical ↦ put_at kid canonical run
            | none ↦ none
          ] in
        elim by_hot_tier [ some w ↦ some w | none ↦ last_alive kid run ]

    -- The winners of one run, key by key.
    unfoldable pub pick_each : List CommitEntry → List ℕ → List CommitEntry
    pick_each run [] = []
    pick_each run (kid ∷ kids) =
        let rest = pick_each run kids in elim (winner kid run) [ some w ↦ w ∷ rest | none ↦ rest ]

    -- The loop over the batch: `run` holds the entries from `i` on that were passed with `fp64`.
    unfoldable pub winners_from : ℕ → List CommitEntry → List CommitEntry → List CommitEntry
    unfolding pick_each kids_in_run
    winners_from fp64 run [] = pick_each run (kids_in_run [] run)
    winners_from fp64 run (e ∷ es) =
        let on = winners_from fp64 (run ++ e ∷ []) es in
        let next = winners_from e.fp64 (e ∷ []) es in
        if e.fp64 == fp64 then on else pick_each run (kids_in_run [] run) ++ next

    unfoldable pub winners : List CommitEntry → List CommitEntry
    unfolding winners_from
    winners [] = []
    winners (e ∷ es) = winners_from e.fp64 (e ∷ []) es
