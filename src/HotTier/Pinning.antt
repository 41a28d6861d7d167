-- ===== src/HotTier/Pinning.antt =====
-- `upsert_pinned` on a bucket, and the packed word.
use hiom.Prelude.{
  ◌≡◌, refl, inl, inr, some, none, ℕ, ◌⊎◌, ◌<◌, Option, ◌∙◌, ap, ◌^◌, ◌≢◌, arith, sym, or_fields,
}
use hiom.HotTier.Layout.{
  BucketMeta, Cell, get_state, unpinned, pinned, slots_per_bucket, pack, unpack_fp, unpack_off,
  force_pinned,
}
use hiom.HotTier.{
  slot_at, Placed, updated, inserted, no_slot, no_retry, place, max_upsert_retries,
  upsert_pinned_cell,
}
use hiom.HotTier.Placement.{CellIsValid, HoldsOnly, PlaceSpec, place-PlaceSpec}
use hiom.HotTier.States.{get_state-force_pinned}

-- The fingerprint and the offset are read back from the packed word.
pub unpack-pack :
    (fp off : ℕ)
    → fp < 2 ^ 32
    → off < 2 ^ 32
    → (unpack_fp (pack fp off) ≡ fp) × (unpack_off (pack fp off) ≡ off)
unfolding pack unpack_fp unpack_off
unpack-pack fp off hf ho =
    (omega (arith, or_fields 32 fp off ho), omega (arith, or_fields 32 fp off ho))

abbrev pub PinSpec : Cell → ℕ → ℕ → Option ℕ → Cell → Type 0
PinSpec c fp off (some i) c' =
    (i < slots_per_bucket)
    × (slot_at c' i ≡ pack fp off)
    × (get_state c'.meta i ≡ pinned)
    × ((unpack_fp (slot_at c i) ≡ fp) ⊎ (slot_at c i ≡ 0) ⊎ (get_state c.meta i ≡ unpinned))
    × ((j : ℕ) → j ≢ i → slot_at c' j ≡ slot_at c j)
    × ((j : ℕ) → j < slots_per_bucket → j ≢ i → get_state c'.meta j ≡ get_state c.meta j)
PinSpec c fp off none c' =
    ((j : ℕ) → j < slots_per_bucket → get_state c.meta j ≢ unpinned)
    × ((j : ℕ) → slot_at c' j ≡ slot_at c j)

same_states : (m m' : BucketMeta) (j : ℕ) → m'.state ≡ m.state → get_state m' j ≡ get_state m j
unfolding get_state
same_states m m' j e = rw e refl

module _ (c : Cell) (fp off : ℕ) where
  forced :
      (i : ℕ) (c' : Cell)
      → HoldsOnly c fp off i c'
      → (unpack_fp (slot_at c i) ≡ fp) ⊎ (slot_at c i ≡ 0) ⊎ (get_state c.meta i ≡ unpinned)
      → PinSpec c fp off (some i) (record c' { meta = force_pinned c'.meta i })
  forced i c' h was = (
    h.in_bucket,
    h.written,
    get_state-force_pinned c'.meta i i h.in_bucket h.in_bucket ∙ ground arith,
    was,
    h.others,
    λ j hj ne.
        get_state-force_pinned c'.meta i j h.in_bucket hj
        ∙ ground (arith, same_states c.meta c'.meta j h.states),
  )

  pinned_by :
      (placed : Placed)
      → (place max_upsert_retries fp off c).0 ≡ placed
      → PlaceSpec c fp off placed (place max_upsert_retries fp off c).1
      → PinSpec c fp off (upsert_pinned_cell fp off c).0 (upsert_pinned_cell fp off c).1
  unfolding upsert_pinned_cell
  pinned_by (updated i old) e (was, same, holds) =
      rw (upsert_pinned_cell, e)
        (forced i (place max_upsert_retries fp off c).1 holds (inl (ap unpack_fp (sym was) ∙ same)))
  pinned_by (inserted i) e (was, _, holds) =
      rw (upsert_pinned_cell, e) (forced i (place max_upsert_retries fp off c).1 holds (inr was))
  pinned_by no_slot e full = rw (upsert_pinned_cell, e) full
  pinned_by no_retry e h = absurd h

  -- Where `upsert_pinned` returns a slot of a well-formed bucket, that slot holds the entry and is
  -- pinned; before, it held the same fingerprint, or was empty, or was neither pinned nor in flush; and
  -- the other slots keep their words and their states. It returns none only where every slot is
  -- pinned or in flush, and then every slot keeps its word.
  pub upsert_pinned_cell-PinSpec :
      CellIsValid c
      → PinSpec c fp off (upsert_pinned_cell fp off c).0 (upsert_pinned_cell fp off c).1
  upsert_pinned_cell-PinSpec v =
      pinned_by (place max_upsert_retries fp off c).0 refl (place-PlaceSpec 15 fp off c v)
