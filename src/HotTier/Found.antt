-- ===== src/HotTier/Found.antt =====
-- What a lookup in the hot tier finds after `upsert_pinned`.
use hiom.Prelude.{
  ◌≡◌, refl, suc, zero, true, some, none, ℕ, [], ◌∷◌, Option, List, length, ◌<◌, ◌≢◌, ◌+◌, ◌==◌,
  arith, get_or, set, sym, ◌∙◌, ap, ◌^◌, get_or-set_self, if◌then◌else◌, subst,
}
use hiom.HotTier.Layout.{Cell, slots_per_bucket, pack, unpack_fp, unpack_off, empty_fp}
use hiom.HotTier.{
  slot_at, Probe, match_at, no_match, probe, Placed, updated, inserted, no_slot, no_retry, place,
  max_upsert_retries, find_fp, or_slot, lookup_cell, upsert_pinned_cell,
}
use hiom.HotTier.Placement.{
  CellIsValid, HoldsOnly, PlaceSpec, ProbeSpec, probe-ProbeSpec, place-PlaceSpec, place_match,
}
use hiom.HotTier.Layout.{bucket_index}
use hiom.HotTier.Table.{HotTier, cell_at, put_cell, upsert_pinned, lookup}
use hiom.HotTier.Pinning.{unpack-pack}

-- The first slot with the fingerprint is the one that is found.
find_first :
    (fp i k : ℕ) (vs : List ℕ)
    → 0 < fp
    → unpack_fp (get_or vs k 0) ≡ fp
    → ((j : ℕ) → j < k → unpack_fp (get_or vs j 0) ≢ fp)
    → find_fp fp i vs ≡ some (i + k)
unfolding find_fp unpack_fp
find_first fp i k [] h same first = absurd (ground (arith, same))
find_first fp i zero (v ∷ vs) h same first = ground arith
find_first fp i (suc k) (v ∷ vs) h same first = ground (
  arith,
  first 0 (omega arith),
  find_first fp (i + 1) k vs h same (λ j lt. first (suc j) (omega arith)),
)

-- What a probe that matches says about the slots before.
probe_first :
    (fp i j : ℕ) (before : Option ℕ) (vs : List ℕ)
    → probe fp i before vs ≡ match_at j
    → find_fp fp i vs ≡ some j
unfolding probe find_fp
probe_first fp i j before [] h = absurd (cc)
probe_first fp i j before (v ∷ vs) h = ground (
  arith,
  probe_first fp (i + 1) j (if unpack_fp v == empty_fp then or_slot before i else before) vs,
)

-- A new word with the same fingerprint is found where the old one was.
find_fp-set :
    (fp i k w : ℕ) (vs : List ℕ)
    → find_fp fp i vs ≡ some (i + k)
    → unpack_fp w ≡ fp
    → find_fp fp i (set vs k w) ≡ some (i + k)
unfolding find_fp
find_fp-set fp i k w [] h same = h
find_fp-set fp i zero w (v ∷ vs) h same = ground arith
find_fp-set fp i (suc k) w (v ∷ vs) h same = ground (arith, find_fp-set fp (i + 1) k w vs)

module _ (tries fp off : ℕ) (c : Cell) (v : CellIsValid c) (hf : fp < 2 ^ 32) (ho : off < 2 ^ 32)
    (real : 0 < fp) where
  -- The slot that `place` wrote is the one that a lookup finds.
  abbrev FoundSpec : Placed → Cell → Type 0
  FoundSpec (updated i old) c' = (find_fp fp 0 c'.slots ≡ some i) × (slot_at c' i ≡ pack fp off)
  FoundSpec (inserted i) c' = (find_fp fp 0 c'.slots ≡ some i) × (slot_at c' i ≡ pack fp off)
  FoundSpec no_slot c' = Unit {0}
  FoundSpec no_retry c' = Unit {0}

  alone :
      (i : ℕ) (c' : Cell)
      → ((j : ℕ) → j < slots_per_bucket → unpack_fp (slot_at c j) ≢ fp)
      → HoldsOnly c fp off i c'
      → find_fp fp 0 c'.slots ≡ some i
  alone i c' clear h =
      find_first fp 0 i c'.slots real (ap unpack_fp h.written ∙ (unpack-pack fp off hf ho).0)
        (λ j lt e.
          clear j (omega (arith, lt, h.in_bucket))
            (ap unpack_fp (sym (h.others j (λ q. absurd (omega (arith, q, lt))))) ∙ e))
      ∙ ap some (omega arith)

  matched :
      (i : ℕ)
      → probe fp 0 none c.slots ≡ match_at i
      → FoundSpec (place (suc tries) fp off c).0 (place (suc tries) fp off c).1
  matched i h =
      let first : find_fp fp 0 c.slots ≡ some (0 + i) =
        probe_first fp 0 i none c.slots h ∙ ap some (omega arith) in
      let there = probe-ProbeSpec fp 0 none c.slots in
      rw (place_match tries fp off c i h) (
        find_fp-set fp 0 i (pack fp off) c.slots first (unpack-pack fp off hf ho).0
            ∙ ap some (omega arith),
        get_or-set_self c.slots i (pack fp off) 0
            (omega (arith, (subst (ProbeSpec fp 0 none c.slots) h there).1)),
      )

  unmatched :
      (placed : Placed)
      → (place (suc tries) fp off c).0 ≡ placed
      → ((j : ℕ) → j < slots_per_bucket → unpack_fp (slot_at c j) ≢ fp)
      → PlaceSpec c fp off placed (place (suc tries) fp off c).1
      → FoundSpec placed (place (suc tries) fp off c).1
  unmatched (updated i old) e clear (was, same, h) =
      absurd (clear i h.in_bucket (ap unpack_fp (sym was) ∙ same))
  unmatched (inserted i) e clear (free, _, h) =
      (alone i (place (suc tries) fp off c).1 clear h, h.written)
  unmatched no_slot e clear spec = tt
  unmatched no_retry e clear spec = tt

  by_probe :
      (pr : Probe)
      → probe fp 0 none c.slots ≡ pr
      → ProbeSpec fp 0 none c.slots pr
      → FoundSpec (place (suc tries) fp off c).0 (place (suc tries) fp off c).1
  by_probe (match_at i) h spec = matched i h
  by_probe (no_match none) h (_, clear) =
      unmatched (place (suc tries) fp off c).0 refl (λ j hj. clear j (omega (arith, v.width)))
        (place-PlaceSpec tries fp off c v)
  by_probe (no_match (some i)) h (_, clear) =
      unmatched (place (suc tries) fp off c).0 refl (λ j hj. clear j (omega (arith, v.width)))
        (place-PlaceSpec tries fp off c v)

  place-FoundSpec : FoundSpec (place (suc tries) fp off c).0 (place (suc tries) fp off c).1
  place-FoundSpec = by_probe (probe fp 0 none c.slots) refl (probe-ProbeSpec fp 0 none c.slots)

module _ (fp off : ℕ) (c : Cell) (v : CellIsValid c) (hf : fp < 2 ^ 32) (ho : off < 2 ^ 32)
    (real : 0 < fp) where
  read_back :
      (i : ℕ) (c' : Cell)
      → find_fp fp 0 c'.slots ≡ some i
      → slot_at c' i ≡ pack fp off
      → (lookup_cell fp c').0 ≡ some off
  unfolding lookup_cell
  read_back i c' e at =
      rw (lookup_cell, e) (ap some (ap unpack_off at ∙ (unpack-pack fp off hf ho).1))

  abbrev Found : Option ℕ → Cell → Type 0
  Found (some i) c' = (find_fp fp 0 c'.slots ≡ some i) × (slot_at c' i ≡ pack fp off)
  Found none c' = Unit {0}

  pinned-Found :
      (placed : Placed)
      → (place max_upsert_retries fp off c).0 ≡ placed
      → FoundSpec 15 fp off c v hf ho real placed (place max_upsert_retries fp off c).1
      → Found (upsert_pinned_cell fp off c).0 (upsert_pinned_cell fp off c).1
  unfolding upsert_pinned_cell
  pinned-Found (updated i old) e found = rw (upsert_pinned_cell, e) found
  pinned-Found (inserted i) e found = rw (upsert_pinned_cell, e) found
  pinned-Found no_slot e found = rw (upsert_pinned_cell, e) tt
  pinned-Found no_retry e found = rw (upsert_pinned_cell, e) tt

  upsert_pinned_cell-Found : Found (upsert_pinned_cell fp off c).0 (upsert_pinned_cell fp off c).1
  upsert_pinned_cell-Found =
      pinned-Found (place max_upsert_retries fp off c).0 refl
        (place-FoundSpec 15 fp off c v hf ho real)

module _ (t : HotTier) (fp off : ℕ) where
  abbrev bidx : ℕ
  bidx = bucket_index t.num_buckets fp

  by_ref :
      (at : Option ℕ)
      → (upsert_pinned_cell fp off (cell_at t bidx)).0 ≡ at
      → (hf : fp < 2 ^ 32) (ho : off < 2 ^ 32) (real : 0 < fp) (v : CellIsValid (cell_at t bidx))
      → bidx < length t.buckets
      → Found fp off (cell_at t bidx) v hf ho real at (upsert_pinned_cell fp off (cell_at t bidx)).1
      → (upsert_pinned t fp off).0.valid ≡ true
      → (lookup (upsert_pinned t fp off).1 fp).0 ≡ some off
  unfolding upsert_pinned lookup put_cell cell_at
  by_ref none e hf ho real v hb found ref = absurd (ground (arith, e, ref))
  by_ref (some i) e hf ho real v hb (at, word) ref =
      let c' = (upsert_pinned_cell fp off (cell_at t bidx)).1 in
      let stored = get_or-set_self t.buckets bidx c'.slots [] hb in
      read_back fp off (cell_at t bidx) v hf ho real i (cell_at (upsert_pinned t fp off).1 bidx)
        (ap (find_fp fp 0) stored ∙ at) (ap (λ (vs : List ℕ). get_or vs i 0) stored ∙ word)

  -- Where `upsert_pinned` of an entry into a well-formed bucket returns a valid reference, a lookup of
  -- its fingerprint right after it finds its offset. The fingerprint is not the empty one.
  pub lookup-upsert_pinned :
      CellIsValid (cell_at t bidx)
      → bidx < length t.buckets
      → fp < 2 ^ 32
      → off < 2 ^ 32
      → 0 < fp
      → (upsert_pinned t fp off).0.valid ≡ true
      → (lookup (upsert_pinned t fp off).1 fp).0 ≡ some off
  lookup-upsert_pinned v hb hf ho real ref =
      by_ref (upsert_pinned_cell fp off (cell_at t bidx)).0 refl hf ho real v hb
        (upsert_pinned_cell-Found fp off (cell_at t bidx) v hf ho real) ref
