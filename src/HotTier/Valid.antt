-- ===== src/HotTier/Valid.antt =====
-- The shape of the hot tier's buckets, and that `upsert_pinned` keeps it.
use native.Mathlib.Nat.{sub-zero}
use native.Mathlib.Decide.{ℕ_discrete}
use hiom.Prelude.{
  ◌≡◌, refl, suc, inl, inr, some, none, ℕ, [], Option, List, length, ◌<◌, arith, get_or, set, sym,
  ◌∙◌, ap, ◌^◌, get_or-set_self, get_or-set_ne, length-set,
}
use hiom.HotTier.Layout.{Cell, pack, unpack_fp, empty_fp, bucket_index}
use hiom.HotTier.{
  slot_at, sieve_evict, Probe, match_at, no_match, probe, Placed, updated, inserted, no_slot,
  no_retry, place, max_upsert_retries, upsert_pinned_cell,
}
use hiom.HotTier.Eviction.{sieve_evict-Swept}
use hiom.HotTier.Placement.{
  CellIsValid, ProbeSpec, probe-ProbeSpec, place_match, place_empty, place_evict, place_full,
}
use hiom.HotTier.Pinning.{unpack-pack, PinSpec, upsert_pinned_cell-PinSpec}
use hiom.HotTier.Table.{HotTier, cell_at, put_cell, upsert_pinned}

module _ (tries fp off : ℕ) (c : Cell) (v : CellIsValid c) where
  abbrev PlaceWidth : Type 0
  PlaceWidth = length (place (suc tries) fp off c).1.slots ≡ length c.slots

  evicted_width :
      (freed : Option ℕ)
      → (sieve_evict c).0 ≡ freed
      → probe fp 0 none c.slots ≡ no_match none
      → PlaceWidth
  evicted_width none e h = rw (place_full tries fp off c h e) (sieve_evict-Swept c v.width).width
  evicted_width (some i) e h =
      let (hi, free, empty) = (sieve_evict-Swept c v.width).gone i e in
      rw (place_evict tries fp off c i h e empty)
        (length-set (sieve_evict c).1.slots i (pack fp off) ∙ (sieve_evict-Swept c v.width).width)

  probed_width :
      (pr : Probe) → probe fp 0 none c.slots ≡ pr → ProbeSpec fp 0 none c.slots pr → PlaceWidth
  probed_width (match_at i) h spec =
      rw (place_match tries fp off c i h) (length-set c.slots i (pack fp off))
  probed_width (no_match none) h spec = evicted_width (sieve_evict c).0 refl h
  probed_width (no_match (some i)) h (inl no_before, clear) = absurd (ground arith)
  probed_width (no_match (some i)) h (inr (_, hi, zero_fp), clear) =
      rw (place_empty tries fp off c i h (v.blank i (rw (sub-zero i) at zero_fp)))
        (length-set c.slots i (pack fp off))

  placed_width : PlaceWidth
  placed_width = probed_width (probe fp 0 none c.slots) refl (probe-ProbeSpec fp 0 none c.slots)

module _ (fp off : ℕ) (c : Cell) (v : CellIsValid c) where
  abbrev upserted : Cell
  upserted = (upsert_pinned_cell fp off c).1

  pinned_slots :
      (placed : Placed)
      → (place max_upsert_retries fp off c).0 ≡ placed
      → (upsert_pinned_cell fp off c).1.slots ≡ (place max_upsert_retries fp off c).1.slots
  unfolding upsert_pinned_cell
  pinned_slots (updated i old) e = rw (upsert_pinned_cell, e) refl
  pinned_slots (inserted i) e = rw (upsert_pinned_cell, e) refl
  pinned_slots no_slot e = rw (upsert_pinned_cell, e) refl
  pinned_slots no_retry e = rw (upsert_pinned_cell, e) refl

  still_blank :
      (at : Option ℕ)
      → PinSpec c fp off at upserted
      → fp < 2 ^ 32
      → off < 2 ^ 32
      → 0 < fp
      → (j : ℕ) → unpack_fp (slot_at upserted j) ≡ empty_fp
      → slot_at upserted j ≡ 0
  still_blank none (full, same) hf ho real j empty =
      same j ∙ v.blank j (ap unpack_fp (sym (same j)) ∙ empty)
  still_blank (some i) (hi, at, state, was, same, states) hf ho real j empty =
      elim (ℕ_discrete j i) [
        | yes e ↦
            let mine : fp ≡ empty_fp =
              sym (unpack-pack fp off hf ho).0
              ∙ ap unpack_fp (sym at)
              ∙ ap (λ (t : ℕ). unpack_fp (slot_at upserted t)) (sym e)
              ∙ empty in
            absurd (omega (arith, mine, real))
        | no ne ↦ same j ne ∙ v.blank j (ap unpack_fp (sym (same j ne)) ∙ empty)
      ]

  upsert_pinned_cell-CellIsValid : fp < 2 ^ 32 → off < 2 ^ 32 → 0 < fp → CellIsValid upserted
  upsert_pinned_cell-CellIsValid hf ho real = record {
    width =
        ap length (pinned_slots (place max_upsert_retries fp off c).0 refl)
        ∙ placed_width 15 fp off c v
        ∙ v.width;
    blank =
        still_blank (upsert_pinned_cell fp off c).0 (upsert_pinned_cell-PinSpec c fp off v) hf ho
          real;
  }

-- Only the slots of a bucket matter.
of_slots : (c c' : Cell) → c'.slots ≡ c.slots → CellIsValid c → CellIsValid c'
of_slots c c' e v = record {
  width = ap length e ∙ v.width;
  blank = λ j h.
      let at = ap (λ (vs : List ℕ). get_or vs j 0) e in at ∙ v.blank j (ap unpack_fp (sym at) ∙ h);
}

-- Every bucket is well formed, and every fingerprint has one.
pub record HotIsValid (t : HotTier) : Type 0 where
  pub cells : (i : ℕ) → i < length t.buckets → CellIsValid (cell_at t i)
  pub routed : (fp : ℕ) → bucket_index t.num_buckets fp < length t.buckets

-- Only the slots and the number of buckets matter.
pub same_slots-HotIsValid :
    (t t' : HotTier)
    → t'.buckets ≡ t.buckets
    → t'.num_buckets ≡ t.num_buckets
    → HotIsValid t
    → HotIsValid t'
unfolding cell_at
same_slots-HotIsValid t t' e n v = record {
  cells = λ i hi.
      of_slots (cell_at t i) (cell_at t' i) (ap (λ (bs : List (List ℕ)). get_or bs i []) e)
        (v.cells i (omega (arith, hi, ap length e)));
  routed = λ fp. omega (arith, ap length e, ap (λ (t : ℕ). bucket_index t fp) n, v.routed fp);
}

-- `upsert_pinned` keeps the shape of the buckets, whether or not it finds a slot.
pub upsert_pinned-HotIsValid :
    (t : HotTier) (fp off : ℕ)
    → HotIsValid t
    → fp < 2 ^ 32
    → off < 2 ^ 32
    → 0 < fp
    → HotIsValid (upsert_pinned t fp off).1
unfolding upsert_pinned put_cell cell_at
upsert_pinned-HotIsValid t fp off v hf ho real =
    let bidx = bucket_index t.num_buckets fp in
    let c = (upsert_pinned_cell fp off (cell_at t bidx)).1 in
    let new =
      upsert_pinned_cell-CellIsValid fp off (cell_at t bidx) (v.cells bidx (v.routed fp)) hf ho
        real in
    record {
      cells = λ i hi. elim (ℕ_discrete i bidx) [
        | yes e ↦
            of_slots c (cell_at (upsert_pinned t fp off).1 i)
              (ap (λ (k : ℕ). get_or (set t.buckets bidx c.slots) k []) e
                ∙ get_or-set_self t.buckets bidx c.slots [] (v.routed fp))
              new
        | no ne ↦
            of_slots (cell_at t i) (cell_at (upsert_pinned t fp off).1 i)
              (get_or-set_ne t.buckets bidx i c.slots [] (λ q. ne (sym q)))
              (v.cells i (omega (arith, hi, length-set t.buckets bidx c.slots)))
      ];
      routed = λ f. omega (arith, v.routed f, length-set t.buckets bidx c.slots);
    }
