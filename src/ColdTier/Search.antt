-- ===== src/ColdTier/Search.antt =====
-- The two searches along a chain, and what their answers mean.
use hiom.Prelude.{
  ◌≡◌, refl, suc, zero, false, inl, inr, [], ◌∷◌, some, none, ◌⊎◌, ℕ, List, ◌≤◌, Option, ◌<◌, ◌+◌,
  length, bit, ◌≢◌, ◌∙◌, subst, Bool-cases, ◌==◌, arith, Option-cases,
}
use hiom.ColdTier.Layout.{Entry, Bucket, Sizing, slot_published}
use hiom.ColdTier.{
  bucket_at, SlotRef, Seek, found, missing, seek, find_slot, Scan, hit, miss, scan_slots, or_first,
  entry_at,
}
use hiom.ColdTier.Slots.{bucket_get}
use hiom.ColdTier.Buckets.{get_of_none, get_of_some}
use native.Mathlib.Decide.{ℕ_discrete}
use hiom.ColdTier.Chain.{chain_get_step, chain_get, join, link, after, IsRising, Reaches}

-- A slot that a scan from `i` on found reusable in the bucket at `p`.
abbrev pub IsFree : ℕ → ℕ → ℕ → List Entry → SlotRef → Type 0
IsFree hdr p i es s =
    (s.bucket ≡ p) × (i ≤ s.slot) × (s.slot < i + length es) × (bit hdr s.slot ≡ false)

abbrev pub FreeSpec : ℕ → ℕ → ℕ → List Entry → Option SlotRef → Option SlotRef → Type 0
FreeSpec hdr p i es reusable none = Unit
FreeSpec hdr p i es reusable (some s) = (reusable ≡ some s) ⊎ IsFree hdr p i es s

abbrev pub ScanSpec : ℕ → ℕ → ℕ → ℕ → Option SlotRef → List Entry → Scan → Type 0
ScanSpec hdr key p i reusable es (hit j) = find_slot hdr key i es ≡ some j
ScanSpec hdr key p i reusable es (miss ro) =
    (find_slot hdr key i es ≡ none) × FreeSpec hdr p i es reusable ro

module _ (hdr key p i : ℕ) (r r' : Option SlotRef) (e : Entry) (es : List Entry) where
  widen :
      (sc : Scan)
      → find_slot hdr key i (e ∷ es) ≡ find_slot hdr key (i + 1) es
      → ((s : SlotRef) → r' ≡ some s → (r ≡ some s) ⊎ IsFree hdr p i (e ∷ es) s)
      → ScanSpec hdr key p (i + 1) r' es sc
      → ScanSpec hdr key p i r (e ∷ es) sc
  widen (hit j) same old h = same ∙ h
  widen (miss none) same old h = (same ∙ h.0, tt)
  widen (miss (some s)) same old (clear, inl kept) = (same ∙ clear, old s kept)
  widen (miss (some s)) same old (clear, inr (at, lo, hi, free)) =
      (same ∙ clear, inr (at, omega arith, omega arith, free))

newly :
    (hdr p i : ℕ) (e : Entry) (es : List Entry)
    → bit hdr i ≡ false
    → (reusable : Option SlotRef) (s : SlotRef)
    → or_first reusable (record { bucket = p; slot = i }) ≡ some s
    → (reusable ≡ some s) ⊎ IsFree hdr p i (e ∷ es) s
newly hdr p i e es off (some t) s h = inl h
newly hdr p i e es off none s h =
    let same : record { bucket = p; slot = i } ≡ s = cc in
    inr (subst (IsFree hdr p i (e ∷ es)) same (refl, omega arith, omega arith, off))

pub scan_slots-ScanSpec :
    (hdr key p i : ℕ) (reusable : Option SlotRef) (es : List Entry)
    → ScanSpec hdr key p i reusable es (scan_slots hdr key p i reusable es)
unfolding scan_slots find_slot slot_published
scan_slots-ScanSpec hdr key p i none [] = (refl, tt)
scan_slots-ScanSpec hdr key p i (some s) [] = (refl, inl refl)
scan_slots-ScanSpec hdr key p i reusable (e ∷ es) = elim (Bool-cases (bit hdr i)) [
  | inl on ↦ elim (Bool-cases (e.key_id == key)) [
    | inl same ↦ rw (on, same) (ground arith)
    | inr other ↦
        rw (on, other)
          (widen hdr key p i reusable reusable e es (scan_slots hdr key p (i + 1) reusable es)
            (rw (on, other) refl) (λ s h. inl h)
            (scan_slots-ScanSpec hdr key p (i + 1) reusable es))
  ]
  | inr off ↦
      let here : SlotRef = record { bucket = p; slot = i } in
      let r' = or_first reusable here in
      rw off (
        widen hdr key p i reusable r' e es (scan_slots hdr key p (i + 1) r' es) (rw off refl)
          (newly hdr p i e es off reusable) (scan_slots-ScanSpec hdr key p (i + 1) r' es))
]

eqb_ne : (n : ℕ) → n ≢ 0 → (n == 0) ≡ false
eqb_ne n h = ground arith

module _ (sizing : Sizing) (bs : List Bucket) where
  -- Links stay inside the region.
  abbrev pub IsInside : Type 0
  IsInside = (p : ℕ) → p < length bs → link sizing bs p ≢ 0 → after sizing bs p < length bs

  abbrev pub SeekSpec : ℕ → ℕ → ℕ → Seek → Type 0
  SeekSpec n p key (found s) =
      Reaches sizing n bs p key s.bucket
      × (s.bucket < length bs)
      × (find_slot (bucket_at bs s.bucket).header key 0 (bucket_at bs s.bucket).entries
          ≡ some s.slot)
      × (chain_get sizing n bs p key ≡ some (entry_at bs s).offset)
  SeekSpec n p key missing = chain_get sizing n bs p key ≡ none
  SeekSpec n p key Seek.out_of_fuel = p + n < length bs

  module _ (up : IsRising sizing bs) (inside : IsInside) where
    pub step :
        (n p key : ℕ)
        → chain_get sizing (suc n) bs p key
          ≡ join
              (bucket_get (bucket_at bs p) key)
              (link sizing bs p)
              (chain_get sizing n bs (after sizing bs p) key)
    step n p key = chain_get_step sizing n bs p key refl

    pub passed :
        (n p key : ℕ)
        → bucket_get (bucket_at bs p) key ≡ none
        → link sizing bs p ≢ 0
        → chain_get sizing (suc n) bs p key ≡ chain_get sizing n bs (after sizing bs p) key
    passed n p key clear more = step n p key ∙ rw clear (ground arith)

    behind :
        (n p key : ℕ) (sk : Seek)
        → bucket_get (bucket_at bs p) key ≡ none
        → link sizing bs p ≢ 0
        → SeekSpec n (after sizing bs p) key sk
        → SeekSpec (suc n) p key sk
    behind n p key (found s) clear more (r, lt, at, value) =
        (inr (clear, more, r), lt, at, passed n p key clear more ∙ value)
    behind n p key missing clear more h = passed n p key clear more ∙ h
    behind n p key Seek.out_of_fuel clear more h = omega (arith, up p more)

    seek_hit :
        (n p key i : ℕ)
        → find_slot (bucket_at bs p).header key 0 (bucket_at bs p).entries ≡ some i
        → seek (suc n) sizing bs p key ≡ found (record { bucket = p; slot = i })
    unfolding seek
    seek_hit n p key i h = ground arith

    seek_end :
        (n p key : ℕ)
        → find_slot (bucket_at bs p).header key 0 (bucket_at bs p).entries ≡ none
        → link sizing bs p ≡ 0
        → seek (suc n) sizing bs p key ≡ missing
    unfolding seek
    seek_end n p key h last = ground arith

    seek_on :
        (n p key : ℕ)
        → find_slot (bucket_at bs p).header key 0 (bucket_at bs p).entries ≡ none
        → link sizing bs p ≢ 0
        → seek (suc n) sizing bs p key ≡ seek n sizing bs (after sizing bs p) key
    unfolding seek
    seek_on n p key h more = ground arith

    -- A search finds the slot that a lookup reads, or nothing where a lookup reads nothing; with as
    -- much fuel as there are buckets behind `p` it ends.
    pub seek-SeekSpec : (n p key : ℕ) → p < length bs → SeekSpec n p key (seek n sizing bs p key)
    unfolding seek
    seek-SeekSpec zero p key lt = omega arith
    seek-SeekSpec (suc n) p key lt =
        let b = bucket_at bs p in
        elim (Option-cases (find_slot b.header key 0 b.entries)) [
          | inr (i, at) ↦
              rw (seek_hit n p key i at)
                (inl refl, lt, at, step n p key ∙ rw (get_of_some b key i at) refl)
          | inl nowhere ↦
              let clear = get_of_none b key nowhere in
              elim (ℕ_discrete (link sizing bs p) 0) [
                | yes last ↦
                    rw (seek_end n p key nowhere last) (step n p key ∙ rw (clear, last) refl)
                | no more ↦ rw (seek_on n p key nowhere more) (
                    behind n p key (seek n sizing bs (after sizing bs p) key) clear more
                      (seek-SeekSpec n (after sizing bs p) key (inside p lt more)))
              ]
        ]
