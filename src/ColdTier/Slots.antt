-- ===== src/ColdTier/Slots.antt =====
-- One bucket: what a lookup reads there, and what a store to a slot changes.
use hiom.Prelude.{
  ◌≡◌, refl, suc, zero, true, false, inl, inr, [], ◌∷◌, some, none, ℕ, Option, List, get_or, ◌≤◌,
  set, bit, ◌<◌, ◌+◌, length, ◌-◌, set_bit, if◌then◌else◌, ◌==◌, arith, Bool-cases, bit-set_bit,
  ◌&&◌,
}
use hiom.ColdTier.Layout.{Entry, no_entry, Bucket, slot_published}
use native.Mathlib.Nat.{add-zero}
use hiom.ColdTier.{find_slot}

-- The offset in the first published slot with the key.
unfoldable pub bucket_get : Bucket → ℕ → Option ℕ
bucket_get b key = elim (find_slot b.header key 0 b.entries) [
  | some i ↦ some (get_or b.entries i no_entry).offset
  | none ↦ none
]

-- What `find_slot` finds is published and holds the key.
pub find_slot-some :
    (hdr key i : ℕ) (es : List Entry) (j : ℕ)
    → find_slot hdr key i es ≡ some j
    → (i ≤ j)
      × (j < i + length es)
      × (bit hdr j ≡ true)
      × ((get_or es (j - i) no_entry).key_id ≡ key)
unfolding find_slot slot_published
find_slot-some hdr key i [] j h = absurd (cc)
find_slot-some hdr key i (e ∷ es) j h =
    elim (Bool-cases (slot_published hdr i && e.key_id == key)) [
      | inl here ↦
          let at : j ≡ i = ground arith in
          let first : j - i ≡ 0 = omega arith in
          (omega arith, omega arith, ground arith, rw first (ground arith))
      | inr later ↦
          let (lo, hi, published, same) = find_slot-some hdr key (i + 1) es j (rw later at h) in
          let behind : j - i ≡ suc (j - (i + 1)) = omega arith in
          (omega arith, omega arith, published, rw behind same)
    ]

-- A new offset in a slot moves no key.
pub find_slot-set_offset :
    (hdr key i j : ℕ) (es : List Entry) (off : ℕ)
    → find_slot hdr key i
        (set es j (record { key_id = (get_or es j no_entry).key_id; offset = off }))
      ≡ find_slot hdr key i es
unfolding find_slot slot_published
find_slot-set_offset hdr key i j [] off = refl
find_slot-set_offset hdr key i zero (e ∷ es) off = refl
find_slot-set_offset hdr key i (suc j) (e ∷ es) off =
    rw (find_slot-set_offset hdr key (i + 1) j es off)

shift : (i j : ℕ) → i + suc j ≡ i + 1 + j
shift i j = omega arith

-- A store to an unpublished slot is not seen.
pub find_slot-set_unpublished :
    (hdr key i j : ℕ) (es : List Entry) (e' : Entry)
    → bit hdr (i + j) ≡ false
    → find_slot hdr key i (set es j e') ≡ find_slot hdr key i es
unfolding find_slot slot_published
find_slot-set_unpublished hdr key i j [] e' h = refl
find_slot-set_unpublished hdr key i zero (e ∷ es) e' h =
    let off : bit hdr i ≡ false = rw (add-zero i) at h in ground arith
find_slot-set_unpublished hdr key i (suc j) (e ∷ es) e' h =
    rw (find_slot-set_unpublished hdr key (i + 1) j es e' (rw (shift i j) at h))

-- Another header with the same bits in this range finds the same slot.
pub find_slot_congr :
    (hdr hdr' key i : ℕ) (es : List Entry)
    → ((j : ℕ) → i ≤ j → j < i + length es → bit hdr j ≡ bit hdr' j)
    → find_slot hdr key i es ≡ find_slot hdr' key i es
unfolding find_slot slot_published
find_slot_congr hdr hdr' key i [] h = refl
find_slot_congr hdr hdr' key i (e ∷ es) h = rw (
  h i (omega arith) (omega arith),
  find_slot_congr hdr hdr' key (i + 1) es (λ j lo hi. h j (omega arith) (omega arith)),
)

-- Publishing a slot: its own key is found there if it was found nowhere, and no other key moves.
pub find_slot-publish :
    (hdr key k i j : ℕ) (es : List Entry) (off : ℕ)
    → j < length es
    → bit hdr (i + j) ≡ false
    → find_slot hdr key i es ≡ none
    → find_slot (set_bit hdr (i + j)) k i (set es j (record { key_id = key; offset = off }))
      ≡ (if k == key then some (i + j) else find_slot hdr k i es)
unfolding find_slot slot_published
find_slot-publish hdr key k i j [] off lt free new = absurd (omega arith)
find_slot-publish hdr key k i zero (e ∷ es) off lt free new =
    let off_here : bit hdr i ≡ false = rw (add-zero i) at free in
    let rest =
      find_slot_congr (set_bit hdr (i + 0)) hdr k (i + 1) es
        (λ j lo hi. ground (arith, bit-set_bit hdr (i + 0) j)) in
    rw rest (ground (arith, bit-set_bit hdr (i + 0) i, add-zero i))
find_slot-publish hdr key k i (suc j) (e ∷ es) off lt free new =
    let later : find_slot hdr key (i + 1) es ≡ none = ground arith in
    let ih =
      find_slot-publish hdr key k (i + 1) j es off (omega arith) (rw (shift i j) at free) later in
    let ih' = rw (← shift i j) at ih in rw ih' (ground (arith, bit-set_bit hdr (i + suc j) i))
