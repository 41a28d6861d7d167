-- ===== src/ColdTier/Buckets.antt =====
-- One bucket: what its lookups read after each of the stores that the cold tier makes.
use native.Mathlib.Nat.{sub-zero}
use hiom.Prelude.{
  ◌≡◌, refl, true, false, inl, inr, [], ◌∷◌, some, none, ℕ, ◌<◌, set, if◌then◌else◌, length, get_or,
  ◌==◌, bit, Option-cases, arith, ◌∙◌, get_or-set_self, ◌≢◌, set_bit, sym, List, get_or-set_ne, ap,
  bit-zero, ◌+◌, Bool-cases,
}
use native.Mathlib.Nat.{zero-add}
use hiom.ColdTier.Layout.{Entry, no_entry, Bucket, slot_published, entries_per_bucket}
use hiom.ColdTier.{find_slot}
use hiom.ColdTier.Slots.{
  bucket_get, find_slot-some, find_slot-set_offset, find_slot-set_unpublished, find_slot_congr,
  find_slot-publish,
}

pub get_of_some :
    (b : Bucket) (key i : ℕ)
    → find_slot b.header key 0 b.entries ≡ some i
    → bucket_get b key ≡ some (get_or b.entries i no_entry).offset
unfolding bucket_get
get_of_some b key i h = rw (h, bucket_get)

pub get_of_none :
    (b : Bucket) (key : ℕ) → find_slot b.header key 0 b.entries ≡ none → bucket_get b key ≡ none
unfolding bucket_get
get_of_none b key h = rw (h, bucket_get)

pub none_of_get :
    (b : Bucket) (key : ℕ) → bucket_get b key ≡ none → find_slot b.header key 0 b.entries ≡ none
unfolding bucket_get
none_of_get b key h = ground arith

key_at :
    (b : Bucket) (key i : ℕ)
    → find_slot b.header key 0 b.entries ≡ some i
    → (i < length b.entries)
      × (bit b.header i ≡ true)
      × ((get_or b.entries i no_entry).key_id ≡ key)
key_at b key i h =
    let (_, lt, published, same) = find_slot-some b.header key 0 b.entries i h in
    (omega arith, published, rw (sub-zero i) at same)

-- The bucket after the offset of slot `i` was stored.
abbrev pub with_offset : Bucket → ℕ → ℕ → Bucket
with_offset b i off = record b {
  entries =
      set b.entries i (record { key_id = (get_or b.entries i no_entry).key_id; offset = off });
}

pub get-with_offset :
    (b : Bucket) (key i off k : ℕ)
    → find_slot b.header key 0 b.entries ≡ some i
    → bucket_get (with_offset b i off) k ≡ (if k == key then some off else bucket_get b k)
get-with_offset b key i off k h =
    let (lt, _, same) = key_at b key i h in
    let moved = find_slot-set_offset b.header k 0 i b.entries off in
    elim (Option-cases (find_slot b.header k 0 b.entries)) [
      | inl nowhere ↦
          get_of_none (with_offset b i off) k (moved ∙ nowhere)
          ∙ ground (arith, get_of_none b k nowhere)
      | inr (j, there) ↦
          get_of_some (with_offset b i off) k j (moved ∙ there)
          ∙ ground (
            arith,
            key_at b k j there,
            get_or-set_self b.entries i
                (record { key_id = (get_or b.entries i no_entry).key_id; offset = off }) no_entry,
            get_or-set_ne b.entries i j
                (record { key_id = (get_or b.entries i no_entry).key_id; offset = off }) no_entry,
            get_of_some b k j there,
          )
    ]

-- An unpublished slot may hold anything.
pub get-residue :
    (b : Bucket) (i : ℕ) (e : Entry) (k : ℕ)
    → bit b.header i ≡ false
    → bucket_get (record b { entries = set b.entries i e }) k ≡ bucket_get b k
get-residue b i e k free =
    let b' : Bucket = record b { entries = set b.entries i e } in
    let moved = find_slot-set_unpublished b.header k 0 i b.entries e (rw zero-add free) in
    elim (Option-cases (find_slot b.header k 0 b.entries)) [
      | inl nowhere ↦ get_of_none b' k (moved ∙ nowhere) ∙ sym (get_of_none b k nowhere)
      | inr (j, there) ↦
          get_of_some b' k j (moved ∙ there)
          ∙ ap (λ (t : Entry). some t.offset)
              (get_or-set_ne b.entries i j e no_entry (apart j (key_at b k j there).1))
          ∙ sym (get_of_some b k j there)
    ]
  where
    apart : (j : ℕ) → bit b.header j ≡ true → i ≢ j
    apart j on e = ground arith

-- The bucket after slot `i` was filled and published.
abbrev pub published : Bucket → ℕ → ℕ → ℕ → Bucket
published b i key off = record {
  header = set_bit b.header i;
  entries = set b.entries i (record { key_id = key; offset = off });
}

pub get-published :
    (b : Bucket) (i key off k : ℕ)
    → i < length b.entries
    → bit b.header i ≡ false
    → bucket_get b key ≡ none
    → bucket_get (published b i key off) k ≡ (if k == key then some off else bucket_get b k)
get-published b i key off k lt free new =
    let b' = published b i key off in
    let e : Entry = record { key_id = key; offset = off } in
    let moved = rw zero-add at (
      find_slot-publish b.header key k 0 i b.entries off lt (rw zero-add free)
        (none_of_get b key new)) in
    elim (Bool-cases (k == key)) [
      | inl own ↦
          get_of_some b' k i (rw own at moved)
          ∙ ap (λ (t : Entry). some t.offset) (get_or-set_self b.entries i e no_entry lt)
          ∙ rw own refl
      | inr other ↦ elim (Option-cases (find_slot b.header k 0 b.entries)) [
        | inl nowhere ↦
            get_of_none b' k (rw other at moved ∙ nowhere) ∙ ground (arith, get_of_none b k nowhere)
        | inr (j, there) ↦
            get_of_some b' k j (rw other at moved ∙ there)
            ∙ ap (λ (t : Entry). some t.offset)
                (get_or-set_ne b.entries i j e no_entry (ground (arith, key_at b k j there)))
            ∙ ground (arith, get_of_some b k j there)
      ]
    ]

-- Another header with the same occupancy bits reads the same.
pub get_congr :
    (b : Bucket) (hdr k : ℕ)
    → length b.entries ≡ entries_per_bucket
    → ((j : ℕ) → j < entries_per_bucket → bit hdr j ≡ bit b.header j)
    → bucket_get (record b { header = hdr }) k ≡ bucket_get b k
get_congr b hdr k seven same =
    let b' : Bucket = record b { header = hdr } in
    let moved = find_slot_congr hdr b.header k 0 b.entries (λ j _ hi. same j (omega arith)) in
    elim (Option-cases (find_slot b.header k 0 b.entries)) [
      | inl nowhere ↦ get_of_none b' k (moved ∙ nowhere) ∙ sym (get_of_none b k nowhere)
      | inr (j, there) ↦ get_of_some b' k j (moved ∙ there) ∙ sym (get_of_some b k j there)
    ]

find_slot-blank : (key i : ℕ) (es : List Entry) → find_slot 0 key i es ≡ none
unfolding find_slot slot_published
find_slot-blank key i [] = refl
find_slot-blank key i (e ∷ es) = rw (bit-zero i) (find_slot-blank key (i + 1) es)

-- A fresh overflow bucket, whatever its slots held.
pub get-fresh :
    (es : List Entry) (key off k : ℕ)
    → 0 < length es
    → bucket_get
        (record { header = 1; entries = set es 0 (record { key_id = key; offset = off }) })
        k
      ≡ (if k == key then some off else none)
unfolding set_bit
get-fresh es key off k lt =
    let blank : Bucket = record { header = 0; entries = es } in
    let nothing = λ (q : ℕ). get_of_none blank q (find_slot-blank q 0 es) in
    get-published blank 0 key off k lt (bit-zero 0) (nothing key) ∙ ground (arith, nothing k)
