-- ===== src/Facade/Drives.antt =====
-- The second stage of `apply_batch`: what it does to the states of the hot tier's slots.
use native.Mathlib.Decide.{ℕ_discrete}
use hiom.Prelude.{
  ◌≡◌, refl, true, false, ℕ, Bool, ◌<◌, ◌==◌, ◌&&◌, ◌||◌, if◌then◌else◌, arith, ◌∙◌, sym, List, [],
  ◌∷◌, get_or, length, length-set, get_or-set_self, get_or-set_ne, Bool-cases, inl, inr,
}
use hiom.HotTier.Layout.{
  no_meta, get_state, cas_state, slots_per_bucket, pinned, in_flush, unpinned,
}
use hiom.HotTier.Table.{HotTier, cas_slot_state}
use hiom.HotTier.Transitions.{cas_state-states}
use hiom.CommitBuffer.Queue.{SlotRef, CommitEntry}
use hiom.Facade.Batch.{drive_slot, drive_each}

-- The state of slot `j` of bucket `b`.
abbrev pub state_at : HotTier → ℕ → ℕ → ℕ
state_at t b j = get_state (get_or t.metas b no_meta) j

-- A reference that is valid lies in the table.
abbrev pub Fits : HotTier → SlotRef → Type 0
Fits t ref =
    ref.valid ≡ true → (ref.bucket_idx < length t.metas) × (ref.slot_idx < slots_per_bucket)

abbrev pub refers : SlotRef → ℕ → ℕ → Bool
refers ref b j = ref.valid && (b == ref.bucket_idx && j == ref.slot_idx)

cas_slot_state-states :
    (t : HotTier) (ref : SlotRef) (old new b j : ℕ)
    → Fits t ref
    → old < 4
    → new < 4
    → j < slots_per_bucket
    → ((cas_slot_state t ref old new).0
        ≡ (ref.valid && state_at t ref.bucket_idx ref.slot_idx == old))
      × (state_at (cas_slot_state t ref old new).1 b j
          ≡ (if refers ref b j && state_at t b j == old then new else state_at t b j))
      × (length (cas_slot_state t ref old new).1.metas ≡ length t.metas)
unfolding cas_slot_state
cas_slot_state-states t ref old new b j fits ho hn hj = elim (Bool-cases ref.valid) [
  | inr dead ↦ rw dead (refl, refl, refl)
  | inl live ↦
      let m = get_or t.metas ref.bucket_idx no_meta in
      let (tested, states) = cas_state-states m ref.slot_idx (fits live).1 old new j ho hn hj in
      let m' = (cas_state m ref.slot_idx old new).1 in
      rw live (
        tested,
        elim (ℕ_discrete b ref.bucket_idx) [
          | yes e ↦
              let here = get_or-set_self t.metas ref.bucket_idx m' no_meta (fits live).0 in
              rw (e, here) (states ∙ ground arith)
          | no ne ↦
              let there = get_or-set_ne t.metas ref.bucket_idx b m' no_meta (λ e. ne (sym e)) in
              rw there (ground (arith, ne))
        ],
        length-set t.metas ref.bucket_idx m',
      )
]

Fits-length :
    (t t' : HotTier) (ref : SlotRef) → length t'.metas ≡ length t.metas → Fits t ref → Fits t' ref
Fits-length t t' ref e fits live = let (a, b) = fits live in (omega (arith, a, e), b)

-- Where a slot is the one that the reference names, its state is the referred one.
named :
    (t : HotTier) (ref : SlotRef) (b j : ℕ)
    → refers ref b j ≡ true
    → state_at t b j ≡ state_at t ref.bucket_idx ref.slot_idx
named t ref b j h =
    let eb : b ≡ ref.bucket_idx = ground (arith, h) in
    let ej : j ≡ ref.slot_idx = ground (arith, h) in rw (eb, ej) refl

drive_slot-states :
    (t : HotTier) (ref : SlotRef) (b j : ℕ)
    → Fits t ref
    → j < slots_per_bucket
    → (state_at (drive_slot t ref) b j
        ≡ (if refers ref b j && state_at t b j == pinned then unpinned else state_at t b j))
      × (length (drive_slot t ref).metas ≡ length t.metas)
unfolding drive_slot
drive_slot-states t ref b j fits hj =
    let (own, first, len) =
      cas_slot_state-states t ref pinned in_flush b j fits (omega arith) (omega arith) hj in
    let t' = (cas_slot_state t ref pinned in_flush).1 in
    let (own', second, len') =
      cas_slot_state-states t' ref in_flush unpinned b j (Fits-length t t' ref len fits)
        (omega arith) (omega arith) hj in
    elim (Bool-cases (cas_slot_state t ref pinned in_flush).0) [
      | inl won ↦
          rw (drive_slot, won)
            (ground (arith, second, first, own, won, named t ref b j), len' ∙ len)
      | inr lost ↦ rw (drive_slot, lost) (ground (arith, first, own, lost, named t ref b j), len)
    ]

abbrev pub AllFit : HotTier → List CommitEntry → Type 0
AllFit t [] = Unit {0}
AllFit t (e ∷ es) = Fits t e.hot_slot × AllFit t es

abbrev pub referred : List CommitEntry → ℕ → ℕ → Bool
referred [] b j = false
referred (e ∷ es) b j = refers e.hot_slot b j || referred es b j

AllFit-length :
    (t t' : HotTier) (es : List CommitEntry)
    → length t'.metas ≡ length t.metas
    → AllFit t es
    → AllFit t' es
AllFit-length t t' [] len fit = tt
AllFit-length t t' (e ∷ es) len (fit, fits) =
    (Fits-length t t' e.hot_slot len fit, AllFit-length t t' es len fits)

-- Once a batch is applied, every pinned slot of the hot tier that an entry of the batch refers to is
-- unpinned, and every other slot is in the state it was in: a slot that a flusher owns or that is not
-- of the batch is left alone. The references of the entries lie in the table.
pub drive_each-states :
    (t : HotTier) (es : List CommitEntry) (b j : ℕ)
    → AllFit t es
    → j < slots_per_bucket
    → state_at (drive_each es t) b j
      ≡ (if referred es b j && state_at t b j == pinned then unpinned else state_at t b j)
unfolding drive_each
drive_each-states t [] b j fits hj = refl
drive_each-states t (e ∷ es) b j (fit, fits) hj =
    let (first, len) = drive_slot-states t e.hot_slot b j fit hj in
    let t' = drive_slot t e.hot_slot in
    drive_each-states t' es b j (AllFit-length t t' es len fits) hj ∙ ground (arith, first)
