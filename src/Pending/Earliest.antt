-- ===== src/Pending/Earliest.antt =====
-- The scan of `earliest_pending_block`.
use native.Mathlib.Decide.{ℕ_discrete}
use hiom.Prelude.{
  ◌≡◌, refl, suc, zero, inl, inr, ℕ, ◌⊎◌, ◌<◌, ◌≢◌, ◌≤◌, arith, ap, Bool-cases, ◌==◌, ltb,
}
use hiom.Pending.{
  window, PendingBlocks, block_of, count_of, slot_of, no_active_block, scan, earliest_pending_block,
}
use hiom.Pending.Counts.{IsValid, count_at, holder, slot_of-lt}

scan_bound :
    (r : PendingBlocks) (n i : ℕ) → i < n → count_of (r.slot i) ≢ 0 → scan n r ≤ block_of (r.slot i)
unfolding scan
scan_bound r zero i h busy = absurd (omega arith)
scan_bound r (suc n) i h busy = elim (ℕ_discrete i n) [
  | yes e ↦ ground (arith, ap r.slot e)
  | no ne ↦ ground (arith, scan_bound r n i (omega arith) busy)
]

scan_attained :
    (r : PendingBlocks) (n : ℕ)
    → (scan n r ≡ no_active_block)
      ⊎ ((i : ℕ) × (i < n) × (count_of (r.slot i) ≢ 0) × (block_of (r.slot i) ≡ scan n r))
unfolding scan
scan_attained r zero = inl refl
scan_attained r (suc n) = elim (Bool-cases (count_of (r.slot n) == 0)) [
  | inl free ↦ rw free (wider (scan_attained r n))
  | inr busy ↦ elim (Bool-cases (ltb (block_of (r.slot n)) (scan n r))) [
    | inl lower ↦ rw (busy, lower) (inr (n, omega arith, ground arith, refl))
    | inr higher ↦ rw (busy, higher) (wider (scan_attained r n))
  ]
]
  where
    wider :
        (scan n r ≡ no_active_block)
          ⊎ ((i : ℕ) × (i < n) × (count_of (r.slot i) ≢ 0) × (block_of (r.slot i) ≡ scan n r))
        → (scan n r ≡ no_active_block)
          ⊎ ((i : ℕ) × (i < suc n) × (count_of (r.slot i) ≢ 0) × (block_of (r.slot i) ≡ scan n r))
    wider (inl e) = inl e
    wider (inr (i, lt, busy, at)) = inr (i, omega arith, busy, at)

-- Every pending block.
busy_slot :
    (r : PendingBlocks) (c : ℕ)
    → 0 < count_at r c
    → (count_of (r.slot (slot_of c)) ≢ 0) × (block_of (r.slot (slot_of c)) ≡ c)
unfolding count_at
busy_slot r c h = (ground arith, ground arith)

pending_block :
    (r : PendingBlocks) (i : ℕ)
    → IsValid r
    → count_of (r.slot i) ≢ 0
    → 0 < count_at r (block_of (r.slot i))
pending_block r i v busy = elim (v.place i) [
  | inl free ↦ absurd (busy free)
  | inr at ↦ omega (arith, holder r (block_of (r.slot i)) (ap r.slot at) refl, busy)
]

-- In a well-formed ring no block with pending entries lies below what `earliest_pending_block`
-- returns, and that is a block with pending entries or the value that stands for none.
pub earliest_pending_block-least :
    (r : PendingBlocks) (c : ℕ)
    → IsValid r
    → 0 < count_at r c
    → (earliest_pending_block r ≤ c)
      × ((earliest_pending_block r ≡ no_active_block) ⊎ (0 < count_at r (earliest_pending_block r)))
unfolding earliest_pending_block
earliest_pending_block-least r c v h =
    let (busy, at) = busy_slot r c h in
    (
      omega (arith, scan_bound r window (slot_of c) (slot_of-lt c) busy, at),
      elim (scan_attained r window) [
        | inl nothing ↦ inl nothing
        | inr (i, lt, busy', least) ↦
            inr (omega (arith, ap (count_at r) least, pending_block r i v busy'))
      ],
    )
