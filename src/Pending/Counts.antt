-- ===== src/Pending/Counts.antt =====
-- The ring counts the pending entries of each block.
use native.Mathlib.Decide.{ℕ_discrete}
use hiom.Prelude.{
  ◌≡◌, refl, true, false, inl, inr, ℕ, ◌⊎◌, ◌<◌, if◌then◌else◌, ◌%◌, ◌*◌, ◌+◌, ◌≢◌, ◌^◌, ◌==◌,
  and_mask, or_fields, ◌≤◌, arith, sym, ◌∙◌, Bool-cases, ltb, ap, ◌-◌,
}
use hiom.Pending.{
  window, count_mask, PendingBlocks, pack, block_of, count_of, slot_of, Outcome, done, stalled,
  aborted, store, pending_register, pending_retire,
}

-- A slot that counts entries is a 64-bit word and stands where its block belongs.
pub record IsValid (r : PendingBlocks) : Type 0 where
  pub word : (i : ℕ) → r.slot i < 2 ^ 64
  pub place : (i : ℕ) → (count_of (r.slot i) ≡ 0) ⊎ (slot_of (block_of (r.slot i)) ≡ i)

-- How many entries of block `b` are pending.
unfoldable pub count_at : PendingBlocks → ℕ → ℕ
count_at r b = if block_of (r.slot (slot_of b)) == b then count_of (r.slot (slot_of b)) else 0

pub slot_of-mod : (b : ℕ) → slot_of b ≡ b % 65536
unfolding slot_of window
slot_of-mod b = and_mask 16 b

pub slot_of-lt : (b : ℕ) → slot_of b < window
unfolding window
slot_of-lt b = omega (arith, slot_of-mod b)

count_of-mod : (s : ℕ) → count_of s ≡ s % 2 ^ 32
unfolding count_of
count_of-mod s = and_mask 32 s

pack-sum : (b : ℕ) → pack b 1 ≡ b * 2 ^ 32 + 1
unfolding pack
pack-sum b = or_fields 32 b 1 (omega arith)

-- The block that a slot belongs to has that slot's count.
pub holder :
    (r : PendingBlocks) (c : ℕ) {s : ℕ}
    → r.slot (slot_of c) ≡ s
    → block_of s ≡ c
    → count_at r c ≡ count_of s
unfolding count_at
holder r c e at = rw e (ground (arith, at))

-- One entry of block `b` more is pending in the ring.
abbrev pub OneMore : PendingBlocks → ℕ → PendingBlocks → Type 0
OneMore r b r' = IsValid r' × ((c : ℕ) → count_at r' c ≡ count_at r c + (if c == b then 1 else 0))

abbrev pub RegisterSpec : PendingBlocks → ℕ → Outcome → Type 0
RegisterSpec r b (done r') = OneMore r b r'
RegisterSpec r b stalled = (c : ℕ) × (slot_of c ≡ slot_of b) × (c ≢ b) × (0 < count_at r c)
RegisterSpec r b aborted = (2 ^ 32 ≤ b) ⊎ (count_at r b ≡ count_mask)

abbrev pub RetireSpec : PendingBlocks → ℕ → Outcome → Type 0
RetireSpec r b (done r') =
    IsValid r' × ((c : ℕ) → count_at r' c + (if c == b then 1 else 0) ≡ count_at r c)
RetireSpec r b stalled = ⊥
RetireSpec r b aborted = count_at r b ≡ 0

module _ (r : PendingBlocks) (v : IsValid r) (b : ℕ) where
  abbrev cur : ℕ
  cur = r.slot (slot_of b)

  stored-IsValid :
      (s gen : ℕ)
      → s < 2 ^ 64
      → block_of s ≡ b
      → IsValid (record (store r (slot_of b) s) { retire_gen = gen })
  stored-IsValid s gen small at = record {
    word = λ i. ground (arith, v.word i);
    place = λ i. elim (ℕ_discrete i (slot_of b)) [
      | yes e ↦ let here : (i == slot_of b) ≡ true = ground arith in rw (here, at) (inr (sym e))
      | no ne ↦ let there : (i == slot_of b) ≡ false = ground arith in rw there (v.place i)
    ];
  }

  stored_count :
      (s gen c : ℕ)
      → block_of s ≡ b
      → count_at (record (store r (slot_of b) s) { retire_gen = gen }) c
        ≡ (if c == b then count_of s else if slot_of c == slot_of b then 0 else count_at r c)
  unfolding count_at
  stored_count s gen c at = elim (ℕ_discrete c b) [
    | yes e ↦ rw e (ground (arith, at))
    | no ne ↦ ground (arith, at)
  ]

  -- Another block in the same slot counts nothing where the slot is free or belongs to `b`.
  alone :
      (c : ℕ)
      → (count_of cur ≡ 0) ⊎ (block_of cur ≡ b)
      → c ≢ b
      → slot_of c ≡ slot_of b
      → count_at r c ≡ 0
  unfolding count_at
  alone c (inl free) ne same = rw same (ground (arith, free))
  alone c (inr own) ne same = rw same (ground (arith, own))

  own_count : block_of cur ≡ b → count_at r b ≡ count_of cur
  unfolding count_at
  own_count own = ground (arith, own)

  free_count : count_of cur ≡ 0 → count_at r b ≡ 0
  unfolding count_at
  free_count free = ground (arith, free)

  claimed : count_of cur ≡ 0 → b < 2 ^ 32 → OneMore r b (store r (slot_of b) (pack b 1))
  unfolding block_of
  claimed free small =
      let at : block_of (pack b 1) ≡ b = omega (arith, pack-sum b) in
      let one : count_of (pack b 1) ≡ 1 = omega (arith, pack-sum b, count_of-mod (pack b 1)) in
      (
        stored-IsValid (pack b 1) r.retire_gen (omega (arith, pack-sum b)) at,
        λ c. stored_count (pack b 1) r.retire_gen c at ∙ elim (ℕ_discrete c b) [
          | yes e ↦ rw e (ground (arith, one, free_count free))
          | no ne ↦ ground (arith, alone c (inl free) ne)
        ],
      )

  counted :
      block_of cur ≡ b → count_of cur ≢ count_mask → OneMore r b (store r (slot_of b) (cur + 1))
  unfolding block_of
  counted own room =
      let next : block_of (cur + 1) ≡ b = omega (arith, own, count_of-mod cur) in
      let more : count_of (cur + 1) ≡ count_of cur + 1 =
        omega (arith, count_of-mod cur, count_of-mod (cur + 1)) in
      (
        stored-IsValid (cur + 1) r.retire_gen (omega (arith, v.word (slot_of b), count_of-mod cur))
            next,
        λ c. stored_count (cur + 1) r.retire_gen c next ∙ elim (ℕ_discrete c b) [
          | yes e ↦ rw e (ground (arith, more, own_count own))
          | no ne ↦ ground (arith, alone c (inr own) ne)
        ],
      )

  blocked :
      count_of cur ≢ 0
      → block_of cur ≢ b
      → (c : ℕ) × (slot_of c ≡ slot_of b) × (c ≢ b) × (0 < count_at r c)
  blocked busy foreign = elim (v.place (slot_of b)) [
    | inl free ↦ absurd (busy free)
    | inr same ↦ (block_of cur, same, foreign, holds same)
  ]
    where
      holds : slot_of (block_of cur) ≡ slot_of b → 0 < count_at r (block_of cur)
      holds same = omega (arith, holder r (block_of cur) (ap r.slot same) refl, busy)

  -- `pending_register` adds one pending entry of its block and no other; it is to wait exactly where
  -- another block with pending entries has the slot; and it aborts only on a block past 32 bits or a
  -- count that is full.
  pub pending_register-RegisterSpec : RegisterSpec r b (pending_register b r)
  unfolding pending_register
  pending_register-RegisterSpec = elim (Bool-cases (ltb count_mask b)) [
    | inl wide ↦ rw wide (inl (ground arith))
    | inr fits ↦ elim (ℕ_discrete (count_of cur) 0) [
      | yes free ↦
          let test : (count_of cur == 0) ≡ true = ground arith in
          rw (fits, test) (claimed free (ground arith))
      | no busy ↦
          let test : (count_of cur == 0) ≡ false = ground arith in
          elim (ℕ_discrete (block_of cur) b) [
            | yes own ↦
                let mine : (block_of cur == b) ≡ true = ground arith in
                elim (ℕ_discrete (count_of cur) count_mask) [
                  | yes full ↦
                      let top : (count_of cur == count_mask) ≡ true = ground arith in
                      rw (fits, test, mine, top) (inr (own_count own ∙ full))
                  | no room ↦
                      let top : (count_of cur == count_mask) ≡ false = ground arith in
                      rw (fits, test, mine, top) (counted own room)
                ]
            | no foreign ↦
                let other : (block_of cur == b) ≡ false = ground arith in
                rw (fits, test, other) (blocked busy foreign)
          ]
    ]
  ]

  released :
      (gen : ℕ)
      → block_of cur ≡ b
      → count_of cur ≢ 0
      → IsValid (record (store r (slot_of b) (cur - 1)) { retire_gen = gen })
        × ((c : ℕ)
            → count_at (record (store r (slot_of b) (cur - 1)) { retire_gen = gen }) c
                + (if c == b then 1 else 0)
              ≡ count_at r c)
  unfolding block_of
  released gen own busy =
      let prev : block_of (cur - 1) ≡ b = omega (arith, own, count_of-mod cur) in
      let less : count_of (cur - 1) + 1 ≡ count_of cur =
        omega (arith, count_of-mod cur, count_of-mod (cur - 1)) in
      (
        stored-IsValid (cur - 1) gen (omega (arith, v.word (slot_of b))) prev,
        λ c.
            ap (λ (n : ℕ). n + (if c == b then 1 else 0)) (stored_count (cur - 1) gen c prev)
            ∙ elim (ℕ_discrete c b) [
              | yes e ↦ rw e (ground (arith, less, own_count own))
              | no ne ↦ ground (arith, alone c (inr own) ne)
            ],
      )

  -- `pending_retire` takes one pending entry of its block away and no other, never waits, and aborts
  -- only where no entry of the block is pending.
  pub pending_retire-RetireSpec : RetireSpec r b (pending_retire b r)
  unfolding pending_retire count_at
  pending_retire-RetireSpec = elim (ℕ_discrete (block_of cur) b) [
    | no foreign ↦ ground arith
    | yes own ↦ elim (ℕ_discrete (count_of cur) 0) [
      | yes free ↦ ground arith
      | no busy ↦
          let mine : (block_of cur == b) ≡ true = ground arith in
          let test : (count_of cur == 0) ≡ false = ground arith in
          elim (Bool-cases (count_of (cur - 1) == 0)) [
            | inl last ↦ rw (mine, test, last) (released ((r.retire_gen + 1) % 2 ^ 64) own busy)
            | inr more ↦ rw (mine, test, more) (released r.retire_gen own busy)
          ]
    ]
  ]
