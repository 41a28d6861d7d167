-- ===== src/ColdTier/Chain.antt =====
-- Along a chain of buckets: what a lookup reads, and what replacing one bucket changes.
use hiom.Prelude.{
  ◌≡◌, refl, suc, zero, inl, inr, some, none, ◌⊎◌, List, ℕ, Option, ◌≢◌, ◌≤◌, set, ◌<◌, ◌==◌, arith,
  get_or-set_ne, length, get_or-set_self, if◌then◌else◌, sym, ap, ◌∙◌, subst, ◌+◌,
}
use native.Mathlib.Decide.{ℕ_discrete}
use hiom.ColdTier.Layout.{Bucket, Sizing, next_of, overflow_bucket_of}
use hiom.ColdTier.{bucket_at, zero_bucket}
use hiom.ColdTier.Slots.{bucket_get}

-- The first bucket's answer, or that of the rest of the chain, if there is a rest.
abbrev pub join : Option ℕ → ℕ → Option ℕ → Option ℕ
join (some off) next rest = some off
join none next rest = if next == 0 then none else rest

join_congr :
    (o : Option ℕ) (next : ℕ) {r r' : Option ℕ}
    → (next ≢ 0 → r ≡ r')
    → join o next r ≡ join o next r'
join_congr (some off) next h = refl
join_congr none next h = ground (arith, h)

join_write :
    (o o' : Option ℕ) (next k key off : ℕ) {r r' : Option ℕ}
    → o' ≡ (if k == key then some off else o)
    → (next ≢ 0 → r' ≡ r)
    → join o' next r' ≡ (if k == key then some off else join o next r)
join_write (some x) o' next k key off e h = ground (arith, h)
join_write none o' next k key off e h = ground (arith, h)

join_pass :
    (o : Option ℕ) (next k key off : ℕ) (r : Option ℕ) {r' : Option ℕ}
    → next ≢ 0
    → (k ≡ key → o ≡ none)
    → r' ≡ (if k == key then some off else r)
    → join o next r' ≡ (if k == key then some off else join o next r)
join_pass (some x) next k key off r ne clear e = ground arith
join_pass none next k key off r ne clear e = ground arith

join_end :
    (o : Option ℕ) (next last : ℕ) (old v : Option ℕ) {r : Option ℕ}
    → next ≢ 0
    → last ≡ 0
    → r ≡ v
    → join o next r ≡ join (join o last old) 1 v
join_end (some x) next last old v ne e h = refl
join_end none next last old v ne e h = ground arith

join_through :
    (o : Option ℕ) (next : ℕ) (r v : Option ℕ)
    → next ≢ 0
    → join o next (join r 1 v) ≡ join (join o next r) 1 v
join_through (some x) next r v ne = refl
join_through none next r v ne = ground arith

module _ (sizing : Sizing) where
  abbrev pub link : List Bucket → ℕ → ℕ
  link bs p = next_of (bucket_at bs p).header

  abbrev pub after : List Bucket → ℕ → ℕ
  after bs p = overflow_bucket_of sizing (link bs p)

  unfoldable pub chain_get : ℕ → List Bucket → ℕ → ℕ → Option ℕ
  chain_get zero bs p key = none
  chain_get (suc n) bs p key =
      join (bucket_get (bucket_at bs p) key) (link bs p) (chain_get n bs (after bs p) key)

  -- The first bucket of a chain, and the rest.
  pub chain_get_step :
      (n : ℕ) (bs : List Bucket) (p k : ℕ) {b : Bucket}
      → bucket_at bs p ≡ b
      → chain_get (suc n) bs p k
        ≡ join
            (bucket_get b k)
            (next_of b.header)
            (chain_get n bs (overflow_bucket_of sizing (next_of b.header)) k)
  unfolding chain_get
  chain_get_step n bs p k e =
      ap
        (λ (b : Bucket).
          join (bucket_get b k) (next_of b.header)
            (chain_get n bs (overflow_bucket_of sizing (next_of b.header)) k))
        e

  -- Every link leads to a higher position.
  abbrev pub IsRising : List Bucket → Type 0
  IsRising bs = (p : ℕ) → link bs p ≢ 0 → p < after bs p

  -- The chain from `p` visits `q`.
  abbrev pub Visits : ℕ → List Bucket → ℕ → ℕ → Type 0
  Visits zero bs p q = ⊥
  Visits (suc n) bs p q = (p ≡ q) ⊎ ((link bs p ≢ 0) × Visits n bs (after bs p) q)

  -- It does so through buckets that do not hold the key.
  abbrev pub Reaches : ℕ → List Bucket → ℕ → ℕ → ℕ → Type 0
  Reaches zero bs p key q = ⊥
  Reaches (suc n) bs p key q =
      (p ≡ q)
      ⊎ ((bucket_get (bucket_at bs p) key ≡ none)
          × (link bs p ≢ 0)
          × Reaches n bs (after bs p) key q)

  -- It ends at `t`.
  abbrev pub Ends : ℕ → List Bucket → ℕ → ℕ → Type 0
  Ends zero bs p t = ⊥
  Ends (suc n) bs p t = ((p ≡ t) × (link bs p ≡ 0)) ⊎ ((link bs p ≢ 0) × Ends n bs (after bs p) t)

  pub Visits-of_Reaches :
      (n : ℕ) (bs : List Bucket) (p key q : ℕ) → Reaches n bs p key q → Visits n bs p q
  Visits-of_Reaches zero bs p key q h = h
  Visits-of_Reaches (suc n) bs p key q (inl e) = inl e
  Visits-of_Reaches (suc n) bs p key q (inr (_, more, r)) =
      inr (more, Visits-of_Reaches n bs (after bs p) key q r)

  pub Visits-of_Ends : (n : ℕ) (bs : List Bucket) (p t : ℕ) → Ends n bs p t → Visits n bs p t
  Visits-of_Ends zero bs p t h = h
  Visits-of_Ends (suc n) bs p t (inl e) = inl e.0
  Visits-of_Ends (suc n) bs p t (inr (more, r)) = inr (more, Visits-of_Ends n bs (after bs p) t r)

  pub Visits-le : (n : ℕ) (bs : List Bucket) (p q : ℕ) → IsRising bs → Visits n bs p q → p ≤ q
  Visits-le zero bs p q up h = absurd h
  Visits-le (suc n) bs p q up (inl e) = omega arith
  Visits-le (suc n) bs p q up (inr (more, v)) =
      omega (arith, up p more, Visits-le n bs (after bs p) q up v)

  -- A bucket that the chain does not visit does not matter to it.
  pub chain_get_avoid :
      (n : ℕ) (bs : List Bucket) (q : ℕ) (b' : Bucket) (p k : ℕ)
      → ¬ Visits n bs p q
      → chain_get n (set bs q b') p k ≡ chain_get n bs p k
  unfolding chain_get
  chain_get_avoid zero bs q b' p k h = refl
  chain_get_avoid (suc n) bs q b' p k h =
      chain_get_step n (set bs q b') p k
        (get_or-set_ne bs q p b' zero_bucket (λ e. h (inl (sym e))))
      ∙ join_congr (bucket_get (bucket_at bs p) k) (link bs p)
          (λ more. chain_get_avoid n bs q b' (after bs p) k (λ v. h (inr (more, v))))

  -- The chain behind a bucket does not come back to it.
  never_back :
      (n : ℕ) (bs : List Bucket) (p : ℕ)
      → IsRising bs
      → link bs p ≢ 0
      → ¬ Visits n bs (after bs p) p
  never_back n bs p up more v =
      absurd (omega (arith, up p more, Visits-le n bs (after bs p) p up v))

  module _ (bs : List Bucket) (q : ℕ) (b' : Bucket) (up : IsRising bs)
      (inside : q < length bs) where
    here : bucket_at (set bs q b') q ≡ b'
    here = get_or-set_self bs q b' zero_bucket inside

    -- A bucket is replaced that reads as before but for one key, which no earlier bucket of the chain
    -- holds: then so does the chain.
    pub chain_get_write :
        (n p key off k : ℕ)
        → next_of b'.header ≡ link bs q
        → ((j : ℕ)
            → bucket_get b' j ≡ (if j == key then some off else bucket_get (bucket_at bs q) j))
        → Reaches n bs p key q
        → chain_get n (set bs q b') p k ≡ (if k == key then some off else chain_get n bs p k)
    unfolding chain_get
    chain_get_write zero p key off k same reads h = absurd h
    chain_get_write (suc n) p key off k same reads (inl e) =
        subst
          (λ (x : ℕ).
            chain_get (suc n) (set bs q b') x k
            ≡ (if k == key then some off else chain_get (suc n) bs x k))
          (sym e)
          (chain_get_step n (set bs q b') q k here
            ∙ rw same (
                join_write (bucket_get (bucket_at bs q) k) (bucket_get b' k) (link bs q) k key off
                  (reads k)
                  (λ more. chain_get_avoid n bs q b' (after bs q) k (never_back n bs q up more))))
    chain_get_write (suc n) p key off k same reads (inr (clear, more, r)) =
        let lower =
          Visits-le n bs (after bs p) q up (Visits-of_Reaches n bs (after bs p) key q r) in
        chain_get_step n (set bs q b') p k
          (get_or-set_ne bs q p b' zero_bucket (λ e. absurd (omega (arith, up p more, lower))))
        ∙ join_pass (bucket_get (bucket_at bs p) k) (link bs p) k key off
            (chain_get n bs (after bs p) k) more (λ e. ap (bucket_get (bucket_at bs p)) e ∙ clear)
            (chain_get_write n (after bs p) key off k same reads r)

    -- The last bucket of a chain is replaced by one that reads alike and leads on: the chain then
    -- also reads what its new rest does.
    pub chain_get_attach :
        (n p key off k : ℕ)
        → next_of b'.header ≢ 0
        → bucket_get b' k ≡ bucket_get (bucket_at bs q) k
        → ((m : ℕ)
            → chain_get (suc m) (set bs q b') (overflow_bucket_of sizing (next_of b'.header)) k
              ≡ (if k == key then some off else none))
        → q < overflow_bucket_of sizing (next_of b'.header)
        → overflow_bucket_of sizing (next_of b'.header) < length bs
        → length bs ≤ p + n
        → Ends n bs p q
        → chain_get n (set bs q b') p k
          ≡ join (chain_get n bs p k) 1 (if k == key then some off else none)
    unfolding chain_get
    chain_get_attach zero p key off k on reads rest up' lt enough h = absurd h
    chain_get_attach (suc zero) p key off k on reads rest up' lt enough (inl (e, last)) =
        absurd (omega arith)
    chain_get_attach (suc (suc m)) p key off k on reads rest up' lt enough (inl (e, last)) =
        let new = if k == key then some off else none in
        subst
          (λ (x : ℕ).
            chain_get (suc (suc m)) (set bs q b') x k ≡ join (chain_get (suc (suc m)) bs x k) 1 new)
          (sym e)
          (chain_get_step (suc m) (set bs q b') q k here
            ∙ rw reads (
                join_end (bucket_get (bucket_at bs q) k) (next_of b'.header) (link bs q)
                  (chain_get (suc m) bs (after bs q) k) new on (ap (link bs) (sym e) ∙ last)
                  (rest m)))
    chain_get_attach (suc n) p key off k on reads rest up' lt enough (inr (more, r)) =
        let lower = Visits-le n bs (after bs p) q up (Visits-of_Ends n bs (after bs p) q r) in
        let new = if k == key then some off else none in
        chain_get_step n (set bs q b') p k
          (get_or-set_ne bs q p b' zero_bucket (λ e. absurd (omega (arith, up p more, lower))))
        ∙ ap (join (bucket_get (bucket_at bs p) k) (link bs p)) (
            chain_get_attach n (after bs p) key off k on reads rest up' lt
              (omega (arith, up p more)) r)
        ∙ join_through (bucket_get (bucket_at bs p) k) (link bs p) (chain_get n bs (after bs p) k)
            new more

    -- A bucket is replaced that reads alike and links alike: nothing changes.
    pub chain_get_alike :
        (n p k : ℕ)
        → next_of b'.header ≡ link bs q
        → ((j : ℕ) → bucket_get b' j ≡ bucket_get (bucket_at bs q) j)
        → chain_get n (set bs q b') p k ≡ chain_get n bs p k
    unfolding chain_get
    chain_get_alike zero p k same reads = refl
    chain_get_alike (suc n) p k same reads = elim (ℕ_discrete p q) [
      | yes e ↦
          subst (λ (x : ℕ). chain_get (suc n) (set bs q b') x k ≡ chain_get (suc n) bs x k) (sym e)
            (chain_get_step n (set bs q b') q k here
              ∙ rw (same, reads k)
                  (join_congr (bucket_get (bucket_at bs q) k) (link bs q)
                    (λ _. chain_get_alike n (after bs q) k same reads)))
      | no ne ↦
          chain_get_step n (set bs q b') p k (get_or-set_ne bs q p b' zero_bucket (λ e. ne (sym e)))
          ∙ join_congr (bucket_get (bucket_at bs p) k) (link bs p)
              (λ _. chain_get_alike n (after bs p) k same reads)
    ]
