-- ===== src/ColdTier/Valid.antt =====
-- When a region is well formed, and the replacements of a bucket that keep it so.
use native.Mathlib.Decide.{ℕ_discrete}
use hiom.Prelude.{
  ◌≡◌, refl, suc, zero, inl, inr, ◌⊎◌, ℕ, length, arith, ◌<◌, ap, ◌+◌, sym, ◌≤◌, ◌^◌, ◌∙◌, set, ◌≢◌,
  length-set, get_or-set, get_or-set_ne,
}
use hiom.ColdTier.Layout.{
  Bucket, zero_bucket, Region, Sizing, next_of, overflow_bucket_of, entries_per_bucket,
}
use hiom.ColdTier.{bucket_at}
use hiom.ColdTier.Chain.{link, after, IsRising, Visits}
use hiom.ColdTier.Search.{IsInside}

-- `home` says for each bucket in which chain it stands. A link leads to an overflow bucket that was
-- handed out, further up, in the same chain.
pub record IsValid (sizing : Sizing) (home : ℕ → ℕ) (r : Region) : Type 0 where
  pub width : length r.buckets ≡ sizing.main_buckets + sizing.overflow_slots + 1
  pub small : sizing.overflow_slots < 2 ^ 48
  pub alloc : r.next_overflow_alloc ≤ sizing.overflow_slots
  pub seven : (p : ℕ) → length (bucket_at r.buckets p).entries ≡ entries_per_bucket
  pub linked :
      (p : ℕ)
      → link sizing r.buckets p ≢ 0
      → (link sizing r.buckets p ≤ r.next_overflow_alloc)
        × (p < sizing.main_buckets + link sizing r.buckets p)
        × (home (sizing.main_buckets + link sizing r.buckets p) ≡ home p)
  pub own : (p : ℕ) → p < sizing.main_buckets → home p ≡ p

module _ (sizing : Sizing) (home : ℕ → ℕ) (r : Region) (v : IsValid sizing home r) where
  pub valid-IsRising : IsRising sizing r.buckets
  unfolding overflow_bucket_of
  valid-IsRising p more = (v.linked p more).1

  pub valid-IsInside : IsInside sizing r.buckets
  unfolding overflow_bucket_of
  valid-IsInside p lt more = omega (arith, v.width, v.alloc, (v.linked p more).0)

  pub main_inside : (p : ℕ) → p < sizing.main_buckets → p < length r.buckets
  main_inside p lt = omega (arith, v.width)

  -- All buckets of a chain have one home.
  pub Visits-home : (n p q : ℕ) → Visits sizing n r.buckets p q → home q ≡ home p
  unfolding overflow_bucket_of
  Visits-home zero p q h = absurd h
  Visits-home (suc n) p q (inl e) = ap home (sym e)
  Visits-home (suc n) p q (inr (more, h)) =
      Visits-home n (after sizing r.buckets p) q h ∙ (v.linked p more).2

  -- No chain visits an overflow bucket that was not handed out.
  pub Visits-handed_out :
      (n p q : ℕ)
      → p < sizing.main_buckets + r.next_overflow_alloc + 1
      → Visits sizing n r.buckets p q
      → q < sizing.main_buckets + r.next_overflow_alloc + 1
  unfolding overflow_bucket_of
  Visits-handed_out zero p q lt h = absurd h
  Visits-handed_out (suc n) p q lt (inl e) = omega arith
  Visits-handed_out (suc n) p q lt (inr (more, h)) =
      Visits-handed_out n (after sizing r.buckets p) q (omega (arith, (v.linked p more).0)) h

  relinked :
      (q : ℕ) (b' : Bucket) (p : ℕ)
      → (next_of b'.header ≡ link sizing r.buckets q) ⊎ (next_of b'.header ≡ 0)
      → (link sizing (set r.buckets q b') p ≡ link sizing r.buckets p)
        ⊎ (link sizing (set r.buckets q b') p ≡ 0)
  relinked q b' p h = elim (ℕ_discrete p q) [
    | yes e ↦
        get_or-set
          (λ (b : Bucket). (next_of b.header ≡ link sizing r.buckets p) ⊎ (next_of b.header ≡ 0))
          r.buckets q p b' zero_bucket (rw e h) (inl refl)
    | no ne ↦ inl (
        ap (λ (b : Bucket). next_of b.header)
          (get_or-set_ne r.buckets q p b' zero_bucket (λ e. ne (sym e))))
  ]

  -- A bucket is replaced by one of seven slots that links as before or not at all; overflow buckets
  -- may be handed out besides.
  pub replace-IsValid :
      (q : ℕ) (b' : Bucket) (taken alloc' : ℕ)
      → length b'.entries ≡ entries_per_bucket
      → (next_of b'.header ≡ link sizing r.buckets q) ⊎ (next_of b'.header ≡ 0)
      → r.next_overflow_alloc ≤ alloc'
      → alloc' ≤ sizing.overflow_slots
      → IsValid sizing home (record {
        num_entries = taken;
        next_overflow_alloc = alloc';
        buckets = set r.buckets q b';
      })
  replace-IsValid q b' taken alloc' seven' link' up fits = record {
    width = length-set r.buckets q b' ∙ v.width;
    small = v.small;
    alloc = fits;
    seven = λ p.
        get_or-set (λ (b : Bucket). length b.entries ≡ entries_per_bucket) r.buckets q p b'
          zero_bucket seven' (v.seven p);
    linked = λ p more. elim (relinked q b' p link') [
      | inl e ↦
          let (le, lt, same) = v.linked p (λ z. more (e ∙ z)) in rw e (omega (arith, le), lt, same)
      | inr none_left ↦ absurd (more none_left)
    ];
    own = v.own;
  }
