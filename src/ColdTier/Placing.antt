-- ===== src/ColdTier/Placing.antt =====
-- The walk of `upsert`: where it finds the key, or where a new entry may go.
use native.Mathlib.Decide.{ℕ_discrete}
use hiom.Prelude.{
  ◌≡◌, refl, suc, zero, false, inl, inr, some, none, ◌⊎◌, List, ℕ, ◌<◌, Option, ◌≢◌, length, arith,
  bit, ◌+◌, sym, subst, ◌∙◌,
}
use hiom.ColdTier.Layout.{Bucket, Sizing}
use hiom.ColdTier.{
  bucket_at, SlotRef, find_slot, Scan, hit, miss, scan_slots, Walk, matched, absent, walk,
}
use hiom.ColdTier.Slots.{bucket_get}
use hiom.ColdTier.Buckets.{get_of_none}
use hiom.ColdTier.Chain.{chain_get, link, after, IsRising, Reaches, Ends}
use hiom.ColdTier.Search.{IsInside, FreeSpec, ScanSpec, scan_slots-ScanSpec, step, passed}

module _ (sizing : Sizing) (bs : List Bucket) where
  -- The chain from `p` reaches this unpublished slot through buckets without the key, and its own
  -- bucket is one of them.
  pub record Reusable (n p key : ℕ) (s : SlotRef) : Type 0 where
    pub reached : Reaches sizing n bs p key s.bucket
    pub inside : s.bucket < length bs
    pub in_bucket : s.slot < length (bucket_at bs s.bucket).entries
    pub free : bit (bucket_at bs s.bucket).header s.slot ≡ false
    pub clear : bucket_get (bucket_at bs s.bucket) key ≡ none

  abbrev pub SlotSpec : ℕ → ℕ → ℕ → Option SlotRef → Option SlotRef → Type 0
  SlotSpec n p key reusable none = Unit
  SlotSpec n p key reusable (some s) = (reusable ≡ some s) ⊎ Reusable n p key s

  abbrev pub WalkSpec : ℕ → ℕ → ℕ → Option SlotRef → Walk → Type 0
  WalkSpec n p key reusable (matched s) =
      Reaches sizing n bs p key s.bucket
      × (s.bucket < length bs)
      × (find_slot (bucket_at bs s.bucket).header key 0 (bucket_at bs s.bucket).entries
          ≡ some s.slot)
  WalkSpec n p key reusable (absent ro tail) =
      (chain_get sizing n bs p key ≡ none)
      × Ends sizing n bs p tail
      × (tail < length bs)
      × SlotSpec n p key reusable ro
  WalkSpec n p key reusable Walk.out_of_fuel = p + n < length bs

  module _ (up : IsRising sizing bs) (stays : IsInside sizing bs) where
    module _ (n p key : ℕ) (clear : bucket_get (bucket_at bs p) key ≡ none) where
      own_slot :
          (reusable : Option SlotRef) (s : SlotRef)
          → p < length bs
          → FreeSpec (bucket_at bs p).header p 0 (bucket_at bs p).entries reusable (some s)
          → SlotSpec (suc n) p key reusable (some s)
      own_slot reusable s lt (inl kept) = inl kept
      own_slot reusable s lt (inr (at, lo, hi, free)) = inr (record {
        reached = inl (sym at);
        inside = rw at lt;
        in_bucket = rw at (omega arith);
        free = rw at free;
        clear = rw at clear;
      })

      module _ (more : link sizing bs p ≢ 0) where
        later_slot :
            (r r' : Option SlotRef) (s : SlotRef)
            → p < length bs
            → FreeSpec (bucket_at bs p).header p 0 (bucket_at bs p).entries r r'
            → SlotSpec n (after sizing bs p) key r' (some s)
            → SlotSpec (suc n) p key r (some s)
        later_slot r r' s lt own (inr u) = inr (record {
          reached = inr (clear, more, u.reached);
          inside = u.inside;
          in_bucket = u.in_bucket;
          free = u.free;
          clear = u.clear;
        })
        later_slot r none s lt own (inl kept) = absurd (cc)
        later_slot r (some t) s lt own (inl kept) =
            let same : t ≡ s = cc in
            own_slot r s lt (
              subst
                (λ (x : SlotRef).
                  FreeSpec (bucket_at bs p).header p 0 (bucket_at bs p).entries r (some x))
                same own)

        behind :
            (r r' : Option SlotRef) (w : Walk)
            → p < length bs
            → FreeSpec (bucket_at bs p).header p 0 (bucket_at bs p).entries r r'
            → WalkSpec n (after sizing bs p) key r' w
            → WalkSpec (suc n) p key r w
        behind r r' (matched s) lt own (reached, inside, at) =
            (inr (clear, more, reached), inside, at)
        behind r r' (absent none tail) lt own (nothing, ends, inside, _) =
            (passed sizing bs up stays n p key clear more ∙ nothing, inr (more, ends), inside, tt)
        behind r r' (absent (some s) tail) lt own (nothing, ends, inside, slot) = (
          passed sizing bs up stays n p key clear more ∙ nothing,
          inr (more, ends),
          inside,
          later_slot r r' s lt own slot,
        )
        behind r r' Walk.out_of_fuel lt own h = omega (arith, up p more)

    last_slot :
        (n p key : ℕ) (clear : bucket_get (bucket_at bs p) key ≡ none) (r r' : Option SlotRef)
        → p < length bs
        → FreeSpec (bucket_at bs p).header p 0 (bucket_at bs p).entries r r'
        → SlotSpec (suc n) p key r r'
    last_slot n p key clear r none lt own = tt
    last_slot n p key clear r (some s) lt own = own_slot n p key clear r s lt own

    walk_hit :
        (n p key : ℕ) (r : Option SlotRef) (i : ℕ)
        → scan_slots (bucket_at bs p).header key p 0 r (bucket_at bs p).entries ≡ hit i
        → walk (suc n) sizing bs p key r ≡ matched (record { bucket = p; slot = i })
    unfolding walk
    walk_hit n p key r i h = ground arith

    walk_end :
        (n p key : ℕ) (r r' : Option SlotRef)
        → scan_slots (bucket_at bs p).header key p 0 r (bucket_at bs p).entries ≡ miss r'
        → link sizing bs p ≡ 0
        → walk (suc n) sizing bs p key r ≡ absent r' p
    unfolding walk
    walk_end n p key r r' h last = ground arith

    walk_on :
        (n p key : ℕ) (r r' : Option SlotRef)
        → scan_slots (bucket_at bs p).header key p 0 r (bucket_at bs p).entries ≡ miss r'
        → link sizing bs p ≢ 0
        → walk (suc n) sizing bs p key r ≡ walk n sizing bs (after sizing bs p) key r'
    unfolding walk
    walk_on n p key r r' h more = ground arith

    from_scan :
        (n p key : ℕ) (r : Option SlotRef) (sc : Scan)
        → p < length bs
        → ScanSpec (bucket_at bs p).header key p 0 r (bucket_at bs p).entries sc
        → scan_slots (bucket_at bs p).header key p 0 r (bucket_at bs p).entries ≡ sc
        → ((r' : Option SlotRef)
            → link sizing bs p ≢ 0
            → WalkSpec n (after sizing bs p) key r' (walk n sizing bs (after sizing bs p) key r'))
        → WalkSpec (suc n) p key r (walk (suc n) sizing bs p key r)
    from_scan n p key r (hit i) lt spec e rest = rw (walk_hit n p key r i e) (inl refl, lt, spec)
    from_scan n p key r (miss r') lt (nowhere, own) e rest =
        let clear = get_of_none (bucket_at bs p) key nowhere in
        elim (ℕ_discrete (link sizing bs p) 0) [
          | yes last ↦ rw (walk_end n p key r r' e last) (
            step sizing bs up stays n p key ∙ rw (clear, last) refl,
            inl (refl, last),
            lt,
            last_slot n p key clear r r' lt own,
          )
          | no more ↦ rw (walk_on n p key r r' e more) (
              behind n p key clear more r r' (walk n sizing bs (after sizing bs p) key r') lt own
                (rest r' more))
        ]

    -- The walk finds the slot of the key, or learns that the chain does not hold it, and then knows
    -- the chain's last bucket and, if it names a slot, an unpublished slot of the chain. With as much
    -- fuel as there are buckets behind `p` it ends.
    pub walk-WalkSpec :
        (n p key : ℕ) (reusable : Option SlotRef)
        → p < length bs
        → WalkSpec n p key reusable (walk n sizing bs p key reusable)
    unfolding walk
    walk-WalkSpec zero p key r lt = omega arith
    walk-WalkSpec (suc n) p key r lt =
        from_scan n p key r (scan_slots (bucket_at bs p).header key p 0 r (bucket_at bs p).entries)
          lt (scan_slots-ScanSpec (bucket_at bs p).header key p 0 r (bucket_at bs p).entries) refl
          (λ r' more. walk-WalkSpec n (after sizing bs p) key r' (stays p lt more))
