-- ===== src/ColdTier/Extend.antt =====
-- `extend_chain`: a new overflow bucket at the end of a chain that does not hold the key.
use native.Mathlib.Decide.{ℕ_discrete}
use hiom.Prelude.{
  ◌≡◌, refl, suc, zero, true, false, inl, inr, some, none, ℕ, ◌<◌, ◌+◌, set, ◌≤◌, length, arith,
  length-set, ◌∙◌, List, if◌then◌else◌, ap, get_or-set, get_or-set_ne, sym, ◌==◌, ◌≢◌,
  get_or-set_self, Option, Bool-cases, ltb, ◌-◌,
}
use hiom.ColdTier.Layout.{
  Bucket, zero_bucket, Region, Sizing, next_of, overflow_bucket_of, entries_per_bucket,
}
use hiom.ColdTier.{
  bucket_at, FaultPoint, no_fault, after_key_id_before_entry, after_entry_before_bit,
  after_overflow_before_chain, store_entry, store_header, extend_chain, attach_header,
}
use hiom.ColdTier.Buckets.{get_congr, get-fresh}
use hiom.ColdTier.Header.{next_of-attach_header, bit-attach_header}
use hiom.ColdTier.Chain.{
  link, after, chain_get, chain_get_step, join, chain_get_avoid, chain_get_attach, Visits, Ends,
  Visits-of_Ends,
}
use hiom.ColdTier.Valid.{IsValid, valid-IsRising, Visits-home, Visits-handed_out, replace-IsValid}
use hiom.ColdTier.Upsert.{view, Writes, stored_twice, foreign}

-- A bucket the chain does not visit does not move its end.
Ends-avoid :
    (sizing : Sizing) (n : ℕ) (bs : List Bucket) (q : ℕ) (b' : Bucket) (p t : ℕ)
    → ¬ Visits sizing n bs p q
    → Ends sizing n bs p t
    → Ends sizing n (set bs q b') p t
Ends-avoid sizing zero bs q b' p t h e = e
Ends-avoid sizing (suc n) bs q b' p t h (inl (at, last)) =
    inl (at, rw (get_or-set_ne bs q p b' zero_bucket (λ e. h (inl (sym e)))) last)
Ends-avoid sizing (suc n) bs q b' p t h (inr (more, rest)) =
    rw (get_or-set_ne bs q p b' zero_bucket (λ e. h (inl (sym e))))
      (inr (more, Ends-avoid sizing n bs q b' (after sizing bs p) t (λ v. h (inr (more, v))) rest))

last_link :
    (sizing : Sizing) (n : ℕ) (bs : List Bucket) (p t : ℕ)
    → Ends sizing n bs p t
    → link sizing bs t ≡ 0
last_link sizing zero bs p t e = absurd e
last_link sizing (suc n) bs p t (inl (at, last)) = rw (sym at) last
last_link sizing (suc n) bs p t (inr (more, rest)) =
    last_link sizing n bs (after sizing bs p) t rest

join_new :
    (o : Option ℕ) (k key off : ℕ)
    → (k ≡ key → o ≡ none)
    → join o 1 (if k == key then some off else none) ≡ (if k == key then some off else o)
join_new none k key off h = refl
join_new (some x) k key off h = ground (arith, h)

-- A bucket that no chain uses may be counted to any chain.
abbrev moved : (ℕ → ℕ) → ℕ → ℕ → ℕ → ℕ
moved home q x i = if i == q then x else home i

rehome :
    (sizing : Sizing) (home : ℕ → ℕ) (r : Region) (q x : ℕ)
    → IsValid sizing home r
    → sizing.main_buckets + r.next_overflow_alloc < q
    → link sizing r.buckets q ≡ 0
    → IsValid sizing (moved home q x) r
rehome sizing home r q x v high last = record {
  width = v.width;
  small = v.small;
  alloc = v.alloc;
  seven = v.seven;
  linked = λ p more.
      let (le, lt, same) = v.linked p more in
      (
        le,
        lt,
        elim (ℕ_discrete p q) [
          | yes e ↦ absurd (more (ap (link sizing r.buckets) e ∙ last))
          | no ne ↦ ground arith
        ],
      );
  own = λ p lt. ground (arith, v.own p lt);
}

relink :
    (sizing : Sizing) (home : ℕ → ℕ) (r : Region) (t : ℕ) (b' : Bucket) (n idx : ℕ)
    → IsValid sizing home r
    → length b'.entries ≡ entries_per_bucket
    → next_of b'.header ≡ idx
    → idx ≤ r.next_overflow_alloc
    → t < sizing.main_buckets + idx
    → home (sizing.main_buckets + idx) ≡ home t
    → IsValid sizing home (record r { num_entries = n; buckets = set r.buckets t b' })
relink sizing home r t b' n idx v seven' to low lt same = record {
  width = length-set r.buckets t b' ∙ v.width;
  small = v.small;
  alloc = v.alloc;
  seven = λ p.
      get_or-set (λ (b : Bucket). length b.entries ≡ entries_per_bucket) r.buckets t p b'
        zero_bucket seven' (v.seven p);
  linked = λ p. elim (ℕ_discrete p t) [
    | yes e ↦
        get_or-set
          (λ (b : Bucket).
            next_of b.header ≢ 0
            → (next_of b.header ≤ r.next_overflow_alloc)
              × (p < sizing.main_buckets + next_of b.header)
              × (home (sizing.main_buckets + next_of b.header) ≡ home p))
          r.buckets t p b' zero_bucket (λ _. rw (to, e) (low, lt, same)) (v.linked p)
    | no ne ↦ rw (get_or-set_ne r.buckets t p b' zero_bucket (λ e. ne (sym e))) (v.linked p)
  ];
  own = v.own;
}

module _ (sizing : Sizing) (home : ℕ → ℕ) (r : Region) (v : IsValid sizing home r) (p key off : ℕ)
    (lt : p < sizing.main_buckets) where
  abbrev new_idx : ℕ
  new_idx = r.next_overflow_alloc + 1

  abbrev nb : ℕ
  nb = sizing.main_buckets + new_idx

  abbrev fresh : Bucket
  fresh = record {
    header = 1;
    entries = set (bucket_at r.buckets nb).entries 0 (record { key_id = key; offset = off });
  }

  module _ (room : new_idx ≤ sizing.overflow_slots) where
    -- The region after the new bucket was written.
    abbrev taken : ℕ → Region
    taken n = record {
      num_entries = n;
      next_overflow_alloc = new_idx;
      buckets = set r.buckets nb fresh;
    }

    nb_inside : nb < length r.buckets
    nb_inside = omega (arith, v.width)

    fresh_seven : length fresh.entries ≡ entries_per_bucket
    fresh_seven =
        length-set (bucket_at r.buckets nb).entries 0 (record { key_id = key; offset = off })
        ∙ v.seven nb

    fresh_unlinked : next_of fresh.header ≡ 0
    unfolding next_of
    fresh_unlinked = refl

    taken-IsValid : (n : ℕ) → IsValid sizing home (taken n)
    taken-IsValid n =
        replace-IsValid sizing home r v nb fresh n new_idx fresh_seven (inr fresh_unlinked)
          (omega arith) room

    -- Nothing leads to it yet.
    unreached : (p' n : ℕ) → p' < sizing.main_buckets → ¬ Visits sizing n r.buckets p' nb
    unreached p' n lt' visits =
        absurd (omega (arith, Visits-handed_out sizing home r v n p' nb (omega arith) visits))

    view-taken :
        (n p' k : ℕ) → p' < sizing.main_buckets → view sizing (taken n) p' k ≡ view sizing r p' k
    unfolding view
    view-taken n p' k lt' = rw length-set (
        chain_get_avoid sizing (length r.buckets) r.buckets nb fresh p' k
          (unreached p' (length r.buckets) lt'))

    taken-Writes : Writes sizing r p key off false (taken r.num_entries)
    taken-Writes = record {
      home = home;
      valid = taken-IsValid r.num_entries;
      reads = view-taken r.num_entries;
    }

    module _ (tail n : ℕ) (empty : view sizing r p key ≡ none)
        (ends : Ends sizing (length r.buckets) r.buckets p tail) where
      abbrev bs1 : List Bucket
      bs1 = set r.buckets nb fresh

      abbrev linking : Bucket
      linking = record (bucket_at bs1 tail) {
        header = attach_header (bucket_at bs1 tail).header new_idx;
      }

      abbrev attached : Region
      attached = record {
        num_entries = n;
        next_overflow_alloc = new_idx;
        buckets = set bs1 tail linking;
      }

      visited : Visits sizing (length r.buckets) r.buckets p tail
      visited = Visits-of_Ends sizing (length r.buckets) r.buckets p tail ends

      tail_low : tail < nb
      tail_low =
          omega (
            arith,
            Visits-handed_out sizing home r v (length r.buckets) p tail (omega arith) visited,
          )

      ends1 : Ends sizing (length r.buckets) bs1 p tail
      ends1 =
          Ends-avoid sizing (length r.buckets) r.buckets nb fresh p tail
            (unreached p (length r.buckets) lt) ends

      last1 : link sizing bs1 tail ≡ 0
      last1 = last_link sizing (length r.buckets) bs1 p tail ends1

      fresh_at : bucket_at bs1 nb ≡ fresh
      fresh_at = get_or-set_self r.buckets nb fresh zero_bucket nb_inside

      old_home :
          IsValid sizing home
            (record { num_entries = n; next_overflow_alloc = r.next_overflow_alloc; buckets = bs1 })
      old_home =
          replace-IsValid sizing home r v nb fresh n r.next_overflow_alloc fresh_seven
            (inr fresh_unlinked) (omega arith) v.alloc

      leads_on : next_of linking.header ≡ new_idx
      leads_on = next_of-attach_header (bucket_at bs1 tail).header new_idx (omega (arith, v.small))

      attached-IsValid : IsValid sizing (moved home nb p) attached
      attached-IsValid =
          let here = Visits-home sizing home r v (length r.buckets) p tail visited in
          let counted =
            rehome sizing home
              (record {
                num_entries = n;
                next_overflow_alloc = r.next_overflow_alloc;
                buckets = bs1;
              })
              nb p old_home (omega arith) (rw fresh_at fresh_unlinked) in
          relink sizing (moved home nb p) (taken n) tail linking n new_idx
            (record {
              width = counted.width;
              small = counted.small;
              alloc = room;
              seven = counted.seven;
              linked = λ q more.
                  let (le, up, same) = counted.linked q more in (omega (arith, le), up, same);
              own = counted.own;
            })
            (counted.seven tail) leads_on (omega arith) tail_low
            (ground (arith, here, v.own p lt, tail_low))

      behind_tail :
          (k m : ℕ)
          → chain_get sizing
              (suc m)
              (set bs1 tail linking)
              (overflow_bucket_of sizing (next_of linking.header))
              k
            ≡ (if k == key then some off else none)
      unfolding overflow_bucket_of
      behind_tail k m = rw leads_on (
          chain_get_step sizing m (set bs1 tail linking) nb k (
            get_or-set_ne bs1 tail nb linking zero_bucket (λ e. absurd (omega (arith, tail_low)))
            ∙ fresh_at)
          ∙ rw fresh_unlinked (
              ground (
                arith,
                get-fresh (bucket_at r.buckets nb).entries key off k (omega (arith, v.seven nb)),
              )))

      own_chain :
          (k : ℕ)
          → chain_get sizing (length r.buckets) (set bs1 tail linking) p k
            ≡ join
                (chain_get sizing (length r.buckets) bs1 p k)
                1
                (if k == key then some off else none)
      unfolding overflow_bucket_of
      own_chain k =
          chain_get_attach sizing bs1 tail linking
            (valid-IsRising sizing home (taken n) (taken-IsValid n))
            (omega (arith, length-set r.buckets nb fresh, tail_low, nb_inside)) (length r.buckets) p
            key off k (λ z. absurd (omega (arith, leads_on)))
            (get_congr (bucket_at bs1 tail) linking.header k ((taken-IsValid n).seven tail)
              (bit-attach_header (bucket_at bs1 tail).header new_idx (omega (arith, v.small))))
            (behind_tail k) (rw leads_on tail_low)
            (rw leads_on (omega (arith, length-set r.buckets nb fresh, nb_inside)))
            (omega (arith, length-set r.buckets nb fresh)) ends1

      kept :
          (p' k : ℕ)
          → p' < sizing.main_buckets
          → chain_get sizing (length r.buckets) bs1 p' k
            ≡ chain_get sizing (length r.buckets) r.buckets p' k
      kept p' k lt' =
          chain_get_avoid sizing (length r.buckets) r.buckets nb fresh p' k
            (unreached p' (length r.buckets) lt')

      elsewhere :
          (p' : ℕ)
          → p' < sizing.main_buckets
          → p' ≢ p
          → ¬ Visits sizing (length r.buckets) bs1 p' tail
      elsewhere p' lt' ne =
          foreign sizing home (taken n) (taken-IsValid n) p key off lt (length r.buckets) p' tail
            lt' ne (Visits-of_Ends sizing (length r.buckets) bs1 p tail ends1) (length r.buckets)

      attached-Writes : Writes sizing r p key off true attached
      unfolding view
      attached-Writes = record {
        home = moved home nb p;
        valid = attached-IsValid;
        reads = λ p' k lt'.
            rw (length-set bs1 tail linking, length-set r.buckets nb fresh)
              (elim (ℕ_discrete p' p) [
                | yes e ↦ rw e (
                    own_chain k
                    ∙ ap (λ (o : Option ℕ). join o 1 (if k == key then some off else none))
                        (kept p k lt)
                    ∙ join_new (chain_get sizing (length r.buckets) r.buckets p k) k key off
                        (λ at. ap (chain_get sizing (length r.buckets) r.buckets p) at ∙ empty)
                    ∙ ground arith)
                | no ne ↦
                    chain_get_avoid sizing (length r.buckets) bs1 tail linking p' k
                      (elsewhere p' lt' ne)
                    ∙ kept p' k lt'
                    ∙ ground arith
              ]);
      }

module _ (sizing : Sizing) (home : ℕ → ℕ) (r : Region) (v : IsValid sizing home r) (p key off : ℕ)
    (lt : p < sizing.main_buckets) (tail : ℕ) (empty : view sizing r p key ≡ none)
    (ends : Ends sizing (length r.buckets) r.buckets p tail) where
  two_stores :
      r.next_overflow_alloc + 1 ≤ sizing.overflow_slots
      → store_header
          (store_entry r.buckets
            (record { bucket = sizing.main_buckets + (r.next_overflow_alloc + 1); slot = 0 })
            (record { key_id = key; offset = off }))
          (sizing.main_buckets + (r.next_overflow_alloc + 1))
          1
        ≡ set r.buckets (nb sizing home r v p key off lt) (fresh sizing home r v p key off lt)
  two_stores room =
      stored_twice sizing home r v p key off lt
        (record { bucket = sizing.main_buckets + (r.next_overflow_alloc + 1); slot = 0 })
        (record { key_id = key; offset = off }) 1 (omega (arith, v.width))

  in_room :
      (room : r.next_overflow_alloc + 1 ≤ sizing.overflow_slots) (fault : FaultPoint)
      → ltb sizing.overflow_slots (r.next_overflow_alloc + 1) ≡ false
      → Writes sizing r p key off
          (extend_chain fault sizing r tail key off).0
          (extend_chain fault sizing r tail key off).1
  unfolding extend_chain overflow_bucket_of store_header
  in_room room no_fault h =
      rw (h, two_stores room)
        (attached-Writes sizing home r v p key off lt room tail (r.num_entries + 1) empty ends)
  in_room room after_key_id_before_entry h =
      rw (h, two_stores room)
        (attached-Writes sizing home r v p key off lt room tail (r.num_entries + 1) empty ends)
  in_room room after_entry_before_bit h =
      rw (h, two_stores room)
        (attached-Writes sizing home r v p key off lt room tail (r.num_entries + 1) empty ends)
  in_room room after_overflow_before_chain h =
      rw (h, two_stores room) (taken-Writes sizing home r v p key off lt room)

  -- Without a free overflow bucket nothing changes; else the new one is written, and linked unless
  -- the fault comes before.
  pub extend_chain-Writes :
      (fault : FaultPoint)
      → Writes sizing r p key off
          (extend_chain fault sizing r tail key off).0
          (extend_chain fault sizing r tail key off).1
  unfolding extend_chain
  extend_chain-Writes fault =
      elim (Bool-cases (ltb sizing.overflow_slots (r.next_overflow_alloc + 1))) [
        | inl full ↦
            let back : r.next_overflow_alloc + 1 - 1 ≡ r.next_overflow_alloc = omega arith in
            rw (full, back) (record { home = home; valid = v; reads = λ p' k lt'. refl })
        | inr room ↦ in_room (ground arith) fault room
      ]
