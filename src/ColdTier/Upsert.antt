-- ===== src/ColdTier/Upsert.antt =====
-- `upsert_region` against the map that its chains stand for, with every fault point.
use native.Mathlib.Decide.{ℕ_discrete}
use hiom.Prelude.{
  ◌≡◌, refl, true, false, inl, some, ℕ, Option, Bool, ◌<◌, length, if◌then◌else◌, List, ◌≢◌, ◌&&◌,
  sym, ◌==◌, set, ◌∙◌, arith, length-set, ap, ◌+◌, get_or-set_self, set_bit, set-set,
}
use hiom.ColdTier.Layout.{Entry, Bucket, zero_bucket, Region, Sizing, next_of, entries_per_bucket}
use hiom.ColdTier.{
  bucket_at, SlotRef, FaultPoint, no_fault, after_key_id_before_entry, after_entry_before_bit,
  after_overflow_before_chain, store_entry, store_header, entry_at, claim_slot, find_slot,
}
use hiom.ColdTier.Slots.{bucket_get}
use hiom.ColdTier.Buckets.{with_offset, get-with_offset, get-residue, published, get-published}
use hiom.ColdTier.Header.{next_of-set_bit}
use hiom.ColdTier.Chain.{
  link, chain_get, chain_get_write, chain_get_alike, chain_get_avoid, Visits, Visits-of_Reaches,
  Reaches,
}
use hiom.ColdTier.Valid.{IsValid, valid-IsRising, Visits-home, replace-IsValid}
use hiom.ColdTier.Placing.{Reusable}

-- The raw offset, tombstones included, that a lookup in the chain of main bucket `p` meets.
unfoldable pub view : Sizing → Region → ℕ → ℕ → Option ℕ
view sizing r p key = chain_get sizing (length r.buckets) r.buckets p key

-- The region `r'` reads as `r` does, but for one key of one chain where the write was done.
pub record Writes (sizing : Sizing) (r : Region) (p key off : ℕ) (done : Bool) (r' : Region)
    : Type 0 where
  pub home : ℕ → ℕ
  pub valid : IsValid sizing home r'
  pub reads :
      (p' k : ℕ)
      → p' < sizing.main_buckets
      → view sizing r' p' k
        ≡ (if done && (p' == p && k == key) then some off else view sizing r p' k)

module _ (sizing : Sizing) (home : ℕ → ℕ) (r : Region) (v : IsValid sizing home r) (p key off : ℕ)
    (lt : p < sizing.main_buckets) where
  abbrev bs : List Bucket
  bs = r.buckets

  -- A bucket of the chain of `p` does not matter to another chain.
  pub foreign :
      (n p' q : ℕ)
      → p' < sizing.main_buckets
      → p' ≢ p
      → Visits sizing n bs p q
      → (m : ℕ) → ¬ Visits sizing m bs p' q
  foreign n p' q lt' ne visits m other = ne (
      sym (v.own p' lt')
      ∙ sym (Visits-home sizing home r v m p' q other)
      ∙ Visits-home sizing home r v n p q visits
      ∙ v.own p lt)

  -- A bucket of the chain is replaced by one that holds the key.
  written :
      (q : ℕ) (b' : Bucket) (taken : ℕ)
      → q < length bs
      → length b'.entries ≡ entries_per_bucket
      → next_of b'.header ≡ link sizing bs q
      → Reaches sizing (length bs) bs p key q
      → ((j : ℕ) → bucket_get b' j ≡ (if j == key then some off else bucket_get (bucket_at bs q) j))
      → Writes sizing r p key off true (record r { num_entries = taken; buckets = set bs q b' })
  unfolding view
  written q b' taken inside seven same reached gets = record {
    home = home;
    valid =
        replace-IsValid sizing home r v q b' taken r.next_overflow_alloc seven (inl same)
          (omega arith) v.alloc;
    reads = λ p' k lt'. rw length-set (elim (ℕ_discrete p' p) [
      | yes e ↦ rw e (
          chain_get_write sizing bs q b' (valid-IsRising sizing home r v) inside (length bs) p key
            off k same gets reached
          ∙ ground arith)
      | no ne ↦
          chain_get_avoid sizing (length bs) bs q b' p' k (
            foreign (length bs) p' q lt' ne
              (Visits-of_Reaches sizing (length bs) bs p key q reached) (length bs))
          ∙ ground arith
    ]);
  }

  -- A bucket is replaced by one that reads alike.
  unseen :
      (q : ℕ) (b' : Bucket) (taken : ℕ)
      → q < length bs
      → length b'.entries ≡ entries_per_bucket
      → next_of b'.header ≡ link sizing bs q
      → ((j : ℕ) → bucket_get b' j ≡ bucket_get (bucket_at bs q) j)
      → Writes sizing r p key off false (record r { num_entries = taken; buckets = set bs q b' })
  unfolding view
  unseen q b' taken inside seven same gets = record {
    home = home;
    valid =
        replace-IsValid sizing home r v q b' taken r.next_overflow_alloc seven (inl same)
          (omega arith) v.alloc;
    reads = λ p' k lt'. rw length-set (
        chain_get_alike sizing bs q b' (valid-IsRising sizing home r v) inside (length bs) p' k same
          gets);
  }

  -- Two stores to one bucket.
  pub stored_twice :
      (s : SlotRef) (e : Entry) (hdr : ℕ)
      → s.bucket < length bs
      → store_header (store_entry bs s e) s.bucket hdr
        ≡ set bs s.bucket
            (record { header = hdr; entries = set (bucket_at bs s.bucket).entries s.slot e })
  unfolding store_header store_entry
  stored_twice s e hdr inside =
      let b1 : Bucket = record (bucket_at bs s.bucket) {
        entries = set (bucket_at bs s.bucket).entries s.slot e;
      } in
      ap (λ (b : Bucket). set (set bs s.bucket b1) s.bucket (record b { header = hdr }))
        (get_or-set_self bs s.bucket b1 zero_bucket inside)
      ∙ set-set bs s.bucket b1
          (record { header = hdr; entries = set (bucket_at bs s.bucket).entries s.slot e })

  module _ (s : SlotRef) (u : Reusable sizing bs (length bs) p key s) where
    filled_seven :
        (e : Entry) → length (set (bucket_at bs s.bucket).entries s.slot e) ≡ entries_per_bucket
    filled_seven e = length-set (bucket_at bs s.bucket).entries s.slot e ∙ v.seven s.bucket

    residue :
        (e : Entry) → Writes sizing r p key off false (record r { buckets = store_entry bs s e })
    unfolding store_entry
    residue e =
        unseen s.bucket
          (record (bucket_at bs s.bucket) {
            entries = set (bucket_at bs s.bucket).entries s.slot e;
          })
          r.num_entries u.inside (filled_seven e) refl
          (λ j. get-residue (bucket_at bs s.bucket) s.slot e j u.free)

    completed : Writes sizing r p key off true (record r {
      num_entries = r.num_entries + 1;
      buckets =
          store_header
            (store_entry bs s (record { key_id = key; offset = off }))
            s.bucket
            (set_bit (bucket_at bs s.bucket).header s.slot);
    })
    completed =
        let b = bucket_at bs s.bucket in
        rw
          (stored_twice s (record { key_id = key; offset = off }) (set_bit b.header s.slot)
            u.inside)
          (written s.bucket (published b s.slot key off) (r.num_entries + 1) u.inside
            (filled_seven (record { key_id = key; offset = off }))
            (next_of-set_bit b.header s.slot (omega (arith, u.in_bucket, v.seven s.bucket)))
            u.reached (λ j. get-published b s.slot key off j u.in_bucket u.free u.clear))

    pub claim_slot-Writes :
        (fault : FaultPoint)
        → Writes sizing r p key off
            (claim_slot fault r s key off).0
            (claim_slot fault r s key off).1
    unfolding claim_slot
    claim_slot-Writes no_fault = completed
    claim_slot-Writes after_key_id_before_entry =
        residue (record { key_id = key; offset = (entry_at bs s).offset })
    claim_slot-Writes after_entry_before_bit = residue (record { key_id = key; offset = off })
    claim_slot-Writes after_overflow_before_chain = completed

  pub update-Writes :
      (s : SlotRef)
      → Reaches sizing (length bs) bs p key s.bucket
      → s.bucket < length bs
      → find_slot (bucket_at bs s.bucket).header key 0 (bucket_at bs s.bucket).entries ≡ some s.slot
      → Writes sizing r p key off true (record r {
        buckets = store_entry bs s (record { key_id = (entry_at bs s).key_id; offset = off });
      })
  unfolding store_entry
  update-Writes s reached inside at =
      let b = bucket_at bs s.bucket in
      written s.bucket (with_offset b s.slot off) r.num_entries inside
        (length-set b.entries s.slot (record { key_id = (entry_at bs s).key_id; offset = off })
          ∙ v.seven s.bucket)
        refl reached (λ j. get-with_offset b key s.slot off j at)
