-- ===== src/ColdTier/Table.antt =====
-- The whole table: 32 regions, routed by the fingerprint.
use native.Mathlib.Decide.{ℕ_discrete}
use hiom.Prelude.{
  ◌≡◌, refl, true, false, some, none, ℕ, get_or, ◌^◌, Bool, ◌<◌, length, ◌==◌, arith, set,
  get_or-set_self, length-set, if◌then◌else◌, ◌&&◌, and_mask, ◌∙◌, shr, bit_and, bit_xor, ◌≢◌, ap,
  ◌-◌, ◌*◌, get_or-set_ne, ◌%◌, sym, Option, lt-pow,
}
use hiom.ColdTier.Layout.{
  Region, Sizing, ColdTier, region_id_of, bucket_id_of, num_regions, tombstone_offset,
}
use hiom.ColdTier.{
  FaultPoint, no_fault, no_region, upsert, lookup, remove, upsert_region, lookup_region,
  remove_region,
}
use hiom.ColdTier.Valid.{IsValid}
use hiom.ColdTier.Upsert.{view, Writes}
use hiom.ColdTier.Effect.{
  live, is_some, lookup_region-view, upsert_region-Writes, remove_region-Writes,
  upsert_region-stored,
}

abbrev pub region_at : ColdTier → ℕ → Region
region_at c rid = get_or c.regions rid no_region

-- A region whose chains are apart.
pub record RegionIsValid (sizing : Sizing) (r : Region) : Type 0 where
  pub home : ℕ → ℕ
  pub valid : IsValid sizing home r

-- 32 well-formed regions, and a power of two of main buckets in each.
pub record TableIsValid (c : ColdTier) : Type 0 where
  pub bits : ℕ
  pub power : c.sizing.main_buckets ≡ 2 ^ bits
  pub count : length c.regions ≡ num_regions
  pub each : (rid : ℕ) → rid < num_regions → RegionIsValid c.sizing (region_at c rid)

-- Two fingerprints that are routed to one chain.
abbrev pub same_chain : ColdTier → ℕ → ℕ → Bool
same_chain c fp fp' =
    region_id_of fp == region_id_of fp' && bucket_id_of c.sizing fp == bucket_id_of c.sizing fp'

pub region_id_of-lt : (fp : ℕ) → region_id_of fp < num_regions
unfolding region_id_of
region_id_of-lt fp = omega (arith, and_mask 5 (shr fp 59))

live_if : (t : Bool) (a b : Option ℕ) → live (if t then a else b) ≡ (if t then live a else live b)
live_if true a b = refl
live_if false a b = refl

no_some : (o : Option ℕ) → is_some o ≡ false → o ≡ none
no_some none h = refl
no_some (some off) h = ground arith

bit_and-lt : (n k m : ℕ) → m ≡ 2 ^ k → bit_and n (m - 1) < m
bit_and-lt n k m e = rw e (omega (arith, and_mask k n, lt-pow k))

abbrev mixed : ℕ → ℕ
mixed fp = bit_xor fp (shr fp 17) * 0x9e37_79b9_7f4a_7c15 % 2 ^ 64

module _ (c : ColdTier) (v : TableIsValid c) where
  pub bucket_id_of-lt : (fp : ℕ) → bucket_id_of c.sizing fp < c.sizing.main_buckets
  unfolding bucket_id_of
  bucket_id_of-lt fp =
      bit_and-lt (bit_xor (mixed fp) (shr (mixed fp) 27)) v.bits c.sizing.main_buckets v.power

  module _ (fp key off : ℕ) (done : Bool) (r' : Region)
      (w : Writes c.sizing
        (region_at c (region_id_of fp))
        (bucket_id_of c.sizing fp)
        key
        off
        done
        r') where
    abbrev stored : ColdTier
    stored = record c { regions = set c.regions (region_id_of fp) r' }

    here : region_at stored (region_id_of fp) ≡ r'
    here =
        get_or-set_self c.regions (region_id_of fp) r' no_region
          (omega (arith, region_id_of-lt fp, v.count))

    elsewhere : (rid : ℕ) → rid ≢ region_id_of fp → region_at stored rid ≡ region_at c rid
    elsewhere rid ne = get_or-set_ne c.regions (region_id_of fp) rid r' no_region (λ e. ne (sym e))

    pub stored-TableIsValid : TableIsValid stored
    stored-TableIsValid = record {
      bits = v.bits;
      power = v.power;
      count = length-set c.regions (region_id_of fp) r' ∙ v.count;
      each = λ rid lt. elim (ℕ_discrete rid (region_id_of fp)) [
        | yes e ↦ rw (e, here) (record { home = w.home; valid = w.valid })
        | no ne ↦ rw (elsewhere rid ne) (v.each rid lt)
      ];
    }

    before :
        (fp' key' : ℕ)
        → lookup_region c.sizing (region_at c (region_id_of fp)) (bucket_id_of c.sizing fp') key'
          ≡ live (view c.sizing (region_at c (region_id_of fp)) (bucket_id_of c.sizing fp') key')
    before fp' key' =
        let own = v.each (region_id_of fp) (region_id_of-lt fp) in
        lookup_region-view c.sizing own.home (region_at c (region_id_of fp)) own.valid
          (bucket_id_of c.sizing fp') key' (bucket_id_of-lt fp')

    pub stored_reads :
        (fp' key' : ℕ)
        → lookup stored fp' key' ≡ (
            if done && (same_chain c fp' fp && key' == key)
            then live (some off)
            else lookup c fp' key')
    unfolding lookup
    stored_reads fp' key' = elim (ℕ_discrete (region_id_of fp') (region_id_of fp)) [
      | yes e ↦
          rw (e, here)
            (lookup_region-view c.sizing w.home r' w.valid (bucket_id_of c.sizing fp') key'
                (bucket_id_of-lt fp')
              ∙ ap live (w.reads (bucket_id_of c.sizing fp') key' (bucket_id_of-lt fp'))
              ∙ live_if
                  (done && (bucket_id_of c.sizing fp' == bucket_id_of c.sizing fp && key' == key))
                  (some off)
                  (view c.sizing (region_at c (region_id_of fp)) (bucket_id_of c.sizing fp') key')
              ∙ ground (arith, before fp' key'))
      | no ne ↦ rw (elsewhere (region_id_of fp') ne) (ground arith)
    ]

  module _ (fp key : ℕ) where
    abbrev own : RegionIsValid c.sizing (region_at c (region_id_of fp))
    own = v.each (region_id_of fp) (region_id_of-lt fp)

    upserted :
        (off : ℕ) (fault : FaultPoint)
        → Writes c.sizing
            (region_at c (region_id_of fp))
            (bucket_id_of c.sizing fp)
            key
            off
            (upsert fault c fp key off).0
            (upsert_region fault c.sizing
              (region_at c (region_id_of fp))
              (bucket_id_of c.sizing fp)
              key
              off).1
    unfolding upsert
    upserted off fault =
        upsert_region-Writes c.sizing own.home (region_at c (region_id_of fp)) own.valid
          (bucket_id_of c.sizing fp) key (bucket_id_of-lt fp) off fault

    removed :
        Writes c.sizing
          (region_at c (region_id_of fp))
          (bucket_id_of c.sizing fp)
          key
          tombstone_offset
          (remove c fp key).0
          (remove_region c.sizing (region_at c (region_id_of fp)) (bucket_id_of c.sizing fp) key).1
    unfolding remove
    removed =
        (remove_region-Writes c.sizing own.home (region_at c (region_id_of fp)) own.valid
          (bucket_id_of c.sizing fp) key (bucket_id_of-lt fp)).1

    -- An `upsert` of any key and offset into a well-formed table leaves a well-formed table, also
    -- where it fails or a fault point cuts it short.
    pub upsert-TableIsValid :
        (off : ℕ) (fault : FaultPoint) → TableIsValid (upsert fault c fp key off).1
    unfolding upsert
    upsert-TableIsValid off fault =
        stored-TableIsValid fp key off (upsert fault c fp key off).0
          (upsert_region fault c.sizing (region_at c (region_id_of fp)) (bucket_id_of c.sizing fp)
            key off).1
          (upserted off fault)

    -- A `remove` from a well-formed table leaves a well-formed table.
    pub remove-TableIsValid : TableIsValid (remove c fp key).1
    unfolding remove
    remove-TableIsValid =
        stored-TableIsValid fp key tombstone_offset (remove c fp key).0
          (remove_region c.sizing (region_at c (region_id_of fp)) (bucket_id_of c.sizing fp) key).1
          removed

    -- In a well-formed table, after an `upsert` with any fault point, a lookup that is routed to the
    -- same chain with the same key returns the offset if the `upsert` reported success (nothing, if
    -- the offset is the tombstone), and every other lookup, and every lookup after a failure or a
    -- fault, returns what it did before.
    pub lookup-upsert :
        (off : ℕ) (fault : FaultPoint) (fp' key' : ℕ)
        → lookup (upsert fault c fp key off).1 fp' key' ≡ (
            if (upsert fault c fp key off).0 && (same_chain c fp' fp && key' == key)
            then live (some off)
            else lookup c fp' key')
    unfolding upsert
    lookup-upsert off fault fp' key' =
        stored_reads fp key off (upsert fault c fp key off).0
          (upsert_region fault c.sizing (region_at c (region_id_of fp)) (bucket_id_of c.sizing fp)
            key off).1
          (upserted off fault) fp' key'

    nothing_there :
        (fp' key' : ℕ)
        → (remove c fp key).0 ≡ false
        → region_id_of fp' ≡ region_id_of fp
        → bucket_id_of c.sizing fp' ≡ bucket_id_of c.sizing fp
        → key' ≡ key
        → lookup c fp' key' ≡ none
    unfolding lookup remove
    nothing_there fp' key' h e1 e2 e3 =
        rw (e1, e2, e3)
          (lookup_region-view c.sizing own.home (region_at c (region_id_of fp)) own.valid
              (bucket_id_of c.sizing fp) key (bucket_id_of-lt fp)
            ∙ ap live (
                no_some
                  (view c.sizing (region_at c (region_id_of fp)) (bucket_id_of c.sizing fp) key)
                  (sym
                      (remove_region-Writes c.sizing own.home (region_at c (region_id_of fp))
                        own.valid (bucket_id_of c.sizing fp) key (bucket_id_of-lt fp)).0
                    ∙ h)))

    removed_reads :
        (fp' key' : ℕ)
        → lookup (remove c fp key).1 fp' key' ≡ (
            if (remove c fp key).0 && (same_chain c fp' fp && key' == key)
            then none
            else lookup c fp' key')
    unfolding remove
    removed_reads fp' key' =
        stored_reads fp key tombstone_offset (remove c fp key).0
          (remove_region c.sizing (region_at c (region_id_of fp)) (bucket_id_of c.sizing fp) key).1
          removed fp' key'

    -- After `remove`, a lookup that is routed to the same chain with the same key returns nothing, and
    -- every other lookup returns what it did before.
    pub lookup-remove :
        (fp' key' : ℕ)
        → lookup (remove c fp key).1 fp' key'
          ≡ (if same_chain c fp' fp && key' == key then none else lookup c fp' key')
    lookup-remove fp' key' = removed_reads fp' key' ∙ ground (arith, nothing_there fp' key')

    -- While the region has an overflow bucket left, an `upsert` that no fault interrupts reports
    -- success.
    pub upsert-stored :
        (off : ℕ)
        → (region_at c (region_id_of fp)).next_overflow_alloc < c.sizing.overflow_slots
        → (upsert no_fault c fp key off).0 ≡ true
    unfolding upsert
    upsert-stored off room =
        upsert_region-stored c.sizing own.home (region_at c (region_id_of fp)) own.valid
          (bucket_id_of c.sizing fp) key (bucket_id_of-lt fp) off room
