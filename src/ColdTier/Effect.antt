-- ===== src/ColdTier/Effect.antt =====
-- `upsert_region`, `lookup_region` and `remove_region` against the map that a region stands for.

use hiom.Prelude.{
  ◌≡◌, refl, true, false, inl, inr, some, none, ℕ, Option, ◌<◌, if◌then◌else◌, Bool, length, ◌==◌,
  arith, ltb, ◌+◌,
}
use hiom.ColdTier.Layout.{Region, Sizing, tombstone_offset}
use hiom.ColdTier.{
  FaultPoint, no_fault, Walk, matched, absent, walk, Seek, found, missing, seek, claim_slot,
  extend_chain, upsert_region, lookup_region, remove_region,
}
use hiom.ColdTier.Valid.{IsValid, valid-IsRising, valid-IsInside, main_inside}
use hiom.ColdTier.Search.{SeekSpec, seek-SeekSpec}
use hiom.ColdTier.Placing.{WalkSpec, walk-WalkSpec}
use hiom.ColdTier.Upsert.{view, Writes, claim_slot-Writes, update-Writes}
use hiom.ColdTier.Extend.{extend_chain-Writes}

-- What a caller of `lookup` sees of a raw offset.
abbrev pub live : Option ℕ → Option ℕ
live none = none
live (some off) = if off == tombstone_offset then none else some off

abbrev pub is_some : Option ℕ → Bool
is_some none = false
is_some (some off) = true

module _ (sizing : Sizing) (home : ℕ → ℕ) (r : Region) (v : IsValid sizing home r) (p key : ℕ)
    (lt : p < sizing.main_buckets) where
  abbrev sought : Seek
  sought = seek (length r.buckets) sizing r.buckets p key

  abbrev walked : Walk
  walked = walk (length r.buckets) sizing r.buckets p key none

  sought-SeekSpec : SeekSpec sizing r.buckets (length r.buckets) p key sought
  sought-SeekSpec =
      seek-SeekSpec sizing r.buckets (valid-IsRising sizing home r v)
        (valid-IsInside sizing home r v) (length r.buckets) p key (main_inside sizing home r v p lt)

  walked-WalkSpec : WalkSpec sizing r.buckets (length r.buckets) p key none walked
  walked-WalkSpec =
      walk-WalkSpec sizing r.buckets (valid-IsRising sizing home r v)
        (valid-IsInside sizing home r v) (length r.buckets) p key none
        (main_inside sizing home r v p lt)

  looked_up :
      (sk : Seek)
      → sought ≡ sk
      → SeekSpec sizing r.buckets (length r.buckets) p key sk
      → lookup_region sizing r p key ≡ live (view sizing r p key)
  unfolding lookup_region view
  looked_up (found s) e (_, _, _, value) = rw (lookup_region, e, view, value) refl
  looked_up missing e value = rw (lookup_region, e, view, value) refl
  looked_up Seek.out_of_fuel e h = absurd (omega arith)

  -- A lookup returns what the chain holds, a tombstone read as nothing.
  pub lookup_region-view : lookup_region sizing r p key ≡ live (view sizing r p key)
  lookup_region-view = looked_up sought refl sought-SeekSpec

  removed :
      (sk : Seek)
      → sought ≡ sk
      → SeekSpec sizing r.buckets (length r.buckets) p key sk
      → ((remove_region sizing r p key).0 ≡ is_some (view sizing r p key))
        × Writes sizing r p key tombstone_offset
            (remove_region sizing r p key).0
            (remove_region sizing r p key).1
  unfolding remove_region view
  removed (found s) e (reached, inside, at, value) =
      rw (remove_region, e, view, value)
        (refl, update-Writes sizing home r v p key tombstone_offset lt s reached inside at)
  removed missing e value =
      rw (remove_region, e, view, value)
        (refl, record { home = home; valid = v; reads = λ p' k lt'. refl })
  removed Seek.out_of_fuel e h = absurd (omega arith)

  -- `remove` reports whether the chain holds the key, a tombstone included, and then stores one.
  pub remove_region-Writes :
      ((remove_region sizing r p key).0 ≡ is_some (view sizing r p key))
      × Writes sizing r p key tombstone_offset
          (remove_region sizing r p key).0
          (remove_region sizing r p key).1
  remove_region-Writes = removed sought refl sought-SeekSpec

  module _ (off : ℕ) (fault : FaultPoint) where
    upserted :
        (w : Walk)
        → walked ≡ w
        → WalkSpec sizing r.buckets (length r.buckets) p key none w
        → Writes sizing r p key off
            (upsert_region fault sizing r p key off).0
            (upsert_region fault sizing r p key off).1
    unfolding upsert_region view
    upserted (matched s) e (reached, inside, at) =
        rw (upsert_region, e) (update-Writes sizing home r v p key off lt s reached inside at)
    upserted (absent (some s) tail) e (nothing, ends, inside, inr u) =
        rw (upsert_region, e) (claim_slot-Writes sizing home r v p key off lt s u fault)
    upserted (absent (some s) tail) e (nothing, ends, inside, inl kept) = absurd (cc)
    upserted (absent none tail) e (nothing, ends, inside, _) =
        rw (upsert_region, e)
          (extend_chain-Writes sizing home r v p key off lt tail nothing ends fault)
    upserted Walk.out_of_fuel e h = absurd (omega arith)

    -- Whatever store the process stops after, `upsert` has written the key's offset and nothing
    -- else, or nothing that a lookup sees.
    pub upsert_region-Writes :
        Writes sizing r p key off
          (upsert_region fault sizing r p key off).0
          (upsert_region fault sizing r p key off).1
    upsert_region-Writes = upserted walked refl walked-WalkSpec

  -- While overflow buckets are left, `upsert` succeeds.
  stored :
      (off : ℕ) (w : Walk)
      → walked ≡ w
      → WalkSpec sizing r.buckets (length r.buckets) p key none w
      → r.next_overflow_alloc < sizing.overflow_slots
      → (upsert_region no_fault sizing r p key off).0 ≡ true
  unfolding upsert_region claim_slot extend_chain
  stored off (matched s) e h room = rw (upsert_region, e) refl
  stored off (absent (some s) tail) e h room = rw (upsert_region, e) refl
  stored off (absent none tail) e h room =
      let fits : ltb sizing.overflow_slots (r.next_overflow_alloc + 1) ≡ false = ground arith in
      rw (upsert_region, e, extend_chain, fits) refl
  stored off Walk.out_of_fuel e h room = absurd (omega arith)

  pub upsert_region-stored :
      (off : ℕ)
      → r.next_overflow_alloc < sizing.overflow_slots
      → (upsert_region no_fault sizing r p key off).0 ≡ true
  upsert_region-stored off room = stored off walked refl walked-WalkSpec room
