-- ===== src/ColdTier/Room.antt =====
-- How many overflow buckets an `upsert` takes.
use native.Mathlib.Decide.{dec_lt, ℕ_discrete}
use hiom.Prelude.{
  ℕ, suc, ◌+◌, ◌<◌, ◌≤◌, ◌≡◌, false, arith, refl, sym, none, some, length, get_or-set_self,
  get_or-set_ne, Bool-cases, inl, inr, ltb,
}
use hiom.ColdTier.Layout.{ColdTier, Sizing, Region, region_id_of, bucket_id_of}
use hiom.ColdTier.{
  no_fault, no_region, upsert, upsert_region, Walk, walk, matched, absent, claim_slot, extend_chain,
}
use hiom.ColdTier.Table.{TableIsValid, region_at, region_id_of-lt, upsert-stored}

walk_alloc :
    (sizing : Sizing) (r : Region) (p key off : ℕ) (w : Walk)
    → walk (length r.buckets) sizing r.buckets p key none ≡ w
    → (upsert_region no_fault sizing r p key off).1.next_overflow_alloc ≤ r.next_overflow_alloc + 1
unfolding upsert_region claim_slot extend_chain
walk_alloc sizing r p key off (matched s) e = rw (upsert_region, e) (omega arith)
walk_alloc sizing r p key off (absent (some s) tail) e = rw (upsert_region, e) (omega arith)
walk_alloc sizing r p key off (absent none tail) e =
    elim (Bool-cases (ltb sizing.overflow_slots (r.next_overflow_alloc + 1))) [
      | inl past ↦ rw (upsert_region, e, extend_chain, past) (omega arith)
      | inr fits ↦ rw (upsert_region, e, extend_chain, fits) (omega arith)
    ]
walk_alloc sizing r p key off Walk.out_of_fuel e = rw (upsert_region, e) (omega arith)

-- At most one, in the region of the fingerprint.
pub upsert_alloc :
    (c : ColdTier) (v : TableIsValid c) (fp key off rid : ℕ)
    → (region_at (upsert no_fault c fp key off).1 rid).next_overflow_alloc
      ≤ (region_at c rid).next_overflow_alloc + 1
unfolding upsert
upsert_alloc c v fp key off rid =
    let own = region_id_of fp in
    let r = region_at c own in
    let p = bucket_id_of c.sizing fp in
    let r' = (upsert_region no_fault c.sizing r p key off).1 in
    elim (ℕ_discrete rid own) [
      | yes e ↦
          let here =
            get_or-set_self c.regions own r' no_region
              (omega (arith, region_id_of-lt fp, v.count)) in
          rw (e, here)
            (walk_alloc c.sizing r p key off (walk (length r.buckets) c.sizing r.buckets p key none)
              refl)
      | no ne ↦
          let there = get_or-set_ne c.regions own rid r' no_region (λ e. ne (sym e)) in
          rw there (omega arith)
    ]

-- An `upsert` fails only where the region has none left.
pub full_region :
    (c : ColdTier) (v : TableIsValid c) (fp key off n : ℕ)
    → (upsert no_fault c fp key off).0 ≡ false
    → c.sizing.overflow_slots < (region_at c (region_id_of fp)).next_overflow_alloc + suc n
full_region c v fp key off n failed =
    elim (dec_lt (region_at c (region_id_of fp)).next_overflow_alloc c.sizing.overflow_slots) [
      | yes room ↦ absurd (ground (arith, upsert-stored c v fp key off room, failed))
      | no none_left ↦ omega arith
    ]
