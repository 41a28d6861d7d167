-- ===== src/ColdTier/Fresh.antt =====
-- `create` and `next_pow2`.
use native.Mathlib.Nat.{pow-suc}
use hiom.Prelude.{
  ◌≡◌, refl, suc, zero, none, ℕ, ◌≢◌, ◌<◌, ◌^◌, ◌≤◌, if◌then◌else◌, replicate, ◌/◌, ◌*◌, leb, arith,
  ◌+◌, length-replicate, max, get_or-replicate, ◌-◌, ◌∙◌, get_or, length, ap,
}
use hiom.Prelude.{bit}
use hiom.ColdTier.Layout.{
  slot_published, Region, Sizing, zero_bucket, bit_length, next_pow2, create, num_regions,
  region_id_of, bucket_id_of, next_of,
}
use hiom.ColdTier.{no_region, lookup, find_slot}
use hiom.ColdTier.Chain.{chain_get, chain_get_step}
use hiom.ColdTier.Slots.{bucket_get}
use hiom.ColdTier.Valid.{IsValid}
use hiom.ColdTier.Upsert.{view}
use hiom.ColdTier.Effect.{lookup_region-view, live}
use hiom.ColdTier.Table.{TableIsValid, region_at, bucket_id_of-lt, region_id_of-lt}

bit_length-covers : (width v : ℕ) → v < 2 ^ width → v < 2 ^ bit_length width v
unfolding bit_length
bit_length-covers zero v h = h
bit_length-covers (suc width) v h =
    let ih = bit_length-covers width (v / 2) (omega (arith, pow-suc 2 width)) in
    ground (arith, ih, pow-suc 2 (bit_length width (v / 2)))

bit_length-zero : (width v : ℕ) → v ≡ 0 → bit_length width v ≡ 0
unfolding bit_length
bit_length-zero zero v e = refl
bit_length-zero (suc width) v e = rw e refl

bit_length-tight : (width v : ℕ) → v ≢ 0 → 2 ^ bit_length width v ≤ 2 * v
unfolding bit_length
bit_length-tight zero v h = omega arith
bit_length-tight (suc width) v h = ground (
  arith,
  bit_length-tight width (v / 2),
  pow-suc 2 (bit_length width (v / 2)),
  bit_length-zero width (v / 2),
)

-- For sizes that a 64-bit word can round up, `next_pow2` returns a power of two that is at least its
-- argument and less than twice its argument.
pub next_pow2-tight : (v : ℕ) → 1 ≤ v → v ≤ 2 ^ 63 → (v ≤ next_pow2 v) × (next_pow2 v < 2 * v)
unfolding next_pow2
next_pow2-tight v lo hi =
    (ground (arith, bit_length-covers 64 (v - 1)), ground (arith, bit_length-tight 64 (v - 1)))

pow2_bits : ℕ → ℕ
pow2_bits v = if leb v 1 then 0 else bit_length 64 (v - 1)

next_pow2-power : (v : ℕ) → next_pow2 v ≡ 2 ^ pow2_bits v
unfolding next_pow2 pow2_bits
next_pow2-power v = ground arith

blank : ℕ → ℕ → Region
blank main slots = record {
  num_entries = 0;
  next_overflow_alloc = 0;
  buckets = replicate (main + slots + 1) zero_bucket;
}

blank-IsValid :
    (main slots : ℕ)
    → slots < 2 ^ 48
    → IsValid (record { main_buckets = main; overflow_slots = slots }) (λ i. i) (blank main slots)
unfolding blank next_of
blank-IsValid main slots h = record {
  width = length-replicate (main + slots + 1) zero_bucket;
  small = h;
  alloc = omega arith;
  seven = λ p. rw (get_or-replicate (main + slots + 1) p zero_bucket) refl;
  linked = λ p more. absurd (more (rw (get_or-replicate (main + slots + 1) p zero_bucket) refl));
  own = λ p lt. refl;
}

get_or-replicate_at : {A : Type 0} → (n i : ℕ) (a d : A) → i < n → get_or (replicate n a) i d ≡ a
get_or-replicate_at zero i a d h = absurd (omega arith)
get_or-replicate_at (suc n) zero a d h = refl
get_or-replicate_at (suc n) (suc i) a d h = get_or-replicate_at n i a d (omega arith)

region_at-create :
    (main slots rid : ℕ)
    → rid < num_regions
    → region_at (create main slots) rid ≡ blank (next_pow2 (max 1 main)) (max 1 slots)
unfolding create blank
region_at-create main slots rid lt =
    get_or-replicate_at num_regions rid (blank (next_pow2 (max 1 main)) (max 1 slots)) no_region lt

-- `create` makes a well-formed table, with a power of two of main buckets in each region.
pub create-TableIsValid : (main slots : ℕ) → slots < 2 ^ 48 → TableIsValid (create main slots)
unfolding create
create-TableIsValid main slots h = record {
  bits = pow2_bits (max 1 main);
  power = next_pow2-power (max 1 main);
  count = refl;
  each = λ rid lt. record {
    home = λ i. i;
    valid =
        rw (region_at-create main slots rid lt)
          (blank-IsValid (next_pow2 (max 1 main)) (max 1 slots) (ground arith));
  };
}

-- No chain of zero buckets holds a key.
chain_get-blank :
    (sizing : Sizing) (n m p key : ℕ) → chain_get sizing n (replicate m zero_bucket) p key ≡ none
unfolding chain_get bucket_get find_slot slot_published bit next_of
chain_get-blank sizing zero m p key = refl
chain_get-blank sizing (suc n) m p key =
    chain_get_step sizing n (replicate m zero_bucket) p key (get_or-replicate m p zero_bucket)
    ∙ refl

view-blank : (sizing : Sizing) (main slots p key : ℕ) → view sizing (blank main slots) p key ≡ none
unfolding view blank
view-blank sizing main slots p key =
    chain_get-blank sizing (length (replicate (main + slots + 1) zero_bucket)) (main + slots + 1) p
      key

-- Every lookup in a table that `create` made finds nothing.
pub lookup-create :
    (main slots fp key : ℕ) → slots < 2 ^ 48 → lookup (create main slots) fp key ≡ none
unfolding lookup
lookup-create main slots fp key h =
    let c = create main slots in
    let v = create-TableIsValid main slots h in
    let own = v.each (region_id_of fp) (region_id_of-lt fp) in
    lookup_region-view c.sizing own.home (region_at c (region_id_of fp)) own.valid
      (bucket_id_of c.sizing fp) key (bucket_id_of-lt c v fp)
    ∙ ap live (
        ap (λ (r : Region). view c.sizing r (bucket_id_of c.sizing fp) key)
          (region_at-create main slots (region_id_of fp) (region_id_of-lt fp))
        ∙ view-blank c.sizing (next_pow2 (max 1 main)) (max 1 slots) (bucket_id_of c.sizing fp) key)
