-- ===== src/ColdTier/Layout.antt =====
-- include/viper/hiom/cold_tier.hpp: entries, buckets, regions, and the routing of a fingerprint.
use hiom.Prelude.{
  suc, zero, ℕ, ◌+◌, ◌-◌, ◌*◌, ◌^◌, ◌%◌, Bool, List, bit, bit_and, bit_xor, shr, replicate, leb,
  if◌then◌else◌, max, ◌/◌, ◌==◌,
}

abbrev pub num_regions : ℕ
num_regions = 32

abbrev pub entries_per_bucket : ℕ
entries_per_bucket = 7

abbrev pub tombstone_offset : ℕ
tombstone_offset = 0xffff_ffff_ffff_ffff

abbrev pub no_overflow : ℕ
no_overflow = 0

pub record Entry : Type 0 where
  pub key_id : ℕ
  pub offset : ℕ

abbrev pub no_entry : Entry
no_entry = record { key_id = 0; offset = 0 }

-- Bits 0 to 6 of the header are the occupancy bitmap, bit 7 says that there is an overflow bucket,
-- and the bits from 8 on are its index.
pub record Bucket : Type 0 where
  pub header : ℕ
  pub entries : List Entry

abbrev pub zero_bucket : Bucket
zero_bucket = record { header = 0; entries = replicate entries_per_bucket no_entry }

-- `RegionHeader`, then the main buckets, a bucket that is never used, and the overflow buckets.
pub record Region : Type 0 where
  pub num_entries : ℕ
  pub next_overflow_alloc : ℕ
  pub buckets : List Bucket

pub record Sizing : Type 0 where
  pub main_buckets : ℕ
  pub overflow_slots : ℕ

pub record ColdTier : Type 0 where
  pub sizing : Sizing
  pub regions : List Region

unfoldable pub slot_published : ℕ → ℕ → Bool
slot_published hdr i = bit hdr i

unfoldable pub next_of : ℕ → ℕ
next_of hdr = shr hdr 8

unfoldable pub region_id_of : ℕ → ℕ
region_id_of fp = bit_and (shr fp 59) (num_regions - 1)

unfoldable pub bucket_id_of : Sizing → ℕ → ℕ
bucket_id_of sizing fp =
    let mixed = bit_xor fp (shr fp 17) * 0x9e37_79b9_7f4a_7c15 % 2 ^ 64 in
    bit_and (bit_xor mixed (shr mixed 27)) (sizing.main_buckets - 1)

-- The position of overflow bucket `idx` behind the main buckets.
unfoldable pub overflow_bucket_of : Sizing → ℕ → ℕ
overflow_bucket_of sizing idx = sizing.main_buckets + idx

-- `64 - __builtin_clzll(v)`: the number of binary digits of `v`.
unfoldable pub bit_length : ℕ → ℕ → ℕ
bit_length zero v = 0
bit_length (suc width) v = let rest = bit_length width (v / 2) in if v == 0 then 0 else suc rest

unfoldable pub next_pow2 : ℕ → ℕ
unfolding bit_length
next_pow2 v = if leb v 1 then 1 else 2 ^ bit_length 64 (v - 1)

-- The table that `create` lays out, all zero.
unfoldable pub create : ℕ → ℕ → ColdTier
create main_buckets_per_region overflow_slots_per_region =
    let main = next_pow2 (max 1 main_buckets_per_region) in
    let slots = max 1 overflow_slots_per_region in
    record {
      sizing = record { main_buckets = main; overflow_slots = slots };
      regions = replicate num_regions (record {
        num_entries = 0;
        next_overflow_alloc = 0;
        buckets = replicate (main + slots + 1) zero_bucket;
      });
    }
