-- ===== src/HotTier/Layout.antt =====
-- include/viper/hiom/hot_tier.hpp: packed slots, and the words of a bucket's metadata.
use hiom.Prelude.{
  ℕ, Bool, List, true, false, bit_and, bit_or, bit_xor, bit_not, shl, shr, bit, set_bit, clear_bit,
  ◌-◌, ◌*◌, ◌^◌, ◌%◌, ◌==◌, if◌then◌else◌,
}

abbrev pub slots_per_bucket : ℕ
slots_per_bucket = 16

abbrev pub empty_fp : ℕ
empty_fp = 0

abbrev pub invalid_offset32 : ℕ
invalid_offset32 = 0xffff_ffff

-- The two bits of a slot's state.
abbrev pub unpinned : ℕ
unpinned = 0

abbrev pub pinned : ℕ
pinned = 1

abbrev pub in_flush : ℕ
in_flush = 3

-- 16 bits of `visited`, the hand in [0, 16), and 16 states of two bits.
pub record BucketMeta : Type 0 where
  pub visited : ℕ
  pub hand : ℕ
  pub state : ℕ

abbrev pub no_meta : BucketMeta
no_meta = record { visited = 0; hand = 0; state = 0 }

-- One bucket at work: its packed slots and its metadata, and the counters of the tier.
pub record Cell : Type 0 where
  pub slots : List ℕ
  pub meta : BucketMeta
  pub size : ℕ
  pub eviction_count : ℕ
  pub pin_failures : ℕ

unfoldable pub pack : ℕ → ℕ → ℕ
pack fp off = bit_or (shl fp 32) off

unfoldable pub unpack_fp : ℕ → ℕ
unpack_fp v = shr v 32 % 2 ^ 32

unfoldable pub unpack_off : ℕ → ℕ
unpack_off v = v % 2 ^ 32

-- The index of a fingerprint's bucket among `num_buckets`.
unfoldable pub bucket_index : ℕ → ℕ → ℕ
bucket_index num_buckets fingerprint =
    let h1 = bit_xor fingerprint (shr fingerprint 16) in
    let h2 = h1 * 0x085e_bca6_b9c1_cdcb % 2 ^ 64 in
    bit_and (bit_xor h2 (shr h2 13)) (num_buckets - 1)

unfoldable pub set_visited : BucketMeta → ℕ → BucketMeta
set_visited m i = if bit m.visited i then m else record m { visited = set_bit m.visited i }

unfoldable pub clear_visited : BucketMeta → ℕ → BucketMeta
clear_visited m i = if bit m.visited i then record m { visited = clear_bit 16 m.visited i } else m

unfoldable pub get_state : BucketMeta → ℕ → ℕ
get_state m i = bit_and (shr m.state (2 * i)) 0x3

-- The two bits of slot `i` in the state word.
abbrev pub field : ℕ → ℕ → ℕ
field code i = shl code (2 * i) % 2 ^ 32

unfoldable pub cas_state : BucketMeta → ℕ → ℕ → ℕ → Bool × BucketMeta
cas_state m i old new =
    if bit_and m.state (field 0x3 i) == field (bit_and old 0x3) i
    then (
      true,
      record m {
        state = bit_or (bit_and m.state (bit_not 32 (field 0x3 i))) (field (bit_and new 0x3) i);
      },
    )
    else (false, m)

unfoldable pub force_pinned : BucketMeta → ℕ → BucketMeta
force_pinned m i = record m {
  state = bit_and (bit_or m.state (field 0x1 i)) (bit_not 32 (field 0x2 i));
}

unfoldable pub force_unpinned : BucketMeta → ℕ → BucketMeta
force_unpinned m i = record m { state = bit_and m.state (bit_not 32 (field 0x3 i)) }
