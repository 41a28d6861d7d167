-- ===== src/Codec.antt =====
-- include/viper/hiom/offset_codec.hpp: the 4-byte compact offset of the hot tier, and
-- `KeyValueOffset` of include/viper/cceh.hpp, the 8-byte offset that it stands for.
pub mod Packing
pub mod RoundTrip
pub mod Offset
use hiom.Prelude.{
  ℕ, ◌+◌, ◌-◌, ◌^◌, ◌%◌, Bool, Option, none, some, List, ltb, leb, ◌==◌, if◌then◌else◌, shl, shr,
  mask, bit_and, bit_or, get_or,
}

abbrev pub block_low_bits : ℕ
block_low_bits = 21

abbrev pub page_bits : ℕ
page_bits = 3

abbrev pub data_offset_bits : ℕ
data_offset_bits = 8

abbrev pub invalid_compact_offset : ℕ
invalid_compact_offset = 0xffff_ffff

abbrev pub num_regions : ℕ
num_regions = 32

abbrev pub u32 : ℕ → ℕ
u32 x = x % 2 ^ 32

abbrev pub u64 : ℕ → ℕ
u64 x = x % 2 ^ 64

-- `std::array<std::uint32_t, 32>`: an index below 32 is in range.
abbrev pub BlockBaseMap : Type 0
BlockBaseMap = List ℕ

-- `static_cast<std::uint64_t>(base_map[region_id]) << kBlockLowBits`
unfoldable pub base_of : BlockBaseMap → ℕ → ℕ
base_of base_map region_id = u64 (shl (get_or base_map region_id 0) block_low_bits)

-- The three fields in one word.
unfoldable pub pack_fields : ℕ → ℕ → ℕ → ℕ
pack_fields low page_number data_offset =
    bit_or
      (bit_or (u32 (shl (u32 low) (page_bits + data_offset_bits)))
        (u32 (shl (bit_and page_number (mask page_bits)) data_offset_bits)))
      data_offset

unfoldable pub encode : ℕ → ℕ → ℕ → ℕ → BlockBaseMap → Option ℕ
encode block_number page_number data_offset region_id base_map =
    let base = base_of base_map region_id in
    let low = block_number - base in
    let packed = pack_fields low page_number data_offset in
    if leb num_regions region_id
    then none
    else if ltb block_number base
    then none
    else if ltb (mask block_low_bits) low
    then none
    else if ltb (mask page_bits) page_number
    then none
    else if ltb (mask data_offset_bits) data_offset
    then none
    else if packed == invalid_compact_offset
    then none
    else some packed

pub record DecodedOffset : Type 0 where
  pub block_number : ℕ
  pub page_number : ℕ
  pub data_offset : ℕ

unfoldable pub decode : ℕ → ℕ → BlockBaseMap → DecodedOffset
decode packed region_id base_map =
    let low = bit_and (shr packed (page_bits + data_offset_bits)) (mask block_low_bits) in
    let base = if ltb region_id num_regions then base_of base_map region_id else 0 in
    record {
      block_number = u64 (base + low);
      page_number = bit_and (shr packed data_offset_bits) (mask page_bits);
      data_offset = bit_and packed (mask data_offset_bits);
    }

-- `KeyValueOffset(block, page, slot)`: bit fields of 45, 3 and 16 bits, the first one lowest.
unfoldable pub key_value_offset : ℕ → ℕ → ℕ → ℕ
key_value_offset block page slot =
    bit_or (shl (bit_or (shl (slot % 2 ^ 16) 3) (page % 2 ^ 3)) 45) (block % 2 ^ 45)

-- `get_offsets`
unfoldable pub get_offsets : ℕ → ℕ × ℕ × ℕ
get_offsets offset =
    (bit_and offset (mask 45), bit_and (shr offset 45) (mask 3), bit_and (shr offset 48) (mask 16))

-- `KeyValueOffset::INVALID`, which also serves as the tombstone.
abbrev pub invalid_offset : ℕ
invalid_offset = 0xffff_ffff_ffff_ffff

unfoldable pub is_tombstone : ℕ → Bool
is_tombstone offset = offset == invalid_offset
