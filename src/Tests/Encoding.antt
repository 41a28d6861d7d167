-- ===== src/Tests/Encoding.antt =====
-- The compact offset and the 8-byte offset.
use hiom.Prelude.{◌≡◌, refl, some, ◌∷◌, arith, ◌<◌, replicate, ◌^◌, ◌≢◌, false}
use hiom.Codec.{
  BlockBaseMap, encode, decode, key_value_offset, get_offsets, is_tombstone, pack_fields, base_of,
  invalid_compact_offset, DecodedOffset,
}
use hiom.Codec.RoundTrip.{Fits, decode-encode, encode-decode}
use hiom.Codec.Offset.{get_offsets-key_value_offset}

-- Region 2 starts at block 3 * 2 ^ 21.
abbrev bases : BlockBaseMap
bases = 0 ∷ 1 ∷ 3 ∷ replicate 29 0

encoded : encode 6291461 2 7 2 bases ≡ some 10759
unfolding encode base_of pack_fields
encoded = refl

bases_fit : Fits 6291461 2 7 2 bases
unfolding base_of
bases_fit = record {
  region_known = omega arith;
  above_base = omega arith;
  in_window = omega arith;
  page_fits = omega arith;
  slot_fits = omega arith;
}

decode-encode_example :
    (10759 < 2 ^ 32)
    × (10759 ≢ invalid_compact_offset)
    × (decode 10759 2 bases ≡ record { block_number = 6291461; page_number = 2; data_offset = 7 })
decode-encode_example = decode-encode 6291461 2 7 2 bases 10759 (omega arith) encoded

abbrev decoded : DecodedOffset
decoded = decode 10759 2 bases

encode-decode_example :
    encode decoded.block_number decoded.page_number decoded.data_offset 2 bases ≡ some 10759
encode-decode_example =
    encode-decode 10759 2 bases (omega arith) (omega arith) (omega arith) (omega arith)

get_offsets-key_value_offset_example :
    (get_offsets (key_value_offset 6291461 2 7) ≡ (6291461, 2, 7))
    × (is_tombstone (key_value_offset 6291461 2 7) ≡ false)
get_offsets-key_value_offset_example =
    get_offsets-key_value_offset 6291461 2 7 (omega arith) (omega arith) (omega arith)
