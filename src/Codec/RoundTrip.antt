-- ===== src/Codec/RoundTrip.antt =====
-- `decode` undoes `encode`, the other way round, and which offsets can be encoded.
use hiom.Prelude.{
  ℕ, ◌+◌, ◌-◌, ◌*◌, ◌/◌, ◌^◌, ◌%◌, ◌<◌, ◌≤◌, ◌≡◌, ◌≢◌, arith, some, shr, and_mask, sym, ap, ◌∙◌,
  get_or,
}
use hiom.Codec.{
  encode, decode, BlockBaseMap, base_of, pack_fields, invalid_compact_offset, num_regions,
}
use hiom.Codec.Packing.{pack_fields-sum, fields_apart}

-- The block lies in the region's window, and the page and the slot fit their fields.
pub record Fits (block page data_offset region : ℕ) (base_map : BlockBaseMap) : Type 0 where
  pub region_known : region < num_regions
  pub above_base : base_of base_map region ≤ block
  pub in_window : block - base_of base_map region < 2 ^ 21
  pub page_fits : page < 2 ^ 3
  pub slot_fits : data_offset < 2 ^ 8

module _ (block page data_offset region : ℕ) (base_map : BlockBaseMap) where
  abbrev low : ℕ
  low = block - base_of base_map region

  encode-some :
      (x : ℕ)
      → encode block page data_offset region base_map ≡ some x
      → Fits block page data_offset region base_map
        × (x ≡ pack_fields low page data_offset)
        × (x ≢ invalid_compact_offset)
  unfolding encode
  encode-some x h = ground arith

  encode-Fits :
      Fits block page data_offset region base_map
      → pack_fields low page data_offset ≢ invalid_compact_offset
      → encode block page data_offset region base_map ≡ some (pack_fields low page data_offset)
  unfolding encode
  encode-Fits f ne = ground arith

  -- What `encode` returns fits 32 bits, is not the reserved word, and decodes, with the same region
  -- and base map, to the block, the page and the slot that were encoded.
  pub decode-encode :
      (x : ℕ)
      → block < 2 ^ 64
      → encode block page data_offset region base_map ≡ some x
      → (x < 2 ^ 32)
        × (x ≢ invalid_compact_offset)
        × (decode x region base_map
            ≡ record { block_number = block; page_number = page; data_offset = data_offset })
  unfolding decode
  decode-encode x hb h =
      let (f, packed, ne) = encode-some x h in
      let e = packed ∙ pack_fields-sum low page data_offset f.in_window f.page_fits f.slot_fits in
      let (b, p, d) = fields_apart low page data_offset f.in_window f.page_fits f.slot_fits in
      (
        omega (arith, e, f.in_window, f.page_fits, f.slot_fits),
        ne,
        rw e (ground (arith, b, p, d, f.region_known, f.above_base)),
      )

  -- A slot of a page below 6 in the region's window is always encoded: the reserved word, which
  -- `encode` refuses, is reached from page 7 only.
  pub encode-total :
      Fits block page data_offset region base_map
      → page < 6
      → encode block page data_offset region base_map ≡ some (low * 2048 + page * 256 + data_offset)
  encode-total f small =
      let e = pack_fields-sum low page data_offset f.in_window f.page_fits f.slot_fits in
      encode-Fits f (omega (arith, e, f.in_window, f.slot_fits)) ∙ ap some e

base_of-lt :
    (base_map : BlockBaseMap) (region : ℕ)
    → get_or base_map region 0 < 2 ^ 32
    → base_of base_map region + 2 ^ 21 ≤ 2 ^ 53
unfolding base_of
base_of-lt base_map region h = omega arith

-- The fields that `decode` reads, as arithmetic.
decode_fields :
    (x region : ℕ) (base_map : BlockBaseMap)
    → x < 2 ^ 32
    → region < num_regions
    → get_or base_map region 0 < 2 ^ 32
    → decode x region base_map ≡ record {
      block_number = base_of base_map region + x / 2048;
      page_number = x / 256 % 8;
      data_offset = x % 256;
    }
unfolding decode
decode_fields x region base_map hx hr entry = ground (
  arith,
  and_mask 21 (shr x 11),
  and_mask 3 (shr x 8),
  and_mask 8 x,
  base_of-lt base_map region entry,
)

-- Every 32-bit word but the reserved one is the code of what it decodes to, in each of the 32
-- regions, where the region's entry of the base map is a 32-bit number.
pub encode-decode :
    (x region : ℕ) (base_map : BlockBaseMap)
    → x < 2 ^ 32
    → x ≢ invalid_compact_offset
    → region < num_regions
    → get_or base_map region 0 < 2 ^ 32
    → let d = decode x region base_map in
      encode d.block_number d.page_number d.data_offset region base_map ≡ some x
encode-decode x region base_map hx ne hr entry = rw (decode_fields x region base_map hx hr entry) (
    encode-Fits (base + x / 2048) (x / 256 % 8) (x % 256) region base_map fits
      (λ e. ne (sym whole ∙ e))
    ∙ ap some whole)
  where
    base : ℕ
    base = base_of base_map region

    fits : Fits (base + x / 2048) (x / 256 % 8) (x % 256) region base_map
    fits = record {
      region_known = hr;
      above_base = omega arith;
      in_window = omega arith;
      page_fits = omega arith;
      slot_fits = omega arith;
    }

    whole : pack_fields (base + x / 2048 - base) (x / 256 % 8) (x % 256) ≡ x
    whole = omega (
      arith,
      pack_fields-sum (base + x / 2048 - base) (x / 256 % 8) (x % 256) (omega arith) (omega arith)
          (omega arith),
    )
