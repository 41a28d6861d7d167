-- ===== src/Codec/Packing.antt =====
-- The packed word of `encode` and the fields of `decode`, as arithmetic.
use hiom.Prelude.{
  ℕ, ◌+◌, ◌*◌, ◌^◌, ◌<◌, ◌≡◌, ap, ap₂, arith, or_fields, and_mask, shl, shr, bit_and, bit_or, mask,
  ◌∙◌,
}
use hiom.Codec.{pack_fields, u32}

fields_sum :
    (l p d : ℕ)
    → p < 2 ^ 3
    → d < 2 ^ 8
    → bit_or (bit_or (shl l 11) (shl p 8)) d ≡ l * 2048 + p * 256 + d
fields_sum l p d hp hd = omega (
  arith,
  or_fields 11 l (p * 256) (omega arith),
  or_fields 8 (l * 8 + p) d hd,
  ap (λ (t : ℕ). bit_or t d) {x = bit_or (shl l 11) (shl p 8)} {y = shl (l * 8 + p) 8}
      (omega (arith, or_fields 11 l (p * 256) (omega arith))),
)

pub pack_fields-sum :
    (low page data_offset : ℕ)
    → low < 2 ^ 21
    → page < 2 ^ 3
    → data_offset < 2 ^ 8
    → pack_fields low page data_offset ≡ low * 2048 + page * 256 + data_offset
unfolding pack_fields
pack_fields-sum low page data_offset hl hp hd =
    let top : u32 (shl (u32 low) 11) ≡ shl low 11 = omega arith in
    let middle : u32 (shl (bit_and page (mask 3)) 8) ≡ shl page 8 =
      omega (arith, and_mask 3 page) in
    ap₂ (λ (x y : ℕ). bit_or (bit_or x y) data_offset) top middle
    ∙ fields_sum low page data_offset hp hd

-- Three fields that fit are read back from the sum.
pub fields_apart :
    (low page data_offset : ℕ)
    → low < 2 ^ 21
    → page < 2 ^ 3
    → data_offset < 2 ^ 8
    → let x = low * 2048 + page * 256 + data_offset in
      (bit_and (shr x 11) (mask 21) ≡ low)
      × (bit_and (shr x 8) (mask 3) ≡ page)
      × (bit_and x (mask 8) ≡ data_offset)
fields_apart low page data_offset hl hp hd =
    let x = low * 2048 + page * 256 + data_offset in
    (
      omega (arith, and_mask 21 (shr x 11)),
      omega (arith, and_mask 3 (shr x 8)),
      omega (arith, and_mask 8 x),
    )
