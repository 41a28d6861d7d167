-- ===== src/Codec/Offset.antt =====
-- The 8-byte offset: its three bit fields are read back as they were written.
use hiom.Prelude.{
  ℕ, ◌+◌, ◌*◌, ◌^◌, ◌%◌, ◌<◌, ◌≡◌, arith, shl, shr, mask, bit_or, and_mask, or_fields, ◌==◌, ◌&&◌,
}
use hiom.Codec.{key_value_offset, get_offsets, is_tombstone}

pub key_value_offset-sum :
    (block page slot : ℕ)
    → block < 2 ^ 45
    → page < 2 ^ 3
    → slot < 2 ^ 16
    → key_value_offset block page slot ≡ (slot * 8 + page) * 2 ^ 45 + block
unfolding key_value_offset
key_value_offset-sum block page slot hb hp hs =
    let inner : bit_or (shl (slot % 2 ^ 16) 3) (page % 2 ^ 3) ≡ slot * 8 + page =
      omega (arith, or_fields 3 (slot % 2 ^ 16) (page % 2 ^ 3) (omega arith)) in
    rw inner (omega (arith, or_fields 45 (slot * 8 + page) (block % 2 ^ 45) (omega arith)))

-- `get_offsets` returns the block, the page and the slot that the constructor was given, where each
-- fits its field, and the offset is the tombstone exactly where all three fields are at their maximum.
pub get_offsets-key_value_offset :
    (block page slot : ℕ)
    → block < 2 ^ 45
    → page < 2 ^ 3
    → slot < 2 ^ 16
    → (get_offsets (key_value_offset block page slot) ≡ (block, page, slot))
      × (is_tombstone (key_value_offset block page slot)
          ≡ (block == mask 45 && (page == mask 3 && slot == mask 16)))
unfolding get_offsets is_tombstone
get_offsets-key_value_offset block page slot hb hp hs =
    let x = key_value_offset block page slot in
    let e = key_value_offset-sum block page slot hb hp hs in
    let b = and_mask 45 x in
    let p = and_mask 3 (shr x 45) in
    let s = and_mask 16 (shr x 48) in (ground (arith, e, b, p, s), ground (arith, e))

-- An offset of 64 bits is made again from its three fields.
pub key_value_offset-get_offsets :
    (off : ℕ)
    → off < 2 ^ 64
    → key_value_offset (get_offsets off).0 (get_offsets off).1 (get_offsets off).2 ≡ off
unfolding get_offsets
key_value_offset-get_offsets off h =
    let b = and_mask 45 off in
    let p = and_mask 3 (shr off 45) in
    let s = and_mask 16 (shr off 48) in
    let (block, page, slot) = get_offsets off in
    omega (
      arith,
      b,
      p,
      s,
      key_value_offset-sum block page slot (omega (arith, b)) (omega (arith, p)) (omega (arith, s)),
    )
