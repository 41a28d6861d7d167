-- ===== src/ColdTier/Header.antt =====
-- The header word that links an overflow bucket to the end of a chain.
use hiom.Prelude.{
  ◌≡◌, ℕ, set_bit, ◌<◌, ◌^◌, shr-or, bit_or, shl, or-lt, bit, bit_and, ◌%◌, arith, ◌∙◌, and_mask,
  bit-or, ap, zero_or, bit-and, shr, bit-mask, shl_one-lt, bit-shl, or_zero,
}
use hiom.ColdTier.Layout.{next_of, entries_per_bucket}
use hiom.ColdTier.{attach_header}

module _ (hdr idx : ℕ) (small : idx < 2 ^ 48) where
  low_half-lt : bit_or (bit_and hdr 0x7f) (shl 1 7) < 2 ^ 8
  low_half-lt = or-lt 8 (bit_and hdr 0x7f) (shl 1 7) (omega (arith, and_mask 7 hdr)) (omega arith)

  uncut : shl idx 8 % 2 ^ 64 ≡ shl idx 8
  uncut = omega arith

  low_gone : shr (bit_or (bit_and hdr 0x7f) (shl 1 7)) 8 ≡ 0
  low_gone = omega (arith, low_half-lt)

  high_kept : shr (shl idx 8 % 2 ^ 64) 8 ≡ idx
  high_kept = omega arith

  pub next_of-attach_header : next_of (attach_header hdr idx) ≡ idx
  unfolding next_of attach_header
  next_of-attach_header =
      shr-or 8 (bit_or (bit_and hdr 0x7f) (shl 1 7)) (shl idx 8 % 2 ^ 64)
      ∙ rw (low_gone, high_kept) (zero_or idx)

  pub attach_header-lt : attach_header hdr idx < 2 ^ 64
  unfolding attach_header
  attach_header-lt =
      or-lt 64 (bit_or (bit_and hdr 0x7f) (shl 1 7)) (shl idx 8 % 2 ^ 64)
        (omega (arith, low_half-lt)) (omega arith)

  pub bit-attach_header :
      (i : ℕ) → i < entries_per_bucket → bit (attach_header hdr idx) i ≡ bit hdr i
  unfolding attach_header
  bit-attach_header i h = ground (
    arith,
    bit-or (bit_or (bit_and hdr 0x7f) (shl 1 7)) (shl idx 8 % 2 ^ 64) i,
    bit-or (bit_and hdr 0x7f) (shl 1 7) i,
    bit-and hdr 0x7f i,
    bit-mask 7 i h,
    bit-shl 1 7 i h,
    ap (λ (t : ℕ). bit t i) uncut,
    bit-shl idx 8 i (omega arith),
  )

-- A bitmap bit does not touch the link.
pub next_of-set_bit : (hdr i : ℕ) → i < entries_per_bucket → next_of (set_bit hdr i) ≡ next_of hdr
unfolding next_of set_bit
next_of-set_bit hdr i h =
    shr-or 8 hdr (shl 1 i)
    ∙ ap (bit_or (shr hdr 8)) {y = 0} (omega (arith, shl_one-lt i 8 (omega arith)))
    ∙ or_zero (shr hdr 8)
