-- ===== src/Pending/Clients.antt =====
-- include/viper/hiom/hiom.hpp: the slots of the clients, whose blocks also bound the frontier.
use hiom.Prelude.{
  ◌≡◌, ℕ, zero, suc, Bool, true, false, Option, some, none, List, [], ◌∷◌, get_or, set, length, ltb,
  leb, if◌then◌else◌, min, ◌+◌, ◌≤◌, arith,
}
use hiom.Pending.{no_active_block}

pub record ClientSlot : Type 0 where
  pub last_block : ℕ
  pub inflight_block : ℕ
  pub active : Bool

abbrev pub no_client : ClientSlot
no_client = record {
  last_block = no_active_block;
  inflight_block = no_active_block;
  active = false;
}

-- From slot `i` on; `none` stands for `kInvalidSlotIdx`.
unfoldable pub reserve_client_slot : ℕ → List ClientSlot → Option ℕ × List ClientSlot
reserve_client_slot i [] = (none, [])
reserve_client_slot i (s ∷ ss) =
    let (found, ss') = reserve_client_slot (i + 1) ss in
    if s.active then (found, s ∷ ss') else (some i, record no_client { active = true } ∷ ss)

abbrev pub client_at : List ClientSlot → ℕ → ClientSlot
client_at ss i = get_or ss i no_client

unfoldable pub release_client_slot : List ClientSlot → ℕ → List ClientSlot
release_client_slot ss i =
    if leb (length ss) i then ss else set ss i (record (client_at ss i) { active = false })

unfoldable pub note_client_block : List ClientSlot → ℕ → ℕ → List ClientSlot
note_client_block ss i block =
    if leb (length ss) i then ss else set ss i (record (client_at ss i) { last_block = block })

unfoldable pub note_inflight_block : List ClientSlot → ℕ → ℕ → List ClientSlot
note_inflight_block ss i block =
    if leb (length ss) i then ss else set ss i (record (client_at ss i) { inflight_block = block })

unfoldable pub min_active_writer_block : List ClientSlot → ℕ
min_active_writer_block [] = no_active_block
min_active_writer_block (s ∷ ss) =
    let rest = min_active_writer_block ss in
    let b = min s.last_block s.inflight_block in
    if s.active then (if ltb b rest then b else rest) else rest

-- What `min_active_writer_block` returns is at most the last block and at most the block in flight of
-- every active client.
pub min_active_writer_block-bounds :
    (ss : List ClientSlot) (i : ℕ)
    → (client_at ss i).active ≡ true
    → (min_active_writer_block ss ≤ (client_at ss i).last_block)
      × (min_active_writer_block ss ≤ (client_at ss i).inflight_block)
unfolding min_active_writer_block
min_active_writer_block-bounds [] i on = absurd (ground arith)
min_active_writer_block-bounds (s ∷ ss) zero on = (ground arith, ground arith)
min_active_writer_block-bounds (s ∷ ss) (suc i) on =
    let (a, b) = min_active_writer_block-bounds ss i on in (ground (arith, a), ground (arith, b))
