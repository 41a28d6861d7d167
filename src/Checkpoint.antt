-- ===== src/Checkpoint.antt =====
-- include/viper/hiom/checkpoint.hpp: the two record slots and the valid pointer of the checkpoint
-- file, as the 64-bit words that they hold. Opening and mapping the file is not modelled.
pub mod History
use hiom.Prelude.{
  ℕ, ◌+◌, ◌*◌, ◌/◌, ◌^◌, ◌%◌, Bool, Option, none, some, List, [], ◌∷◌, ◌++◌, ◌==◌, ◌&&◌, not,
  if◌then◌else◌, bit_xor,
}

pub record CheckpointRecord : Type 0 where
  pub magic : ℕ
  pub seq : ℕ
  pub flushed_count : ℕ
  pub vpage_frontier : ℕ
  pub cold_size : ℕ
  pub reserved_0 : ℕ
  pub reserved_1 : ℕ
  pub summary_hash : ℕ

abbrev pub magic_word : ℕ
magic_word = 0x484f_4d5f_4348_5054

unfoldable pub proto_version : CheckpointRecord → ℕ
proto_version rec = rec.reserved_0

-- The bytes of a 64-bit word, lowest first.
abbrev le_bytes : ℕ → List ℕ
le_bytes w =
    w % 256
    ∷ w / 2 ^ 8 % 256
    ∷ w / 2 ^ 16 % 256
    ∷ w / 2 ^ 24 % 256
    ∷ w / 2 ^ 32 % 256
    ∷ w / 2 ^ 40 % 256
    ∷ w / 2 ^ 48 % 256
    ∷ w / 2 ^ 56 % 256
    ∷ []

-- The 56 bytes in front of `summary_hash`.
hashed_bytes : CheckpointRecord → List ℕ
hashed_bytes rec =
    le_bytes rec.magic
    ++ le_bytes rec.seq
    ++ le_bytes rec.flushed_count
    ++ le_bytes rec.vpage_frontier
    ++ le_bytes rec.cold_size
    ++ le_bytes rec.reserved_0
    ++ le_bytes rec.reserved_1

-- FNV-1a, 64 bits.
fnv_from : ℕ → List ℕ → ℕ
fnv_from h [] = h
fnv_from h (b ∷ bs) = fnv_from (bit_xor h b * 0x100_0000_01b3 % 2 ^ 64) bs

unfoldable pub compute_hash : CheckpointRecord → ℕ
unfolding hashed_bytes fnv_from
compute_hash rec = fnv_from 0xcbf2_9ce4_8422_2325 (hashed_bytes rec)

-- The file: the valid pointer in front, then slot A and slot B.
pub record PmFile : Type 0 where
  pub valid_pointer : ℕ
  pub slot_a : CheckpointRecord
  pub slot_b : CheckpointRecord

abbrev pub slot_a_id : ℕ
slot_a_id = 0

abbrev pub slot_b_id : ℕ
slot_b_id = 1

abbrev pub valid_none : ℕ
valid_none = 0xffff_ffff_ffff_ffff

abbrev pub zero_record : CheckpointRecord
zero_record = record {
  magic = 0;
  seq = 0;
  flushed_count = 0;
  vpage_frontier = 0;
  cold_size = 0;
  reserved_0 = 0;
  reserved_1 = 0;
  summary_hash = 0;
}

-- The file that `create` leaves: all zero, and no checkpoint.
unfoldable pub create : PmFile
create = record { valid_pointer = valid_none; slot_a = zero_record; slot_b = zero_record }

-- `magic` and `summary_hash` are filled in by `write`.
unfoldable pub stamp : CheckpointRecord → CheckpointRecord
stamp rec =
    let marked : CheckpointRecord = record rec { magic = magic_word } in
    record marked { summary_hash = compute_hash marked }

-- The slot that the valid pointer does not select.
unfoldable pub target_slot : PmFile → ℕ
target_slot pm = if pm.valid_pointer == slot_a_id then slot_b_id else slot_a_id

-- The copy of a record into a slot.
unfoldable pub store_slot : PmFile → ℕ → CheckpointRecord → PmFile
store_slot pm which rec =
    if which == slot_a_id then record pm { slot_a = rec } else record pm { slot_b = rec }

unfoldable pub flip : PmFile → ℕ → PmFile
flip pm which = record pm { valid_pointer = which }

unfoldable pub write : PmFile → CheckpointRecord → PmFile
unfolding stamp target_slot store_slot flip
write pm rec = let target = target_slot pm in flip (store_slot pm target (stamp rec)) target

unfoldable pub read_slot : PmFile → ℕ → Option CheckpointRecord
read_slot pm which =
    let rec : CheckpointRecord = if which == slot_a_id then pm.slot_a else pm.slot_b in
    if not (rec.magic == magic_word)
    then none
    else if not (rec.summary_hash == compute_hash rec)
    then none
    else some rec

unfoldable pub read_valid : PmFile → Option CheckpointRecord
unfolding read_slot
read_valid pm =
    let vp = pm.valid_pointer in
    if vp == valid_none
    then none
    else if not (vp == slot_a_id) && not (vp == slot_b_id)
    then none
    else elim (read_slot pm vp) [
      | some rec ↦ some rec
      | none ↦ read_slot pm (if vp == slot_a_id then slot_b_id else slot_a_id)
    ]

unfoldable pub read_both : PmFile → Option CheckpointRecord × Option CheckpointRecord
unfolding read_slot
read_both pm = (read_slot pm slot_a_id, read_slot pm slot_b_id)
