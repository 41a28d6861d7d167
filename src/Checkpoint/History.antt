-- ===== src/Checkpoint/History.antt =====
-- What recovery reads, after any run of completed and interrupted writes.
use hiom.Prelude.{◌≡◌, refl, some, arith, Option, none, ◌⊎◌}
use hiom.Checkpoint.{
  CheckpointRecord, PmFile, stamp, write, read_valid, compute_hash, read_slot, store_slot, create,
  valid_none, target_slot, slot_a_id, slot_b_id,
}

compute_hash-stamp : (rec : CheckpointRecord) → compute_hash (stamp rec) ≡ (stamp rec).summary_hash
unfolding stamp compute_hash
compute_hash-stamp rec = refl

-- A completed write is what the next read returns, whatever the file held before and whatever
-- sequence numbers the records carry.
pub read_valid-write :
    (pm : PmFile) (rec : CheckpointRecord) → read_valid (write pm rec) ≡ some (stamp rec)
unfolding read_valid write
read_valid-write pm rec = ground (arith, compute_hash-stamp rec)

-- A run of writes. Where power fails before the pointer is stored, the slot that was being written
-- holds any words at all, and the checkpoint that counts is still the earlier one.
pub data History : PmFile → Option CheckpointRecord → Type 0 where
  created : History create none
  wrote :
      {pm : PmFile} {r : Option CheckpointRecord}
      → History pm r
      → (rec : CheckpointRecord) → History (write pm rec) (some (stamp rec))
  torn :
      {pm : PmFile} {r : Option CheckpointRecord}
      → History pm r
      → (junk : CheckpointRecord) → History (store_slot pm (target_slot pm) junk) r

-- The pointer selects no slot, or a slot that reads well.
abbrev Selects : PmFile → Option CheckpointRecord → Type 0
Selects pm none = pm.valid_pointer ≡ valid_none
Selects pm (some rec) =
    ((pm.valid_pointer ≡ slot_a_id) ⊎ (pm.valid_pointer ≡ slot_b_id))
    × (read_slot pm pm.valid_pointer ≡ some rec)

read_slot-stamp :
    (pm : PmFile) (rec : CheckpointRecord)
    → read_slot (write pm rec) (write pm rec).valid_pointer ≡ some (stamp rec)
unfolding read_slot write
read_slot-stamp pm rec = ground (arith, compute_hash-stamp rec)

write-Selects : (pm : PmFile) (rec : CheckpointRecord) → Selects (write pm rec) (some (stamp rec))
unfolding write
write-Selects pm rec = (ground arith, read_slot-stamp pm rec)

torn-Selects :
    (pm : PmFile) (junk : CheckpointRecord) (r : Option CheckpointRecord)
    → Selects pm r
    → Selects (store_slot pm (target_slot pm) junk) r
unfolding store_slot target_slot read_slot
torn-Selects pm junk none h = ground arith
torn-Selects pm junk (some rec) h = ground arith

History-Selects : {pm : PmFile} {r : Option CheckpointRecord} → History pm r → Selects pm r
unfolding create
History-Selects created = refl
History-Selects (wrote {pm} h rec) = write-Selects pm rec
History-Selects (torn {pm} {r} h junk) = torn-Selects pm junk r (History-Selects h)

read_valid-Selects : (pm : PmFile) (r : Option CheckpointRecord) → Selects pm r → read_valid pm ≡ r
unfolding read_valid
read_valid-Selects pm none h = ground arith
read_valid-Selects pm (some rec) h = ground arith

-- After any run of writes, each of which may have been cut short by a crash at any point before its
-- pointer store, with any words left in the slot, recovery reads exactly the record of the last
-- completed write, or nothing if none was completed.
pub read_valid-History :
    {pm : PmFile} {r : Option CheckpointRecord} → History pm r → read_valid pm ≡ r
read_valid-History {pm} {r} h = read_valid-Selects pm r (History-Selects h)

-- Two completed writes, and then other words in the slot of the second.
unfoldable pub damaged : PmFile → CheckpointRecord → CheckpointRecord → CheckpointRecord → PmFile
damaged pm old new junk =
    let after = write (write pm old) new in store_slot after after.valid_pointer junk

-- Where the newest slot no longer reads well after two completed writes, recovery falls back to the
-- record of the first of them.
pub read_valid_fallback :
    (pm : PmFile) (old new junk : CheckpointRecord)
    → read_slot (damaged pm old new junk) (damaged pm old new junk).valid_pointer ≡ none
    → read_valid (damaged pm old new junk) ≡ some (stamp old)
unfolding damaged read_valid write
read_valid_fallback pm old new junk h = ground (arith, compute_hash-stamp old)
