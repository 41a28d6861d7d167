-- ===== src/Tests/Recovery.antt =====
-- The checkpoint file.
use hiom.Prelude.{◌≡◌, refl, some, none, ℕ}
use hiom.Checkpoint.{
  CheckpointRecord, zero_record, create, stamp, write, read_slot, read_valid, store_slot,
  target_slot, flip,
}
use hiom.Checkpoint.History.{
  created, wrote, torn, damaged, read_valid-write, read_valid-History, read_valid_fallback,
}

abbrev rec : ℕ → ℕ → CheckpointRecord
rec seq frontier = record zero_record { seq = seq; vpage_frontier = frontier }

read_valid-write_example : read_valid (write create (rec 1 4096)) ≡ some (stamp (rec 1 4096))
read_valid-write_example = read_valid-write create (rec 1 4096)

read_valid-History_example :
    read_valid
      (store_slot (write create (rec 2 8192)) (target_slot (write create (rec 2 8192))) (rec 9 1))
    ≡ some (stamp (rec 2 8192))
read_valid-History_example = read_valid-History (torn (wrote created (rec 2 8192)) (rec 9 1))

unreadable :
    read_slot
      (damaged create (rec 1 4096) (rec 2 8192) zero_record)
      (damaged create (rec 1 4096) (rec 2 8192) zero_record).valid_pointer
    ≡ none
unfolding damaged write create store_slot target_slot flip stamp read_slot
unreadable = refl

read_valid_fallback_example :
    read_valid (damaged create (rec 1 4096) (rec 2 8192) zero_record) ≡ some (stamp (rec 1 4096))
read_valid_fallback_example =
    read_valid_fallback create (rec 1 4096) (rec 2 8192) zero_record unreadable
