-- ===== src/Tests/Batches.antt =====
-- A batch of the commit buffer, and the table of the hot tier that it meets.
use hiom.Prelude.{
  ◌≡◌, ℕ, ◌==◌, if◌then◌else◌, ltb, List, [], ◌∷◌, Option, some, none, true, replicate,
}
use hiom.Codec.{BlockBaseMap}
use hiom.CommitBuffer.Queue.{CommitEntry, Op, put, remove, count_in}
use hiom.HotTier.Layout.{no_meta}
use hiom.HotTier.Table.{HotTier}
use hiom.Facade.Winner.{winner, winners}
use hiom.Facade.Picked.{WinnerSpec, winner-WinnerSpec}
use hiom.Facade.Coalesce.{is_entry, live_entry}
use hiom.Facade.Order.{stable_sort, winners-stable_sort}

-- Slot 3 of the one bucket is pinned.
abbrev hot : HotTier
hot = record {
  num_buckets = 1;
  buckets = replicate 16 0 ∷ [];
  metas = record no_meta { state = 0x40 } ∷ [];
  size = 0;
  eviction_count = 0;
  pin_failures = 0;
}

abbrev base_map : BlockBaseMap
base_map = replicate 32 0

abbrev slot_key : ℕ → Option ℕ
slot_key off = if off == 640 then some 1 else none

abbrev entry : Op → ℕ → ℕ → ℕ → CommitEntry
entry op key_id off seq = record {
  op = op;
  fp64 = 77;
  key_id = key_id;
  off = off;
  hot_slot = record { bucket_idx = 0; slot_idx = 3; valid = true };
  seq = seq;
}

-- Key 1 was moved from 704, and key 2 is removed.
abbrev batch : List CommitEntry
batch = entry put 1 704 65537 ∷ entry put 1 640 65536 ∷ entry remove 2 0 65538 ∷ []

winner-WinnerSpec_example :
    WinnerSpec slot_key hot base_map 1 batch (winner slot_key hot base_map 1 batch)
winner-WinnerSpec_example = winner-WinnerSpec slot_key hot base_map 1 batch

winners-stable_sort_example :
    count_in (is_entry 77 1) (winners slot_key hot base_map (stable_sort batch))
    ≡ (if ltb 0 (count_in (live_entry slot_key 77 1) batch) then 1 else 0)
winners-stable_sort_example = winners-stable_sort slot_key hot base_map 77 1 batch
