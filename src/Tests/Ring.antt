-- ===== src/Tests/Ring.antt =====
-- The ring of pending blocks, with one entry of block 65541 in its slot 5.
use native.Mathlib.Decide.{ℕ_discrete}
use hiom.Prelude.{some, ℕ, count_if}
use hiom.Codec.{key_value_offset}
use hiom.CommitBuffer.Queue.{CommitEntry, put}
use hiom.HotTier.Table.{no_ref}
use hiom.Facade.Batch.{HiomState, retire_each, try_write_checkpoint}
use hiom.Facade.Replay.{visits, tail_chunks, checkpoint_record}
use hiom.Facade.Protocol.{
  Protocol, Unregistered, Steps, start, next, announce, persist, register, IsCovered, IsLacking,
}
use hiom.Facade.Covered.{visits-Steps}
use hiom.Facade.Frontier.{tail_chunks-try_write_checkpoint}
use hiom.Facade.Retire.{RetiredSpec, retire_each-RetiredSpec}
use hiom.Prelude.{
  ◌∷◌, [], ◌≡◌, refl, inl, inr, false, if◌then◌else◌, arith, ◌==◌, ◌*◌, ◌^◌, ◌+◌, List, true,
}
use hiom.Pending.{
  PendingBlocks, window, block_of, count_of, slot_of, pending_register, Outcome, done,
}
use hiom.Pending.Counts.{IsValid, count_at}
use hiom.Pending.Clients.{ClientSlot, note_inflight_block}

abbrev one_pending : PendingBlocks
one_pending = record { slot = λ i. if i == 5 then 65541 * 2 ^ 32 + 1 else 0; retire_gen = 0 }

one_pending-IsValid : IsValid one_pending
unfolding block_of count_of slot_of window
one_pending-IsValid = record {
  word = λ i. ground arith;
  place = λ i. elim (ℕ_discrete i 5) [
    | yes e ↦ rw e (inr refl)
    | no ne ↦ let off : (i == 5) ≡ false = ground arith in rw off (inl refl)
  ];
}

one_there : count_at one_pending 65541 ≡ 1
unfolding count_at block_of count_of slot_of window
one_there = refl

abbrev two_clients : List ClientSlot
two_clients =
    record { last_block = 9; inflight_block = 7; active = true }
    ∷ record { last_block = 3; inflight_block = 4; active = false }
    ∷ []

-- Its entry, at page 2 and slot 7.
abbrev applied : List CommitEntry
applied =
    record {
      op = put;
      fp64 = 77;
      key_id = 1;
      off = key_value_offset 65541 2 7;
      hot_slot = no_ref;
      seq = 65536;
    }
    ∷ []

retire_each-RetiredSpec_example : RetiredSpec one_pending applied (retire_each applied one_pending)
retire_each-RetiredSpec_example = retire_each-RetiredSpec applied one_pending one_pending-IsValid

abbrev pub at_work : HiomState
at_work = record {
  hot = record {
    num_buckets = 1;
    buckets = [];
    metas = [];
    size = 0;
    eviction_count = 0;
    pin_failures = 0;
  };
  cold = hiom.ColdTier.Layout.create 3 2;
  checkpoint = some hiom.Checkpoint.create;
  pending = one_pending;
  clients = two_clients;
  flushed_count = 10;
  seq = 4;
  base_map = [];
  cadence_entries = 100;
  vpage_frontier = key_value_offset 65600 0 0;
}

tail_chunks-try_write_checkpoint_example :
    visits (tail_chunks (checkpoint_record (try_write_checkpoint at_work).checkpoint) 65610 4) 65541
    ≡ 1
tail_chunks-try_write_checkpoint_example =
    tail_chunks-try_write_checkpoint at_work 65541 65610 4 one_pending-IsValid
      (inl (omega (arith, one_there))) (omega arith)

abbrev pub empty_ring : PendingBlocks
empty_ring = record { slot = λ _. 0; retire_gen = 0 }

pub empty_ring-IsValid : IsValid empty_ring
unfolding block_of count_of slot_of window
empty_ring-IsValid = record { word = λ i. omega arith; place = λ i. inl refl }

pub empty_count : (b : ℕ) → count_at empty_ring b ≡ 0
unfolding count_at block_of count_of slot_of window
empty_count b = ground arith

abbrev idle : Protocol
idle = record {
  hiom_state = record at_work { pending = empty_ring };
  waiting = [];
  registered = [];
}

idle-IsCovered : IsCovered idle
unfolding count_if
idle-IsCovered = record { valid = empty_ring-IsValid; counted = empty_count; announced = tt }

abbrev nine : Unregistered
nine = record { client = 0; block = 9 }

abbrev ring_of : Outcome → PendingBlocks
ring_of (done r) = r
ring_of _ = empty_ring

abbrev pub nine_ring : PendingBlocks
nine_ring = ring_of (pending_register 9 empty_ring)

nine_done : pending_register 9 empty_ring ≡ done nine_ring
unfolding pending_register count_of
nine_done = refl

-- Client 0 announces block 8, writes a record into block 9 and registers it.
abbrev one_put : Protocol
one_put = record {
  hiom_state = record at_work {
    clients = note_inflight_block two_clients 0 8;
    pending = nine_ring;
  };
  waiting = [];
  registered = 9 ∷ [];
}

one_put-Steps : Steps idle one_put
unfolding note_inflight_block
one_put-Steps =
    next (next (next start (announce 0 8 tt)) (persist 0 9 refl (omega arith)))
      (register nine [] [] nine_ring refl nine_done)

nine-IsLacking : IsLacking one_put 9
unfolding count_if
nine-IsLacking = inr (omega arith)

visits-Steps_example :
    visits
      (tail_chunks (checkpoint_record (try_write_checkpoint one_put.hiom_state).checkpoint) 20 4)
      9
    ≡ 1
visits-Steps_example = visits-Steps 9 20 4 idle-IsCovered one_put-Steps nine-IsLacking (omega arith)
