-- ===== src/Tests/Commits.antt =====
-- Entries on their way through the commit buffer, with a list as the queue of each lane.
use hiom.Prelude.{◌≡◌, refl, ◌+◌, ◌<◌, ◌^◌, arith, true}
use hiom.CommitBuffer.Queue.{CommitEntry, put, count_in}
use hiom.CommitBuffer.{CommitBuffer, new, lane_at, lane_of_fp64}
use hiom.CommitBuffer.Lanes.{every}
use hiom.CommitBuffer.Drain.{new-IsValid}
use hiom.Codec.{key_value_offset}
use hiom.HotTier.Table.{no_ref}
use hiom.Facade.Commit.{push_commit}
use hiom.Facade.Backed.{in_lanes, IsBacked, CommitSpec, push_commit-CommitSpec}
use hiom.Tests.Fifo.{fifo}
use hiom.Facade.Flush.{drain_to_empty_and_apply}
use hiom.Facade.Rounds.{FlushIsValid, DrainSpec}
use hiom.Facade.Emptied.{drain_to_empty_and_apply-DrainSpec}
use hiom.CommitBuffer.{lanes_mask_for_flusher}
use hiom.Facade.Batch.{HiomState}
use hiom.Checkpoint
use hiom.Prelude.{some}
use hiom.Tests.Ring.{at_work, empty_ring, empty_ring-IsValid, nine_ring}
use hiom.Facade.Retire.{is_of}
use hiom.Pending.{done, pending_register, count_of}
use hiom.Prelude.{Bool, false, List, subst}
use hiom.CommitBuffer.{push}
use hiom.Facade.Batch.{is_registered}
use hiom.Codec.{is_tombstone, get_offsets}

no_entries : (p : CommitEntry → Bool) → in_lanes fifo p (new fifo).lanes ≡ 0
unfolding in_lanes new count_in
no_entries p = refl

new-IsBacked : IsBacked fifo empty_ring (new fifo)
new-IsBacked k = omega (arith, no_entries (is_of k))

abbrev written : CommitEntry
written = record {
  op = put;
  fp64 = 77;
  key_id = 1;
  off = key_value_offset 9 2 7;
  hot_slot = no_ref;
  seq = 65536;
}

room : count_in every (lane_at fifo (new fifo) (lane_of_fp64 written.fp64)).q + 1 < 2 ^ 64
unfolding new lane_of_fp64 count_in
room = omega arith

abbrev one_waiting : CommitBuffer (List CommitEntry)
one_waiting = (push fifo 0 0 written (new fifo)).1

waiting_pushed :
    push_commit fifo true 2 0 written empty_ring (new fifo) ≡ (done nine_ring, false, one_waiting)
unfolding push_commit pending_register count_of push new lane_of_fp64 is_registered is_tombstone
    get_offsets key_value_offset
waiting_pushed = refl

counted : CommitSpec fifo written empty_ring (new fifo) (done nine_ring, false, one_waiting)
counted = subst (CommitSpec fifo written empty_ring (new fifo)) waiting_pushed (
    push_commit-CommitSpec fifo 2 0 written empty_ring (new fifo) empty_ring-IsValid
      (new-IsValid fifo) new-IsBacked (omega arith) room)

push_commit-CommitSpec_example :
    CommitSpec fifo written empty_ring
      (new fifo)
      (push_commit fifo true 2 0 written empty_ring (new fifo))
push_commit-CommitSpec_example =
    push_commit-CommitSpec fifo 2 0 written empty_ring (new fifo) empty_ring-IsValid
      (new-IsValid fifo) new-IsBacked (omega arith) room

abbrev at_flush : HiomState
at_flush = record at_work { pending = nine_ring }

one_in_lane : count_in every (lane_at fifo one_waiting 0).q < 3
unfolding push new count_in
one_in_lane = omega arith

at_flush-IsValid : FlushIsValid fifo one_waiting at_flush
at_flush-IsValid = record {
  buffer = counted.1;
  ring = counted.0;
  backed = counted.2;
  attached = (hiom.Checkpoint.create, refl);
}

one_in_lanes : in_lanes fifo every one_waiting.lanes < 2
unfolding push new count_in in_lanes
one_in_lanes = omega arith

drain_to_empty_and_apply-DrainSpec_example :
    DrainSpec fifo
      (λ _. some 1)
      3
      (lanes_mask_for_flusher 0 2)
      one_waiting
      at_flush
      (drain_to_empty_and_apply fifo (λ _. some 1) 2 3 0 2 one_waiting at_flush)
drain_to_empty_and_apply-DrainSpec_example =
    drain_to_empty_and_apply-DrainSpec fifo (λ _. some 1) 3 0 2 2 one_waiting at_flush
      at_flush-IsValid one_in_lanes (omega (arith, one_in_lanes))
