-- ===== src/Tests/Lanes.antt =====
-- The commit buffer, with a list as the queue of each lane.
use hiom.Prelude.{◌≡◌, refl, ℕ, false, Bool, List, [], ◌∷◌, ◌*◌, ◌<◌, ◌+◌, arith, ◌≤◌, ◌/◌}
use hiom.CommitBuffer.{CommitBuffer, num_lanes, new, push, lane_at, lane_of_fp64}
use hiom.CommitBuffer.Queue.{Op, CommitEntry, count_in, to_nat}
use hiom.CommitBuffer.Routing.{lane_of_fp64-region}
use hiom.CommitBuffer.Lanes.{IsValid, every, push-IsValid}
use hiom.CommitBuffer.Drain.{new-IsValid}
use hiom.CommitBuffer.Race.{Consumer, Step, update, Producer, RaceState, Steps, init}
use hiom.CommitBuffer.Starved.{IsStarved, waiting_entries, IsStarved-forever, lost_wakeup}
use hiom.ColdTier.Layout.{region_id_of}
use hiom.Tests.Fifo.{fifo}

abbrev entry : ℕ → CommitEntry
entry key = record {
  op = Op.put;
  fp64 = key;
  key_id = key;
  off = 8 * key;
  hot_slot = record { bucket_idx = 0; slot_idx = 0; valid = false };
  seq = key;
}

abbrev one_pushed : CommitBuffer (List CommitEntry)
one_pushed = (push fifo 1 3 (entry 5) (new fifo)).1

no_entries : count_in every (lane_at fifo (new fifo) 3).q ≡ 0
unfolding new count_in
no_entries = refl

lane_of_fp64-region_example :
    (lane_of_fp64 0xdead_beef_0000_0001 < num_lanes)
    × (lane_of_fp64 0xdead_beef_0000_0001 ≡ region_id_of 0xdead_beef_0000_0001 / 4)
lane_of_fp64-region_example = lane_of_fp64-region 0xdead_beef_0000_0001 (omega arith)

push-IsValid_example :
    IsValid fifo one_pushed
    × ((push fifo 1 3 (entry 5) (new fifo)).0 ≡ count_in every (lane_at fifo one_pushed 3).q)
    × ((p : CommitEntry → Bool)
        → count_in p (lane_at fifo one_pushed 3).q
          ≡ count_in p (lane_at fifo (new fifo) 3).q + to_nat (p (entry 5)))
push-IsValid_example =
    push-IsValid fifo 1 3 (entry 5) (new fifo) (new-IsValid fifo) (omega arith)
      (omega (arith, no_entries))

one_pushed-IsValid : IsValid fifo one_pushed
one_pushed-IsValid =
    (push-IsValid fifo 1 3 (entry 5) (new fifo) (new-IsValid fifo) (omega arith)
      (omega (arith, no_entries))).0

one_entry : count_in every (lane_at fifo one_pushed 3).q ≡ 1
unfolding new push count_in
one_entry = refl

lost_wakeup_example :
    (s : RaceState (List CommitEntry)) × Steps fifo (init fifo) s
    × IsStarved fifo s
    × ((i : ℕ) → s.producer i ≡ Producer.idle)
lost_wakeup_example = lost_wakeup fifo (entry 1) (entry 2) (entry 3)

abbrev starved : RaceState (List CommitEntry)
starved = record {
  q = entry 3 ∷ [];
  approx_size = 1;
  flag = false;
  producer = λ i. Producer.idle;
  consumer = Consumer.waiting;
}

starved-IsStarved : IsStarved fifo starved
unfolding count_in
starved-IsStarved = record {
  entries = omega arith;
  sized = omega arith;
  dark = refl;
  asleep = refl;
  nobody = λ i. refl;
}

abbrev one_more : RaceState (List CommitEntry)
one_more = record starved {
  approx_size = 2;
  producer = update (λ i. Producer.idle) 4 (Producer.counted (entry 9) 1);
}

IsStarved-forever_example :
    IsStarved fifo one_more × (waiting_entries fifo starved ≤ waiting_entries fifo one_more)
IsStarved-forever_example =
    IsStarved-forever fifo starved-IsStarved
      (Steps.next Steps.here (Step.add 4 (entry 9) refl (omega arith)))
