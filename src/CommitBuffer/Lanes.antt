-- ===== src/CommitBuffer/Lanes.antt =====
-- The sizes and the bitmap agree with the queues while operations run one at a time.
use hiom.Prelude.{
  Bool, ℕ, length, true, ◌≡◌, ◌<◌, ◌^◌, ◌+◌, bit, ltb, ◌≢◌, set, length-set, ◌∙◌, get_or-set_self,
  arith, get_or-set_ne, sym, ◌%◌, set_bit-lt, ap, bit-set_bit, if◌then◌else◌, ◌==◌, set_bit,
}
use native.Mathlib.Decide.{ℕ_discrete}
use hiom.CommitBuffer.Queue.{CommitEntry, ConcurrentQueue, to_nat}
use hiom.CommitBuffer.{Lane, CommitBuffer, lane_at, push, num_lanes, no_lane}

abbrev pub every : CommitEntry → Bool
every e = true

module _ (cq : ConcurrentQueue) where
  open cq use {Queue, count}

  -- The lane's counter is the number of its entries, and its bit says whether there are any.
  pub record LaneIsValid (b : CommitBuffer Queue) (i : ℕ) : Type 0 where
    pub counted : (lane_at cq b i).approx_size ≡ count every (lane_at cq b i).q
    pub fits : count every (lane_at cq b i).q < 2 ^ 64
    pub flagged : bit b.nonempty_mask i ≡ ltb 0 (count every (lane_at cq b i).q)

  pub record IsValid (b : CommitBuffer Queue) : Type 0 where
    pub width : length b.lanes ≡ num_lanes
    pub word : b.nonempty_mask < 2 ^ 64
    pub lane : (i : ℕ) → i < num_lanes → LaneIsValid b i

  -- A new lane and a new bitmap that agree with each other, the other lanes' bits untouched.
  pub stored-IsValid :
      (b : CommitBuffer Queue) (lane_id : ℕ) (lane' : Lane Queue) (word' : ℕ)
      → IsValid b
      → lane_id < num_lanes
      → lane'.approx_size ≡ count every lane'.q
      → count every lane'.q < 2 ^ 64
      → word' < 2 ^ 64
      → bit word' lane_id ≡ ltb 0 (count every lane'.q)
      → ((i : ℕ) → i ≢ lane_id → i < num_lanes → bit word' i ≡ bit b.nonempty_mask i)
      → IsValid (record { lanes = set b.lanes lane_id lane'; nonempty_mask = word' })
  stored-IsValid b lane_id lane' word' v hl counted fits word here others = record {
    width = length-set b.lanes lane_id lane' ∙ v.width;
    word = word;
    lane = λ i hi. elim (ℕ_discrete i lane_id) [
      | yes e ↦
          let self = get_or-set_self b.lanes lane_id lane' (no_lane cq) (omega (arith, v.width)) in
          rw e (record { counted = rw self counted; fits = rw self fits; flagged = rw self here })
      | no ne ↦
          let apart = get_or-set_ne b.lanes lane_id i lane' (no_lane cq) (λ e. ne (sym e)) in
          let old = v.lane i hi in
          record {
            counted = rw apart old.counted;
            fits = rw apart old.fits;
            flagged = rw (apart, others i ne hi) old.flagged;
          }
    ];
  }

  pub pushed : ℕ → CommitEntry → Lane Queue → Lane Queue
  pushed tok e lane = record {
    q = cq.enqueue tok e lane.q;
    approx_size = (lane.approx_size + 1) % 2 ^ 64;
  }

  push_word : ℕ → ℕ → CommitBuffer Queue → ℕ
  push_word before lane_id b =
      if before == 0 then set_bit b.nonempty_mask lane_id else b.nonempty_mask

  push_word_lem :
      (before lane_id : ℕ) (b : CommitBuffer Queue)
      → IsValid b
      → lane_id < num_lanes
      → bit b.nonempty_mask lane_id ≡ ltb 0 before
      → (push_word before lane_id b < 2 ^ 64)
        × (bit (push_word before lane_id b) lane_id ≡ true)
        × ((i : ℕ) → i ≢ lane_id → bit (push_word before lane_id b) i ≡ bit b.nonempty_mask i)
  unfolding push_word
  push_word_lem before lane_id b v hl flagged = (
    ground (arith, set_bit-lt 64 b.nonempty_mask lane_id v.word (omega arith)),
    ground (arith, bit-set_bit b.nonempty_mask lane_id lane_id),
    λ i ne. ground (arith, bit-set_bit b.nonempty_mask lane_id i),
  )

  -- A push keeps the sizes and the bitmap in agreement with the queues, adds one copy of its entry
  -- to its lane, and returns the lane's new depth, where fewer than 2 ^ 64 - 1 entries wait.
  pub push-IsValid :
      (tok lane_id : ℕ) (e : CommitEntry) (b : CommitBuffer Queue)
      → IsValid b
      → lane_id < num_lanes
      → count every (lane_at cq b lane_id).q + 1 < 2 ^ 64
      → let (depth, b') = push cq tok lane_id e b in
        IsValid b'
        × (depth ≡ count every (lane_at cq b' lane_id).q)
        × ((p : CommitEntry → Bool)
            → count p (lane_at cq b' lane_id).q ≡ count p (lane_at cq b lane_id).q + to_nat (p e))
  unfolding push pushed push_word
  push-IsValid tok lane_id e b v hl room =
      let old = v.lane lane_id hl in
      let lane = lane_at cq b lane_id in
      let added = cq.count-enqueue every tok e lane.q in
      let (word, here, others) =
        push_word_lem lane.approx_size lane_id b v hl
          (old.flagged ∙ ap (ltb 0) (sym old.counted)) in
      let same =
        get_or-set_self b.lanes lane_id (pushed tok e lane) (no_lane cq) (omega (arith, v.width)) in
      (
        stored-IsValid b lane_id (pushed tok e lane) (push_word lane.approx_size lane_id b) v hl
            (omega (arith, added, old.counted)) (omega (arith, added)) word
            (ground (arith, here, added)) (λ i ne _. others i ne),
        rw same (omega (arith, added, old.counted)),
        λ p. rw same (cq.count-enqueue p tok e lane.q),
      )
