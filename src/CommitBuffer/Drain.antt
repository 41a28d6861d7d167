-- ===== src/CommitBuffer/Drain.antt =====
-- Draining a lane: nothing is lost or handed over twice, and the loop empties the lane.
use hiom.Prelude.{
  arith, ℕ, get_or-replicate, ◌<◌, bit-zero, if◌then◌else◌, bit, ◌+◌, ltb, ◌≡◌, ◌&&◌, ◌≤◌, ◌^◌, ◌∙◌,
  ◌==◌, ◌-◌, ap, clear_bit, ◌≢◌, ◌%◌, sym, clear_bit-lt, get_or-set_self, bit-clear_bit, List, Bool,
  length, some, false, min, Bool-cases, length-append,
}
use hiom.Prelude.{◌≡◌, refl}
use hiom.Prelude.{suc, zero}
use hiom.Prelude.{inl, inr}
use hiom.CommitBuffer.Queue.{CommitEntry, ConcurrentQueue, count_in, count_in_all, count_in-append}
use hiom.CommitBuffer.{
  Lane, CommitBuffer, new, no_lane, lane_at, settle, try_drain_lane, drain_lane, num_lanes,
}
use hiom.CommitBuffer.Lanes.{every, IsValid, stored-IsValid}

module _ (cq : ConcurrentQueue) where
  open cq use {Queue, count}

  pub new-IsValid : IsValid cq (new cq)
  unfolding new
  new-IsValid = record {
    width = refl;
    word = omega arith;
    lane = λ i hi.
        let e = get_or-replicate num_lanes i (no_lane cq) in
        record {
          counted = rw e (omega (arith, cq.count-empty every));
          fits = rw e (omega (arith, cq.count-empty every));
          flagged = rw (e, bit-zero i, cq.count-empty every);
        };
  }

  module _ (lane_id : ℕ) (b : CommitBuffer Queue) (v : IsValid cq b)
      (hl : lane_id < num_lanes) where
    settle_word : ℕ → ℕ → ℕ
    settle_word before got =
        if ltb 0 got && before == got then clear_bit 64 b.nonempty_mask lane_id else b.nonempty_mask

    settle_word_lem :
        (before got : ℕ)
        → bit b.nonempty_mask lane_id ≡ ltb 0 before
        → got ≤ before
        → (settle_word before got < 2 ^ 64)
          × (bit (settle_word before got) lane_id ≡ ltb 0 (before - got))
          × ((i : ℕ)
              → i ≢ lane_id
              → i < num_lanes
              → bit (settle_word before got) i ≡ bit b.nonempty_mask i)
    unfolding settle_word
    settle_word_lem before got flagged le = (
      ground (arith, clear_bit-lt 64 b.nonempty_mask lane_id v.word, v.word),
      ground (arith, bit-clear_bit 64 b.nonempty_mask lane_id lane_id (omega arith) (omega arith)),
      λ i ne hi.
          ground (arith, bit-clear_bit 64 b.nonempty_mask lane_id i (omega arith) (omega arith)),
    )

    settled : ℕ → Queue → Lane Queue
    settled got rest =
        let before = (lane_at cq b lane_id).approx_size in
        record {
          q = rest;
          approx_size = if ltb 0 got then (before + 2 ^ 64 - got) % 2 ^ 64 else before;
        }

    settle-IsValid :
        (got : ℕ) (rest : Queue)
        → got + count every rest ≡ count every (lane_at cq b lane_id).q
        → IsValid cq (settle cq lane_id got rest b)
          × ((lane_at cq (settle cq lane_id got rest b) lane_id).q ≡ rest)
    unfolding settle settled settle_word
    settle-IsValid got rest sum =
        let old = v.lane lane_id hl in
        let before = (lane_at cq b lane_id).approx_size in
        let (word, here, others) =
          settle_word_lem before got (old.flagged ∙ ap (ltb 0) (sym old.counted))
            (omega (arith, old.counted)) in
        (
          stored-IsValid cq b lane_id (settled got rest) (settle_word before got) v hl
              (ground (arith, old.counted, old.fits, sum)) (omega (arith, sum, old.fits)) word
              (here ∙ ap (ltb 0) (omega (arith, sum, old.counted))) others,
          ap (λ (l : Lane Queue). l.q)
              (get_or-set_self b.lanes lane_id (settled got rest) (no_lane cq)
                (omega (arith, v.width))),
        )

    drain_step :
        (out : List CommitEntry) (max : ℕ)
        → let (got, out', b') = try_drain_lane cq lane_id out max b in
          IsValid cq b'
          × ((p : CommitEntry → Bool)
              → count_in p out' + count p (lane_at cq b' lane_id).q
                ≡ count_in p out + count p (lane_at cq b lane_id).q)
          × (length out' ≡ length out + got)
          × (0 < max → 0 < count every (lane_at cq b lane_id).q → 0 < got)
    unfolding try_drain_lane
    drain_step out zero = (v, λ p. refl, omega arith, λ h. absurd (omega arith))
    drain_step out (suc m) =
        let lane = lane_at cq b lane_id in
        let cap = min (suc m) (lane.approx_size + 64) in
        let out_rest = cq.try_dequeue_bulk cap lane.q in
        let got = length out_rest.0 in
        let some_max : (suc m == 0) ≡ false = ground arith in
        let some_cap : (cap == 0) ≡ false = ground arith in
        let sum : got + count every out_rest.1 ≡ count every lane.q =
          omega (arith, cq.count-dequeue every cap lane.q, count_in_all out_rest.0) in
        let (valid, rest) = settle-IsValid got out_rest.1 sum in
        rw (some_max, some_cap)
          (
            valid,
            λ p.
                rw rest
                  (omega (arith, cq.count-dequeue p cap lane.q, count_in-append p out out_rest.0)),
            length-append out out_rest.0,
            λ _ some. cq.length-dequeue-pos cap lane.q (omega arith) some,
          )

    -- One call on a lane: the sizes and the bitmap stay in agreement with the queues; the entries
    -- that are appended to `out`, with those that stay, are the lane's entries, as often; and the
    -- number returned counts them.
    pub try_drain_lane-IsValid :
        (out : List CommitEntry) (max : ℕ)
        → let (got, out', b') = try_drain_lane cq lane_id out max b in
          IsValid cq b'
          × ((p : CommitEntry → Bool)
              → count_in p out' + count p (lane_at cq b' lane_id).q
                ≡ count_in p out + count p (lane_at cq b lane_id).q)
          × (length out' ≡ length out + got)
    try_drain_lane-IsValid out max =
        let (valid, kept, counts, _) = drain_step out max in (valid, kept, counts)

  -- The loop over a lane, with fuel above the number of waiting entries, ends; it hands over every
  -- entry of the lane exactly once and leaves the lane empty and its bit clear.
  pub drain_lane-empties :
      (fuel lane_id per_call : ℕ) (out : List CommitEntry) (total : ℕ) (b : CommitBuffer Queue)
      → IsValid cq b
      → lane_id < num_lanes
      → 0 < per_call
      → count every (lane_at cq b lane_id).q < fuel
      → (result : ℕ × List CommitEntry × CommitBuffer Queue) × (drain_lane cq fuel lane_id per_call
            out total b
          ≡ some result)
        × IsValid cq result.2
        × (count every (lane_at cq result.2 lane_id).q ≡ 0)
        × (bit result.2.nonempty_mask lane_id ≡ false)
        × (result.0 ≡ total + count every (lane_at cq b lane_id).q)
        × ((p : CommitEntry → Bool)
            → count_in p result.1 + count p (lane_at cq result.2 lane_id).q
              ≡ count_in p out + count p (lane_at cq b lane_id).q)
  unfolding drain_lane
  drain_lane-empties zero lane_id per_call out total b v hl hp enough = absurd (omega arith)
  drain_lane-empties (suc fuel) lane_id per_call out total b v hl hp enough =
      let step = try_drain_lane cq lane_id out per_call b in
      let (valid, kept, counts, progress) = drain_step lane_id b v hl out per_call in
      let all : step.0 + count every (lane_at cq step.2 lane_id).q
          ≡ count every (lane_at cq b lane_id).q =
        omega (arith, kept every, count_in_all step.1, count_in_all out) in
      elim (Bool-cases (step.0 == 0)) [
        | inl none_left ↦
            let nothing : count every (lane_at cq b lane_id).q ≡ 0 = ground (arith, progress hp) in
            let lane_ok = valid.lane lane_id hl in
            (
              (total, step.1, step.2),
              rw none_left,
              valid,
              omega (arith, all),
              rw lane_ok.flagged (ground (arith, all)),
              omega arith,
              kept,
            )
        | inr more ↦
            let moved : 0 < step.0 = ground arith in
            let (result, run, rv, empty, clear, sum, total_kept) =
              drain_lane-empties fuel lane_id per_call step.1 (total + step.0) step.2 valid hl hp
                (omega (arith, all, moved)) in
            (
              result,
              rw more run,
              rv,
              empty,
              clear,
              omega (arith, sum, all),
              λ p. omega (arith, total_kept p, kept p),
            )
      ]
