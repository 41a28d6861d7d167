-- ===== src/Facade/Backed.antt =====
-- The entries in the commit buffer and the ring of pending blocks, where a checkpoint is attached.
use hiom.Prelude.{◌∙◌, ◌≢◌, get_or-set_ne, sym, ◌&&◌, not}
use hiom.Prelude.{
  ℕ, zero, suc, ◌+◌, ◌==◌, ◌<◌, ◌≤◌, ◌≡◌, ◌^◌, Bool, true, Option, some, none, List, [], ◌∷◌, set,
  get_or, length, refl, inl, inr, arith, Bool-cases, to_nat, ◌%◌, min, if◌then◌else◌, ltb, ◌-◌,
}
use hiom.Codec.{get_offsets}
use hiom.CommitBuffer.Queue.{CommitEntry, ConcurrentQueue, count_in, count_in-append}
use hiom.CommitBuffer.{
  Lane, CommitBuffer, no_lane, lane_at, num_lanes, lane_of_fp64, push, settle, try_drain_lane,
  drain_lane,
}
use hiom.CommitBuffer.Lanes.{IsValid, every, push-IsValid}
use hiom.CommitBuffer.Drain.{try_drain_lane-IsValid}
use hiom.CommitBuffer.Routing.{lane_of_fp64-region}
use hiom.Pending.{PendingBlocks, Outcome, done, stalled, aborted, pending_register}
use hiom.Pending.Counts.{count_at, RegisterSpec, pending_register-RegisterSpec}
use hiom.Facade.Batch.{is_registered, retire_each}
use hiom.Facade.Retire.{is_of, RetiredSpec, retire_each-RetiredSpec}
use hiom.Facade.Winner.{is_put}
use hiom.Codec.{is_tombstone}
use hiom.Facade.Commit.{push_commit}

module _ (cq : ConcurrentQueue) where
  open cq use {Queue, count}

  -- How many entries that pass a test wait in some lane.
  unfoldable pub in_lanes : (CommitEntry → Bool) → List (Lane Queue) → ℕ
  in_lanes p [] = 0
  in_lanes p (lane ∷ lanes) = count p lane.q + in_lanes p lanes

  -- The ring counts every entry that waits in the buffer.
  abbrev pub IsBacked : PendingBlocks → CommitBuffer Queue → Type 0
  IsBacked r b = (k : ℕ) → in_lanes (is_of k) b.lanes ≤ count_at r k

  in_lanes-set :
      (p : CommitEntry → Bool) (lanes : List (Lane Queue)) (i : ℕ) (lane : Lane Queue)
      → i < length lanes
      → in_lanes p (set lanes i lane) + count p (get_or lanes i (no_lane cq)).q
        ≡ in_lanes p lanes + count p lane.q
  unfolding in_lanes
  in_lanes-set p [] i lane h = absurd (omega (arith, h))
  in_lanes-set p (l ∷ lanes) zero lane h = omega arith
  in_lanes-set p (l ∷ lanes) (suc i) lane h =
      omega (arith, in_lanes-set p lanes i lane (omega (arith, h)))

  in_lanes-push :
      (tok lane_id : ℕ) (e : CommitEntry) (b : CommitBuffer Queue) (p : CommitEntry → Bool)
      → IsValid cq b
      → lane_id < num_lanes
      → in_lanes p (push cq tok lane_id e b).1.lanes ≡ in_lanes p b.lanes + to_nat (p e)
  unfolding push
  in_lanes-push tok lane_id e b p v hl = omega (
    arith,
    in_lanes-set p b.lanes lane_id
        (record {
          q = cq.enqueue tok e (lane_at cq b lane_id).q;
          approx_size = ((lane_at cq b lane_id).approx_size + 1) % 2 ^ 64;
        })
        (omega (arith, v.width, hl)),
    cq.count-enqueue p tok e (lane_at cq b lane_id).q,
  )

  in_lanes-try_drain_lane :
      (lane_id max : ℕ) (out : List CommitEntry) (b : CommitBuffer Queue) (p : CommitEntry → Bool)
      → IsValid cq b
      → lane_id < num_lanes
      → let (got, out', b') = try_drain_lane cq lane_id out max b in
        count_in p out' + in_lanes p b'.lanes ≡ count_in p out + in_lanes p b.lanes
  unfolding try_drain_lane settle count_in
  in_lanes-try_drain_lane lane_id max out b p v hl =
      let lane = lane_at cq b lane_id in
      let cap = min max (lane.approx_size + 64) in
      let (es, rest) = cq.try_dequeue_bulk cap lane.q in
      elim (Bool-cases (max == 0)) [
        | inl none_asked ↦ rw none_asked (omega arith)
        | inr asked ↦ elim (Bool-cases (cap == 0)) [
          | inl no_room ↦ rw (asked, no_room) (omega arith)
          | inr room ↦
              rw (asked, room)
                (omega (
                  arith,
                  in_lanes-set p b.lanes lane_id
                      (record {
                        q = rest;
                        approx_size =
                            if ltb 0 (length es)
                            then (lane.approx_size + 2 ^ 64 - length es) % 2 ^ 64
                            else lane.approx_size;
                      })
                      (omega (arith, v.width, hl)),
                  cq.count-dequeue p cap lane.q,
                  count_in-append p out es,
                ))
        ]
      ]

  -- The entries that the loop over a lane hands over and those that stay are those that were there.
  abbrev pub KeptSpec :
      (CommitEntry → Bool)
      → List CommitEntry
      → CommitBuffer Queue
      → Option (ℕ × List CommitEntry × CommitBuffer Queue)
      → Type 0
  KeptSpec p out b none = Unit {0}
  KeptSpec p out b (some (total, out', b')) =
      count_in p out' + in_lanes p b'.lanes ≡ count_in p out + in_lanes p b.lanes

  KeptSpec-trans :
      (p : CommitEntry → Bool) (out out' : List CommitEntry) (b b' : CommitBuffer Queue)
      (o : Option (ℕ × List CommitEntry × CommitBuffer Queue))
      → count_in p out' + in_lanes p b'.lanes ≡ count_in p out + in_lanes p b.lanes
      → KeptSpec p out' b' o
      → KeptSpec p out b o
  KeptSpec-trans p out out' b b' none e h = tt
  KeptSpec-trans p out out' b b' (some r) e h = h ∙ e

  pub drain_lane-KeptSpec :
      (p : CommitEntry → Bool) (fuel lane_id per_call : ℕ) (out : List CommitEntry) (total : ℕ)
      (b : CommitBuffer Queue)
      → IsValid cq b
      → lane_id < num_lanes
      → KeptSpec p out b (drain_lane cq fuel lane_id per_call out total b)
  unfolding drain_lane
  drain_lane-KeptSpec p zero lane_id per_call out total b v hl = tt
  drain_lane-KeptSpec p (suc fuel) lane_id per_call out total b v hl =
      let (got, out', b') = try_drain_lane cq lane_id out per_call b in
      let here = in_lanes-try_drain_lane lane_id per_call out b p v hl in
      let valid = (try_drain_lane-IsValid cq lane_id b v hl out per_call).0 in
      let rest = drain_lane-KeptSpec p fuel lane_id per_call out' (total + got) b' valid hl in
      elim (Bool-cases (got == 0)) [
        | inl last ↦ rw last here
        | inr more ↦ rw more (
            KeptSpec-trans p out out' b b'
              (drain_lane cq fuel lane_id per_call out' (total + got) b') here rest)
      ]

  -- A record of the store waits for its way to the cold tier: a put whose offset is one.
  abbrev pub needs_count : CommitEntry → Bool
  needs_count e = is_put e.op && not (is_tombstone e.off)

  -- What a call of `push_commit` may do: the entry is pushed, and its block is counted where it needs
  -- a count, and only there; or nothing is pushed, since the ring cannot take the count.
  abbrev pub CommitSpec :
      CommitEntry
      → PendingBlocks
      → CommitBuffer Queue
      → Outcome × Bool × CommitBuffer Queue
      → Type 0
  CommitSpec e r b (done r', wake, b') =
      hiom.Pending.Counts.IsValid r'
      × IsValid cq b'
      × IsBacked r' b'
      × ((p : CommitEntry → Bool) → in_lanes p b'.lanes ≡ in_lanes p b.lanes + to_nat (p e))
      × ((k : ℕ)
          → count_at r' k ≡ count_at r k + to_nat (needs_count e && k == (get_offsets e.off).0))
  CommitSpec e r b (stalled, wake, b') =
      (needs_count e ≡ true) × RegisterSpec r (get_offsets e.off).0 stalled × (b' ≡ b)
  CommitSpec e r b (aborted, wake, b') =
      (needs_count e ≡ true) × RegisterSpec r (get_offsets e.off).0 aborted × (b' ≡ b)

  -- What a flusher finds: the entries that it drained are retired, without an abort.
  abbrev pub DrainedSpec : List CommitEntry → PendingBlocks → CommitBuffer Queue → Type 0
  DrainedSpec es r b =
      (r' : PendingBlocks) × (retire_each es r ≡ some r')
      × hiom.Pending.Counts.IsValid r'
      × IsBacked r' b

  pub retired :
      (es : List CommitEntry) (r : PendingBlocks) (b b' : CommitBuffer Queue)
      (o : Option PendingBlocks)
      → retire_each es r ≡ o
      → RetiredSpec r es o
      → IsBacked r b
      → ((p : CommitEntry → Bool) → count_in p es + in_lanes p b'.lanes ≡ in_lanes p b.lanes)
      → DrainedSpec es r b'
  retired es r b b' (some r') e (v, counts) backed moved =
      (r', e, v, λ k. omega (arith, counts k, backed k, moved (is_of k)))
  retired es r b b' none e (k, short) backed moved =
      absurd (omega (arith, short, backed k, moved (is_of k)))

  -- While the ring counts every entry that waits in the buffer, a flusher can retire whatever it
  -- drains from a lane: no retire aborts, and the ring counts every entry that still waits.
  pub retire_each-try_drain_lane :
      (lane_id max : ℕ) (r : PendingBlocks) (b : CommitBuffer Queue)
      → hiom.Pending.Counts.IsValid r
      → IsValid cq b
      → IsBacked r b
      → lane_id < num_lanes
      → let (got, es, b') = try_drain_lane cq lane_id [] max b in DrainedSpec es r b'
  unfolding count_in
  retire_each-try_drain_lane lane_id max r b vr vb backed hl =
      let (got, es, b') = try_drain_lane cq lane_id [] max b in
      retired es r b b' (retire_each es r) refl (retire_each-RetiredSpec es r vr) backed
        (λ p. omega (arith, in_lanes-try_drain_lane lane_id max [] b p vb hl))

  -- An entry that was counted, or that needs no count, enters the buffer.
  entered :
      (tok : ℕ) (e : CommitEntry) (r r' : PendingBlocks) (b : CommitBuffer Queue) (wake : Bool)
      → hiom.Pending.Counts.IsValid r'
      → IsValid cq b
      → IsBacked r b
      → count every (lane_at cq b (lane_of_fp64 e.fp64)).q + 1 < 2 ^ 64
      → lane_of_fp64 e.fp64 < num_lanes
      → ((k : ℕ) → count_at r k + to_nat (is_of k e) ≤ count_at r' k)
      → ((k : ℕ)
          → count_at r' k ≡ count_at r k + to_nat (needs_count e && k == (get_offsets e.off).0))
      → CommitSpec e r b (done r', wake, (push cq tok (lane_of_fp64 e.fp64) e b).1)
  entered tok e r r' b wake vr vb backed room hl more exact = (
    vr,
    (push-IsValid cq tok (lane_of_fp64 e.fp64) e b vb hl room).0,
    λ k.
        omega
          (arith, more k, backed k, in_lanes-push tok (lane_of_fp64 e.fp64) e b (is_of k) vb hl),
    λ p. in_lanes-push tok (lane_of_fp64 e.fp64) e b p vb hl,
    exact,
  )

  registered :
      (watermark tok : ℕ) (e : CommitEntry) (r : PendingBlocks) (b : CommitBuffer Queue)
      (o : Outcome)
      → is_registered e ≡ true
      → pending_register (get_offsets e.off).0 r ≡ o
      → RegisterSpec r (get_offsets e.off).0 o
      → IsValid cq b
      → IsBacked r b
      → count every (lane_at cq b (lane_of_fp64 e.fp64)).q + 1 < 2 ^ 64
      → lane_of_fp64 e.fp64 < num_lanes
      → CommitSpec e r b (push_commit cq true watermark tok e r b)
  unfolding push_commit is_registered
  registered watermark tok e r b (done r') reg h (v, counts) vb backed room hl =
      rw (push_commit, reg, h)
        (entered tok e r r' b ((push cq tok (lane_of_fp64 e.fp64) e b).0 == watermark) v vb backed
          room hl (λ k. ground (arith, reg, counts k)) (λ k. ground (arith, reg, counts k)))
  registered watermark tok e r b stalled reg h spec vb backed room hl =
      rw (push_commit, reg, h) (reg, spec, refl)
  registered watermark tok e r b aborted reg h spec vb backed room hl =
      rw (push_commit, reg, h) (reg, spec, refl)

  -- With a checkpoint attached, `push_commit` pushes its entry, once, and counts it in the ring exactly
  -- where it is a put whose offset is not the tombstone, for the block of that offset and no other, so
  -- that the ring still counts every entry that waits. Otherwise it waits or aborts and pushes nothing,
  -- which happens only to such an entry: it waits where another block has the ring's slot, and aborts
  -- on a block past 32 bits or a count that is full. The ring and the buffer are well formed before, the
  -- ring counts every entry that waits, the hash has 64 bits, and fewer than 2 ^ 64 - 1 entries wait in
  -- the lane.
  pub push_commit-CommitSpec :
      (watermark tok : ℕ) (e : CommitEntry) (r : PendingBlocks) (b : CommitBuffer Queue)
      → hiom.Pending.Counts.IsValid r
      → IsValid cq b
      → IsBacked r b
      → e.fp64 < 2 ^ 64
      → count every (lane_at cq b (lane_of_fp64 e.fp64)).q + 1 < 2 ^ 64
      → CommitSpec e r b (push_commit cq true watermark tok e r b)
  unfolding push_commit is_registered
  push_commit-CommitSpec watermark tok e r b vr vb backed word room =
      let hl = (lane_of_fp64-region e.fp64 word).0 in
      elim (Bool-cases (is_registered e)) [
        | inl reg ↦
            registered watermark tok e r b (pending_register (get_offsets e.off).0 r) reg refl
              (pending_register-RegisterSpec r vr (get_offsets e.off).0) vb backed room hl
        | inr free ↦
            rw (push_commit, free)
              (entered tok e r r b ((push cq tok (lane_of_fp64 e.fp64) e b).0 == watermark) vr vb
                backed room hl (λ k. ground (arith, free)) (λ k. ground (arith, free)))
      ]

  -- The loop over a lane leaves the other lanes as they are.
  abbrev pub OthersSpec :
      ℕ → CommitBuffer Queue → Option (ℕ × List CommitEntry × CommitBuffer Queue) → Type 0
  OthersSpec lane_id b none = Unit {0}
  OthersSpec lane_id b (some (total, out, b')) =
      (i : ℕ) → i ≢ lane_id → lane_at cq b' i ≡ lane_at cq b i

  OthersSpec-trans :
      (lane_id : ℕ) (b b' : CommitBuffer Queue)
      (o : Option (ℕ × List CommitEntry × CommitBuffer Queue))
      → ((i : ℕ) → i ≢ lane_id → lane_at cq b' i ≡ lane_at cq b i)
      → OthersSpec lane_id b' o
      → OthersSpec lane_id b o
  OthersSpec-trans lane_id b b' none e h = tt
  OthersSpec-trans lane_id b b' (some r) e h = λ i ne. h i ne ∙ e i ne

  try_drain_lane-others :
      (lane_id max : ℕ) (out : List CommitEntry) (b : CommitBuffer Queue) (i : ℕ)
      → i ≢ lane_id
      → lane_at cq (try_drain_lane cq lane_id out max b).2 i ≡ lane_at cq b i
  unfolding try_drain_lane settle
  try_drain_lane-others lane_id max out b i ne =
      let lane = lane_at cq b lane_id in
      let cap = min max (lane.approx_size + 64) in
      let (es, rest) = cq.try_dequeue_bulk cap lane.q in
      ground (
        arith,
        get_or-set_ne b.lanes lane_id i
            (record {
              q = rest;
              approx_size =
                  if ltb 0 (length es)
                  then (lane.approx_size + 2 ^ 64 - length es) % 2 ^ 64
                  else lane.approx_size;
            })
            (no_lane cq) (λ e. ne (sym e)),
      )

  pub drain_lane-OthersSpec :
      (fuel lane_id per_call : ℕ) (out : List CommitEntry) (total : ℕ) (b : CommitBuffer Queue)
      → OthersSpec lane_id b (drain_lane cq fuel lane_id per_call out total b)
  unfolding drain_lane
  drain_lane-OthersSpec zero lane_id per_call out total b = tt
  drain_lane-OthersSpec (suc fuel) lane_id per_call out total b =
      let (got, out', b') = try_drain_lane cq lane_id out per_call b in
      let here = try_drain_lane-others lane_id per_call out b in
      elim (Bool-cases (got == 0)) [
        | inl last ↦ rw last here
        | inr more ↦ rw more (
            OthersSpec-trans lane_id b b'
              (drain_lane cq fuel lane_id per_call out' (total + got) b') here
              (drain_lane-OthersSpec fuel lane_id per_call out' (total + got) b'))
      ]
