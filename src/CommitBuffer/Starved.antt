-- ===== src/CommitBuffer/Starved.antt =====
-- A lane whose entries no flusher sees.
use hiom.Prelude.{
  ◌≡◌, refl, ◌<◌, true, false, ◌≤◌, ℕ, arith, Bool, ◌==◌, length, [], sym, List, ◌∷◌, ap,
}
use hiom.CommitBuffer.Queue.{count_in_all, CommitEntry, ConcurrentQueue}
use hiom.CommitBuffer.Race.{Producer, Consumer, RaceState, Step, Steps, init, next, here}

-- The producer is to set the bit later in its call.
abbrev pub owes_flag : Producer → Bool
owes_flag Producer.idle = false
owes_flag (Producer.counted e before) = before == 0
owes_flag (Producer.queued before) = before == 0

module _ (cq : ConcurrentQueue) where
  abbrev pub waiting_entries : RaceState cq.Queue → ℕ
  waiting_entries s = cq.count (λ _. true) s.q

  -- Entries wait and are counted, the bit is clear, no consumer is at work, and no producer is about
  -- to set the bit.
  pub record IsStarved (s : RaceState cq.Queue) : Type 0 where
    pub entries : 0 < waiting_entries s
    pub sized : 0 < s.approx_size
    pub dark : s.flag ≡ false
    pub asleep : s.consumer ≡ Consumer.waiting
    pub nobody : (i : ℕ) → owes_flag (s.producer i) ≡ false

  Step-IsStarved :
      {s t : RaceState cq.Queue}
      → Step cq s t
      → IsStarved s
      → IsStarved t × (waiting_entries s ≤ waiting_entries t)
  Step-IsStarved {s} (Step.add i e free room) h = (
    record {
      entries = h.entries;
      sized = omega (arith, h.sized);
      dark = h.dark;
      asleep = h.asleep;
      nobody = λ j. ground (arith, h.nobody j, h.sized);
    },
    omega arith,
  )
  Step-IsStarved {s} (Step.enqueue i e before at) h = (
    record {
      entries = omega (arith, h.entries, cq.count-enqueue (λ _. true) i e s.q);
      sized = h.sized;
      dark = h.dark;
      asleep = h.asleep;
      nobody = λ j. ground (arith, h.nobody j, at, h.nobody i);
    },
    omega (arith, cq.count-enqueue (λ _. true) i e s.q),
  )
  Step-IsStarved (Step.announce i before at zero) h = absurd (ground (arith, h.nobody i, at))
  Step-IsStarved (Step.leave_flag i before at nz) h = (
    record {
      entries = h.entries;
      sized = h.sized;
      dark = h.dark;
      asleep = h.asleep;
      nobody = λ j. ground (arith, h.nobody j, at, h.nobody i);
    },
    omega arith,
  )
  Step-IsStarved (Step.start w f) h = absurd (ground (arith, h.dark))
  Step-IsStarved (Step.read_size max d pos) h = absurd (ground (arith, h.asleep))
  Step-IsStarved (Step.dequeue_none cap d e) h = absurd (ground (arith, h.asleep))
  Step-IsStarved (Step.dequeue_some cap d e) h = absurd (ground (arith, h.asleep))
  Step-IsStarved (Step.subtract_all got d e) h = absurd (ground (arith, h.asleep))
  Step-IsStarved (Step.subtract_some got d e) h = absurd (ground (arith, h.asleep))
  Step-IsStarved (Step.clear d) h = absurd (ground (arith, h.asleep))

  -- Once a lane is starved it stays so, however many entries are pushed and whatever the flusher
  -- does: its bit is clear, no consumer ever works on it again, and none of its entries leaves.
  pub IsStarved-forever :
      {s t : RaceState cq.Queue}
      → IsStarved s
      → Steps cq s t
      → IsStarved t × (waiting_entries s ≤ waiting_entries t)
  IsStarved-forever h Steps.here = (h, omega arith)
  IsStarved-forever h (Steps.next r st) =
      let (mid, le) = IsStarved-forever h r in
      let (last, le') = Step-IsStarved st mid in (last, omega (arith, le, le'))

  take_one :
      (q : cq.Queue)
      → cq.count (λ _. true) q ≡ 1
      → (length (cq.try_dequeue_bulk 65 q).0 ≡ 1)
        × (cq.count (λ _. true) (cq.try_dequeue_bulk 65 q).1 ≡ 0)
  take_one q one =
      let d = cq.try_dequeue_bulk 65 q in
      let sum = cq.count-dequeue (λ _. true) 65 q in
      let pos = cq.length-dequeue-pos 65 q (omega arith) (omega arith) in
      (omega (arith, sum, count_in_all d.0, pos), omega (arith, sum, count_in_all d.0, pos))

  eq-nil : (es : List CommitEntry) → length es ≡ 0 → es ≡ []
  eq-nil [] h = refl
  eq-nil (e ∷ es) h = absurd (omega arith)

  take_none :
      (q : cq.Queue)
      → cq.count (λ _. true) q ≡ 0
      → ((cq.try_dequeue_bulk 65 q).0 ≡ [])
        × (cq.count (λ _. true) (cq.try_dequeue_bulk 65 q).1 ≡ 0)
  take_none q empty =
      let d = cq.try_dequeue_bulk 65 q in
      let sum = cq.count-dequeue (λ _. true) 65 q in
      (eq-nil d.0 (omega (arith, sum, count_in_all d.0)), omega (arith, sum))

  -- Three producers that push one entry each, of any kind, and the consumer, in an order that ends
  -- with the third entry in the lane, its bit clear and nobody at work: the lane is starved.
  pub lost_wakeup :
      (first second third : CommitEntry)
      → (s : RaceState cq.Queue) × Steps cq (init cq) s
        × IsStarved s
        × ((i : ℕ) → s.producer i ≡ Producer.idle)
  lost_wakeup first second third = (
    _,
    next
        (next
          (next
            (next
              (next
                (next
                  (next
                    (next
                      (next
                        (next
                          (next
                            (next
                              (next
                                (next
                                  (next
                                    (next
                                      (next
                                        (next (next here (Step.add 0 first refl (omega arith)))
                                          (Step.enqueue 0 first 0 refl))
                                        (Step.announce 0 0 refl refl))
                                      (Step.start refl refl))
                                    (Step.read_size 1024 refl (omega arith)))
                                  (Step.dequeue_some 65 refl (omega (arith, taken₁.0))))
                                (Step.subtract_all (length (cq.try_dequeue_bulk 65 q₁).0) refl
                                  (sym taken₁.0)))
                              (Step.add 1 second refl (omega arith)))
                            (Step.enqueue 1 second 0 refl))
                          (Step.announce 1 0 refl refl))
                        (Step.clear refl))
                      (Step.read_size 1024 refl (omega arith)))
                    (Step.add 2 third refl (omega arith)))
                  (Step.dequeue_some 65 refl (omega (arith, taken₂.0))))
                (Step.subtract_some (length (cq.try_dequeue_bulk 65 q₂).0) refl
                  (omega (arith, taken₂.0))))
              (Step.read_size 1024 refl (omega arith)))
            (Step.dequeue_none 65 (ap Consumer.sized (omega (arith, taken₂.0)))
              (take_none rest taken₂.1).0))
          (Step.enqueue 2 third 1 refl))
        (Step.leave_flag 2 1 refl (omega arith)),
    record {
      entries = omega (arith, cq.count-enqueue (λ _. true) 2 third (cq.try_dequeue_bulk 65 rest).1);
      sized = omega (arith, taken₂.0);
      dark = refl;
      asleep = refl;
      nobody = λ i. ground arith;
    },
    λ i. ground arith,
  )
    where
      q₁ : cq.Queue
      q₁ = cq.enqueue 0 first cq.empty

      taken₁ :
          (length (cq.try_dequeue_bulk 65 q₁).0 ≡ 1)
          × (cq.count (λ _. true) (cq.try_dequeue_bulk 65 q₁).1 ≡ 0)
      taken₁ =
          take_one q₁ (
            omega
              (arith, cq.count-enqueue (λ _. true) 0 first cq.empty, cq.count-empty (λ _. true)))

      q₂ : cq.Queue
      q₂ = cq.enqueue 1 second (cq.try_dequeue_bulk 65 q₁).1

      taken₂ :
          (length (cq.try_dequeue_bulk 65 q₂).0 ≡ 1)
          × (cq.count (λ _. true) (cq.try_dequeue_bulk 65 q₂).1 ≡ 0)
      taken₂ = take_one q₂ (
          omega
            (arith, cq.count-enqueue (λ _. true) 1 second (cq.try_dequeue_bulk 65 q₁).1, taken₁.1))

      rest : cq.Queue
      rest = (cq.try_dequeue_bulk 65 q₂).1
