-- ===== src/Facade/Rounds.antt =====
-- include/viper/hiom/hiom.hpp: the rounds of `drain_to_empty_and_apply_locked`, where a checkpoint is
-- attached.
use hiom.Prelude.{
  ℕ, zero, suc, ◌+◌, ◌<◌, ◌≤◌, ◌≡◌, ◌⊎◌, refl, ◌∙◌, ap, arith, Bool, Bool-cases, inl, inr, Option,
  some, none, List, [], ◌∷◌, length, true, false, bit, get_or,
}
use native.Mathlib.Decide.{ℕ_discrete}
use hiom.CommitBuffer.Queue.{CommitEntry, ConcurrentQueue}
use hiom.CommitBuffer.{Lane, CommitBuffer, num_lanes, no_lane, lane_at}
use hiom.CommitBuffer.Lanes.{IsValid, every}
use hiom.Pending.Counts
use hiom.Facade.Batch.{HiomState}
use hiom.Facade.Backed.{IsBacked, in_lanes}
use hiom.Facade.Flush.{flush_lane, flush_lanes}
use hiom.Facade.Drained.{IsTaken, IsShort, FlushSpec, flush_lane-FlushSpec}
use hiom.Facade.Kept.{
  Keeps, Keeps-refl, Keeps-trans, HasCheckpoint, FlushKeeps, flush_lane-FlushKeeps,
}

module _ (cq : ConcurrentQueue) where
  open cq use {Queue, count}

  -- The buffer and the ring are well formed and agree with each other.
  pub record FlushIsValid (b : CommitBuffer Queue) (s : HiomState) : Type 0 where
    pub buffer : IsValid cq b
    pub ring : hiom.Pending.Counts.IsValid s.pending
    pub backed : IsBacked cq s.pending b
    pub attached : HasCheckpoint s

  pub count-le-in_lanes :
      (p : CommitEntry → Bool) (lanes : List (Lane Queue)) (i : ℕ)
      → i < length lanes
      → count p (get_or lanes i (no_lane cq)).q ≤ in_lanes cq p lanes
  unfolding in_lanes
  count-le-in_lanes p [] i h = absurd (omega (arith, h))
  count-le-in_lanes p (lane ∷ lanes) zero h = omega arith
  count-le-in_lanes p (lane ∷ lanes) (suc i) h =
      omega (arith, count-le-in_lanes p lanes i (omega (arith, h)))

  module _ (slot_key : ℕ → Option ℕ) (fuel mine : ℕ) where
    abbrev pub Flushed : Type 0
    Flushed = Option (ℕ × CommitBuffer Queue × HiomState)

    -- After some lanes of the flusher `mine` names were flushed, the cold tier is short on the entries
    -- of one of its lanes.
    pub data IsStuck : CommitBuffer Queue → HiomState → Type 0 where
      short_lane :
          {b : CommitBuffer Queue} {s : HiomState} (lane_id : ℕ) (batch : List CommitEntry)
          → bit mine lane_id ≡ true
          → IsTaken cq slot_key (lane_at cq b lane_id).q batch
          → IsShort slot_key batch s
          → IsStuck b s
      after_lane :
          {b b' : CommitBuffer Queue} {s s' : HiomState} (lane_id got : ℕ)
          → bit mine lane_id ≡ true
          → flush_lane cq slot_key fuel lane_id b s ≡ some (got, b', s')
          → IsStuck b' s'
          → IsStuck b s

    abbrev pub LanesSpec : ℕ → ℕ → ℕ → CommitBuffer Queue → HiomState → Flushed → Type 0
    LanesSpec left lane_id mask b s none = IsStuck b s
    LanesSpec left lane_id mask b s (some (n, b', s')) =
        FlushIsValid b' s'
        × Keeps s s'
        × (n + in_lanes cq every b'.lanes ≡ in_lanes cq every b.lanes)
        × ((i : ℕ)
            → lane_id ≤ i
            → i < lane_id + left
            → bit mask i ≡ true
            → count every (lane_at cq b' i).q ≡ 0)
        × ((i : ℕ) → (i < lane_id) ⊎ (bit mask i ≡ false) → lane_at cq b' i ≡ lane_at cq b i)
        × (IsStuck b' s' → IsStuck b s)

    -- The lanes after one that was flushed.
    joined :
        (left lane_id mask got : ℕ) (b b' : CommitBuffer Queue) (s s' : HiomState) (o : Flushed)
        → flush_lane cq slot_key fuel lane_id b s ≡ some (got, b', s')
        → FlushSpec cq slot_key lane_id b s (some (got, b', s'))
        → Keeps s s'
        → bit mask lane_id ≡ true
        → bit mine lane_id ≡ true
        → LanesSpec left (lane_id + 1) mask b' s' o
        → LanesSpec (suc left) lane_id mask b s (elim o as (λ _. Flushed) [
          | none ↦ none
          | some (others, b'', s'') ↦ some (got + others, b'', s'')
        ])
    joined left lane_id mask got b b' s s' none run here k on own stuck =
        after_lane lane_id got own run stuck
    joined left lane_id mask got b b' s s' (some (n, b'', s'')) run
          (vb, vr, backed, sum, empty, total, others) k on own
          (valid, k', total', emptied, same, back) =
        (
          valid,
          Keeps-trans s s' s'' k k',
          omega (arith, total, total'),
          λ i lo hi set_bit. elim (ℕ_discrete i lane_id) [
            | yes e ↦
                ap (λ (lane : Lane Queue). count every lane.q) (same i (inl (omega (arith, e))))
                ∙ ap (λ (t : ℕ). count every (lane_at cq b' t).q) e
                ∙ empty
            | no ne ↦ emptied i (omega (arith, lo, ne)) (omega (arith, hi)) set_bit
          ],
          λ i away.
              same i (elim away [ inl lt ↦ inl (omega (arith, lt)) | inr off ↦ inr off ])
              ∙ others i (elim away [
                | inl lt ↦ λ e. absurd (omega (arith, lt, e))
                | inr off ↦ λ e. absurd (cc (off, on, ap (bit mask) e))
              ]),
          λ stuck. after_lane lane_id got own run (back stuck),
        )

    one_lane :
        (left lane_id mask : ℕ) (b : CommitBuffer Queue) (s : HiomState) (o : Flushed)
        → flush_lane cq slot_key fuel lane_id b s ≡ o
        → FlushSpec cq slot_key lane_id b s o
        → FlushKeeps cq slot_key s o
        → bit mask lane_id ≡ true
        → bit mine lane_id ≡ true
        → FlushIsValid b s
        → in_lanes cq every b.lanes < fuel
        → ((b' : CommitBuffer Queue) (s' : HiomState)
            → FlushIsValid b' s'
            → in_lanes cq every b'.lanes < fuel
            → LanesSpec left
                (lane_id + 1)
                mask
                b'
                s'
                (flush_lanes cq slot_key fuel left (lane_id + 1) mask b' s'))
        → LanesSpec
            (suc left)
            lane_id
            mask
            b
            s
            (flush_lanes cq slot_key fuel (suc left) lane_id mask b s)
    unfolding flush_lanes
    one_lane left lane_id mask b s none run (batch, taken, short) k on own v enough rest =
        rw (flush_lanes, on, run) (short_lane lane_id batch own taken short)
    one_lane left lane_id mask b s (some (got, b', s')) run
          (vb, vr, backed, sum, empty, total, others) k on own v enough rest =
        rw (flush_lanes, on, run)
          (joined left lane_id mask got b b' s s'
            (flush_lanes cq slot_key fuel left (lane_id + 1) mask b' s') run
            (vb, vr, backed, sum, empty, total, others) k on own
            (rest b' s'
              (record { buffer = vb; ring = vr; backed = backed; attached = k.attached v.attached })
              (omega (arith, total, enough))))

    skipped :
        (left lane_id mask : ℕ) (b : CommitBuffer Queue) (s : HiomState) (o : Flushed)
        → bit mask lane_id ≡ false
        → LanesSpec left (lane_id + 1) mask b s o
        → LanesSpec (suc left) lane_id mask b s o
    skipped left lane_id mask b s none off stuck = stuck
    skipped left lane_id mask b s (some r) off (valid, k, total, emptied, same, back) = (
      valid,
      k,
      total,
      λ i lo hi on. elim (ℕ_discrete i lane_id) [
        | yes e ↦ absurd (cc (on, off, ap (bit mask) e))
        | no ne ↦ emptied i (omega (arith, lo, ne)) (omega (arith, hi)) on
      ],
      λ i away. same i (elim away [ inl lt ↦ inl (omega (arith, lt)) | inr clear ↦ inr clear ]),
      back,
    )

    pub flush_lanes-LanesSpec :
        (left lane_id mask : ℕ) (b : CommitBuffer Queue) (s : HiomState)
        → FlushIsValid b s
        → in_lanes cq every b.lanes < fuel
        → lane_id + left ≤ num_lanes
        → ((i : ℕ) → bit mask i ≡ true → bit mine i ≡ true)
        → LanesSpec left lane_id mask b s (flush_lanes cq slot_key fuel left lane_id mask b s)
    unfolding flush_lanes
    flush_lanes-LanesSpec zero lane_id mask b s v enough width within = (
      v,
      Keeps-refl s,
      omega arith,
      λ i lo hi on. absurd (omega (arith, lo, hi)),
      λ i away. refl,
      λ stuck. stuck,
    )
    flush_lanes-LanesSpec (suc left) lane_id mask b s v enough width within =
        let hl : lane_id < num_lanes = omega (arith, width) in
        elim (Bool-cases (bit mask lane_id)) [
          | inl on ↦
              one_lane left lane_id mask b s (flush_lane cq slot_key fuel lane_id b s) refl
                (flush_lane-FlushSpec cq slot_key fuel lane_id b s v.attached.0 v.attached.1
                  v.buffer v.ring v.backed hl
                  (omega (
                    arith,
                    enough,
                    count-le-in_lanes every b.lanes lane_id (omega (arith, hl, v.buffer.width)),
                  )))
                (flush_lane-FlushKeeps cq slot_key fuel lane_id b s) on (within lane_id on) v enough
                (λ b' s' v' enough'.
                  flush_lanes-LanesSpec left (lane_id + 1) mask b' s' v' enough'
                    (omega (arith, width)) within)
          | inr off ↦
              rw (flush_lanes, off)
                (skipped left lane_id mask b s
                  (flush_lanes cq slot_key fuel left (lane_id + 1) mask b s) off
                  (flush_lanes-LanesSpec left (lane_id + 1) mask b s v enough (omega (arith, width))
                    within))
        ]

    -- What a flusher's drain does: its lanes are empty, and the number it returns has left the buffer.
    abbrev pub DrainSpec : CommitBuffer Queue → HiomState → Flushed → Type 0
    DrainSpec b s none = IsStuck b s
    DrainSpec b s (some (n, b', s')) =
        FlushIsValid b' s'
        × Keeps s s'
        × (n + in_lanes cq every b'.lanes ≡ in_lanes cq every b.lanes)
        × ((i : ℕ) → i < num_lanes → bit mine i ≡ true → count every (lane_at cq b' i).q ≡ 0)
