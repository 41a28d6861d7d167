-- ===== src/Facade/Flush.antt =====
-- include/viper/hiom/hiom.hpp: `drain_to_empty_and_apply_locked`, on the lanes of one flusher.
-- A flush of a lane drains it, sorts the batch and applies it.
use hiom.Prelude.{
  ℕ, zero, suc, ◌+◌, ◌==◌, if◌then◌else◌, true, false, Option, some, none, [], bit, bit_and,
}
use hiom.CommitBuffer.Queue.{ConcurrentQueue}
use hiom.CommitBuffer.{CommitBuffer, num_lanes, drain_lane, lanes_mask_for_flusher}
use hiom.Facade.Batch.{HiomState, apply_batch}
use hiom.Facade.Order.{stable_sort}

abbrev pub per_call : ℕ
per_call = 1024

module _ (cq : ConcurrentQueue) (slot_key : ℕ → Option ℕ) where
  open cq use {Queue, count}

  -- The number drained, the buffer and the state; `none` is an abort, or not enough fuel.
  abbrev Flushed : Type 0
  Flushed = Option (ℕ × CommitBuffer Queue × HiomState)

  unfoldable pub flush_lane : ℕ → ℕ → CommitBuffer Queue → HiomState → Flushed
  flush_lane fuel lane_id b s = elim (drain_lane cq fuel lane_id per_call [] 0 b) [
    | none ↦ none
    | some (lane_total, batch, b') ↦
        let applied = elim (apply_batch slot_key (stable_sort batch) s) as (λ _. Flushed) [
          | none ↦ none
          | some s' ↦ some (lane_total, b', s')
        ] in
        if lane_total == 0 then some (0, b', s) else applied
  ]

  -- The lanes of `mask`, from the lowest on, `left` of them.
  unfoldable pub flush_lanes : ℕ → ℕ → ℕ → ℕ → CommitBuffer Queue → HiomState → Flushed
  unfolding flush_lane
  flush_lanes fuel zero lane_id mask b s = some (0, b, s)
  flush_lanes fuel (suc left) lane_id mask b s = elim (bit mask lane_id) as (λ _. Flushed) [
    | false ↦ flush_lanes fuel left (lane_id + 1) mask b s
    | true ↦ elim (flush_lane fuel lane_id b s) as (λ _. Flushed) [
      | none ↦ none
      | some (got, b', s') ↦
          elim (flush_lanes fuel left (lane_id + 1) mask b' s') as (λ _. Flushed) [
            | none ↦ none
            | some (others, b'', s'') ↦ some (got + others, b'', s'')
          ]
    ]
  ]

  unfoldable pub drain_to_empty_and_apply : ℕ → ℕ → ℕ → ℕ → CommitBuffer Queue → HiomState → Flushed
  unfolding flush_lanes
  drain_to_empty_and_apply zero fuel flusher_id num_flushers b s = none
  drain_to_empty_and_apply (suc rounds) fuel flusher_id num_flushers b s =
      let mask = bit_and b.nonempty_mask (lanes_mask_for_flusher flusher_id num_flushers) in
      if mask == 0
      then some (0, b, s)
      else elim (flush_lanes fuel num_lanes 0 mask b s) as (λ _. Flushed) [
        | none ↦ none
        | some (round_total, b', s') ↦ elim (round_total == 0) as (λ _. Flushed) [
          | true ↦ some (0, b', s')
          | false ↦
              elim (drain_to_empty_and_apply rounds fuel flusher_id num_flushers b' s')
                as (λ _. Flushed) [
                  | none ↦ none
                  | some (total, b'', s'') ↦ some (round_total + total, b'', s'')
                ]
        ]
      ]
