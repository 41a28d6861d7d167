-- ===== src/Facade/Writes.antt =====
-- include/viper/hiom/hiom.hpp: the writes of a client, with a cold tier and a checkpoint attached. What
-- Viper does is an argument: the client's block before its put, the offset that it wrote, and whether
-- it removed the key. `pause` lists the flushers that drain their lanes between two tries: the one that
-- `try_inline_flush` takes, or those that were drained by their own threads. Wake-ups and pauses have no
-- effect here.
use hiom.Prelude.{
  ℕ, zero, suc, ◌+◌, ◌==◌, if◌then◌else◌, true, false, Option, some, none, List, [], ◌∷◌,
}
use hiom.Codec.{encode, get_offsets, is_tombstone, invalid_offset}
use hiom.CommitBuffer.Queue.{Op, CommitEntry, ConcurrentQueue, SlotRef}
use hiom.CommitBuffer.{CommitBuffer, size_hint}
use hiom.HotTier.Table.{HotTier, no_ref, upsert_pinned}
use hiom.Pending.{done, stalled, aborted}
use hiom.Pending.Clients.{note_client_block, note_inflight_block}
use hiom.Facade.Batch.{HiomState}
use hiom.Facade.Flush.{drain_to_empty_and_apply}
use hiom.Facade.Commit.{KeyHash, next_seq, push_commit}

abbrev pub max_backpressure_retries : ℕ
max_backpressure_retries = 32

-- The store, the buffer, and the client's counter.
pub record Writer (Q : Type 0) : Type 0 where
  pub store : HiomState
  pub commit_buf : CommitBuffer Q
  pub client_seq : ℕ

-- A call returns, or it waits for a slot of the ring, or the process aborts.
pub data Written (Q : Type 0) : Type 0 where
  wrote : Writer Q → Written Q
  waits : Written Q
  aborts : Written Q

module _ (cq : ConcurrentQueue) (slot_key : ℕ → Option ℕ) (fuel num_flushers : ℕ)
    (per_lane_high_watermark slot_idx tok : ℕ) where
  open cq use {Queue}

  abbrev with_hot : Writer Queue → HotTier → Writer Queue
  with_hot w hot = record w { store = record w.store { hot = hot } }

  -- The flushers of one pause; `none` is an abort.
  unfoldable pub flush_each : List ℕ → Writer Queue → Option (Writer Queue)
  flush_each [] w = some w
  flush_each (f ∷ fs) w =
      elim (drain_to_empty_and_apply cq slot_key fuel fuel f num_flushers w.commit_buf w.store)
        as (λ _. Option (Writer Queue)) [
          | none ↦ none
          | some (drained, b, s) ↦ flush_each fs (record w { store = s; commit_buf = b })
        ]

  -- The tries of `upsert_pinned`, with `left` more after the first; `pause` from number `attempt` on.
  unfoldable pub pin_retry :
      (ℕ → List ℕ) → ℕ → ℕ → ℕ → ℕ → Writer Queue → Option (SlotRef × Writer Queue)
  unfolding flush_each
  pin_retry pause zero attempt fp packed w =
      let (ref, hot) = upsert_pinned w.store.hot fp packed in some (ref, with_hot w hot)
  pin_retry pause (suc left) attempt fp packed w =
      let (ref, hot) = upsert_pinned w.store.hot fp packed in
      let again : Option (SlotRef × Writer Queue) =
        elim (flush_each (pause attempt) (with_hot w hot))
          as (λ _. Option (SlotRef × Writer Queue)) [
            | none ↦ none
            | some w' ↦ pin_retry pause left (attempt + 1) fp packed w'
          ] in
      if ref.valid then some (ref, with_hot w hot) else again

  -- `push_commit` of an entry with the client's next number.
  unfoldable pub push_next : Op → KeyHash → ℕ → SlotRef → Writer Queue → Written Queue
  push_next op kh off ref w =
      let (seq, client_seq') = next_seq slot_idx w.client_seq in
      let e : CommitEntry = record {
        op = op;
        fp64 = kh.fp64;
        key_id = kh.key_id;
        off = off;
        hot_slot = ref;
        seq = seq;
      } in
      let (outcome, wake, b) =
        push_commit cq true per_lane_high_watermark tok e w.store.pending w.commit_buf in
      elim outcome as (λ _. Written Queue) [
        | done r ↦ wrote (record w {
          store = record w.store { pending = r };
          commit_buf = b;
          client_seq = client_seq';
        })
        | stalled ↦ waits
        | aborted ↦ aborts
      ]

  -- The wait until the buffer is empty, pause by pause.
  unfoldable pub sync_drain : List (List ℕ) → Writer Queue → Written Queue
  sync_drain [] w = if size_hint cq w.commit_buf == 0 then wrote w else waits
  sync_drain (fs ∷ later) w =
      let next : Written Queue = elim (flush_each fs w) as (λ _. Written Queue) [
        | none ↦ aborts
        | some w' ↦ sync_drain later w'
      ] in
      if size_hint cq w.commit_buf == 0 then wrote w else next

  unfoldable pub mirror_write_with_offset :
      (ℕ → List ℕ) → List (List ℕ) → KeyHash → Op → ℕ → Writer Queue → Written Queue
  unfolding pin_retry push_next sync_drain
  mirror_write_with_offset pause later kh op off w =
      let (block, page, slot) = get_offsets off in
      let noted : Writer Queue = record w {
        store = record w.store { clients = note_client_block w.store.clients slot_idx block };
      } in
      elim (is_tombstone off) as (λ _. Written Queue) [
        | true ↦ wrote w
        | false ↦ elim (encode block page slot 0 w.store.base_map) as (λ _. Written Queue) [
          | none ↦ push_next op kh off no_ref noted
          | some packed ↦
              elim (pin_retry pause max_backpressure_retries 0 kh.fp32 packed noted)
                as (λ _. Written Queue) [
                  | none ↦ aborts
                  | some (ref, w') ↦ elim (push_next op kh off ref w') as (λ _. Written Queue) [
                    | waits ↦ waits
                    | aborts ↦ aborts
                    | wrote w'' ↦ if ref.valid then wrote w'' else sync_drain later w''
                  ]
                ]
        ]
      ]

  -- `put`: Viper writes between the announcement and the mirror.
  unfoldable pub put : (ℕ → List ℕ) → List (List ℕ) → KeyHash → ℕ → ℕ → Writer Queue → Written Queue
  put pause later kh client_block just_written w =
      let announced : Writer Queue = record w {
        store = record w.store {
          clients = note_inflight_block w.store.clients slot_idx client_block;
        };
      } in
      mirror_write_with_offset pause later kh Op.put just_written announced

  -- `remove` pushes its entry whatever Viper found.
  unfoldable pub remove : KeyHash → Writer Queue → Written Queue
  unfolding push_next
  remove kh w =
      let (evicted, hot) = hiom.HotTier.Table.remove w.store.hot kh.fp32 in
      push_next Op.remove kh invalid_offset no_ref (with_hot w hot)
