-- ===== src/Facade/Commit.antt =====
-- include/viper/hiom/hiom.hpp: how a client enters an entry into the commit buffer, with the sequence
-- number and the hashes that it puts there. Waking the flushers is a result; the wait for a slot of the
-- ring and an abort are outcomes, after which nothing is pushed.
use hiom.Prelude.{
  ℕ, ◌+◌, ◌%◌, ◌^◌, ◌==◌, ◌&&◌, if◌then◌else◌, Bool, true, false, shl, bit_or, bit_and,
}
use hiom.Codec.{get_offsets}
use hiom.CommitBuffer.Queue.{CommitEntry, ConcurrentQueue}
use hiom.CommitBuffer.{CommitBuffer, push, lane_of_fp64}
use hiom.Pending.{PendingBlocks, Outcome, done, stalled, aborted, pending_register}
use hiom.Facade.Batch.{is_registered}

-- `key_id` is the identity of the key, which comes from its bytes.
pub record KeyHash : Type 0 where
  pub fp32 : ℕ
  pub fp64 : ℕ
  pub key_id : ℕ

-- From the 64-bit hash of the key.
unfoldable pub make_key_hash : ℕ → ℕ → KeyHash
make_key_hash h key_id =
    let fp = h % 2 ^ 32 in
    record { fp32 = if fp == 0 then 1 else fp; fp64 = if h == 0 then 1 else h; key_id = key_id }

-- `next_seq`: the number and the client's counter after it.
unfoldable pub next_seq : ℕ → ℕ → ℕ × ℕ
next_seq slot_idx client_seq =
    let local = (client_seq + 1) % 2 ^ 64 in
    (bit_or (shl local 16 % 2 ^ 64) (bit_and slot_idx 65535), local)

module _ (cq : ConcurrentQueue) where
  open cq use {Queue}

  -- What became of the ring, whether the flushers are woken, and the buffer.
  unfoldable pub push_commit :
      Bool
      → ℕ
      → ℕ
      → CommitEntry
      → PendingBlocks
      → CommitBuffer Queue
      → Outcome × Bool × CommitBuffer Queue
  push_commit has_checkpoint per_lane_high_watermark tok e r b =
      let (depth, b') = push cq tok (lane_of_fp64 e.fp64) e b in
      let wake = depth == per_lane_high_watermark in
      elim (has_checkpoint && is_registered e) as (λ _. Outcome × Bool × CommitBuffer Queue) [
        | false ↦ (done r, wake, b')
        | true ↦
            elim (pending_register (get_offsets e.off).0 r)
              as (λ _. Outcome × Bool × CommitBuffer Queue) [
                | done r' ↦ (done r', wake, b')
                | stalled ↦ (stalled, false, b)
                | aborted ↦ (aborted, false, b)
              ]
      ]
