-- ===== src/Facade/Frontier.antt =====
-- The frontier that a checkpoint publishes, and what a restart replays because of it.
use hiom.Prelude.{
  ℕ, ◌^◌, true, Option, some, none, ◌<◌, ◌≤◌, ◌≡◌, ◌⊎◌, inl, inr, arith, refl, ap, ◌∙◌, and_mask,
}
use hiom.Codec.{get_offsets}
use hiom.Codec.Offset.{get_offsets-key_value_offset}
use hiom.Checkpoint.{PmFile, stamp, proto_version}
use hiom.Checkpoint.History.{read_valid-write}
use hiom.Pending.Counts.{count_at, IsValid}
use hiom.Pending.Earliest.{earliest_pending_block-least}
use hiom.Pending.Clients.{client_at, min_active_writer_block-bounds}
use hiom.Facade.Replay.{
  frontier_block, start_block, tail_chunks, visits, visits-tail_chunks, checkpoint_record,
}
use hiom.Facade.Batch.{HiomState, safe_block, next_record, try_write_checkpoint}

-- A block that a crash may not skip: it has an entry that is not applied yet, or it is not below the
-- block that a client at work wrote last or announced.
abbrev pub IsAtRisk : HiomState → ℕ → Type 0
IsAtRisk s b =
    (0 < count_at s.pending b)
    ⊎ ((i : ℕ) × ((client_at s.clients i).active ≡ true)
        × (((client_at s.clients i).last_block ≤ b) ⊎ ((client_at s.clients i).inflight_block ≤ b)))

safe_block-lt : (s : HiomState) → safe_block s < 2 ^ 45
unfolding safe_block get_offsets
safe_block-lt s = omega (arith, and_mask 45 s.vpage_frontier)

-- The restart trusts the frontier of a record that `write` stamped.
frontier_block-next_record :
    (s : HiomState) → frontier_block (some (stamp (next_record s))) ≡ safe_block s
unfolding frontier_block proto_version stamp next_record
frontier_block-next_record s =
    ap (λ (t : ℕ × ℕ × ℕ). t.0)
      (get_offsets-key_value_offset (safe_block s) 0 0 (safe_block-lt s) (omega arith)
        (omega arith)).0

safe_block-le : (s : HiomState) (b : ℕ) → IsValid s.pending → IsAtRisk s b → safe_block s ≤ b
unfolding safe_block
safe_block-le s b v (inl waiting) =
    omega (arith, (earliest_pending_block-least s.pending b v waiting).0)
safe_block-le s b v (inr (i, on, inl last)) =
    omega (arith, (min_active_writer_block-bounds s.clients i on).0, last)
safe_block-le s b v (inr (i, on, inr inflight)) =
    omega (arith, (min_active_writer_block-bounds s.clients i on).1, inflight)

no_frontier : frontier_block none ≡ 0
unfolding frontier_block
no_frontier = refl

start_block-le :
    (s : HiomState) (b : ℕ) (c : Option PmFile)
    → s.checkpoint ≡ c
    → IsValid s.pending
    → IsAtRisk s b
    → start_block (checkpoint_record (try_write_checkpoint s).checkpoint) ≤ b
unfolding try_write_checkpoint start_block checkpoint_record
start_block-le s b none e v risk = rw (try_write_checkpoint, e, e) (omega (arith, no_frontier))
start_block-le s b (some pm) e v risk =
    rw (try_write_checkpoint, e, read_valid-write pm (next_record s))
      (omega (arith, frontier_block-next_record s, safe_block-le s b v risk))

-- After a checkpoint, a restart visits exactly once every block below the store's frontier that has an
-- entry which is not applied yet, or that is not below the block that an active client wrote last or
-- the one that it announced. The ring of pending blocks is well formed; the number of threads does not
-- matter.
pub tail_chunks-try_write_checkpoint :
    (s : HiomState) (b current threads : ℕ)
    → IsValid s.pending
    → IsAtRisk s b
    → b < current
    → visits (tail_chunks (checkpoint_record (try_write_checkpoint s).checkpoint) current threads) b
      ≡ 1
tail_chunks-try_write_checkpoint s b current threads v risk lt =
    visits-tail_chunks (checkpoint_record (try_write_checkpoint s).checkpoint) current threads b
    ∙ ground (arith, start_block-le s b s.checkpoint refl v risk)
