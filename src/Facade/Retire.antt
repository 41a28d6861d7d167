-- ===== src/Facade/Retire.antt =====
-- What `apply_batch` retires from the ring of pending blocks, and what `push_commit` registers.

use hiom.Prelude.{
  ◌≡◌, refl, true, ℕ, Bool, Option, some, none, ◌<◌, ◌+◌, ◌==◌, ◌&&◌, arith, List, [], ◌∷◌,
  Bool-cases, inl, inr,
}
use hiom.Codec.{get_offsets}
use hiom.CommitBuffer.Queue.{CommitEntry, count_in, to_nat}
use hiom.Pending.{PendingBlocks, Outcome, done, stalled, aborted, pending_retire}
use hiom.Pending.Counts.{IsValid, count_at, RetireSpec, pending_retire-RetireSpec}
use hiom.Facade.Batch.{is_registered, retire_each}

-- The entry was registered under block `b`.
abbrev pub is_of : ℕ → CommitEntry → Bool
is_of b e = is_registered e && (get_offsets e.off).0 == b

-- All the entries are retired, or one of them was not pending.
abbrev pub RetiredSpec : PendingBlocks → List CommitEntry → Option PendingBlocks → Type 0
RetiredSpec r es (some r') =
    IsValid r' × ((b : ℕ) → count_at r' b + count_in (is_of b) es ≡ count_at r b)
RetiredSpec r es none = (b : ℕ) × (count_at r b < count_in (is_of b) es)

-- One entry more in front.
widened :
    (r r' : PendingBlocks) (e : CommitEntry) (es : List CommitEntry) (o : Option PendingBlocks)
    → ((b : ℕ) → count_at r' b + to_nat (is_of b e) ≡ count_at r b)
    → RetiredSpec r' es o
    → RetiredSpec r (e ∷ es) o
unfolding count_in
widened r r' e es (some r'') counts (v, counts') = (v, λ b. omega (arith, counts b, counts' b))
widened r r' e es none counts (b, short) = (b, omega (arith, counts b, short))

retire_one :
    (r : PendingBlocks) (e : CommitEntry) (es : List CommitEntry) (o : Outcome)
    → is_registered e ≡ true
    → pending_retire (get_offsets e.off).0 r ≡ o
    → RetireSpec r (get_offsets e.off).0 o
    → ((r' : PendingBlocks) → IsValid r' → RetiredSpec r' es (retire_each es r'))
    → RetiredSpec r (e ∷ es) (retire_each (e ∷ es) r)
unfolding retire_each count_in
retire_one r e es (done r') reg h (v, counts) rest =
    rw (retire_each, reg, h)
      (widened r r' e es (retire_each es r') (λ b. ground (arith, reg, counts b)) (rest r' v))
retire_one r e es stalled reg h spec rest = absurd spec
retire_one r e es aborted reg h spec rest =
    rw (retire_each, reg, h) ((get_offsets e.off).0, ground (arith, reg, spec))

-- Retiring the entries of a batch from a well-formed ring takes away exactly the pending entries of
-- each block that the batch holds, and never aborts where they were all registered: if it aborts,
-- the batch holds more entries of some block than are pending.
pub retire_each-RetiredSpec :
    (es : List CommitEntry) (r : PendingBlocks) → IsValid r → RetiredSpec r es (retire_each es r)
unfolding retire_each count_in
retire_each-RetiredSpec [] r v = (v, λ b. omega arith)
retire_each-RetiredSpec (e ∷ es) r v = elim (Bool-cases (is_registered e)) [
  | inl reg ↦
      retire_one r e es (pending_retire (get_offsets e.off).0 r) reg refl
        (pending_retire-RetireSpec r v (get_offsets e.off).0) (λ r'. retire_each-RetiredSpec es r')
  | inr free ↦
      rw (retire_each, free)
        (widened r r e es (retire_each es r) (λ b. ground (arith, free))
          (retire_each-RetiredSpec es r v))
]
