-- ===== src/CommitBuffer/Race.antt =====
-- One lane and its bit of the bitmap, an atomic step at a time: any number of producers in `push`,
-- and the one consumer in the loop of `HiOM::drain_to_empty_and_apply_locked` over
-- `try_drain_lane`.

use hiom.Prelude.{
  ◌≡◌, ℕ, false, Bool, if◌then◌else◌, ◌+◌, ◌==◌, ◌<◌, ◌^◌, true, ◌≢◌, min, [], length, ◌-◌, ◌%◌,
}
use hiom.CommitBuffer.Queue.{CommitEntry, ConcurrentQueue}

-- A producer: between calls, after `fetch_add` gave `before`, and after `enqueue`.
pub data Producer : Type 0 where
  idle : Producer
  counted : (e : CommitEntry) (before : ℕ) → Producer
  queued : (before : ℕ) → Producer

-- The consumer: not draining this lane, about to read the size, about to dequeue, about to subtract
-- what it got, and about to clear the bit.
pub data Consumer : Type 0 where
  waiting : Consumer
  draining : Consumer
  sized : (cap : ℕ) → Consumer
  got_some : (got : ℕ) → Consumer
  clearing : Consumer

pub record RaceState (Q : Type 0) : Type 0 where
  pub q : Q
  pub approx_size : ℕ
  pub flag : Bool
  pub producer : ℕ → Producer
  pub consumer : Consumer

abbrev pub update : (ℕ → Producer) → ℕ → Producer → ℕ → Producer
update f i p j = if i == j then p else f j

-- Fewer than 2 ^ 64 entries wait at any time, so `fetch_add` does not wrap.
pub data Step (cq : ConcurrentQueue) (s : RaceState cq.Queue) : RaceState cq.Queue → Type 0 where
  add :
      (i : ℕ) (e : CommitEntry)
      → s.producer i ≡ idle
      → s.approx_size + 1 < 2 ^ 64
      → Step cq s (record s {
        approx_size = s.approx_size + 1;
        producer = update s.producer i (counted e s.approx_size);
      })
  enqueue :
      (i : ℕ) (e : CommitEntry) (before : ℕ)
      → s.producer i ≡ counted e before
      → Step cq s
          (record s { q = cq.enqueue i e s.q; producer = update s.producer i (queued before) })
  announce :
      (i before : ℕ)
      → s.producer i ≡ queued before
      → before ≡ 0
      → Step cq s (record s { flag = true; producer = update s.producer i idle })
  leave_flag :
      (i before : ℕ)
      → s.producer i ≡ queued before
      → before ≢ 0
      → Step cq s (record s { producer = update s.producer i idle })
  start : s.consumer ≡ waiting → s.flag ≡ true → Step cq s (record s { consumer = draining })
  read_size :
      (max : ℕ)
      → s.consumer ≡ draining
      → 0 < max
      → Step cq s (record s { consumer = sized (min max (s.approx_size + 64)) })
  dequeue_none :
      (cap : ℕ)
      → s.consumer ≡ sized cap
      → (cq.try_dequeue_bulk cap s.q).0 ≡ []
      → Step cq s (record s { q = (cq.try_dequeue_bulk cap s.q).1; consumer = waiting })
  dequeue_some :
      (cap : ℕ)
      → s.consumer ≡ sized cap
      → 0 < length (cq.try_dequeue_bulk cap s.q).0
      → Step cq s (record s {
        q = (cq.try_dequeue_bulk cap s.q).1;
        consumer = got_some (length (cq.try_dequeue_bulk cap s.q).0);
      })
  subtract_all :
      (got : ℕ)
      → s.consumer ≡ got_some got
      → s.approx_size ≡ got
      → Step cq s (record s { approx_size = 0; consumer = clearing })
  subtract_some :
      (got : ℕ)
      → s.consumer ≡ got_some got
      → s.approx_size ≢ got
      → Step cq s
          (record s { approx_size = (s.approx_size + 2 ^ 64 - got) % 2 ^ 64; consumer = draining })
  clear : s.consumer ≡ clearing → Step cq s (record s { flag = false; consumer = draining })

pub data Steps (cq : ConcurrentQueue) (s : RaceState cq.Queue) : RaceState cq.Queue → Type 0 where
  here : Steps cq s s
  next : {t u : RaceState cq.Queue} → Steps cq s t → Step cq t u → Steps cq s u

-- The lane as `CommitBuffer()` leaves it, with nobody at work.
abbrev pub init : (cq : ConcurrentQueue) → RaceState cq.Queue
init cq = record {
  q = cq.empty;
  approx_size = 0;
  flag = false;
  producer = λ _. idle;
  consumer = waiting;
}
