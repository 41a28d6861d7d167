-- ===== src/CommitBuffer/Queue.antt =====
-- `CommitEntry`, and what the buffer relies on from `moodycamel::ConcurrentQueue`.
pub use hiom.Prelude.{to_nat}
use hiom.Prelude.{ℕ, ◌+◌, ◌≤◌, ◌<◌, ◌≡◌, refl, Bool, true, List, [], ◌∷◌, length, arith, ◌++◌}

pub data Op : Type 0 where
  put remove : Op

-- `HotTier::SlotRef`
pub record SlotRef : Type 0 where
  pub bucket_idx : ℕ
  pub slot_idx : ℕ
  pub valid : Bool

pub record CommitEntry : Type 0 where
  pub op : Op
  pub fp64 : ℕ
  pub key_id : ℕ
  pub off : ℕ
  pub hot_slot : SlotRef
  pub seq : ℕ

-- How many entries of a list pass a test.
unfoldable pub count_in : (CommitEntry → Bool) → List CommitEntry → ℕ
count_in p [] = 0
count_in p (e ∷ es) = to_nat (p e) + count_in p es

-- The queue is a multiset of entries, known by how many of them pass each test. An enqueue adds one
-- entry. A bulk dequeue hands over at most as many as asked for, and some if there are any: each
-- entry is handed over once. A token only says who calls.
pub record ConcurrentQueue : Type 1 where
  pub Queue : Type 0
  pub empty : Queue
  pub enqueue : ℕ → CommitEntry → Queue → Queue
  pub try_dequeue_bulk : ℕ → Queue → List CommitEntry × Queue
  pub count : (CommitEntry → Bool) → Queue → ℕ
  pub count-empty : (p : CommitEntry → Bool) → count p empty ≡ 0
  pub count-enqueue :
      (p : CommitEntry → Bool) (tok : ℕ) (e : CommitEntry) (q : Queue)
      → count p (enqueue tok e q) ≡ count p q + to_nat (p e)
  pub count-dequeue :
      (p : CommitEntry → Bool) (n : ℕ) (q : Queue)
      → count_in p (try_dequeue_bulk n q).0 + count p (try_dequeue_bulk n q).1 ≡ count p q
  pub length-dequeue-le : (n : ℕ) (q : Queue) → length (try_dequeue_bulk n q).0 ≤ n
  pub length-dequeue-pos :
      (n : ℕ) (q : Queue) → 0 < n → 0 < count (λ _. true) q → 0 < length (try_dequeue_bulk n q).0

pub count_in_all : (es : List CommitEntry) → count_in (λ _. true) es ≡ length es
unfolding count_in
count_in_all [] = refl
count_in_all (e ∷ es) = omega (arith, count_in_all es)

pub count_in-append :
    (p : CommitEntry → Bool) (es fs : List CommitEntry)
    → count_in p (es ++ fs) ≡ count_in p es + count_in p fs
unfolding count_in
count_in-append p [] fs = omega arith
count_in-append p (e ∷ es) fs = omega (arith, count_in-append p es fs)
