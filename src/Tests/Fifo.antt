-- ===== src/Tests/Fifo.antt =====
-- A first-in, first-out list of entries is a queue of the kind that the commit buffer relies on.
use hiom.Prelude.{
  ◌≡◌, refl, suc, zero, [], ◌∷◌, ℕ, Bool, List, length, ◌<◌, ◌++◌, take, true, ◌≤◌, arith, drop,
  sym, ◌∙◌, ap, take-append-drop, ◌+◌,
}
use hiom.CommitBuffer.Queue.{CommitEntry, ConcurrentQueue, count_in, count_in-append, to_nat}

pub length-take_le : (n : ℕ) (es : List CommitEntry) → length (take n es) ≤ n
length-take_le zero es = omega arith
length-take_le (suc n) [] = omega arith
length-take_le (suc n) (e ∷ es) = omega (arith, length-take_le n es)

pub length-take_pos :
    (n : ℕ) (es : List CommitEntry) → 0 < n → 0 < count_in (λ _. true) es → 0 < length (take n es)
unfolding count_in
length-take_pos zero es h k = absurd (omega arith)
length-take_pos (suc n) [] h k = absurd (omega arith)
length-take_pos (suc n) (e ∷ es) h k = omega arith

pub count_in-empty : (p : CommitEntry → Bool) → count_in p [] ≡ 0
unfolding count_in
count_in-empty p = refl

pub count_in-snoc :
    (p : CommitEntry → Bool) (tok : ℕ) (e : CommitEntry) (q : List CommitEntry)
    → count_in p (q ++ (e ∷ [])) ≡ count_in p q + to_nat (p e)
unfolding count_in
count_in-snoc p tok e q = omega (arith, count_in-append p q (e ∷ []))

pub count_in-take-drop :
    (p : CommitEntry → Bool) (n : ℕ) (q : List CommitEntry)
    → count_in p (take n q) + count_in p (drop n q) ≡ count_in p q
count_in-take-drop p n q =
    sym (count_in-append p (take n q) (drop n q)) ∙ ap (count_in p) (take-append-drop n q)

abbrev pub fifo : ConcurrentQueue
fifo = record {
  Queue = List CommitEntry;
  empty = [];
  enqueue = λ tok e q. q ++ (e ∷ []);
  try_dequeue_bulk = λ n q. (take n q, drop n q);
  count = count_in;
  count-empty = count_in-empty;
  count-enqueue = count_in-snoc;
  count-dequeue = count_in-take-drop;
  length-dequeue-le = length-take_le;
  length-dequeue-pos = length-take_pos;
}
