-- ===== src/Facade/Order.antt =====
-- include/viper/hiom/hiom.hpp: the order of a batch before it is applied. `std::stable_sort` has one
-- outcome, which an insertion sort computes.
use hiom.Prelude.{
  ℕ, ◌+◌, ◌==◌, if◌then◌else◌, Bool, Option, List, [], ◌∷◌, ◌≤◌, ◌≡◌, arith, refl, Bool-cases, inl,
  inr, ◌∙◌, ltb,
}
use hiom.Codec.{BlockBaseMap}
use hiom.CommitBuffer.Queue.{CommitEntry, count_in, to_nat}
use hiom.HotTier.Table.{HotTier}
use hiom.Facade.Winner.{winners}
use hiom.Facade.Coalesce.{SortedFrom, is_entry, live_entry, once, winners_from-once}

unfoldable pub entry_before : CommitEntry → CommitEntry → Bool
entry_before a b = if a.fp64 == b.fp64 then ltb a.seq b.seq else ltb a.fp64 b.fp64

-- In front of the first entry that is not before it.
unfoldable pub insert_entry : CommitEntry → List CommitEntry → List CommitEntry
insert_entry e [] = e ∷ []
insert_entry e (x ∷ xs) =
    let rest = insert_entry e xs in if entry_before x e then x ∷ rest else e ∷ x ∷ xs

unfoldable pub stable_sort : List CommitEntry → List CommitEntry
unfolding insert_entry
stable_sort [] = []
stable_sort (e ∷ es) = insert_entry e (stable_sort es)

count_in-insert_entry :
    (p : CommitEntry → Bool) (e : CommitEntry) (es : List CommitEntry)
    → count_in p (insert_entry e es) ≡ to_nat (p e) + count_in p es
unfolding insert_entry count_in
count_in-insert_entry p e [] = refl
count_in-insert_entry p e (x ∷ xs) = elim (Bool-cases (entry_before x e)) [
  | inl first ↦ rw first (omega (arith, count_in-insert_entry p e xs))
  | inr last ↦ rw last refl
]

pub count_in-stable_sort :
    (p : CommitEntry → Bool) (es : List CommitEntry) → count_in p (stable_sort es) ≡ count_in p es
unfolding stable_sort count_in
count_in-stable_sort p [] = refl
count_in-stable_sort p (e ∷ es) =
    count_in-insert_entry p e (stable_sort es) ∙ omega (arith, count_in-stable_sort p es)

insert_entry-SortedFrom :
    (g : ℕ) (e : CommitEntry) (es : List CommitEntry)
    → g ≤ e.fp64
    → SortedFrom g es
    → SortedFrom g (insert_entry e es)
unfolding insert_entry SortedFrom entry_before
insert_entry-SortedFrom g e [] le sorted = (le, tt)
insert_entry-SortedFrom g e (x ∷ xs) le (lx, sorted) = elim (Bool-cases (entry_before x e)) [
  | inl first ↦ rw first (lx, insert_entry-SortedFrom x.fp64 e xs (ground (arith, first)) sorted)
  | inr last ↦ rw last (le, (ground (arith, last), sorted))
]

pub stable_sort-SortedFrom : (es : List CommitEntry) → SortedFrom 0 (stable_sort es)
unfolding stable_sort SortedFrom
stable_sort-SortedFrom [] = tt
stable_sort-SortedFrom (e ∷ es) =
    insert_entry-SortedFrom 0 e (stable_sort es) (omega arith) (stable_sort-SortedFrom es)

module _ (slot_key : ℕ → Option ℕ) (hot : HotTier) (base_map : BlockBaseMap) where
  sorted_once :
      (f k : ℕ) (es : List CommitEntry)
      → SortedFrom 0 es
      → count_in (is_entry f k) (winners slot_key hot base_map es)
        ≡ once (count_in (live_entry slot_key f k) es)
  unfolding winners SortedFrom count_in
  sorted_once f k [] sorted = refl
  sorted_once f k (e ∷ es) (le, sorted) =
      winners_from-once slot_key hot base_map f e.fp64 k (e ∷ []) es (ground arith) sorted

  -- Of a batch that was sorted as the flusher sorts it, exactly one entry of each fingerprint and key
  -- is picked where the batch has a remove of the key or a put of it whose slot still holds the key,
  -- and none where it has not.
  pub winners-stable_sort :
      (f k : ℕ) (batch : List CommitEntry)
      → count_in (is_entry f k) (winners slot_key hot base_map (stable_sort batch))
        ≡ (if ltb 0 (count_in (live_entry slot_key f k) batch) then 1 else 0)
  winners-stable_sort f k batch =
      sorted_once f k (stable_sort batch) (stable_sort-SortedFrom batch)
      ∙ rw (count_in-stable_sort (live_entry slot_key f k) batch) refl
