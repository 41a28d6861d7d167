-- ===== src/Facade/Coalesce.antt =====
-- The first stage of `apply_batch` on a whole batch: each key of a sorted batch is written once.
use native.Mathlib.Decide.{ℕ_discrete}
use hiom.Prelude.{
  ℕ, ◌+◌, ◌==◌, ◌&&◌, not, if◌then◌else◌, Bool, true, false, Option, some, none, List, [], ◌∷◌,
  ◌++◌, ◌<◌, ◌≤◌, ◌≡◌, inl, inr, arith, refl, Bool-cases, ap, ◌∙◌, sym, ltb, subst,
}
use mathlib.Core.List.{append-nil, append_assoc}
use hiom.Codec.{BlockBaseMap}
use hiom.CommitBuffer.Queue.{CommitEntry, count_in, to_nat, count_in-append}
use hiom.HotTier.Table.{HotTier}
use hiom.Facade.Winner.{seen_in, kids_in_run, winner, pick_each, winners_from}
use hiom.Facade.Picked.{is_live, At, WinnerSpec, winner-WinnerSpec}

abbrev is_key : ℕ → CommitEntry → Bool
is_key k e = e.key_id == k

-- The entries of one key under one fingerprint.
abbrev pub is_entry : ℕ → ℕ → CommitEntry → Bool
is_entry f k e = e.fp64 == f && e.key_id == k

abbrev strays : ℕ → CommitEntry → Bool
strays g e = not (e.fp64 == g)

abbrev pub once : ℕ → ℕ
once n = if ltb 0 n then 1 else 0

unfoldable occurs : ℕ → List ℕ → ℕ
occurs k [] = 0
occurs k (s ∷ ss) = to_nat (s == k) + occurs k ss

occurs-append : (k : ℕ) (ss ts : List ℕ) → occurs k (ss ++ ts) ≡ occurs k ss + occurs k ts
unfolding occurs
occurs-append k [] ts = omega arith
occurs-append k (s ∷ ss) ts = omega (arith, occurs-append k ss ts)

seen_in-occurs : (k : ℕ) (ss : List ℕ) → seen_in k ss ≡ ltb 0 (occurs k ss)
unfolding seen_in occurs
seen_in-occurs k [] = refl
seen_in-occurs k (s ∷ ss) = ground (arith, seen_in-occurs k ss)

old_kid :
    (k kid : ℕ) (kids : List ℕ) (n : ℕ)
    → seen_in kid kids ≡ true
    → (if ltb 0 (occurs k kids) then occurs k kids else once n)
      ≡ (if ltb 0 (occurs k kids) then occurs k kids else once (to_nat (kid == k) + n))
old_kid k kid kids n h = elim (ℕ_discrete kid k) [
  | yes e ↦
      let there : ltb 0 (occurs k kids) ≡ true =
        sym (seen_in-occurs k kids) ∙ ap (λ (t : ℕ). seen_in t kids) (sym e) ∙ h in
      rw there refl
  | no ne ↦ let off : (kid == k) ≡ false = ground arith in rw off (ground arith)
]

new_kid :
    (k kid : ℕ) (kids : List ℕ) (n : ℕ)
    → seen_in kid kids ≡ false
    → (if ltb 0 (occurs k (kids ++ kid ∷ [])) then occurs k (kids ++ kid ∷ []) else once n)
      ≡ (if ltb 0 (occurs k kids) then occurs k kids else once (to_nat (kid == k) + n))
unfolding occurs
new_kid k kid kids n h = elim (ℕ_discrete kid k) [
  | yes e ↦
      let there : ltb 0 (occurs k kids) ≡ false =
        sym (seen_in-occurs k kids) ∙ ap (λ (t : ℕ). seen_in t kids) (sym e) ∙ h in
      rw (occurs-append k kids (kid ∷ [])) (ground (arith, there))
  | no ne ↦ rw (occurs-append k kids (kid ∷ [])) (ground arith)
]

-- Each key of the run is listed once.
occurs-kids_in_run :
    (k : ℕ) (kids : List ℕ) (es : List CommitEntry)
    → occurs k (kids_in_run kids es)
      ≡ (if ltb 0 (occurs k kids) then occurs k kids else once (count_in (is_key k) es))
unfolding kids_in_run count_in
occurs-kids_in_run k kids [] = ground arith
occurs-kids_in_run k kids (e ∷ es) = elim (Bool-cases (seen_in e.key_id kids)) [
  | inl old ↦
      rw old (occurs-kids_in_run k kids es ∙ old_kid k e.key_id kids (count_in (is_key k) es) old)
  | inr new ↦ rw new (
      occurs-kids_in_run k (kids ++ e.key_id ∷ []) es
      ∙ new_kid k e.key_id kids (count_in (is_key k) es) new)
]

-- An entry of a list is counted.
counted :
    (p : CommitEntry → Bool) (es : List CommitEntry) (w : CommitEntry)
    → At es w
    → to_nat (p w) ≤ count_in p es
unfolding count_in
counted p es w a = rw (a.split, count_in-append p a.before (w ∷ a.after)) (omega arith)

-- Sorted by the fingerprint, from `g` on.
unfoldable pub SortedFrom : ℕ → List CommitEntry → Type 0
SortedFrom g [] = Unit {0}
SortedFrom g (e ∷ es) = (g ≤ e.fp64) × SortedFrom e.fp64 es

abbrev pub live_entry : (ℕ → Option ℕ) → ℕ → ℕ → CommitEntry → Bool
live_entry slot_key f k e = e.fp64 == f && is_live slot_key k e

module _ (slot_key : ℕ → Option ℕ) (hot : HotTier) (base_map : BlockBaseMap) where
  picked :
      (f g k kid : ℕ) (run : List CommitEntry) (o : Option CommitEntry)
      → count_in (strays g) run ≡ 0
      → WinnerSpec slot_key hot base_map kid run o
      → count_in (is_entry f k) (elim o [ some w ↦ w ∷ [] | none ↦ [] ])
        ≡ (if g == f then to_nat (kid == k && ltb 0 (count_in (is_live slot_key kid) run)) else 0)
  unfolding count_in
  picked f g k kid run none own (_, _, h) = ground (arith, h)
  picked f g k kid run (some w) own (_, _, (live, (a, why))) =
      let here : w.fp64 ≡ g = ground (arith, counted (strays g) run w a, own) in
      let some_live = counted (is_live slot_key kid) run w a in ground (arith, live, some_live)

  with_rest :
      (p : CommitEntry → Bool) (o : Option CommitEntry) (rest : List CommitEntry)
      → count_in p (elim o [ some w ↦ w ∷ rest | none ↦ rest ])
        ≡ count_in p (elim o [ some w ↦ w ∷ [] | none ↦ [] ]) + count_in p rest
  unfolding count_in
  with_rest p none rest = omega arith
  with_rest p (some w) rest = omega arith

  picked_each :
      (f g k : ℕ) (run : List CommitEntry) (kids : List ℕ)
      → count_in (strays g) run ≡ 0
      → count_in (is_entry f k) (pick_each slot_key hot base_map run kids)
        ≡ (if g == f && ltb 0 (count_in (is_live slot_key k) run) then occurs k kids else 0)
  unfolding pick_each occurs count_in
  picked_each f g k run [] own = ground arith
  picked_each f g k run (kid ∷ kids) own =
      let o = winner slot_key hot base_map kid run in
      let this = picked f g k kid run o own (winner-WinnerSpec slot_key hot base_map kid run) in
      with_rest (is_entry f k) o (pick_each slot_key hot base_map run kids)
      ∙ elim (ℕ_discrete kid k) [
        | yes e ↦
            let same = ap (λ (t : ℕ). count_in (is_live slot_key t) run) e in
            ground (arith, this, picked_each f g k run kids own, same)
        | no ne ↦ ground (arith, this, picked_each f g k run kids own)
      ]

  run_live :
      (f g k : ℕ) (run : List CommitEntry)
      → count_in (strays g) run ≡ 0
      → count_in (live_entry slot_key f k) run
        ≡ (if g == f then count_in (is_live slot_key k) run else 0)
  unfolding count_in
  run_live f g k [] own = ground arith
  run_live f g k (e ∷ es) own =
      let here : e.fp64 ≡ g = ground (arith, own) in
      ground (arith, here, run_live f g k es (omega (arith, own)))

  live_keys :
      (k : ℕ) (run : List CommitEntry) → count_in (is_live slot_key k) run ≤ count_in (is_key k) run
  unfolding count_in
  live_keys k [] = omega arith
  live_keys k (e ∷ es) = ground (arith, live_keys k es)

  picked_run :
      (f g k : ℕ) (run : List CommitEntry)
      → count_in (strays g) run ≡ 0
      → count_in (is_entry f k) (pick_each slot_key hot base_map run (kids_in_run [] run))
        ≡ once (count_in (live_entry slot_key f k) run)
  unfolding occurs
  picked_run f g k run own =
      picked_each f g k run (kids_in_run [] run) own
      ∙ rw (run_live f g k run own, occurs-kids_in_run k [] run) (ground (arith, live_keys k run))

  past :
      (f g k : ℕ) (es : List CommitEntry)
      → f < g
      → SortedFrom g es
      → count_in (live_entry slot_key f k) es ≡ 0
  unfolding count_in SortedFrom
  past f g k [] lt sorted = refl
  past f g k (e ∷ es) lt (le, sorted) =
      let none_later = past f e.fp64 k es (omega arith) sorted in ground (arith, none_later)

  -- Two runs: the later one has no entry of the earlier one's fingerprint.
  sum :
      (f g k : ℕ) (run : List CommitEntry) (e : CommitEntry) (es : List CommitEntry) {a b : ℕ}
      → count_in (strays g) run ≡ 0
      → g < e.fp64
      → SortedFrom e.fp64 es
      → a ≡ once (count_in (live_entry slot_key f k) run)
      → b ≡ once (count_in (live_entry slot_key f k) (e ∷ es))
      → a + b ≡ once (count_in (live_entry slot_key f k) (run ++ e ∷ es))
  unfolding SortedFrom
  sum f g k run e es own lt sorted ha hb =
      rw (count_in-append (live_entry slot_key f k) run (e ∷ es)) (elim (ℕ_discrete f g) [
        | yes at ↦
            let later = past f e.fp64 k (e ∷ es) (omega arith) (omega arith, sorted) in
            ground (arith, ha, hb, later)
        | no ne ↦ let here = run_live f g k run own in ground (arith, ha, hb, here)
      ])

  pub winners_from-once :
      (f g k : ℕ) (run es : List CommitEntry)
      → count_in (strays g) run ≡ 0
      → SortedFrom g es
      → count_in (is_entry f k) (winners_from slot_key hot base_map g run es)
        ≡ once (count_in (live_entry slot_key f k) (run ++ es))
  unfolding winners_from count_in SortedFrom
  winners_from-once f g k run [] own sorted = rw (append-nil run) (picked_run f g k run own)
  winners_from-once f g k run (e ∷ es) own (le, sorted) = elim (ℕ_discrete e.fp64 g) [
    | yes same ↦
        let test : (e.fp64 == g) ≡ true = ground arith in
        let own' : count_in (strays g) (run ++ e ∷ []) ≡ 0 =
          count_in-append (strays g) run (e ∷ []) ∙ ground (arith, own, test) in
        rw test (
          winners_from-once f g k (run ++ e ∷ []) es own'
            (subst (λ (t : ℕ). SortedFrom t es) same sorted)
          ∙ ap (λ (t : List CommitEntry). once (count_in (live_entry slot_key f k) t))
              (append_assoc run (e ∷ []) es))
    | no ne ↦
        let test : (e.fp64 == g) ≡ false = ground arith in
        let next = winners_from-once f e.fp64 k (e ∷ []) es (ground arith) sorted in
        rw test (
          count_in-append (is_entry f k) (pick_each slot_key hot base_map run (kids_in_run [] run))
            (winners_from slot_key hot base_map e.fp64 (e ∷ []) es)
          ∙ sum f g k run e es own (ground arith) sorted (picked_run f g k run own) next)
  ]
