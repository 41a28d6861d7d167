-- ===== src/HotTier/Placement.antt =====
-- Where `upsert` and `upsert_pinned` put an entry.
use native.Mathlib.Nat.{sub-zero}
use native.Mathlib.Decide.{ℕ_discrete}
use hiom.Prelude.{
  ◌≡◌, refl, suc, zero, true, false, inl, inr, some, none, ℕ, [], ◌∷◌, ◌⊎◌, Option, List, length,
  ◌<◌, ◌≤◌, ◌≢◌, ◌+◌, arith, get_or, sym, if◌then◌else◌, ◌-◌, ◌∙◌, ◌==◌, set, get_or-set_self,
  get_or-set_ne,
}
use hiom.HotTier.Layout.{
  BucketMeta, Cell, get_state, unpinned, slots_per_bucket, pack, unpack_fp, empty_fp, set_visited,
  clear_visited,
}
use hiom.HotTier.{
  slot_at, sieve_evict, cas_slot, Probe, match_at, no_match, probe, or_slot, Placed, updated,
  inserted, no_slot, no_retry, place, claimed,
}
use hiom.HotTier.Eviction.{sieve_evict_frees, sieve_evict-Swept, Swept}

-- What a probe from `i` on says about a list of slots.
abbrev pub ProbeSpec : ℕ → ℕ → Option ℕ → List ℕ → Probe → Type 0
ProbeSpec fp i before vs (match_at j) =
    (i ≤ j) × (j < i + length vs) × (unpack_fp (get_or vs (j - i) 0) ≡ fp)
ProbeSpec fp i before vs (no_match none) =
    (before ≡ none) × ((j : ℕ) → j < length vs → unpack_fp (get_or vs j 0) ≢ fp)
ProbeSpec fp i before vs (no_match (some j)) =
    ((before ≡ some j)
      ⊎ ((i ≤ j) × (j < i + length vs) × (unpack_fp (get_or vs (j - i) 0) ≡ empty_fp)))
    × ((k : ℕ) → k < length vs → unpack_fp (get_or vs k 0) ≢ fp)

all_clear :
    (fp v : ℕ) (vs : List ℕ)
    → unpack_fp v ≢ fp
    → ((j : ℕ) → j < length vs → unpack_fp (get_or vs j 0) ≢ fp)
    → (j : ℕ) → j < length (v ∷ vs)
    → unpack_fp (get_or (v ∷ vs) j 0) ≢ fp
all_clear fp v vs h hs zero lt = h
all_clear fp v vs h hs (suc j) lt = hs j (omega arith)

further :
    (i j v : ℕ) (vs : List ℕ) → i + 1 ≤ j → get_or (v ∷ vs) (j - i) 0 ≡ get_or vs (j - (i + 1)) 0
further i j v vs h = let behind : j - i ≡ suc (j - (i + 1)) = omega arith in rw behind refl

module _ (fp i v : ℕ) (vs : List ℕ) (other : unpack_fp v ≢ fp) where
  widen :
      (before before' : Option ℕ) (pr : Probe)
      → (before' ≡ before) ⊎ ((before' ≡ some i) × (unpack_fp v ≡ empty_fp))
      → (before' ≡ none → before ≡ none)
      → ProbeSpec fp (i + 1) before' vs pr
      → ProbeSpec fp i before (v ∷ vs) pr
  widen before before' (match_at j) new old (lo, hi, same) =
      (omega arith, omega arith, rw (further i j v vs lo) same)
  widen before before' (no_match none) new old (e, clear) = (old e, all_clear fp v vs other clear)
  widen before before' (no_match (some j)) new old (inr (lo, hi, empty), clear) = (
    inr (omega arith, omega arith, rw (further i j v vs lo) empty),
    all_clear fp v vs other clear,
  )
  widen before before' (no_match (some j)) (inl same) old (inl e, clear) =
      (inl (sym same ∙ e), all_clear fp v vs other clear)
  widen before before' (no_match (some j)) (inr (mine, empty)) old (inl e, clear) =
      let at : i ≡ j = cc in
      let first : j - i ≡ 0 = omega arith in
      (inr (omega arith, omega arith, rw first empty), all_clear fp v vs other clear)

pub probe-ProbeSpec :
    (fp i : ℕ) (before : Option ℕ) (vs : List ℕ) → ProbeSpec fp i before vs (probe fp i before vs)
unfolding probe
probe-ProbeSpec fp i none [] = (refl, λ j h. absurd (omega arith))
probe-ProbeSpec fp i (some j) [] = (inl refl, λ j h. absurd (omega arith))
probe-ProbeSpec fp i before (v ∷ vs) = elim (ℕ_discrete (unpack_fp v) fp) [
  | yes same ↦
      let hit : (unpack_fp v == fp) ≡ true = ground arith in
      let first : i - i ≡ 0 = omega arith in rw hit (omega arith, omega arith, rw first same)
  | no other ↦
      let miss : (unpack_fp v == fp) ≡ false = ground arith in
      let before' = if unpack_fp v == empty_fp then or_slot before i else before in
      rw miss (
        widen fp i v vs other before before' (probe fp (i + 1) before' vs) (kept before)
          (none_kept before) (probe-ProbeSpec fp (i + 1) before' vs))
]
  where
    kept :
        (o : Option ℕ)
        → ((if unpack_fp v == empty_fp then or_slot o i else o) ≡ o)
          ⊎ (((if unpack_fp v == empty_fp then or_slot o i else o) ≡ some i)
              × (unpack_fp v ≡ empty_fp))
    kept none = ground arith
    kept (some j) = inl (ground arith)

    none_kept :
        (o : Option ℕ) → (if unpack_fp v == empty_fp then or_slot o i else o) ≡ none → o ≡ none
    none_kept none h = refl
    none_kept (some j) h = absurd (ground arith)

-- Sixteen slots, and an empty one is all zero.
pub record CellIsValid (c : Cell) : Type 0 where
  pub width : length c.slots ≡ slots_per_bucket
  pub blank : (j : ℕ) → unpack_fp (slot_at c j) ≡ empty_fp → slot_at c j ≡ 0

-- The entry is in slot `i`, and no other slot and no state changed.
pub record HoldsOnly (c : Cell) (fp off i : ℕ) (c' : Cell) : Type 0 where
  pub in_bucket : i < slots_per_bucket
  pub written : slot_at c' i ≡ pack fp off
  pub others : (j : ℕ) → j ≢ i → slot_at c' j ≡ slot_at c j
  pub states : c'.meta.state ≡ c.meta.state

abbrev pub PlaceSpec : Cell → ℕ → ℕ → Placed → Cell → Type 0
PlaceSpec c fp off (updated i old) c' =
    (old ≡ slot_at c i) × (unpack_fp old ≡ fp) × HoldsOnly c fp off i c'
PlaceSpec c fp off (inserted i) c' =
    ((slot_at c i ≡ 0) ⊎ (get_state c.meta i ≡ unpinned))
    × ((j : ℕ) → j < slots_per_bucket → unpack_fp (slot_at c j) ≢ fp)
    × HoldsOnly c fp off i c'
PlaceSpec c fp off no_slot c' =
    ((j : ℕ) → j < slots_per_bucket → get_state c.meta j ≢ unpinned)
    × ((j : ℕ) → slot_at c' j ≡ slot_at c j)
PlaceSpec c fp off no_retry c' = ⊥

meta_of-set : (m : BucketMeta) (i : ℕ) → (set_visited m i).state ≡ m.state
unfolding set_visited
meta_of-set m i = ground arith

meta_of-clear : (m : BucketMeta) (i : ℕ) → (clear_visited m i).state ≡ m.state
unfolding clear_visited
meta_of-clear m i = ground arith

module _ (tries fp off : ℕ) (c : Cell) where
  pub place_match :
      (i : ℕ)
      → probe fp 0 none c.slots ≡ match_at i
      → place (suc tries) fp off c ≡ (
        updated i (slot_at c i),
        record c { slots = set c.slots i (pack fp off); meta = set_visited c.meta i },
      )
  unfolding place cas_slot
  place_match i h = ground arith

  abbrev filled : Cell → ℕ → Cell
  filled c1 i = claimed (record c1 { slots = set c1.slots i (pack fp off) }) i

  pub place_empty :
      (i : ℕ)
      → probe fp 0 none c.slots ≡ no_match (some i)
      → slot_at c i ≡ 0
      → place (suc tries) fp off c ≡ (inserted i, filled c i)
  unfolding place cas_slot
  place_empty i h empty = ground arith

  pub place_evict :
      (i : ℕ)
      → probe fp 0 none c.slots ≡ no_match none
      → (sieve_evict c).0 ≡ some i
      → slot_at (sieve_evict c).1 i ≡ 0
      → place (suc tries) fp off c ≡ (inserted i, filled (sieve_evict c).1 i)
  unfolding place cas_slot
  place_evict i h e empty = ground arith

  pub place_full :
      probe fp 0 none c.slots ≡ no_match none
      → (sieve_evict c).0 ≡ none
      → place (suc tries) fp off c ≡ (no_slot, (sieve_evict c).1)
  unfolding place
  place_full h e = ground arith

  module _ (v : CellIsValid c) where
    swept : Swept c (sieve_evict c).0 (sieve_evict c).1
    swept = sieve_evict-Swept c v.width

    from_eviction :
        (freed : Option ℕ)
        → (sieve_evict c).0 ≡ freed
        → probe fp 0 none c.slots ≡ no_match none
        → ((j : ℕ) → j < slots_per_bucket → unpack_fp (slot_at c j) ≢ fp)
        → PlaceSpec c fp off (place (suc tries) fp off c).0 (place (suc tries) fp off c).1
    from_eviction none e h absent_fp = rw (place_full h e) (
      λ j hj free. absurd (ground (arith, sieve_evict_frees c j hj free)),
      λ j. swept.others j (λ q. absurd (ground arith)),
    )
    from_eviction (some i) e h absent_fp =
        let (hi, free, empty) = swept.gone i e in
        rw (place_evict i h e empty) (
          inr free,
          absent_fp,
          record {
            in_bucket = hi;
            written =
                get_or-set_self (sieve_evict c).1.slots i (pack fp off) 0
                  (omega (arith, swept.width, v.width));
            others = λ j ne.
                get_or-set_ne (sieve_evict c).1.slots i j (pack fp off) 0 (λ q. ne (sym q))
                ∙ swept.others j (λ q. absurd (ground arith));
            states = meta_of-clear (sieve_evict c).1.meta i ∙ swept.states;
          },
        )

    from_probe :
        (pr : Probe)
        → probe fp 0 none c.slots ≡ pr
        → ProbeSpec fp 0 none c.slots pr
        → PlaceSpec c fp off (place (suc tries) fp off c).0 (place (suc tries) fp off c).1
    from_probe (match_at i) h (_, hi, same) = rw (place_match i h) (
      refl,
      rw (sub-zero i) at same,
      record {
        in_bucket = omega (arith, v.width);
        written = get_or-set_self c.slots i (pack fp off) 0 (omega arith);
        others = λ j ne. get_or-set_ne c.slots i j (pack fp off) 0 (λ q. ne (sym q));
        states = meta_of-set c.meta i;
      },
    )
    from_probe (no_match (some i)) h (inl no_before, clear) = absurd (ground arith)
    from_probe (no_match (some i)) h (inr (_, hi, zero_fp), clear) =
        let empty = v.blank i (rw (sub-zero i) at zero_fp) in
        rw (place_empty i h empty) (
          inl empty,
          λ j hj. clear j (omega (arith, v.width)),
          record {
            in_bucket = omega (arith, v.width);
            written = get_or-set_self c.slots i (pack fp off) 0 (omega arith);
            others = λ j ne. get_or-set_ne c.slots i j (pack fp off) 0 (λ q. ne (sym q));
            states = meta_of-clear c.meta i;
          },
        )
    from_probe (no_match none) h (_, clear) =
        from_eviction (sieve_evict c).0 refl h (λ j hj. clear j (omega (arith, v.width)))

    -- The first try places the entry: over the slot that had the fingerprint; or, where no slot had it,
    -- into a slot that was empty or was neither pinned nor in flush; every other slot and every state
    -- stays. It fails, with every slot kept, only where all sixteen slots are pinned or in flush.
    pub place-PlaceSpec :
        PlaceSpec c fp off (place (suc tries) fp off c).0 (place (suc tries) fp off c).1
    place-PlaceSpec = from_probe (probe fp 0 none c.slots) refl (probe-ProbeSpec fp 0 none c.slots)
