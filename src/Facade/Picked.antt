-- ===== src/Facade/Picked.antt =====
-- The winner of a key in a run: an entry that may stand in the cold tier, and why this one.
use native.Mathlib.Decide.{ℕ_discrete}
use hiom.Prelude.{
  ◌≢◌, subst, sym, ◌∙◌, ℕ, ◌==◌, ◌&&◌, ◌||◌, not, if◌then◌else◌, Bool, true, false, Option, some,
  none, List, [], ◌∷◌, ◌++◌, ◌≡◌, ◌⊎◌, inl, inr, arith, refl, Bool-cases, ap,
}
use hiom.Codec.{BlockBaseMap, decode, key_value_offset}
use hiom.CommitBuffer.Queue.{CommitEntry, SlotRef, count_in}
use hiom.HotTier.Table.{HotTier, read_slot}
use hiom.HotTier.Layout.{empty_fp}
use hiom.Facade.Winner.{is_put, holds, put_at, last_alive, winner, canonical_off, hot_slot_of}

live_test :
    (a b c : Bool) (e : CommitEntry)
    → (if not a then none else if not b then some e else if c then some e else none)
      ≡ (if a && (not b || c) then some e else none)
live_test true true c e = refl
live_test true false c e = refl
live_test false b c e = refl

put_test :
    (a b o c : Bool) (rest : Option CommitEntry) (e : CommitEntry)
    → (if not a
        then rest
        else if not b
        then rest
        else if not o
        then rest
        else if c
        then some e
        else rest)
      ≡ (if (a && b) && (o && c) then some e else rest)
put_test true true true c rest e = refl
put_test true true false c rest e = refl
put_test true false o c rest e = refl
put_test false b o c rest e = refl

hot_test :
    (a b c : Bool) (here rest : SlotRef)
    → (if not a then rest else if b && c then here else rest)
      ≡ (if a && (b && c) then here else rest)
hot_test true b c here rest = refl
hot_test false b c here rest = refl

view_test :
    (a b : Bool) (off : ℕ)
    → a ≡ true
    → (if not a then none else if b then none else some off) ≡ (if b then none else some off)
view_test true b off h = refl
view_test false b off h = absurd (ground (arith, h))

-- An entry in its place in a list.
pub record At (es : List CommitEntry) (w : CommitEntry) : Type 0 where
  pub before : List CommitEntry
  pub after : List CommitEntry
  pub split : es ≡ before ++ w ∷ after

abbrev later : {es : List CommitEntry} {w : CommitEntry} (e : CommitEntry) → At es w → At (e ∷ es) w
later e a = record {
  before = e ∷ a.before;
  after = a.after;
  split = ap (λ (t : List CommitEntry). e ∷ t) a.split;
}

abbrev first : (e : CommitEntry) (es : List CommitEntry) → At (e ∷ es) e
first e es = record { before = []; after = es; split = refl }

module _ (slot_key : ℕ → Option ℕ) where
  -- An entry of the key that is not stale: a remove, or a put whose slot still holds the key.
  abbrev pub is_live : ℕ → CommitEntry → Bool
  is_live kid e = e.key_id == kid && (not (is_put e.op) || holds slot_key e.off kid)

  -- What the descending walk finds: the last live entry.
  abbrev pub LastSpec : ℕ → List CommitEntry → Option CommitEntry → Type 0
  LastSpec kid es none = count_in (is_live kid) es ≡ 0
  LastSpec kid es (some w) =
      (is_live kid w ≡ true) × ((a : At es w) × (count_in (is_live kid) a.after ≡ 0))

  last_alive-step :
      (kid : ℕ) (e : CommitEntry) (es : List CommitEntry) (o : Option CommitEntry)
      → last_alive slot_key kid es ≡ o
      → LastSpec kid es o
      → LastSpec kid (e ∷ es) (last_alive slot_key kid (e ∷ es))
  unfolding last_alive count_in
  last_alive-step kid e es (some w) h (live, (a, stale)) = rw h (live, (later e a, stale))
  last_alive-step kid e es none h stale =
      let same = live_test (e.key_id == kid) (is_put e.op) (holds slot_key e.off kid) e in
      elim (Bool-cases (is_live kid e)) [
        | inl live ↦ rw (h, same, live) (live, (first e es, stale))
        | inr dead ↦ rw (h, same, dead) (ground (arith, dead, stale))
      ]

  last_alive-LastSpec :
      (kid : ℕ) (es : List CommitEntry) → LastSpec kid es (last_alive slot_key kid es)
  unfolding last_alive count_in
  last_alive-LastSpec kid [] = refl
  last_alive-LastSpec kid (e ∷ es) =
      last_alive-step kid e es (last_alive slot_key kid es) refl (last_alive-LastSpec kid es)

  -- A live put of the key at this offset.
  abbrev pub is_live_at : ℕ → ℕ → CommitEntry → Bool
  is_live_at kid off e =
      (e.key_id == kid && is_put e.op) && (e.off == off && holds slot_key e.off kid)

  -- What the hot tier's offset finds: the first live put with that offset.
  abbrev PutSpec : ℕ → ℕ → List CommitEntry → Option CommitEntry → Type 0
  PutSpec kid off es none = count_in (is_live_at kid off) es ≡ 0
  PutSpec kid off es (some w) =
      (is_live_at kid off w ≡ true) × ((a : At es w) × (count_in (is_live_at kid off) a.before ≡ 0))

  put_at-step :
      (kid off : ℕ) (e : CommitEntry) (es : List CommitEntry) (o : Option CommitEntry)
      → is_live_at kid off e ≡ false
      → PutSpec kid off es o
      → PutSpec kid off (e ∷ es) o
  unfolding count_in
  put_at-step kid off e es none missed h = ground (arith, missed, h)
  put_at-step kid off e es (some w) missed (live, (a, earlier)) =
      (live, (later e a, ground (arith, missed, earlier)))

  put_at-PutSpec :
      (kid off : ℕ) (es : List CommitEntry) → PutSpec kid off es (put_at slot_key kid off es)
  unfolding put_at count_in
  put_at-PutSpec kid off [] = refl
  put_at-PutSpec kid off (e ∷ es) =
      let rest = put_at-PutSpec kid off es in
      let same =
        put_test (e.key_id == kid) (is_put e.op) (e.off == off) (holds slot_key e.off kid)
          (put_at slot_key kid off es) e in
      elim (Bool-cases (is_live_at kid off e)) [
        | inr missed ↦
            rw (same, missed) (put_at-step kid off e es (put_at slot_key kid off es) missed rest)
        | inl all ↦ rw (same, all) (all, (first e es, refl))
      ]

  -- A put of the key that was pinned to a slot of the hot tier.
  abbrev pub is_pinned : ℕ → CommitEntry → Bool
  is_pinned kid e = e.key_id == kid && (is_put e.op && e.hot_slot.valid)

  abbrev HotSpec : ℕ → List CommitEntry → SlotRef → Type 0
  HotSpec kid es ref =
      ((count_in (is_pinned kid) es ≡ 0) × (ref.valid ≡ false))
      ⊎ ((e : CommitEntry) × (is_pinned kid e ≡ true)
          × (e.hot_slot ≡ ref)
          × ((a : At es e) × (count_in (is_pinned kid) a.before ≡ 0)))

  hot_slot_of-HotSpec : (kid : ℕ) (es : List CommitEntry) → HotSpec kid es (hot_slot_of kid es)
  unfolding hot_slot_of count_in
  hot_slot_of-HotSpec kid [] = inl (refl, refl)
  hot_slot_of-HotSpec kid (e ∷ es) =
      let same =
        hot_test (e.key_id == kid) (is_put e.op) e.hot_slot.valid e.hot_slot (hot_slot_of kid es) in
      elim (Bool-cases (is_pinned kid e)) [
        | inl here ↦ rw (same, here) (inr (e, here, refl, (first e es, refl)))
        | inr missed ↦
            rw (same, missed)
              (elim (hot_slot_of-HotSpec kid es) [
                | inl (nothing, invalid) ↦ inl (ground (arith, missed, nothing), invalid)
                | inr (p, pinned, e', (a, earlier)) ↦
                    inr (p, pinned, e', (later e a, ground (arith, missed, earlier)))
              ])
      ]

  module _ (hot : HotTier) (base_map : BlockBaseMap) where
    -- The offset in a slot of the hot tier.
    abbrev pub hot_off : SlotRef → ℕ
    hot_off ref =
        let d = decode (read_slot hot ref).packed_off 0 base_map in
        key_value_offset d.block_number d.page_number d.data_offset

    -- The offset that the hot tier has for the key: that of the slot of the first put that was
    -- pinned; none where no put was, or where that slot is empty by now.
    abbrev pub Pointed : ℕ → List CommitEntry → Option ℕ → Type 0
    Pointed kid run none =
        (count_in (is_pinned kid) run ≡ 0)
        ⊎ ((e : CommitEntry) × (is_pinned kid e ≡ true)
            × ((read_slot hot e.hot_slot).fp ≡ empty_fp)
            × ((a : At run e) × (count_in (is_pinned kid) a.before ≡ 0)))
    Pointed kid run (some off) =
        (e : CommitEntry) × (is_pinned kid e ≡ true)
        × ((read_slot hot e.hot_slot).fp ≢ empty_fp)
        × (off ≡ hot_off e.hot_slot)
        × ((a : At run e) × (count_in (is_pinned kid) a.before ≡ 0))

    -- A live put at the offset that the hot tier has.
    abbrev pub preferred : ℕ → Option ℕ → CommitEntry → Bool
    preferred kid none e = false
    preferred kid (some off) e = is_live_at kid off e

    -- The winner of a key in a run, where the hot tier has offset `c` for it.
    abbrev pub WonBy : ℕ → List CommitEntry → Option ℕ → Option CommitEntry → Type 0
    WonBy kid run c none = count_in (is_live kid) run ≡ 0
    WonBy kid run c (some w) =
        (is_live kid w ≡ true)
        × ((a : At run w) × (((preferred kid c w ≡ true)
                × (count_in (preferred kid c) a.before ≡ 0))
              ⊎ ((count_in (preferred kid c) run ≡ 0) × (count_in (is_live kid) a.after ≡ 0))))

    abbrev pub WinnerSpec : ℕ → List CommitEntry → Option CommitEntry → Type 0
    WinnerSpec kid run o = (c : Option ℕ) × Pointed kid run c × WonBy kid run c o

  module _ (hot : HotTier) (base_map : BlockBaseMap) (kid : ℕ) (run : List CommitEntry) where
    pointed :
        (ref : SlotRef)
        → HotSpec kid run ref
        → Pointed hot base_map kid run (canonical_off hot base_map ref)
    unfolding canonical_off
    pointed ref (inl (nothing, invalid)) = rw (canonical_off, invalid) (inl nothing)
    pointed ref (inr (e, pinned, same, at)) =
        subst (λ r. Pointed hot base_map kid run (canonical_off hot base_map r)) same
          (by_view e pinned at)
      where
        by_view :
            (e : CommitEntry)
            → is_pinned kid e ≡ true
            → ((a : At run e) × (count_in (is_pinned kid) a.before ≡ 0))
            → Pointed hot base_map kid run (canonical_off hot base_map e.hot_slot)
        by_view e pinned at =
            let valid : e.hot_slot.valid ≡ true = ground (arith, pinned) in
            let off = hot_off hot base_map e.hot_slot in
            let fp = (read_slot hot e.hot_slot).fp in
            elim (ℕ_discrete fp empty_fp) [
              | yes empty ↦
                  let is_empty : (fp == empty_fp) ≡ true = ground (arith, empty) in
                  let none_there : canonical_off hot base_map e.hot_slot ≡ none =
                    view_test e.hot_slot.valid (fp == empty_fp) off valid
                    ∙ ap (λ (t : Bool). if t then none else some off) is_empty in
                  subst (Pointed hot base_map kid run) (sym none_there) (inr (e, pinned, empty, at))
              | no filled ↦
                  let is_filled : (fp == empty_fp) ≡ false = ground (arith, filled) in
                  let there : canonical_off hot base_map e.hot_slot ≡ some off =
                    view_test e.hot_slot.valid (fp == empty_fp) off valid
                    ∙ ap (λ (t : Bool). if t then none else some off) is_filled in
                  subst (Pointed hot base_map kid run) (sym there) (e, pinned, filled, refl, at)
            ]

    no_preferred :
        (c : Option ℕ)
        → c ≡ none
        → (es : List CommitEntry) → count_in (preferred hot base_map kid c) es ≡ 0
    unfolding count_in
    no_preferred c e [] = refl
    no_preferred c e (x ∷ es) =
        let here : preferred hot base_map kid c x ≡ false =
          ap (λ o. preferred hot base_map kid o x) e in
        ground (arith, here, no_preferred c e es)

    fallback :
        (c : Option ℕ) (o : Option CommitEntry)
        → count_in (preferred hot base_map kid c) run ≡ 0
        → LastSpec kid run o
        → WonBy hot base_map kid run c o
    fallback c none unpreferred h = h
    fallback c (some w) unpreferred (live, (a, stale)) = (live, (a, inr (unpreferred, stale)))

    by_hot_tier :
        (off : ℕ) (o : Option CommitEntry)
        → PutSpec kid off run o
        → WonBy hot base_map kid run
            (some off)
            (elim o [ some w ↦ some w | none ↦ last_alive slot_key kid run ])
    by_hot_tier off none nothing =
        fallback (some off) (last_alive slot_key kid run) nothing (last_alive-LastSpec kid run)
    by_hot_tier off (some w) (live, (a, earlier)) = (ground (arith, live), (a, inl (live, earlier)))

    won :
        (c : Option ℕ)
        → canonical_off hot base_map (hot_slot_of kid run) ≡ c
        → WonBy hot base_map kid run c (winner slot_key hot base_map kid run)
    unfolding winner
    won none h =
        rw (winner, h)
          (fallback none (last_alive slot_key kid run) (no_preferred none refl run)
            (last_alive-LastSpec kid run))
    won (some off) h =
        rw (winner, h) (by_hot_tier off (put_at slot_key kid off run) (put_at-PutSpec kid off run))

    -- The winner that `apply_batch` picks for a key in a run. The hot tier may have an offset for the
    -- key, in the slot of the first put of the key that was pinned, unless the slot is empty. Where
    -- some put of the key has that offset, and the slot there still holds the key, the first such put
    -- wins. Otherwise the last entry of the key wins that is a remove or a put whose slot still holds
    -- the key; and there is no winner exactly where the run has no such entry.
    pub winner-WinnerSpec : WinnerSpec hot base_map kid run (winner slot_key hot base_map kid run)
    winner-WinnerSpec = (
      canonical_off hot base_map (hot_slot_of kid run),
      pointed (hot_slot_of kid run) (hot_slot_of-HotSpec kid run),
      won (canonical_off hot base_map (hot_slot_of kid run)) refl,
    )
