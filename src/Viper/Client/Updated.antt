-- ===== src/Viper/Client/Updated.antt =====
-- An update as a whole: the record that it changes is the one that the offsets name.
use hiom.Prelude.{
  ℕ, ◌≡◌, ◌&&◌, not, if◌then◌else◌, Bool, true, false, Option, some, none, arith, refl, sym, ◌∙◌,
  inl, inr, Bool-cases, sym,
}
use hiom.Codec.{get_offsets, is_tombstone}
use hiom.Viper.Client.{Pool}
use hiom.Viper.Client.Walk.{PoolIsValid}
use hiom.Viper.Client.Update.{
  TriState, applied, key_mismatch, lock_busy, try_at, update, update_verified,
}
use hiom.Viper.Client.InPlace.{
  IsReached, holds, holds-same, IsUpdated, Unchanged, TrySpec, try_at-TrySpec,
}

-- No offset, or one of an initialised page.
abbrev pub IsNamed : {K V : Type 0} → ℕ → Pool K V → Type 0
IsNamed off pool = is_tombstone off ≡ false → IsReached off pool

module _ {K V : Type 0} (key_eq : K → K → Bool) (key : K) (update_fn : V → V) where
  -- The offset, where it is one and the record of the key stands there.
  abbrev pub named : Pool K V → ℕ → Bool
  named pool off = not (is_tombstone off) && holds key_eq key pool off

  -- The offset of the record of the key: the hot tier's, else the verified one.
  unfoldable pub target : ℕ → ℕ → Pool K V → Option ℕ
  target hot_off cold_off pool =
      if named pool hot_off
      then some hot_off
      else if named pool cold_off
      then some cold_off
      else none

  abbrev pub UpdateSpec : Option ℕ → Pool K V → Bool → Pool K V → Type 0
  UpdateSpec (some off) pool done pool' =
      (done ≡ true) × IsUpdated key_eq key update_fn off pool pool'
  UpdateSpec none pool done pool' = (done ≡ false) × Unchanged key_eq key update_fn pool pool'

  abbrev pub Updates : Option ℕ → Pool K V → Option (Bool × Pool K V) → Type 0
  Updates off pool o =
      (done : Bool) × (pool' : Pool K V) × (o ≡ some (done, pool')) × UpdateSpec off pool done pool'

  module _ (pool : Pool K V) (cold_off : ℕ) where
    abbrev second : Option ℕ
    second = if named pool cold_off then some cold_off else none

    verified_tried :
        (pool1 : Pool K V) (t : TriState K V)
        → is_tombstone cold_off ≡ false
        → try_at key_eq key update_fn cold_off pool1 ≡ t
        → Unchanged key_eq key update_fn pool pool1
        → TrySpec key_eq key update_fn cold_off pool1 t
        → Updates second pool (update_verified key_eq key update_fn cold_off pool1)
    unfolding update_verified holds
    verified_tried pool1 (applied pool2) off e (_, same, _) (here, u) =
        let there = same (get_offsets cold_off) in
        let found : holds key_eq key pool cold_off ≡ true =
          sym (holds-same key_eq key pool pool1 cold_off there) ∙ here in
        rw (off, found)
          (
            true,
            pool2,
            rw e refl,
            (
              refl,
              record {
                valid = u.valid;
                stored_key = u.stored_key;
                value = u.value;
                before = sym there ∙ u.before;
                after = u.after;
                same = λ q ne. u.same q ne ∙ same q;
              },
            ),
          )
    verified_tried pool1 (key_mismatch pool2) off e (_, same, kept)
          (missing, (valid, unchanged, kept2)) =
        let missed : holds key_eq key pool cold_off ≡ false =
          sym (holds-same key_eq key pool pool1 cold_off (same (get_offsets cold_off))) ∙ missing in
        rw (off, missed)
          (
            false,
            pool2,
            rw e refl,
            (refl, (valid, (λ q. unchanged q ∙ same q), λ o u. kept2 o (kept o u))),
          )
    verified_tried pool1 lock_busy off e u waits = absurd (ground (arith, waits))

    verified_lem :
        (pool1 : Pool K V)
        → Unchanged key_eq key update_fn pool pool1
        → IsNamed cold_off pool
        → Updates second pool (update_verified key_eq key update_fn cold_off pool1)
    unfolding update_verified
    verified_lem pool1 u reached = elim (Bool-cases (is_tombstone cold_off)) [
      | inl no_off ↦ rw (no_off) (false, pool1, refl, (refl, u))
      | inr off ↦
          verified_tried pool1 (try_at key_eq key update_fn cold_off pool1) off refl u
            (try_at-TrySpec key_eq key update_fn cold_off pool1 u.0 (u.2 cold_off (reached off)))
    ]

    hot_tried :
        (hot_off : ℕ) (t : TriState K V)
        → is_tombstone hot_off ≡ false
        → try_at key_eq key update_fn hot_off pool ≡ t
        → TrySpec key_eq key update_fn hot_off pool t
        → IsNamed cold_off pool
        → Updates
            (target hot_off cold_off pool)
            pool
            (update key_eq key update_fn hot_off cold_off pool)
    unfolding update target
    hot_tried hot_off (applied pool1) off e (here, u) reached =
        rw (target, off, here) (true, pool1, rw e refl, (refl, u))
    hot_tried hot_off (key_mismatch pool1) off e (missing, u) reached =
        rw (target, update, off, e, missing) (verified_lem pool1 u reached)
    hot_tried hot_off lock_busy off e waits reached = absurd (ground (arith, waits))

  -- An update of a valid pool returns, where each of the two offsets is the tombstone or is in a
  -- page that was initialised. It succeeds exactly where one of the offsets names a record of the
  -- key: the value of that record, the hot tier's before the verified one, is replaced by what
  -- `update_fn` makes of it. Every other record stands as it did, all do where the update fails,
  -- and the pool is valid again.
  pub update-Updates :
      (hot_off cold_off : ℕ) (pool : Pool K V)
      → PoolIsValid pool
      → IsNamed hot_off pool
      → IsNamed cold_off pool
      → Updates
          (target hot_off cold_off pool)
          pool
          (update key_eq key update_fn hot_off cold_off pool)
  unfolding update target
  update-Updates hot_off cold_off pool v hot_reached cold_reached =
      elim (Bool-cases (is_tombstone hot_off)) [
        | inl no_off ↦
            rw (target, update, no_off)
              (verified_lem pool cold_off pool (v, (λ q. refl), (λ o u. u)) cold_reached)
        | inr off ↦
            hot_tried pool cold_off hot_off (try_at key_eq key update_fn hot_off pool) off refl
              (try_at-TrySpec key_eq key update_fn hot_off pool v (hot_reached off)) cold_reached
      ]
