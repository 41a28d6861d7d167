-- ===== src/Viper/Client/InPlace.antt =====
-- An update in place changes the record of the key, where one of the two offsets has it.
use hiom.Prelude.{
  zero, suc, List, [], ◌∷◌, ℕ, ◌<◌, ◌≡◌, Bool, true, false, Option, some, none, set, length,
  length-set, arith, refl, sym, ap, ◌∙◌, inl, inr, Bool-cases, List, ◌∷◌,
}
use hiom.Codec.{get_offsets}
use hiom.Viper.{VPage, page_at, is_free, is_used, record_at, lock, unlock}
use hiom.Viper.Pages.{record_at-set_self, record_at-set_ne}
use hiom.Viper.Client.{Pool, modify_page}
use hiom.Viper.Client.Kept.{IsQuiet, live, lock-IsQuiet, modify_page_self, version-IsKept}
use hiom.Viper.Client.Walk.{PoolIsValid, PoolIsValid-kept, modify_page-Stays, kept_refl}
use hiom.Viper.Client.Writes.{live-written}
use hiom.Viper.Client.Rewrites.{IsRewritten, modify_page-PoolIsValid}
use hiom.Viper.Client.Frees.{used-sized}
use hiom.Viper.Client.Stored.{Apart, live_at}
use hiom.Viper.Client.Update.{TriState, applied, key_mismatch, lock_busy, try_at}

module _ {K V : Type 0} where
  -- The page of an offset is one that was initialised, as the page of every record was.
  abbrev pub IsReached : ℕ → Pool K V → Type 0
  IsReached off pool =
      is_used (page_at pool.blocks (get_offsets off).0 (get_offsets off).1).version_lock ≡ true

  record_at-lt : (rs : List (K × V)) (i : ℕ) (r : K × V) → record_at rs i ≡ some r → i < length rs
  unfolding record_at
  record_at-lt [] i r h = absurd (ground (arith, h))
  record_at-lt (x ∷ xs) zero r h = omega arith
  record_at-lt (x ∷ xs) (suc i) r h = omega (arith, record_at-lt xs i r h)

  module _ (key_eq : K → K → Bool) (key : K) where
    abbrev found_at : Option (K × V) → Bool
    found_at none = false
    found_at (some (k, v)) = key_eq k key

    -- Whether the record of the key stands at the offset.
    unfoldable pub holds : Pool K V → ℕ → Bool
    holds pool off = found_at (live_at pool (get_offsets off))

    pub holds-same :
        (pool pool' : Pool K V) (off : ℕ)
        → live_at pool' (get_offsets off) ≡ live_at pool (get_offsets off)
        → holds pool' off ≡ holds pool off
    unfolding holds
    holds-same pool pool' off e = ap found_at e

  module _ (key_eq : K → K → Bool) (key : K) (update_fn : V → V) where
    pub record IsUpdated (off : ℕ) (pool pool' : Pool K V) : Type 0 where
      pub valid : PoolIsValid pool'
      pub stored_key : K
      pub value : V
      pub before : live_at pool (get_offsets off) ≡ some (stored_key, value)
      pub after : live_at pool' (get_offsets off) ≡ some (stored_key, update_fn value)
      pub same : (q : ℕ × ℕ × ℕ) → Apart q (get_offsets off) → live_at pool' q ≡ live_at pool q

    abbrev pub Unchanged : Pool K V → Pool K V → Type 0
    Unchanged pool pool' =
        PoolIsValid pool'
        × ((q : ℕ × ℕ × ℕ) → live_at pool' q ≡ live_at pool q)
        × ((off : ℕ) → IsReached off pool → IsReached off pool')

    abbrev pub TrySpec : ℕ → Pool K V → TriState K V → Type 0
    TrySpec off pool (applied pool') = (holds key_eq key pool off ≡ true) × IsUpdated off pool pool'
    TrySpec off pool (key_mismatch pool') =
        (holds key_eq key pool off ≡ false) × Unchanged pool pool'
    TrySpec off pool lock_busy = true ≡ false

    module _ (off : ℕ) (pool : Pool K V) (v : PoolIsValid pool) (opened : IsReached off pool) where
      abbrev at : ℕ × ℕ × ℕ
      at = get_offsets off

      abbrev page : VPage K V
      page = page_at pool.blocks at.0 at.1

      free_holds : is_free page at.2 ≡ true → holds key_eq key pool off ≡ false
      unfolding holds
      free_holds free = rw (holds, free) refl

      used_live :
          (o : Option (K × V))
          → is_free page at.2 ≡ false
          → record_at page.records at.2 ≡ o
          → live page at.2 ≡ o
      used_live o taken there = rw (taken, opened, there) refl

      relocked :
          (w : ℕ)
          → IsQuiet w
          → is_used w ≡ true
          → Unchanged pool (modify_page at.0 at.1 (λ vp. record vp { version_lock = w }) pool)
      relocked w quiet used =
          let f = λ (vp : VPage K V). record vp { version_lock = w } in
          let (k, s) =
            modify_page-Stays at.0 at.1 f pool pool
              (version-IsKept page page w quiet (used ∙ sym opened))
              (kept_refl pool v, record { blocks = refl; num = refl; block = refl; page = refl }) in
          (
            PoolIsValid-kept pool (modify_page at.0 at.1 f pool) v k s,
            λ (b, p, slot). (k b p).same slot,
            λ off' u. (k (get_offsets off').0 (get_offsets off').1).used u,
          )

      rewritten :
          (w : ℕ) (k : K) (value : V)
          → IsQuiet w
          → is_used w ≡ true
          → is_free page at.2 ≡ false
          → record_at page.records at.2 ≡ some (k, value)
          → IsUpdated off pool (
              modify_page at.0 at.1
                (λ vp. record vp {
                  version_lock = w;
                  records = set vp.records at.2 (k, update_fn value);
                })
                pool)
      rewritten w k value quiet used taken there =
          let f = λ (vp : VPage K V). record vp {
            version_lock = w;
            records = set vp.records at.2 (k, update_fn value);
          } in
          let valid = v.pages at.0 at.1 in
          let lt = record_at-lt page.records at.2 (k, value) there in
          let one : IsRewritten page at.2 (f page) = record {
            valid = record {
              quiet = quiet;
              sized = length-set page.records at.2 (k, update_fn value) ∙ valid.sized;
            };
            same = λ s ne.
                rw
                  (
                    record_at-set_ne page.records at.2 s (k, update_fn value) (λ e. ne (sym e)),
                    used,
                    opened,
                  )
                  refl;
            fresh = λ (_, none_live).
                absurd
                  (ground (arith, sym (none_live at.2) ∙ used_live (some (k, value)) taken there));
          } in
          let (pool_valid, same) = modify_page-PoolIsValid at.0 at.1 at.2 f pool v one in
          record {
            valid = pool_valid;
            stored_key = k;
            value = value;
            before = used_live (some (k, value)) taken there;
            after =
                ap (λ t. live t at.2)
                  (modify_page_self at.0 at.1 f pool (used-sized page.free_slots at.2 taken))
                ∙ live-written (f page) at.2 (k, update_fn value) used taken
                    (record_at-set_self page.records at.2 (k, update_fn value) lt);
            same = same;
          }

      locked_try :
          (held : ℕ) (o : Option (K × V))
          → lock page.version_lock ≡ some held
          → IsQuiet (unlock held)
          → is_used (unlock held) ≡ true
          → is_free page at.2 ≡ false
          → record_at page.records at.2 ≡ o
          → TrySpec off pool (try_at key_eq key update_fn off pool)
      unfolding try_at holds
      locked_try held none e quiet free_again used there =
          rw (try_at, used, e, there)
            (rw (holds, used_live none used there) refl, relocked (unlock held) quiet free_again)
      locked_try held (some (k, value)) e quiet free_again used there =
          elim (Bool-cases (key_eq k key)) [
            | inl matches ↦
                rw (try_at, used, e, there, used, matches)
                  (
                    rw (holds, used_live (some (k, value)) used there, matches) refl,
                    rewritten (unlock held) k value quiet free_again used there,
                  )
            | inr other ↦
                rw (try_at, used, e, there, used, other)
                  (
                    rw (holds, used_live (some (k, value)) used there, other) refl,
                    relocked (unlock held) quiet free_again,
                  )
          ]

      pub try_at-TrySpec : TrySpec off pool (try_at key_eq key update_fn off pool)
      unfolding try_at
      try_at-TrySpec =
          let (held, e, quiet, after) =
            (lock-IsQuiet page.version_lock (v.pages at.0 at.1).quiet).2 in
          elim (Bool-cases (is_free page at.2))
            as (λ _. TrySpec off pool (try_at key_eq key update_fn off pool)) [
              | inl free ↦ rw (try_at, free) (free_holds free, (v, (λ q. refl), (λ off' u. u)))
              | inr used ↦ locked_try held (record_at page.records at.2) e quiet after used refl
            ]
