-- ===== src/Viper/Client/Update.antt =====
-- include/viper/viper.hpp: a client's update in place, where HiOM owns the index. The two offsets are what
-- HiOM's resolvers return for the key: the hot tier's, which is not verified, and the verified one.
use hiom.Prelude.{ℕ, ◌||◌, not, if◌then◌else◌, Bool, true, false, Option, some, none, set}
use hiom.Codec.{get_offsets, is_tombstone}
use hiom.Viper.{page_at, is_free, record_at, lock, unlock}
use hiom.Viper.Client.{Pool, modify_page}

pub data TriState (K V : Type 0) : Type 0 where
  applied : (pool : Pool K V) → TriState K V
  key_mismatch : (pool : Pool K V) → TriState K V
  lock_busy : TriState K V

module _ {K V : Type 0} (key_eq : K → K → Bool) (key : K) (update_fn : V → V) where
  -- An access past the array of records, which no offset makes, counts as a mismatch.
  unfoldable pub try_at : ℕ → Pool K V → TriState K V
  unfolding modify_page
  try_at off pool =
      let (b, p, slot) = get_offsets off in
      let page = page_at pool.blocks b p in
      if is_free page slot
      then key_mismatch pool
      else elim (lock page.version_lock) as (λ _. TriState K V) [
        | none ↦ lock_busy
        | some held ↦ elim (record_at page.records slot) as (λ _. TriState K V) [
          | none ↦
              key_mismatch (modify_page b p (λ vp. record vp { version_lock = unlock held }) pool)
          | some (k, v) ↦
              if is_free page slot || not (key_eq k key)
              then key_mismatch
                  (modify_page b p (λ vp. record vp { version_lock = unlock held }) pool)
              else applied (
                  modify_page b p
                    (λ vp. record vp {
                      version_lock = unlock held;
                      records = set vp.records slot (k, update_fn v);
                    })
                    pool)
        ]
      ]

  -- Where the hot tier misses, or its offset holds another key.
  unfoldable pub update_verified : ℕ → Pool K V → Option (Bool × Pool K V)
  unfolding try_at
  update_verified cold_off pool =
      if is_tombstone cold_off
      then some (false, pool)
      else elim (try_at cold_off pool) as (λ _. Option (Bool × Pool K V)) [
        | applied pool1 ↦ some (true, pool1)
        | key_mismatch pool1 ↦ some (false, pool1)
        | lock_busy ↦ none
      ]

  unfoldable pub update : ℕ → ℕ → Pool K V → Option (Bool × Pool K V)
  unfolding try_at update_verified
  update hot_off cold_off pool =
      if is_tombstone hot_off
      then update_verified cold_off pool
      else elim (try_at hot_off pool) as (λ _. Option (Bool × Pool K V)) [
        | applied pool1 ↦ some (true, pool1)
        | key_mismatch pool1 ↦ update_verified cold_off pool1
        | lock_busy ↦ none
      ]
