-- ===== src/Viper/Client/Removed.antt =====
-- The client's remove.
use hiom.Prelude.{ℕ, ◌≡◌, not, Bool, true, false, some, none, arith, refl, inl, inr}
use hiom.Codec.{get_offsets, is_tombstone}
use hiom.Viper.Client.{Pool, ViperClient, remove}
use hiom.Viper.Client.Walk.{PoolIsValid, ClientIsValid}
use hiom.Viper.Client.Stored.{Apart, live_at}
use hiom.Viper.Client.Frees.{free_occupied_slot-FreeSpec}
use hiom.Viper.Client.Live.{IsCurrent}

module _ {K V : Type 0} where
  pub record RemoveSpec (off : ℕ) (c : ViperClient) (pool : Pool K V) (done : Bool)
      (pool' : Pool K V) : Type 0 where
    pub told : done ≡ not (is_tombstone off)
    pub gone : is_tombstone off ≡ false → live_at pool' (get_offsets off) ≡ none
    pub same :
        (q : ℕ × ℕ × ℕ)
        → (is_tombstone off ≡ false → Apart q (get_offsets off))
        → live_at pool' q ≡ live_at pool q
    pub valid : PoolIsValid pool'
    pub client : ClientIsValid c pool'

  -- A remove in a valid pool by a valid client, with no offset for the key or that of a record,
  -- returns and tells whether there was an offset. That offset, where there is one, holds no
  -- record any more, and every other record stands as it did; the pool and the client are valid
  -- again.
  pub remove-RemoveSpec :
      (off : ℕ) (c : ViperClient) (pool : Pool K V)
      → PoolIsValid pool
      → ClientIsValid c pool
      → IsCurrent off pool
      → (done : Bool) × (pool' : Pool K V) × (remove off c pool ≡ some (done, pool'))
        × RemoveSpec off c pool done pool'
  unfolding remove
  remove-RemoveSpec off c pool v cv (inl new) = (
    false,
    pool,
    rw (remove, new) refl,
    record {
      told = rw new refl;
      gone = λ known. absurd (ground (arith, known, new));
      same = λ q _. refl;
      valid = v;
      client = cv;
    },
  )
  remove-RemoveSpec off c pool v cv (inr (known, (r, there))) =
      let (pool', freed, f) = free_occupied_slot-FreeSpec off r c pool v cv there in
      (
        true,
        pool',
        rw (remove, known, freed) refl,
        record {
          told = rw known refl;
          gone = λ _. f.gone;
          same = λ q other. f.same q (other known);
          valid = f.valid;
          client = f.client;
        },
      )
