-- ===== src/Viper/Client/Live.antt =====
-- A put: where the record goes, and what becomes of the records that were there.
use hiom.Prelude.{
  ℕ, suc, ◌+◌, ◌%◌, ◌≡◌, ◌⊎◌, Bool, true, false, Option, some, none, arith, refl, sym, ap, ◌∙◌,
  subst, inl, inr,
}
use hiom.Codec.{get_offsets, key_value_offset, is_tombstone}
use hiom.Viper.{VPage, page_at, put_on_page, written}
use hiom.Viper.Client.{Pool, ViperClient, modify_page, put}
use hiom.Viper.Client.Kept.{PoolKept, fresh-IsKept}
use hiom.Viper.Client.Walk.{
  ClientIsValid, PoolIsValid, IsAvailable, Stays, modify_page-Stays, kept_refl, PoolIsValid-kept,
}
use hiom.Viper.Client.Moves.{MoveSpec, update_access_information-MoveSpec}
use hiom.Viper.Client.Writes.{IsWritten, put_on_page_cases}
use hiom.Viper.Client.Stored.{Apart, live_at, write-IsStored}
use hiom.Viper.Client.Frees.{free_occupied_slot-FreeSpec}

module _ {K V : Type 0} where
  -- The old offset of a key: none, or that of a record.
  abbrev pub IsCurrent : ℕ → Pool K V → Type 0
  IsCurrent old pool =
      (is_tombstone old ≡ true)
      ⊎ ((is_tombstone old ≡ false) × ((r : K × V) × (live_at pool (get_offsets old) ≡ some r)))

  pub record StoreSpec (key : K) (value : V) (old : ℕ) (pool : Pool K V) (new : Bool)
      (c' : ViperClient) (pool' : Pool K V) : Type 0 where
    pub at : ℕ × ℕ × ℕ
    pub told : new ≡ is_tombstone old
    pub offset : c'.last_put_offset ≡ key_value_offset at.0 at.1 at.2
    pub page : (at.0 ≡ c'.v_block_number) × (at.1 ≡ c'.v_page_number)
    pub unused : live_at pool at ≡ none
    pub stored : live_at pool' at ≡ some (key, value)
    pub gone : is_tombstone old ≡ false → live_at pool' (get_offsets old) ≡ none
    pub same :
        (q : ℕ × ℕ × ℕ)
        → Apart q at
        → (is_tombstone old ≡ false → Apart q (get_offsets old))
        → live_at pool' q ≡ live_at pool q
    pub valid : PoolIsValid pool'
    pub client : ClientIsValid c' pool'

  -- What a put returns.
  abbrev pub Stores : K → V → ℕ → Pool K V → Option (Bool × ViperClient × Pool K V) → Type 0
  Stores key value old pool o =
      (new : Bool) × (c' : ViperClient) × (pool' : Pool K V) × (o ≡ some (new, c', pool'))
      × StoreSpec key value old pool new c' pool'

  module _ (n : ℕ) (requests : ℕ → Option ℕ × ℕ) (key : K) (value : V) (old : ℕ) where
    put_written :
        (c : ViperClient) (pool : Pool K V) (slot : ℕ) (page : VPage K V)
        → PoolIsValid pool
        → ClientIsValid c pool
        → IsCurrent old pool
        → put_on_page key value (page_at pool.blocks c.v_block_number c.v_page_number)
          ≡ written slot page
        → IsWritten (key, value) c pool slot page
        → Stores key value old pool (put (suc n) requests key value old c pool)
    unfolding put
    put_written c pool slot page v cv current e w =
        let at : ℕ × ℕ × ℕ = (c.v_block_number, c.v_page_number, slot) in
        let c1 = record c {
          last_put_offset = key_value_offset c.v_block_number c.v_page_number slot;
        } in
        let pool1 = modify_page c.v_block_number c.v_page_number (λ _. page) pool in
        let s =
          write-IsStored (key, value) c pool slot page v cv w
            (key_value_offset c.v_block_number c.v_page_number slot) in
        elim current [
          | inl new ↦ (
            true,
            c1,
            pool1,
            rw (put, e, new) refl,
            record {
              at = at;
              told = sym new;
              offset = refl;
              page = (refl, refl);
              unused = s.unused;
              stored = s.stored;
              gone = λ h. absurd (ground (arith, h, new));
              same = λ q ne _. s.same q ne;
              valid = s.valid;
              client = s.client;
            },
          )
          | inr (known, (r, there)) ↦
              let apart : Apart (get_offsets old) at =
                λ same. ground (arith, sym s.unused ∙ ap (live_at pool) (sym same) ∙ there) in
              let (pool2, freed, f) =
                free_occupied_slot-FreeSpec old r c1 pool1 s.valid s.client
                  (s.same (get_offsets old) apart ∙ there) in
              (
                false,
                c1,
                pool2,
                rw (put, e, known, freed) refl,
                record {
                  at = at;
                  told = sym known;
                  offset = refl;
                  page = (refl, refl);
                  unused = s.unused;
                  stored = f.same at (λ same. apart (sym same)) ∙ s.stored;
                  gone = λ _. f.gone;
                  same = λ q ne other. f.same q (other known) ∙ s.same q ne;
                  valid = f.valid;
                  client = f.client;
                },
              )
        ]

    -- The same is true of the pool before a step that changes no record.
    Stores-before :
        (o pool : Pool K V) (result : Option (Bool × ViperClient × Pool K V))
        → PoolKept o.blocks pool.blocks
        → Stores key value old pool result
        → Stores key value old o result
    Stores-before o pool result k (new, c', pool', e, s) =
        let live_same : (q : ℕ × ℕ × ℕ) → live_at pool q ≡ live_at o q =
          λ (b, p, slot). (k b p).same slot in
        (
          new,
          c',
          pool',
          e,
          record {
            at = s.at;
            told = s.told;
            offset = s.offset;
            page = s.page;
            unused = sym (live_same s.at) ∙ s.unused;
            stored = s.stored;
            gone = s.gone;
            same = λ q ne other. s.same q ne other ∙ live_same q;
            valid = s.valid;
            client = s.client;
          },
        )

    IsCurrent-after :
        (o pool : Pool K V) → PoolKept o.blocks pool.blocks → IsCurrent old o → IsCurrent old pool
    IsCurrent-after o pool k (inl new) = inl new
    IsCurrent-after o pool k (inr (known, (r, there))) =
        let (b, p, slot) = get_offsets old in inr (known, (r, (k b p).same slot ∙ there))

    put_fresh :
        (c : ViperClient) (pool : Pool K V) (o : Pool K V)
        → MoveSpec o c pool
        → IsCurrent old pool
        → Stores key value old pool (put (suc n) requests key value old c pool)
    put_fresh c pool o m current =
        elim (put_on_page_cases key value c pool m.valid m.client.opened) [
          | inl (slot, page, e, w) ↦ put_written c pool slot page m.valid m.client current e w
          | inr (page, e, w) ↦ absurd (ground (arith, w.taken m.opened))
        ]

  module _ (o pool : Pool K V) (stays : Stays o pool) where
    ClientIsValid-stays : (c : ViperClient) → ClientIsValid c o → ClientIsValid c pool
    ClientIsValid-stays c cv =
        let (k, s) = stays in
        record {
          here = omega (arith, (k c.v_block_number c.v_page_number).size, cv.here);
          opened = (k c.v_block_number c.v_page_number).used cv.opened;
          page = omega (arith, cv.page, s.num);
          processed = omega (arith, cv.processed, s.num);
          claimed = omega (arith, cv.claimed, s.block);
          ahead = λ i pos lt. rw s.num (
              fresh-IsKept
                (page_at o.blocks c.v_block_number ((c.v_page_number + i) % o.num_pages_per_block))
                (page_at pool.blocks c.v_block_number
                  ((c.v_page_number + i) % o.num_pages_per_block))
                (k c.v_block_number ((c.v_page_number + i) % o.num_pages_per_block))
                (cv.ahead i pos (omega (arith, lt, s.num))));
        }

    IsAvailable-stays :
        (free_block : Option ℕ) → IsAvailable free_block o → IsAvailable free_block pool
    IsAvailable-stays (some b) (lt, free) =
        let (k, s) = stays in
        (
          omega (arith, lt, s.block),
          λ p le.
              fresh-IsKept (page_at o.blocks b p) (page_at pool.blocks b p) (k b p)
                (free p (omega (arith, le, s.num))),
        )
    IsAvailable-stays none lt = let (k, s) = stays in omega (arith, lt, s.blocks, s.block)

  -- A put returns within two pages, in a valid pool by a valid client, with no old offset or that
  -- of a record, and with a block there for the client should its own be used up. The record then
  -- stands at the offset that the client remembers, where no record was. The old offset of the
  -- key, where there is one, holds no record any more, and every other record stands as it did.
  -- The result tells whether there was no old offset, and the pool and the client are valid
  -- again.
  pub put-Stores :
      (n : ℕ) (requests : ℕ → Option ℕ × ℕ) (key : K) (value : V) (old : ℕ) (c : ViperClient)
      (pool : Pool K V)
      → PoolIsValid pool
      → ClientIsValid c pool
      → IsCurrent old pool
      → IsAvailable (requests (suc n)).0 pool
      → Stores key value old pool (put (suc (suc n)) requests key value old c pool)
  unfolding put
  put-Stores n requests key value old c pool v cv current available =
      elim (put_on_page_cases key value c pool v cv.opened) [
        | inl (slot, page, e, w) ↦
            put_written (suc n) requests key value old c pool slot page v cv current e w
        | inr (page, e, w) ↦
            let b = c.v_block_number in
            let p = c.v_page_number in
            let pool1 = modify_page b p (λ _. page) pool in
            let stays =
              modify_page-Stays b p (λ _. page) pool pool (λ _. w.kept)
                (
                  kept_refl pool v,
                  record { blocks = refl; num = refl; block = refl; page = refl },
                ) in
            let (c', pool', moved, m) =
              update_access_information-MoveSpec (requests (suc n)).0 (requests (suc n)).1 c pool1
                (PoolIsValid-kept pool pool1 v stays.0 stays.1)
                (ClientIsValid-stays pool pool1 stays c cv)
                (IsAvailable-stays pool pool1 stays (requests (suc n)).0 available) in
            let current1 = IsCurrent-after n requests key value old pool pool1 stays.0 current in
            let stored =
              put_fresh n requests key value old c' pool' pool1 m
                (IsCurrent-after n requests key value old pool1 pool' m.kept current1) in
            let result = put (suc n) requests key value old c' pool' in
            let run : result ≡ put (suc (suc n)) requests key value old c pool =
              rw (put, e, moved) refl in
            subst (Stores key value old pool) run (
              Stores-before n requests key value old pool pool1 result stays.0
                (Stores-before n requests key value old pool1 pool' result m.kept stored))
      ]

  -- What a put of Viper's client returned.
  abbrev pub Returned : K → V → ℕ → Pool K V → Option (Bool × ViperClient × Pool K V) → Type 0
  Returned key value old pool none = true ≡ false
  Returned key value old pool (some (new, c', pool')) = StoreSpec key value old pool new c' pool'

  pub put-Returned :
      (n : ℕ) (requests : ℕ → Option ℕ × ℕ) (key : K) (value : V) (old : ℕ) (c : ViperClient)
      (pool : Pool K V)
      → PoolIsValid pool
      → ClientIsValid c pool
      → IsCurrent old pool
      → IsAvailable (requests (suc n)).0 pool
      → Returned key value old pool (put (suc (suc n)) requests key value old c pool)
  put-Returned n requests key value old c pool v cv current available =
      let (new, c', pool', e, s) =
        put-Stores n requests key value old c pool v cv current available in
      rw e s
