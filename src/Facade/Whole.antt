-- ===== src/Facade/Whole.antt =====
-- A put and a get of HiOM, with the pool of Viper under them. include/viper/viper.hpp: what
-- `hiom_read_at_offset_status` answers while no other client is at work.
use hiom.Prelude.{
  zero, ℕ, suc, ◌<◌, ◌≤◌, ◌≡◌, ◌^◌, ◌==◌, refl, sym, subst, ◌∙◌, ap, arith, Bool, true, false,
  Option, some, List, [], ◌∷◌, get_or, length, mask,
}
use hiom.Codec.{get_offsets, is_tombstone}
use hiom.Codec.Offset.{get_offsets-key_value_offset, key_value_offset-sum}
use hiom.CommitBuffer.Queue.{ConcurrentQueue, SlotRef}
use hiom.HotTier.Valid.{HotIsValid}
use hiom.Viper.{Read, ok, VPage, page_at, is_free, is_locked, record_at, read_at_offset_status}
use hiom.Viper.Client.{Pool, ViperClient}
use hiom.Viper.Client.Kept.{live_used, slots}
use hiom.Viper.Client.Walk.{PoolIsValid, ClientIsValid, IsAvailable}
use hiom.Viper.Client.Stored.{live_at}
use hiom.Viper.Client.Live.{IsCurrent, StoreSpec, Returned, put-Returned}
use hiom.Facade.Commit.{KeyHash}
use hiom.Facade.Reads.{Keys, get}
use hiom.Facade.Writes.{Writer, wrote, put}
use hiom.Facade.Written.{encoded_offset}
use hiom.Facade.ReadBack.{announced, tries_of, get-put}

used-lt : (bs : List Bool) (s : ℕ) → get_or bs s true ≡ false → s < length bs
used-lt [] s h = absurd (ground (arith, h))
used-lt (b ∷ bs) zero h = omega arith
used-lt (b ∷ bs) (suc s) h = omega (arith, used-lt bs s h)

module _ {K V : Type 0} where
  unfoldable pub pool_read : Pool K V → ℕ → ℕ → Read K V
  pool_read pool off attempt =
      let (b, p, slot) = get_offsets off in
      let page = page_at pool.blocks b p in read_at_offset_status page slot page.version_lock

  pool_read-live :
      (pool : Pool K V) (off attempt : ℕ) (k : K) (v : V)
      → PoolIsValid pool
      → live_at pool (get_offsets off) ≡ some (k, v)
      → pool_read pool off attempt ≡ ok k v
  unfolding pool_read read_at_offset_status
  pool_read-live pool off attempt k v valid h =
      let page = page_at pool.blocks (get_offsets off).0 (get_offsets off).1 in
      let (_, used, there) = live_used page (get_offsets off).2 (k, v) h in
      let quiet = (valid.pages (get_offsets off).0 (get_offsets off).1).quiet in
      let same : (page.version_lock == page.version_lock) ≡ true = ground arith in
      rw (pool_read, read_at_offset_status, used, quiet.1, same, there) refl

  -- The offset that the client remembers leads to its record, and is no tombstone.
  last_put_read :
      (key : K) (value : V) (old : ℕ) (pool : Pool K V) (new : Bool) (c' : ViperClient)
      (pool' : Pool K V)
      → StoreSpec key value old pool new c' pool'
      → pool'.current_block < 2 ^ 45
      → pool'.num_pages_per_block ≤ 2 ^ 3
      → slots (page_at pool'.blocks c'.v_block_number c'.v_page_number) ≤ 2 ^ 16
      → (c'.last_put_offset < 2 ^ 64)
        × (is_tombstone c'.last_put_offset ≡ false)
        × (pool_read pool' c'.last_put_offset 0 ≡ ok key value)
  last_put_read key value old pool new c' pool' s blocks pages slots_fit =
      let (b, p, slot) = s.at in
      let (eb, ep) = s.page in
      let hb : b < mask 45 = omega (arith, eb, s.client.claimed, blocks) in
      let hp : p < 2 ^ 3 = omega (arith, ep, s.client.page, pages) in
      let lt =
        used-lt (page_at pool'.blocks b p).free_slots slot
          (live_used (page_at pool'.blocks b p) slot (key, value) s.stored).1 in
      let fit =
        subst (λ q. slots (page_at pool'.blocks b q) ≤ 2 ^ 16) (sym ep)
          (subst (λ q. slots (page_at pool'.blocks q c'.v_page_number) ≤ 2 ^ 16) (sym eb)
            slots_fit) in
      let hs : slot < 2 ^ 16 = omega (arith, lt, fit) in
      let (there, tomb) = get_offsets-key_value_offset b p slot (omega (arith, hb)) hp hs in
      (
        omega
            (arith, s.offset, key_value_offset-sum b p slot (omega (arith, hb)) hp hs, hb, hp, hs),
        rw s.offset (ground (arith, tomb, hb)),
        pool_read-live pool' c'.last_put_offset 0 key value s.valid (
            ap (λ off. live_at pool' (get_offsets off)) s.offset
            ∙ ap (live_at pool') there
            ∙ s.stored),
      )

module _ (cq : ConcurrentQueue) (slot_key : ℕ → Option ℕ) (fuel num_flushers : ℕ)
    (per_lane_high_watermark slot_idx tok : ℕ) where
  open cq use {Queue}

  module _ {K V : Type 0} (keys : Keys K) (key : K) (value : V)
      (mine : keys.same_key key key ≡ true) where
    -- A valid client of Viper in a valid pool puts a record, and HiOM's put then takes the offset that the
    -- client remembers: a get of the key right after, from the pool as it is then, returns the value.
    -- This is where the old offset that Viper's put was given is none or that of a record and a block is
    -- there for its client, HiOM's put returned and one of its tries pinned a slot, the offset has a
    -- compact form, the pool fits the fields of an offset, the hot tier is well formed before the put, the
    -- fingerprint is not the empty one, and a key is the same as itself.
    pub get-put_pool :
        (n : ℕ) (requests : ℕ → Option ℕ × ℕ) (old : ℕ) (c c' : ViperClient) (pool pool' : Pool K V)
        (new : Bool)
        → PoolIsValid pool
        → ClientIsValid c pool
        → IsCurrent old pool
        → IsAvailable (requests (suc n)).0 pool
        → hiom.Viper.Client.put (suc (suc n)) requests key value old c pool ≡ some (new, c', pool')
        → pool'.current_block < 2 ^ 45
        → pool'.num_pages_per_block ≤ 2 ^ 3
        → slots (page_at pool'.blocks c'.v_block_number c'.v_page_number) ≤ 2 ^ 16
        → (pause : ℕ → List ℕ) (later : List (List ℕ)) (kh : KeyHash) (client_block packed : ℕ)
          (w w1 w' : Writer Queue) (ref : SlotRef)
        → HotIsValid w.store.hot
        → kh.fp32 ≡ keys.key_fingerprint key
        → 0 < kh.fp32
        → kh.fp32 < 2 ^ 32
        → encoded_offset c'.last_put_offset w.store.base_map ≡ some packed
        → tries_of cq slot_key fuel num_flushers per_lane_high_watermark slot_idx tok pause later kh
            c'.last_put_offset packed
            (announced cq slot_key fuel num_flushers per_lane_high_watermark slot_idx tok
              client_block w)
          ≡ some (ref, w1)
        → ref.valid ≡ true
        → put cq slot_key fuel num_flushers per_lane_high_watermark slot_idx tok pause later kh
            client_block c'.last_put_offset w
          ≡ wrote w'
        → (get keys w'.store.cold w'.store.base_map (pool_read pool') key w'.store.hot).0
          ≡ some value
    get-put_pool n requests old c c' pool pool' new v cv current available e blocks pages fits pause
          later kh client_block packed w w1 w' ref hot same_fp real small_fp enc tried valid h =
        let s =
          subst (Returned key value old pool) e
            (put-Returned n requests key value old c pool v cv current available) in
        let (small, there, answer) =
          last_put_read key value old pool new c' pool' s blocks pages fits in
        get-put cq slot_key fuel num_flushers per_lane_high_watermark slot_idx tok keys
          (pool_read pool') key key value pause later kh client_block c'.last_put_offset packed w w1
          w' ref hot same_fp real small_fp small there enc tried valid h mine answer
