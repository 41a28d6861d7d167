-- ===== src/Facade/ReadBack.antt =====
-- A get reads what a put of the same key wrote, where the put pinned a slot of the hot tier.
use hiom.Prelude.{
  ℕ, suc, ◌<◌, ◌≡◌, ◌^◌, and_mask, refl, sym, subst, ◌∙◌, ap, arith, if◌then◌else◌, true, false,
  Option, some, none, List,
}
use hiom.Codec.{BlockBaseMap, DecodedOffset, get_offsets, key_value_offset, is_tombstone}
use hiom.Codec.Offset.{key_value_offset-get_offsets}
use hiom.Codec.RoundTrip.{decode-encode}
use hiom.CommitBuffer.Queue.{Op, ConcurrentQueue, SlotRef}
use hiom.HotTier.Table.{HotTier}
use hiom.HotTier.Valid.{HotIsValid}
use hiom.ColdTier.Layout.{ColdTier}
use hiom.Pending.Clients.{note_client_block, note_inflight_block}
use hiom.Viper.{Read, ok}
use hiom.Facade.Commit.{KeyHash}
use hiom.Facade.Reads.{
  Keys, max_retries, resolve_slow, verify_from, verify_and_read_offset, offset_of, get,
}
use hiom.Facade.Writes.{
  Writer, Written, wrote, waits, aborts, max_backpressure_retries, pin_retry, push_next, sync_drain,
  mirror_write_with_offset, put,
}
use hiom.Facade.Written.{SameTiers, push_next-SameTiers, encoded_offset}
use hiom.Facade.Pinned.{PinnedSpec, pin_retry-PinnedSpec}

get_offsets-lt : (off : ℕ) → (get_offsets off).0 < 2 ^ 45
unfolding get_offsets
get_offsets-lt off = omega (arith, and_mask 45 off)

module _ {K V : Type 0} (keys : Keys K) (read : ℕ → ℕ → Read K V) (key key' : K) (value : V)
    (mine : keys.same_key key' key ≡ true) where
  first_answer :
      (left attempt : ℕ) (answers : ℕ → Read K V)
      → answers attempt ≡ ok key' value
      → verify_from keys (suc left) attempt answers key ≡ some value
  unfolding verify_from
  first_answer left attempt answers e = rw (verify_from, e, mine) refl

  verified :
      (off : ℕ)
      → is_tombstone off ≡ false
      → read off 0 ≡ ok key' value
      → verify_and_read_offset keys read key off ≡ some value
  unfolding verify_and_read_offset
  verified off there e = rw there (first_answer max_retries 0 (read off) e)

  -- The compact form of an offset leads back to it.
  offset_of-encoded :
      (cold : ColdTier) (base_map : BlockBaseMap) (off packed : ℕ)
      → off < 2 ^ 64
      → encoded_offset off base_map ≡ some packed
      → offset_of keys cold base_map read packed ≡ off
  unfolding offset_of
  offset_of-encoded cold base_map off packed small e =
      let (block, page, slot) = get_offsets off in
      let back =
        (decode-encode block page slot 0 base_map packed (omega (arith, get_offsets-lt off)) e).2 in
      ap (λ (d : DecodedOffset). key_value_offset d.block_number d.page_number d.data_offset) back
      ∙ key_value_offset-get_offsets off small

  hot_hit :
      (cold : ColdTier) (base_map : BlockBaseMap) (hot : HotTier) (off packed : ℕ)
      → (hiom.HotTier.Table.lookup hot (keys.key_fingerprint key)).0 ≡ some packed
      → offset_of keys cold base_map read packed ≡ off
      → verify_and_read_offset keys read key off ≡ some value
      → (get keys cold base_map read key hot).0 ≡ some value
  unfolding get
  hot_hit cold base_map hot off packed found at verify =
      let hot' = (hiom.HotTier.Table.lookup hot (keys.key_fingerprint key)).1 in
      let slow = resolve_slow keys cold base_map read key hot' in
      rw (get, found)
        (ap
          (λ (o : Option V).
            (elim o as (λ _. Option V × HotTier) [ some v ↦ (some v, hot') | none ↦ slow ]).0)
          (ap (verify_and_read_offset keys read key) at ∙ verify))

module _ (cq : ConcurrentQueue) (slot_key : ℕ → Option ℕ) (fuel num_flushers : ℕ)
    (per_lane_high_watermark slot_idx tok : ℕ) where
  open cq use {Queue}

  abbrev Tiers : Writer Queue → Written Queue → Type 0
  Tiers = SameTiers cq slot_key fuel num_flushers per_lane_high_watermark slot_idx tok

  returned :
      (later : List (List ℕ)) (ref : SlotRef) (w w' : Writer Queue) (o : Written Queue)
      → ref.valid ≡ true
      → Tiers w o
      → (elim o as (λ _. Written Queue) [
        | waits ↦ waits
        | aborts ↦ aborts
        | wrote w'' ↦
            if ref.valid
            then wrote w''
            else sync_drain cq slot_key fuel num_flushers per_lane_high_watermark slot_idx tok later
                w''
      ])
        ≡ wrote w'
      → Tiers w (wrote w')
  returned later ref w w' (wrote w'') valid same e =
      let returns : wrote w'' ≡ wrote w' = rw valid at e in subst (Tiers w) returns same
  returned later ref w w' waits valid same e = absurd (cc)
  returned later ref w w' aborts valid same e = absurd (cc)

  module _ (pause : ℕ → List ℕ) (later : List (List ℕ)) (kh : KeyHash) (off packed : ℕ)
      (w : Writer Queue) where
    -- The state in which a write of this offset begins its tries, and what they return.
    abbrev pub noted : Writer Queue
    noted = record w {
      store = record w.store {
        clients = note_client_block w.store.clients slot_idx (get_offsets off).0;
      };
    }

    abbrev pub tries_of : Option (SlotRef × Writer Queue)
    tries_of =
        pin_retry cq slot_key fuel num_flushers per_lane_high_watermark slot_idx tok pause
          max_backpressure_retries 0 kh.fp32 packed noted

    pinned_write :
        (ref : SlotRef) (w1 w' : Writer Queue)
        → is_tombstone off ≡ false
        → encoded_offset off w.store.base_map ≡ some packed
        → tries_of ≡ some (ref, w1)
        → ref.valid ≡ true
        → mirror_write_with_offset cq slot_key fuel num_flushers per_lane_high_watermark slot_idx
            tok pause later kh Op.put off w
          ≡ wrote w'
        → Tiers w1 (wrote w')
    unfolding mirror_write_with_offset
    pinned_write ref w1 w' there e tried valid h =
        returned later ref w1 w'
          (push_next cq slot_key fuel num_flushers per_lane_high_watermark slot_idx tok Op.put kh
            off ref w1)
          valid
          (push_next-SameTiers cq slot_key fuel num_flushers per_lane_high_watermark slot_idx tok
            Op.put kh off ref w1)
          (rw (mirror_write_with_offset, there, e, tried) at h)

  -- The state after the announcement of a put.
  abbrev pub announced : ℕ → Writer Queue → Writer Queue
  announced client_block w = record w {
    store = record w.store { clients = note_inflight_block w.store.clients slot_idx client_block };
  }

  module _ {K V : Type 0} (keys : Keys K) (read : ℕ → ℕ → Read K V) (key key' : K) (value : V) where
    found_back :
        (w1 w' : Writer Queue) (base_map : BlockBaseMap) (off packed : ℕ)
        → keys.same_key key' key ≡ true
        → read off 0 ≡ ok key' value
        → is_tombstone off ≡ false
        → off < 2 ^ 64
        → encoded_offset off base_map ≡ some packed
        → w1.store.base_map ≡ base_map
        → (hiom.HotTier.Table.lookup w1.store.hot (keys.key_fingerprint key)).0 ≡ some packed
        → Tiers w1 (wrote w')
        → (get keys w'.store.cold w'.store.base_map read key w'.store.hot).0 ≡ some value
    found_back w1 w' base_map off packed mine e there small enc same_map found (hot, cold, map') =
        let enc' : encoded_offset off w'.store.base_map ≡ some packed =
          ap (encoded_offset off) (map' ∙ same_map) ∙ enc in
        hot_hit keys read key key' value mine w'.store.cold w'.store.base_map w'.store.hot off
          packed
          (ap (λ (t : HotTier). (hiom.HotTier.Table.lookup t (keys.key_fingerprint key)).0) hot
            ∙ found)
          (offset_of-encoded keys read key key' value mine w'.store.cold w'.store.base_map off
            packed small enc')
          (verified keys read key key' value mine off there e)

    -- A get right after a put of the same key returns the value, where the put returned and one of its
    -- tries pinned a slot, the offset that Viper wrote has a compact form, and the first answer of the
    -- store at that offset is the value under this key. The hot tier is well formed before the put, and
    -- the fingerprint is not the empty one.
    pub get-put :
        (pause : ℕ → List ℕ) (later : List (List ℕ)) (kh : KeyHash)
        (client_block just_written packed : ℕ) (w w1 w' : Writer Queue) (ref : SlotRef)
        → HotIsValid w.store.hot
        → kh.fp32 ≡ keys.key_fingerprint key
        → 0 < kh.fp32
        → kh.fp32 < 2 ^ 32
        → just_written < 2 ^ 64
        → is_tombstone just_written ≡ false
        → encoded_offset just_written w.store.base_map ≡ some packed
        → tries_of pause later kh just_written packed (announced client_block w) ≡ some (ref, w1)
        → ref.valid ≡ true
        → put cq slot_key fuel num_flushers per_lane_high_watermark slot_idx tok pause later kh
            client_block just_written w
          ≡ wrote w'
        → keys.same_key key' key ≡ true
        → read just_written 0 ≡ ok key' value
        → (get keys w'.store.cold w'.store.base_map read key w'.store.hot).0 ≡ some value
    unfolding put
    get-put pause later kh client_block just_written packed w w1 w' ref v same_fp real small_fp
          small there enc tried valid h mine e =
        let w0 = announced client_block w in
        let block = (get_offsets just_written).0 in
        let word =
          (decode-encode block (get_offsets just_written).1 (get_offsets just_written).2 0
            w.store.base_map packed (omega (arith, get_offsets-lt just_written)) enc).0 in
        let (hot_valid, same_map, found) =
          subst
            (PinnedSpec cq slot_key fuel num_flushers per_lane_high_watermark slot_idx tok pause
              kh.fp32 packed small_fp word real (noted pause later kh just_written packed w0))
            tried
            (pin_retry-PinnedSpec cq slot_key fuel num_flushers per_lane_high_watermark slot_idx tok
              pause kh.fp32 packed small_fp word real max_backpressure_retries 0
              (noted pause later kh just_written packed w0) v) in
        found_back w1 w' w.store.base_map just_written packed mine e there small enc same_map
          (ap (λ (t : ℕ). (hiom.HotTier.Table.lookup w1.store.hot t).0) (sym same_fp) ∙ found valid)
          (pinned_write pause later kh just_written packed w0 ref w1 w' there enc tried valid h)
