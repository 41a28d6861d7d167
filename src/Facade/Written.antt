-- ===== src/Facade/Written.antt =====
-- What a get finds right after a put of the same key.
use hiom.Prelude.{
  ◌≢◌, some, ℕ, ◌≡◌, refl, subst, ◌∙◌, ap, Bool, Bool-cases, inl, inr, true, Option, none, List,
}
use hiom.Codec.{BlockBaseMap, encode, get_offsets, is_tombstone}
use hiom.CommitBuffer.Queue.{Op, CommitEntry, ConcurrentQueue, SlotRef}
use hiom.CommitBuffer.{CommitBuffer}
use hiom.HotTier.Table.{HotTier, no_ref}
use hiom.Pending.Clients.{note_client_block, note_inflight_block}
use hiom.ColdTier.Layout.{ColdTier}
use hiom.Pending.{Outcome, done, stalled, aborted}
use hiom.Viper.{Read}
use hiom.Facade.Commit.{KeyHash, next_seq, push_commit}
use hiom.Facade.Reads.{Keys, get, offset_of}
use hiom.Facade.Unread.{OnlyAt, get-OnlyAt}
use hiom.Facade.Writes.{
  Writer, Written, wrote, waits, aborts, push_next, mirror_write_with_offset, put,
}

-- The compact form of an offset, where it has one.
abbrev pub encoded_offset : ℕ → BlockBaseMap → Option ℕ
encoded_offset off base_map =
    encode (get_offsets off).0 (get_offsets off).1 (get_offsets off).2 0 base_map

module _ (cq : ConcurrentQueue) (slot_key : ℕ → Option ℕ) (fuel num_flushers : ℕ)
    (per_lane_high_watermark slot_idx tok : ℕ) where
  open cq use {Queue}

  -- What a push leaves as it is.
  abbrev pub SameTiers : Writer Queue → Written Queue → Type 0
  SameTiers w (wrote w') =
      (w'.store.hot ≡ w.store.hot)
      × (w'.store.cold ≡ w.store.cold)
      × (w'.store.base_map ≡ w.store.base_map)
  SameTiers w waits = Unit {0}
  SameTiers w aborts = Unit {0}

  pushed :
      (w : Writer Queue) (n : ℕ) (r : Outcome × Bool × CommitBuffer Queue)
      → SameTiers w (elim r.0 as (λ _. Written Queue) [
        | done p ↦
            wrote (record w {
              store = record w.store { pending = p };
              commit_buf = r.2;
              client_seq = n;
            })
        | stalled ↦ waits
        | aborted ↦ aborts
      ])
  pushed w n (done p, wake, b) = (refl, refl, refl)
  pushed w n (stalled, wake, b) = tt
  pushed w n (aborted, wake, b) = tt

  pub push_next-SameTiers :
      (op : Op) (kh : KeyHash) (off : ℕ) (ref : SlotRef) (w : Writer Queue)
      → SameTiers w (
          push_next cq slot_key fuel num_flushers per_lane_high_watermark slot_idx tok op kh off ref
            w)
  unfolding push_next
  push_next-SameTiers op kh off ref w =
      let (seq, client_seq') = next_seq slot_idx w.client_seq in
      let e : CommitEntry = record {
        op = op;
        fp64 = kh.fp64;
        key_id = kh.key_id;
        off = off;
        hot_slot = ref;
        seq = seq;
      } in
      pushed w client_seq'
        (push_commit cq true per_lane_high_watermark tok e w.store.pending w.commit_buf)

  unencoded :
      (pause : ℕ → List ℕ) (later : List (List ℕ)) (kh : KeyHash) (op : Op) (off : ℕ)
      (w : Writer Queue)
      → encoded_offset off w.store.base_map ≡ none
      → SameTiers w (
          mirror_write_with_offset cq slot_key fuel num_flushers per_lane_high_watermark slot_idx
            tok pause later kh op off w)
  unfolding mirror_write_with_offset
  unencoded pause later kh op off w e = elim (Bool-cases (is_tombstone off)) [
    | inl gone ↦ rw (mirror_write_with_offset, gone) (refl, refl, refl)
    | inr there ↦
        rw (mirror_write_with_offset, there, e)
          (push_next-SameTiers op kh off no_ref (record w {
            store = record w.store {
              clients = note_client_block w.store.clients slot_idx (get_offsets off).0;
            };
          }))
  ]

  module _ {K V : Type 0} (keys : Keys K) (read : ℕ → ℕ → Read K V) where
    -- What a get of `key` returns in this state.
    abbrev pub get_in : Writer Queue → K → Option V
    get_in w key = (get keys w.store.cold w.store.base_map read key w.store.hot).0

    same_get :
        (w : Writer Queue) (o : Written Queue) (w' : Writer Queue)
        → SameTiers w o
        → o ≡ wrote w'
        → (key : K) → get_in w' key ≡ get_in w key
    same_get w o w' same e key =
        let (hot, cold, base_map) = subst (SameTiers w) e same in
        ap (λ (t : HotTier). (get keys w'.store.cold w'.store.base_map read key t).0) hot
        ∙ ap (λ (c : ColdTier). (get keys c w'.store.base_map read key w.store.hot).0) cold
        ∙ ap (λ (m : BlockBaseMap). (get keys w.store.cold m read key w.store.hot).0) base_map

    -- For the same answers of the store, a get returns what it returns from the tiers before the put.
    same_answers :
        (pause : ℕ → List ℕ) (later : List (List ℕ)) (kh : KeyHash) (client_block just_written : ℕ)
        (w w' : Writer Queue)
        → encoded_offset just_written w.store.base_map ≡ none
        → put cq slot_key fuel num_flushers per_lane_high_watermark slot_idx tok pause later kh
            client_block just_written w
          ≡ wrote w'
        → (key : K) → get_in w' key ≡ get_in w key
    unfolding put
    same_answers pause later kh client_block just_written w w' e h key =
        let announced : Writer Queue = record w {
          store = record w.store {
            clients = note_inflight_block w.store.clients slot_idx client_block;
          };
        } in
        same_get announced
          (mirror_write_with_offset cq slot_key fuel num_flushers per_lane_high_watermark slot_idx
            tok pause later kh Op.put just_written announced)
          w' (unencoded pause later kh Op.put just_written announced e) h key

    -- A put that returned, with an offset that has no compact form, is not seen by a get of its key: with
    -- the answers that the store gives after Viper's put, by which the key stands in the slot just
    -- written and in no other, a get returns nothing, where before the put neither tier had this
    -- offset for the key.
    pub get-put_unencoded :
        (pause : ℕ → List ℕ) (later : List (List ℕ)) (kh : KeyHash) (client_block just_written : ℕ)
        (w w' : Writer Queue) (key : K)
        → encoded_offset just_written w.store.base_map ≡ none
        → put cq slot_key fuel num_flushers per_lane_high_watermark slot_idx tok pause later kh
            client_block just_written w
          ≡ wrote w'
        → OnlyAt keys w.store.cold w.store.base_map read just_written key
        → ((p : ℕ)
            → (hiom.HotTier.Table.lookup w.store.hot (keys.key_fingerprint key)).0 ≡ some p
            → offset_of keys w.store.cold w.store.base_map read p ≢ just_written)
        → hiom.ColdTier.lookup w.store.cold (keys.key_fingerprint64 key) (keys.key_id_of key)
          ≢ some just_written
        → get_in w' key ≡ none
    get-put_unencoded pause later kh client_block just_written w w' key e h only not_hot not_cold =
        same_answers pause later kh client_block just_written w w' e h key
        ∙ get-OnlyAt keys w.store.cold w.store.base_map read just_written key w.store.hot only
            not_hot not_cold
