-- ===== src/Facade/Pinned.antt =====
-- The tries of a write to pin its slot in the hot tier, with flushes in between.
use hiom.Prelude.{
  ℕ, zero, suc, ◌+◌, ◌<◌, ◌≡◌, ◌^◌, refl, ◌∙◌, Bool-cases, inl, inr, true, Option, some, none, List,
  [], ◌∷◌,
}
use hiom.CommitBuffer.Queue.{ConcurrentQueue, SlotRef}
use hiom.CommitBuffer.{CommitBuffer}
use hiom.HotTier.Layout.{bucket_index}
use hiom.HotTier.Table.{HotTier, upsert_pinned}
use hiom.HotTier.Found.{lookup-upsert_pinned}
use hiom.HotTier.Valid.{HotIsValid, same_slots-HotIsValid, upsert_pinned-HotIsValid}
use hiom.Facade.Batch.{HiomState}
use hiom.Facade.Flush.{drain_to_empty_and_apply}
use hiom.Facade.Kept.{
  Keeps, Keeps-refl, Keeps-trans, FlushKeeps, drain_to_empty_and_apply-FlushKeeps,
}
use hiom.Facade.Writes.{Writer, flush_each, pin_retry}

module _ (cq : ConcurrentQueue) (slot_key : ℕ → Option ℕ) (fuel num_flushers : ℕ)
    (per_lane_high_watermark slot_idx tok : ℕ) where
  open cq use {Queue}

  abbrev PauseKeeps : HiomState → Option (Writer Queue) → Type 0
  PauseKeeps s none = Unit {0}
  PauseKeeps s (some w) = Keeps s w.store

  PauseKeeps-trans :
      (s s' : HiomState) (o : Option (Writer Queue)) → Keeps s s' → PauseKeeps s' o → PauseKeeps s o
  PauseKeeps-trans s s' none k h = tt
  PauseKeeps-trans s s' (some w) k h = Keeps-trans s s' w.store k h

  abbrev flushes : List ℕ → Writer Queue → Option (Writer Queue)
  flushes = flush_each cq slot_key fuel num_flushers per_lane_high_watermark slot_idx tok

  pause_kept :
      (f : ℕ) (fs : List ℕ) (w : Writer Queue) (o : Option (ℕ × CommitBuffer Queue × HiomState))
      → drain_to_empty_and_apply cq slot_key fuel fuel f num_flushers w.commit_buf w.store ≡ o
      → FlushKeeps cq slot_key w.store o
      → ((w' : Writer Queue) → PauseKeeps w'.store (flushes fs w'))
      → PauseKeeps w.store (flushes (f ∷ fs) w)
  unfolding flush_each
  pause_kept f fs w none run k rest = rw (flush_each, run) tt
  pause_kept f fs w (some (n, b, s)) run k rest =
      let w' : Writer Queue = record w { store = s; commit_buf = b } in
      rw (flush_each, run) (PauseKeeps-trans w.store s (flushes fs w') k (rest w'))

  flush_each-PauseKeeps : (fs : List ℕ) (w : Writer Queue) → PauseKeeps w.store (flushes fs w)
  unfolding flush_each
  flush_each-PauseKeeps [] w = Keeps-refl w.store
  flush_each-PauseKeeps (f ∷ fs) w =
      pause_kept f fs w
        (drain_to_empty_and_apply cq slot_key fuel fuel f num_flushers w.commit_buf w.store) refl
        (drain_to_empty_and_apply-FlushKeeps cq slot_key fuel fuel f num_flushers w.commit_buf
          w.store)
        (λ w'. flush_each-PauseKeeps fs w')

  module _ (pause : ℕ → List ℕ) (fp packed : ℕ) (hf : fp < 2 ^ 32) (ho : packed < 2 ^ 32)
      (real : 0 < fp) where
    -- The buckets keep their shape, the base map stays, and a valid reference is one that a lookup
    -- finds.
    abbrev pub PinnedSpec : Writer Queue → Option (SlotRef × Writer Queue) → Type 0
    PinnedSpec w none = Unit {0}
    PinnedSpec w (some (ref, w')) =
        HotIsValid w'.store.hot
        × (w'.store.base_map ≡ w.store.base_map)
        × (ref.valid ≡ true → (hiom.HotTier.Table.lookup w'.store.hot fp).0 ≡ some packed)

    abbrev tries : ℕ → ℕ → Writer Queue → Option (SlotRef × Writer Queue)
    tries left attempt w =
        pin_retry cq slot_key fuel num_flushers per_lane_high_watermark slot_idx tok pause left
          attempt fp packed w

    first_try :
        (w : Writer Queue)
        → HotIsValid w.store.hot
        → HotIsValid (upsert_pinned w.store.hot fp packed).1
          × ((upsert_pinned w.store.hot fp packed).0.valid ≡ true
              → (hiom.HotTier.Table.lookup (upsert_pinned w.store.hot fp packed).1 fp).0
                ≡ some packed)
    first_try w v =
        let at = bucket_index w.store.hot.num_buckets fp in
        (
          upsert_pinned-HotIsValid w.store.hot fp packed v hf ho real,
          lookup-upsert_pinned w.store.hot fp packed (v.cells at (v.routed fp)) (v.routed fp) hf ho
              real,
        )

    moved :
        (w w' : Writer Queue) (o : Option (SlotRef × Writer Queue))
        → w'.store.base_map ≡ w.store.base_map
        → PinnedSpec w' o
        → PinnedSpec w o
    moved w w' none e h = tt
    moved w w' (some (ref, w'')) e (valid, base_map, found) = (valid, base_map ∙ e, found)

    again :
        (left attempt : ℕ) (w : Writer Queue) (o : Option (Writer Queue))
        → PauseKeeps w.store o
        → HotIsValid w.store.hot
        → ((w' : Writer Queue)
            → HotIsValid w'.store.hot
            → PinnedSpec w' (tries left (attempt + 1) w'))
        → PinnedSpec w (elim o as (λ _. Option (SlotRef × Writer Queue)) [
          | none ↦ none
          | some w' ↦ tries left (attempt + 1) w'
        ])
    again left attempt w none k v rest = tt
    again left attempt w (some w') k v rest =
        moved w w' (tries left (attempt + 1) w') k.base_map
          (rest w' (same_slots-HotIsValid w.store.hot w'.store.hot k.slots.0 k.slots.1 v))

    pub pin_retry-PinnedSpec :
        (left attempt : ℕ) (w : Writer Queue)
        → HotIsValid w.store.hot
        → PinnedSpec w (tries left attempt w)
    unfolding pin_retry
    pin_retry-PinnedSpec zero attempt w v =
        let (valid, found) = first_try w v in (valid, refl, found)
    pin_retry-PinnedSpec (suc left) attempt w v =
        let (valid, found) = first_try w v in
        let (ref, hot) = upsert_pinned w.store.hot fp packed in
        let w1 : Writer Queue = record w { store = record w.store { hot = hot } } in
        elim (Bool-cases ref.valid) [
          | inl ok_ref ↦ rw ok_ref (valid, refl, λ _. found ok_ref)
          | inr bad ↦ rw bad (
              moved w w1
                (elim (flushes (pause attempt) w1) as (λ _. Option (SlotRef × Writer Queue)) [
                  | none ↦ none
                  | some w' ↦ tries left (attempt + 1) w'
                ])
                refl
                (again left attempt w1 (flushes (pause attempt) w1)
                  (flush_each-PauseKeeps (pause attempt) w1) valid
                  (λ w' v'. pin_retry-PinnedSpec left (attempt + 1) w' v')))
        ]
