-- ===== src/Facade/Recovery.antt =====
-- include/viper/hiom/hiom.hpp: `recover_tail_into_cold`, which replays the records of the tail into the
-- cold tier. The threads run one after the other, and an abort leaves no result. The hashes of a key
-- are arguments.

use hiom.Prelude.{
  ℕ, ◌+◌, ◌^◌, ◌==◌, ◌&&◌, if◌then◌else◌, leb, ltb, Bool, true, ◌<◌, ◌≤◌, ◌≡◌, arith, refl, ap, ◌∙◌,
  List, [], ◌∷◌, ◌++◌, length, Option, some, none, count_if, count_if-append, Bool-cases, inl, inr,
}
use hiom.Checkpoint.{CheckpointRecord, PmFile}
use hiom.ColdTier.Layout.{ColdTier, region_id_of}
use hiom.ColdTier.{no_fault, upsert, lookup}
use hiom.ColdTier.Room.{upsert_alloc, full_region}
use hiom.ColdTier.Effect.{live}
use hiom.ColdTier.Table.{TableIsValid, same_chain, upsert-TableIsValid, lookup-upsert, region_at}
use hiom.Viper.{VPage, Visited, visit_records, page_at}
use hiom.Viper.Visits.{visits_slot, is_live, BlocksFit, count-visit_records}
use hiom.Facade.Replay.{
  Chunk, visits, tail_chunks, start_block, checkpoint_record, visits-tail_chunks,
}

module _ {K V : Type 0} where
  -- What the workers visit.
  unfoldable pub replayed : List Chunk → List (List (VPage K V)) → List (Visited K V)
  replayed [] blocks = []
  replayed ((lo, hi) ∷ cs) blocks = visit_records lo hi blocks ++ replayed cs blocks

  module _ (key_fingerprint64 key_id_of : K → ℕ) where
    unfoldable pub replay : List (Visited K V) → ColdTier → Option ColdTier
    replay [] c = some c
    replay (v ∷ vs) c =
        let (done, c') = upsert no_fault c (key_fingerprint64 v.key) (key_id_of v.key) v.off in
        let rest = replay vs c' in if done then rest else none

    unfoldable pub recover_tail_into_cold :
        Option PmFile → ℕ → ℕ → List (List (VPage K V)) → ColdTier → Option (ℕ × ColdTier)
    recover_tail_into_cold checkpoint current threads blocks c =
        let vs = replayed (tail_chunks (checkpoint_record checkpoint) current threads) blocks in
        elim (replay vs c) [ some c' ↦ some (length vs, c') | none ↦ none ]

  count-replayed :
      (b p s : ℕ) (cs : List Chunk) (blocks : List (List (VPage K V)))
      → length blocks ≤ 2 ^ 45
      → BlocksFit blocks
      → count_if (visits_slot b p s) (replayed cs blocks)
        ≡ (if is_live (page_at blocks b p) s then visits cs b else 0)
  unfolding replayed visits count_if
  count-replayed b p s [] blocks few fit = ground arith
  count-replayed b p s ((lo, hi) ∷ cs) blocks few fit =
      count_if-append (visits_slot b p s) (visit_records lo hi blocks) (replayed cs blocks)
      ∙ rw (count-visit_records b p s lo hi blocks few fit, count-replayed b p s cs blocks few fit)
          (ground arith)

  -- A restart hands each live record of the blocks from the start of the tail up to the store's
  -- frontier to the cold tier exactly once, whatever the number of threads, and no other record.
  pub count-replayed_tail :
      (b p s : ℕ) (rec : Option CheckpointRecord) (current threads : ℕ)
      (blocks : List (List (VPage K V)))
      → length blocks ≤ 2 ^ 45
      → BlocksFit blocks
      → count_if (visits_slot b p s) (replayed (tail_chunks rec current threads) blocks) ≡ (
          if (leb (start_block rec) b && ltb b current) && is_live (page_at blocks b p) s
          then 1
          else 0)
  count-replayed_tail b p s rec current threads blocks few fit =
      count-replayed b p s (tail_chunks rec current threads) blocks few fit
      ∙ rw (visits-tail_chunks rec current threads b) (ground arith)

  module _ (key_fingerprint64 key_id_of : K → ℕ) where
    -- The record is found by a lookup of this key.
    abbrev pub answers : ColdTier → ℕ → ℕ → Visited K V → Bool
    answers c fp key v = same_chain c fp (key_fingerprint64 v.key) && key == key_id_of v.key

    -- The last record that answers, or what was there.
    abbrev pub last_answer : ColdTier → ℕ → ℕ → List (Visited K V) → Option ℕ → Option ℕ
    last_answer c fp key [] old = old
    last_answer c fp key (v ∷ vs) old =
        last_answer c fp key vs (if answers c fp key v then live (some v.off) else old)

    abbrev pub ReplaySpec : ColdTier → List (Visited K V) → Option ColdTier → Type 0
    ReplaySpec c vs none =
        (rid : ℕ) × (c.sizing.overflow_slots < (region_at c rid).next_overflow_alloc + length vs)
    ReplaySpec c vs (some c') =
        TableIsValid c'
        × ((fp key : ℕ) → lookup c' fp key ≡ last_answer c fp key vs (lookup c fp key))

    replayed_one :
        (r : Visited K V) (rs : List (Visited K V)) (c : ColdTier) (o : Option ColdTier)
        → TableIsValid c
        → (upsert no_fault c (key_fingerprint64 r.key) (key_id_of r.key) r.off).0 ≡ true
        → ReplaySpec (upsert no_fault c (key_fingerprint64 r.key) (key_id_of r.key) r.off).1 rs o
        → ReplaySpec c (r ∷ rs) o
    unfolding upsert
    replayed_one r rs c none v done (rid, short) = (
      rid,
      omega (arith, short, upsert_alloc c v (key_fingerprint64 r.key) (key_id_of r.key) r.off rid),
    )
    replayed_one r rs c (some c'') v done (v'', reads) = (
      v'',
      λ fp key.
          reads fp key
          ∙ ap (λ (t : Option ℕ). last_answer c fp key rs t)
              (lookup-upsert c v (key_fingerprint64 r.key) (key_id_of r.key) r.off no_fault fp key
                ∙ rw done refl),
    )

    -- Replaying records into a well-formed table leaves a well-formed table in which each lookup
    -- returns the offset of the last record of that key (nothing, if that is the tombstone), and what
    -- it returned before if there is none. It aborts only where a region has fewer overflow buckets
    -- left than there are records.
    pub replay-ReplaySpec :
        (vs : List (Visited K V)) (c : ColdTier)
        → TableIsValid c
        → ReplaySpec c vs (replay key_fingerprint64 key_id_of vs c)
    unfolding replay
    replay-ReplaySpec [] c v = (v, λ fp key. refl)
    replay-ReplaySpec (r ∷ rs) c v =
        let fp = key_fingerprint64 r.key in
        let key = key_id_of r.key in
        let c' = (upsert no_fault c fp key r.off).1 in
        let rest = replay-ReplaySpec rs c' (upsert-TableIsValid c v fp key r.off no_fault) in
        elim (Bool-cases (upsert no_fault c fp key r.off).0) [
          | inl done ↦
              rw done (replayed_one r rs c (replay key_fingerprint64 key_id_of rs c') v done rest)
          | inr failed ↦
              rw failed (region_id_of fp, full_region c v fp key r.off (length rs) failed)
        ]
