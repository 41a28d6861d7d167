-- ===== src/Tests/Store.antt =====
-- A page of the store.
use hiom.Prelude.{count_if, leb, ltb, ◌&&◌, if◌then◌else◌, none, List, replicate, set, ◌==◌}
use hiom.HotTier.Layout.{no_meta}
use hiom.HotTier.Table.{HotTier}
use hiom.ColdTier.Layout.{ColdTier, create}
use hiom.ColdTier.{upsert, no_fault}
use hiom.ColdTier.Fresh.{create-TableIsValid}
use hiom.Viper.{Visited, visit_records, page_at, Read, ok, transient, slot_free}
use hiom.Viper.Visits.{visits_slot, is_live, count-visit_records}
use hiom.Viper.Intents.{lock_intent_publish, PublishSpec, lock_intent_publish-PublishSpec}
use hiom.Facade.Replay.{tail_chunks, start_block}
use hiom.Facade.Recovery.{replayed, replay, ReplaySpec, count-replayed_tail, replay-ReplaySpec}
use hiom.Facade.Reads.{Keys, get, get_batch}
use hiom.Facade.Answers.{GetSpec, BatchSpec, get-GetSpec, get_batch-BatchSpec}
use hiom.Prelude.{◌≡◌, refl, ℕ, ◌%◌, ◌↔◌, arith, true, false, ◌∷◌, []}
use hiom.Viper.{VPage, is_used, is_locked}
use hiom.Viper.Versions.{IsOpen, write_cycles, write_cycles-same}

sixty_four-IsOpen : IsOpen 64
unfolding is_used is_locked
sixty_four-IsOpen = record { byte = omega arith; used = refl; unlocked = refl }

write_cycles-same_example : (write_cycles 32 64 ≡ 64) ↔ (32 % 32 ≡ 0)
write_cycles-same_example = write_cycles-same 32 64 sixty_four-IsOpen

-- The middle one of three slots is free.
abbrev page : VPage ℕ ℕ
page = record {
  version_lock = 66;
  free_slots = false ∷ true ∷ false ∷ [];
  records = (1, 10) ∷ (2, 20) ∷ (3, 30) ∷ [];
}

abbrev blocks : List (List (VPage ℕ ℕ))
blocks = (page ∷ []) ∷ []

count-visit_records_example :
    count_if (visits_slot 0 0 2) (visit_records 0 1 blocks)
    ≡ (if (leb 0 0 && ltb 0 1) && is_live (page_at blocks 0 0) 2 then 1 else 0)
count-visit_records_example =
    count-visit_records 0 0 2 0 1 blocks (omega arith) (omega arith, (refl, omega arith, tt), tt)

count-replayed_tail_example :
    count_if (visits_slot 0 0 2) (replayed (tail_chunks none 1 4) blocks)
    ≡ (if (leb (start_block none) 0 && ltb 0 1) && is_live (page_at blocks 0 0) 2 then 1 else 0)
count-replayed_tail_example =
    count-replayed_tail 0 0 2 none 1 4 blocks (omega arith)
      (omega arith, (refl, omega arith, tt), tt)

abbrev table : ColdTier
table = create 3 2

abbrev two_records : List (Visited ℕ ℕ)
two_records =
    record { key = 1; value = 10; off = 640 } ∷ record { key = 3; value = 30; off = 704 } ∷ []

replay-ReplaySpec_example :
    ReplaySpec (λ k. k) (λ k. k) table two_records (replay (λ k. k) (λ k. k) two_records table)
replay-ReplaySpec_example =
    replay-ReplaySpec (λ k. k) (λ k. k) two_records table (create-TableIsValid 3 2 (omega arith))

abbrev keys : Keys ℕ
keys = record {
  key_fingerprint = λ k. k;
  key_fingerprint64 = λ k. k;
  key_id_of = λ k. k;
  same_key = λ a b. a == b;
}

-- The page is locked at the first attempt.
abbrev answers : ℕ → ℕ → Read ℕ ℕ
answers off n = if n == 0 then transient else if off == 640 then ok 1 10 else slot_free

abbrev cold_hot : HotTier
cold_hot = record {
  num_buckets = 1;
  buckets = replicate 16 0 ∷ [];
  metas = no_meta ∷ [];
  size = 0;
  eviction_count = 0;
  pin_failures = 0;
}

abbrev one_record : ColdTier
one_record = (upsert no_fault table 1 1 640).1

get-GetSpec_example :
    GetSpec keys one_record
      (replicate 32 0)
      answers
      1
      (get keys one_record (replicate 32 0) answers 1 cold_hot).0
get-GetSpec_example = get-GetSpec keys one_record (replicate 32 0) answers 1 cold_hot

get_batch-BatchSpec_example :
    BatchSpec keys one_record
      (replicate 32 0)
      answers
      (1 ∷ 2 ∷ [])
      (get_batch keys one_record (replicate 32 0) answers (1 ∷ 2 ∷ []) cold_hot).0
get_batch-BatchSpec_example =
    get_batch-BatchSpec keys one_record (replicate 32 0) answers (1 ∷ 2 ∷ []) cold_hot

lock_intent_publish-PublishSpec_example :
    PublishSpec 4096
      (set (replicate 128 0) 1 8192)
      (lock_intent_publish 4096 (set (replicate 128 0) 1 8192))
lock_intent_publish-PublishSpec_example =
    lock_intent_publish-PublishSpec 4096 (set (replicate 128 0) 1 8192)
