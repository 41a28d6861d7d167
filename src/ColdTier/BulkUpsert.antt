-- ===== src/ColdTier/BulkUpsert.antt =====
-- include/viper/hiom/cold_tier.hpp: `bulk_upsert`, bucket by bucket. `std::sort` leaves open in what
-- order the entries of one bucket come; here they keep theirs. The region's lock is held throughout.
use hiom.Prelude.{ℕ, ◌+◌, ◌==◌, ◌&&◌, if◌then◌else◌, Bool, List, [], ◌∷◌, ◌++◌, ltb, get_or, set}
use hiom.ColdTier.Layout.{ColdTier, Sizing, region_id_of, bucket_id_of}
use hiom.ColdTier.{no_region}
use hiom.ColdTier.Bulk.{BulkEntry, apply_bucket_group}

unfoldable pub group_before : Sizing → BulkEntry → BulkEntry → Bool
group_before sizing a b =
    if region_id_of a.fp == region_id_of b.fp
    then ltb (bucket_id_of sizing a.fp) (bucket_id_of sizing b.fp)
    else ltb (region_id_of a.fp) (region_id_of b.fp)

unfoldable pub insert_group : Sizing → BulkEntry → List BulkEntry → List BulkEntry
insert_group sizing e [] = e ∷ []
insert_group sizing e (x ∷ xs) =
    let rest = insert_group sizing e xs in if group_before sizing x e then x ∷ rest else e ∷ x ∷ xs

unfoldable pub sort_groups : Sizing → List BulkEntry → List BulkEntry
unfolding insert_group
sort_groups sizing [] = []
sort_groups sizing (e ∷ es) = insert_group sizing e (sort_groups sizing es)

unfoldable pub write_group : ColdTier → ℕ → ℕ → List BulkEntry → ℕ × ColdTier
write_group c rid bid run =
    let (wrote, r) = apply_bucket_group c.sizing bid run (get_or c.regions rid no_region) in
    (wrote, record c { regions = set c.regions rid r })

-- `run` holds the entries from `i` on that were passed with this region and bucket.
unfoldable pub bulk_from : ℕ → ℕ → List BulkEntry → List BulkEntry → ℕ → ColdTier → ℕ × ColdTier
unfolding write_group
bulk_from rid bid run [] total c =
    let (wrote, c') = write_group c rid bid run in (total + wrote, c')
bulk_from rid bid run (e ∷ es) total c =
    let rid' = region_id_of e.fp in
    let bid' = bucket_id_of c.sizing e.fp in
    let (wrote, c') = write_group c rid bid run in
    let on = bulk_from rid bid (run ++ e ∷ []) es total c in
    let next = bulk_from rid' bid' (e ∷ []) es (total + wrote) c' in
    if rid' == rid && bid' == bid then on else next

unfoldable pub bulk_sorted : List BulkEntry → ColdTier → ℕ × ColdTier
unfolding bulk_from
bulk_sorted [] c = (0, c)
bulk_sorted (e ∷ es) c = bulk_from (region_id_of e.fp) (bucket_id_of c.sizing e.fp) (e ∷ []) es 0 c

unfoldable pub bulk_upsert : List BulkEntry → ColdTier → ℕ × ColdTier
unfolding bulk_sorted sort_groups
bulk_upsert entries c = bulk_sorted (sort_groups c.sizing entries) c
