-- ===== src/Tests/Chains.antt =====
-- The cold tier: a table of four main buckets and two overflow buckets in each region.
use hiom.ColdTier.Refinement.{Command, upserts, removes, Refines, run, spec_run, run-Refines}
use hiom.Prelude.{refl}
use hiom.Prelude.{◌≡◌, some, none, true, arith, ◌≤◌, if◌then◌else◌, ◌<◌, ◌&&◌, ◌==◌, List, ◌∷◌, []}
use hiom.ColdTier.Layout.{ColdTier, create, region_id_of}
use hiom.ColdTier.{no_fault, after_key_id_before_entry, upsert, lookup, remove}
use hiom.ColdTier.Effect.{live}
use hiom.ColdTier.Bulk.{BulkEntry}
use hiom.ColdTier.Table.{
  TableIsValid, region_at, same_chain, upsert-TableIsValid, lookup-upsert, lookup-remove,
  upsert-stored,
}
use hiom.ColdTier.Fresh.{create-TableIsValid, lookup-create}

abbrev small : ColdTier
small = create 3 2

small-TableIsValid : TableIsValid small
small-TableIsValid = create-TableIsValid 3 2 (omega arith)

abbrev one_key : ColdTier
one_key = (upsert no_fault small 77 5 640).1

one_key-TableIsValid : TableIsValid one_key
one_key-TableIsValid = upsert-TableIsValid small small-TableIsValid 77 5 640 no_fault

upsert-TableIsValid_example : TableIsValid (upsert after_key_id_before_entry one_key 78 6 704).1
upsert-TableIsValid_example =
    upsert-TableIsValid one_key one_key-TableIsValid 78 6 704 after_key_id_before_entry

lookup-upsert_example : lookup (upsert no_fault small 77 5 640).1 77 5 ≡ (
    if (upsert no_fault small 77 5 640).0 && (same_chain small 77 77 && 5 == 5)
    then live (some 640)
    else lookup small 77 5)
lookup-upsert_example = lookup-upsert small small-TableIsValid 77 5 640 no_fault 77 5

lookup-remove_example :
    lookup (remove one_key 77 5).1 77 5
    ≡ (if same_chain one_key 77 77 && 5 == 5 then none else lookup one_key 77 5)
lookup-remove_example = lookup-remove one_key one_key-TableIsValid 77 5 77 5

free_overflow :
    (region_at small (region_id_of 77)).next_overflow_alloc < small.sizing.overflow_slots
unfolding create region_id_of
free_overflow = omega arith

upsert-stored_example : (upsert no_fault small 77 5 640).0 ≡ true
upsert-stored_example = upsert-stored small small-TableIsValid 77 5 640 free_overflow

two_entries-bounds : (region_at small 0).next_overflow_alloc ≤ small.sizing.overflow_slots
unfolding create
two_entries-bounds = omega arith

abbrev two_entries : List BulkEntry
two_entries =
    record { fp = 1; key_id = 5; off = 640 } ∷ record { fp = 1; key_id = 6; off = 704 } ∷ []

abbrev calls : List Command
calls = upserts no_fault 77 5 640 ∷ upserts after_key_id_before_entry 78 6 704 ∷ removes 77 5 ∷ []

small-Refines : Refines small.sizing small (λ rid bid key. none)
small-Refines = record {
  valid = small-TableIsValid;
  sized = refl;
  reads = λ fp key. lookup-create 3 2 fp key (omega arith);
}

run-Refines_example :
    Refines small.sizing
      (run calls small).1
      (spec_run small.sizing calls (run calls small).0 (λ rid bid key. none))
run-Refines_example = run-Refines small.sizing calls small (λ rid bid key. none) small-Refines
