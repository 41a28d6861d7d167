-- ===== src/ColdTier/Refinement.antt =====
-- What the cold tier promises: a map from chains and keys to offsets.
use hiom.Prelude.{
  ◌≡◌, refl, true, false, some, none, ℕ, Bool, ◌==◌, ◌&&◌, ◌∙◌, if◌then◌else◌, Option, List, [],
  ◌∷◌,
}
use hiom.ColdTier.Layout.{ColdTier, Sizing, region_id_of, bucket_id_of}
use hiom.ColdTier.{FaultPoint, upsert, remove, lookup}
use hiom.ColdTier.Effect.{live}
use hiom.ColdTier.Table.{
  TableIsValid, upsert-TableIsValid, remove-TableIsValid, lookup-upsert, lookup-remove,
}

pub data Command : Type 0 where
  upserts : FaultPoint → (fp key_id off : ℕ) → Command
  removes : (fp key_id : ℕ) → Command

-- One call, with what it reports.
abbrev pub call : Command → ColdTier → Bool × ColdTier
call (upserts fault fp key_id off) c = upsert fault c fp key_id off
call (removes fp key_id) c = remove c fp key_id

-- A run of calls, and their reports.
unfoldable pub run : List Command → ColdTier → List Bool × ColdTier
run [] c = ([], c)
run (cmd ∷ cmds) c =
    let (done, c') = call cmd c in let (dones, c'') = run cmds c' in (done ∷ dones, c'')

-- The specification: for each region, bucket and key at most one offset.
abbrev pub ChainMap : Type 0
ChainMap = ℕ → ℕ → ℕ → Option ℕ

abbrev pub assign : Sizing → ℕ → ℕ → Option ℕ → ChainMap → ChainMap
assign sizing fp key_id off m = λ rid bid key.
    if (rid == region_id_of fp && bid == bucket_id_of sizing fp) && key == key_id
    then off
    else m rid bid key

-- An `upsert` that reports failure changes nothing.
abbrev pub spec_call : Sizing → Command → Bool → ChainMap → ChainMap
spec_call sizing (upserts fault fp key_id off) true m = assign sizing fp key_id (live (some off)) m
spec_call sizing (upserts fault fp key_id off) false m = m
spec_call sizing (removes fp key_id) done m = assign sizing fp key_id none m

abbrev pub spec_run : Sizing → List Command → List Bool → ChainMap → ChainMap
spec_run sizing [] dones m = m
spec_run sizing (cmd ∷ cmds) [] m = m
spec_run sizing (cmd ∷ cmds) (done ∷ dones) m =
    spec_run sizing cmds dones (spec_call sizing cmd done m)

-- The table is well formed and reads as the map does.
pub record Refines (sizing : Sizing) (c : ColdTier) (m : ChainMap) : Type 0 where
  pub valid : TableIsValid c
  pub sized : c.sizing ≡ sizing
  pub reads : (fp key : ℕ) → lookup c fp key ≡ m (region_id_of fp) (bucket_id_of sizing fp) key

module _ (sizing sizing' : Sizing) (same : sizing' ≡ sizing) (m : ChainMap) where
  upserted_reads :
      (fp key_id off fp' key : ℕ) (done : Bool) (old : Option ℕ) (fault : FaultPoint)
      → old ≡ m (region_id_of fp') (bucket_id_of sizing fp') key
      → (if done
            && ((region_id_of fp' == region_id_of fp
                  && bucket_id_of sizing' fp' == bucket_id_of sizing' fp)
                && key == key_id)
          then live (some off)
          else old)
        ≡ spec_call sizing
            (upserts fault fp key_id off)
            done
            m
            (region_id_of fp')
            (bucket_id_of sizing fp')
            key
  upserted_reads fp key_id off fp' key true old fault h = rw (same, h) refl
  upserted_reads fp key_id off fp' key false old fault h = h

  removed_reads :
      (fp key_id fp' key : ℕ) (old : Option ℕ)
      → old ≡ m (region_id_of fp') (bucket_id_of sizing fp') key
      → (if (region_id_of fp' == region_id_of fp
              && bucket_id_of sizing' fp' == bucket_id_of sizing' fp)
            && key == key_id
          then none
          else old)
        ≡ assign sizing fp key_id none m (region_id_of fp') (bucket_id_of sizing fp') key
  removed_reads fp key_id fp' key old h = rw (same, h) refl

call-Refines :
    (sizing : Sizing) (cmd : Command) (c : ColdTier) (m : ChainMap)
    → Refines sizing c m
    → Refines sizing (call cmd c).1 (spec_call sizing cmd (call cmd c).0 m)
unfolding upsert remove
call-Refines sizing (upserts fault fp key_id off) c m r = record {
  valid = upsert-TableIsValid c r.valid fp key_id off fault;
  sized = r.sized;
  reads = λ fp' key.
      lookup-upsert c r.valid fp key_id off fault fp' key
      ∙ upserted_reads sizing c.sizing r.sized m fp key_id off fp' key
          (upsert fault c fp key_id off).0 (lookup c fp' key) fault (r.reads fp' key);
}
call-Refines sizing (removes fp key_id) c m r = record {
  valid = remove-TableIsValid c r.valid fp key_id;
  sized = r.sized;
  reads = λ fp' key.
      lookup-remove c r.valid fp key_id fp' key
      ∙ removed_reads sizing c.sizing r.sized m fp key_id fp' key (lookup c fp' key)
          (r.reads fp' key);
}

-- Any run of `upsert` and `remove` calls on a table that reads as a map leaves a table that reads as
-- the map after the same assignments: every `upsert` that reports success stores its offset, or
-- nothing if the offset is the tombstone; one that fails or is cut short by a fault point changes
-- nothing; and a `remove` deletes.
pub run-Refines :
    (sizing : Sizing) (cmds : List Command) (c : ColdTier) (m : ChainMap)
    → Refines sizing c m
    → Refines sizing (run cmds c).1 (spec_run sizing cmds (run cmds c).0 m)
unfolding run
run-Refines sizing [] c m r = r
run-Refines sizing (cmd ∷ cmds) c m r =
    run-Refines sizing cmds (call cmd c).1 (spec_call sizing cmd (call cmd c).0 m)
      (call-Refines sizing cmd c m r)
