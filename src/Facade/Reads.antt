-- ===== src/Facade/Reads.antt =====
-- include/viper/hiom/hiom.hpp: the reads of a client, with a cold tier attached. What the store answers
-- is an argument: the status of attempt `n` at an offset, as `hiom_read_at_offset_status` of
-- include/viper/viper.hpp returns it. A repair of a stale lock shows in the later answers. Counters,
-- pauses and prefetches have no effect here.
use hiom.Prelude.{ℕ, zero, suc, ◌+◌, if◌then◌else◌, Bool, Option, some, none, List, [], ◌∷◌}
use hiom.Codec.{decode, encode, key_value_offset, get_offsets, is_tombstone, BlockBaseMap}
use hiom.HotTier.Table.{HotTier}
use hiom.ColdTier.Layout.{ColdTier}
use hiom.Viper.{Read, ok, transient, slot_free}

abbrev pub max_retries : ℕ
max_retries = 1024

-- The hashes and the comparison of keys.
pub record Keys (K : Type 0) : Type 0 where
  pub key_fingerprint : K → ℕ
  pub key_fingerprint64 : K → ℕ
  pub key_id_of : K → ℕ
  pub same_key : K → K → Bool

module _ {K V : Type 0} (keys : Keys K) where
  open keys use {key_fingerprint, key_fingerprint64, key_id_of, same_key}

  -- `left` more attempts, from number `attempt` on.
  unfoldable pub verify_from : ℕ → ℕ → (ℕ → Read K V) → K → Option V
  verify_from zero attempt read key = none
  verify_from (suc left) attempt read key =
      let again = verify_from left (attempt + 1) read key in
      elim (read attempt) [
        | ok pm_key pm_val ↦ if same_key pm_key key then some pm_val else none
        | slot_free ↦ none
        | transient ↦ again
      ]

  unfoldable pub verify_and_read_offset : (ℕ → ℕ → Read K V) → K → ℕ → Option V
  unfolding verify_from
  verify_and_read_offset read key off =
      if is_tombstone off then none else verify_from (max_retries + 1) 0 (read off) key

  module _ (cold : ColdTier) (base_map : BlockBaseMap) (read : ℕ → ℕ → Read K V) where
    unfoldable pub offset_of : ℕ → ℕ
    offset_of packed =
        let d = decode packed 0 base_map in
        key_value_offset d.block_number d.page_number d.data_offset

    unfoldable pub mirror_into_hot_with_offset : K → ℕ → HotTier → HotTier
    mirror_into_hot_with_offset key off hot =
        let (block, page, slot) = get_offsets off in
        elim (encode block page slot 0 base_map) [
          | some packed ↦ (hiom.HotTier.Table.upsert hot (key_fingerprint key) packed).1
          | none ↦ hot
        ]

    unfoldable pub resolve_slow : K → HotTier → Option V × HotTier
    unfolding verify_and_read_offset mirror_into_hot_with_offset
    resolve_slow key hot =
        elim (hiom.ColdTier.lookup cold (key_fingerprint64 key) (key_id_of key)) [
          | none ↦ (none, hot)
          | some off ↦ elim (verify_and_read_offset read key off) [
            | some value ↦ (some value, mirror_into_hot_with_offset key off hot)
            | none ↦ (none, hot)
          ]
        ]

    unfoldable pub get : K → HotTier → Option V × HotTier
    unfolding offset_of resolve_slow
    get key hot =
        let (packed, hot') = hiom.HotTier.Table.lookup hot (key_fingerprint key) in
        let slow = resolve_slow key hot' in
        elim packed [
          | none ↦ slow
          | some p ↦ elim (verify_and_read_offset read key (offset_of p)) [
            | some value ↦ (some value, hot')
            | none ↦ slow
          ]
        ]

    -- `get_batch`: the offsets that pass 1 found, then pass 2.
    unfoldable pub probe_each : List K → HotTier → List (Option ℕ) × HotTier
    unfolding offset_of
    probe_each [] hot = ([], hot)
    probe_each (key ∷ ks) hot =
        let (packed, hot') = hiom.HotTier.Table.lookup hot (key_fingerprint key) in
        let (offs, hot'') = probe_each ks hot' in
        (elim packed [ some p ↦ some (offset_of p) | none ↦ none ] ∷ offs, hot'')

    unfoldable pub read_each : List K → List (Option ℕ) → HotTier → List (Option V) × HotTier
    unfolding resolve_slow
    read_each [] offs hot = ([], hot)
    read_each (key ∷ ks) [] hot = ([], hot)
    read_each (key ∷ ks) (o ∷ offs) hot =
        let first : Option V = elim o [
          | some off ↦ verify_and_read_offset read key off
          | none ↦ none
        ] in
        let (value, hot') = elim first as (λ _. Option V × HotTier) [
          | some v ↦ (some v, hot)
          | none ↦ resolve_slow key hot
        ] in
        let (values, hot'') = read_each ks offs hot' in (value ∷ values, hot'')

    -- `get_batch` asserts that there are at most 32 keys; here there may be any number of them.
    unfoldable pub get_batch : List K → HotTier → List (Option V) × HotTier
    unfolding probe_each read_each
    get_batch ks hot = let (offs, hot') = probe_each ks hot in read_each ks offs hot'
