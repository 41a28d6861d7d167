-- ===== src/Facade/Unread.antt =====
-- A get of a key that neither tier leads to.
use hiom.Prelude.{ℕ, ◌+◌, ◌≡◌, ◌≢◌, refl, ap, true, inl, inr, Bool-cases, Option, some, none}
use hiom.Codec.{BlockBaseMap, is_tombstone}
use hiom.HotTier.Table.{HotTier}
use hiom.ColdTier.Layout.{ColdTier}
use hiom.Viper.{Read, ok}
use hiom.Facade.Reads.{
  Keys, max_retries, verify_from, verify_and_read_offset, offset_of, resolve_slow, get,
}
use hiom.Facade.Answers.{VerifySpec, verify_from-VerifySpec}

module _ {K V : Type 0} (keys : Keys K) (cold : ColdTier) (base_map : BlockBaseMap)
    (read : ℕ → ℕ → Read K V) where
  open keys use {key_fingerprint, key_fingerprint64, key_id_of, same_key}

  -- The key stands in no slot but this one.
  abbrev pub OnlyAt : ℕ → K → Type 0
  OnlyAt off key = (q n : ℕ) (k : K) (v : V) → read q n ≡ ok k v → same_key k key ≡ true → q ≡ off

  elsewhere :
      (off : ℕ) (key : K) (q : ℕ)
      → OnlyAt off key
      → q ≢ off
      → verify_and_read_offset keys read key q ≡ none
  unfolding verify_and_read_offset
  elsewhere off key q only ne = elim (Bool-cases (is_tombstone q)) [
    | inl gone ↦ rw (verify_and_read_offset, gone) refl
    | inr there ↦
        rw (verify_and_read_offset, there)
          (decided (verify_from keys (max_retries + 1) 0 (read q) key)
            (verify_from-VerifySpec keys (read q) key (max_retries + 1) 0))
  ]
    where
      decided : (o : Option V) → VerifySpec keys (read q) key (max_retries + 1) 0 o → o ≡ none
      decided none spec = refl
      decided (some v) (inl (n, lt, waits, (k, h, mine))) = absurd (ne (only q (0 + n) k v h mine))
      decided (some v) (inr (nothing, waits)) = nothing

  cold_missed :
      (off : ℕ) (key : K) (hot : HotTier) (c : Option ℕ)
      → OnlyAt off key
      → hiom.ColdTier.lookup cold (key_fingerprint64 key) (key_id_of key) ≡ c
      → c ≢ some off
      → (resolve_slow keys cold base_map read key hot).0 ≡ none
  unfolding resolve_slow
  cold_missed off key hot none only h ne = rw (resolve_slow, h) refl
  cold_missed off key hot (some q) only h ne =
      rw (resolve_slow, h, elsewhere off key q only (λ e. ne (ap some e))) refl

  -- The key stands in one slot, and neither tier leads there.
  pub get-OnlyAt :
      (off : ℕ) (key : K) (hot : HotTier)
      → OnlyAt off key
      → ((p : ℕ)
          → (hiom.HotTier.Table.lookup hot (key_fingerprint key)).0 ≡ some p
          → offset_of keys cold base_map read p ≢ off)
      → hiom.ColdTier.lookup cold (key_fingerprint64 key) (key_id_of key) ≢ some off
      → (get keys cold base_map read key hot).0 ≡ none
  unfolding get
  get-OnlyAt off key hot only not_hot not_cold =
      go (hiom.HotTier.Table.lookup hot (key_fingerprint key)).0 refl
    where
      go :
          (packed : Option ℕ)
          → (hiom.HotTier.Table.lookup hot (key_fingerprint key)).0 ≡ packed
          → (get keys cold base_map read key hot).0 ≡ none
      go none h =
          rw (get, h)
            (cold_missed off key (hiom.HotTier.Table.lookup hot (key_fingerprint key)).1
              (hiom.ColdTier.lookup cold (key_fingerprint64 key) (key_id_of key)) only refl
              not_cold)
      go (some p) h =
          rw (get, h, elsewhere off key (offset_of keys cold base_map read p) only (not_hot p h))
            (cold_missed off key (hiom.HotTier.Table.lookup hot (key_fingerprint key)).1
              (hiom.ColdTier.lookup cold (key_fingerprint64 key) (key_id_of key)) only refl
              not_cold)
