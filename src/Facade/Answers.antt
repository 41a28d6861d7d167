-- ===== src/Facade/Answers.antt =====
-- What a client's read may return.
use hiom.Prelude.{
  length, ℕ, zero, suc, ◌+◌, ◌<◌, ◌≡◌, true, false, Option, some, none, List, [], ◌∷◌, arith, refl,
  ap, sym, ◌∙◌, Bool-cases, inl, inr, ◌⊎◌, subst,
}
use hiom.Codec.{BlockBaseMap, is_tombstone}
use hiom.HotTier.Table.{HotTier}
use hiom.ColdTier.Layout.{ColdTier}
use hiom.Viper.{Read, ok, transient, slot_free}
use hiom.Facade.Reads.{
  Keys, max_retries, verify_from, verify_and_read_offset, offset_of, resolve_slow, get, probe_each,
  read_each, get_batch,
}

module _ {K V : Type 0} (keys : Keys K) where
  open keys use {key_fingerprint, key_fingerprint64, key_id_of, same_key}

  module _ (read : ℕ → Read K V) (key : K) where
    -- Attempt `n` is the first that is not transient: it decides.
    abbrev pub Decided : ℕ → Option V → Type 0
    Decided n (some v) = (k : K) × (read n ≡ ok k v) × (same_key k key ≡ true)
    Decided n none =
        (read n ≡ slot_free) ⊎ ((k : K) × (v : V) × (read n ≡ ok k v) × (same_key k key ≡ false))

    abbrev pub VerifySpec : ℕ → ℕ → Option V → Type 0
    VerifySpec left attempt o =
        ((n : ℕ) × (n < left)
          × ((i : ℕ) → i < n → read (attempt + i) ≡ transient)
          × Decided (attempt + n) o)
        ⊎ ((o ≡ none) × ((i : ℕ) → i < left → read (attempt + i) ≡ transient))

    shifted :
        (attempt m : ℕ)
        → read attempt ≡ transient
        → ((i : ℕ) → i < m → read (attempt + 1 + i) ≡ transient)
        → (i : ℕ) → i < suc m
        → read (attempt + i) ≡ transient
    shifted attempt m h rest zero lt =
        let at : attempt + 0 ≡ attempt = omega arith in ap read at ∙ h
    shifted attempt m h rest (suc i) lt =
        let at : attempt + suc i ≡ attempt + 1 + i = omega arith in
        ap read at ∙ rest i (omega arith)

    later :
        (left attempt : ℕ) (o : Option V)
        → read attempt ≡ transient
        → VerifySpec left (attempt + 1) o
        → VerifySpec (suc left) attempt o
    later left attempt o h (inl (n, lt, waits, decided)) =
        let at : attempt + suc n ≡ attempt + 1 + n = omega arith in
        inl (
          suc n,
          omega arith,
          shifted attempt n h waits,
          subst (λ (t : ℕ). Decided t o) (sym at) decided,
        )
    later left attempt o h (inr (nothing, waits)) = inr (nothing, shifted attempt left h waits)

    settled :
        (left attempt : ℕ) (o : Option V) → Decided attempt o → VerifySpec (suc left) attempt o
    settled left attempt o decided =
        let at : attempt + 0 ≡ attempt = omega arith in
        inl (
          0,
          omega arith,
          (λ i lt. absurd (omega arith)),
          subst (λ (t : ℕ). Decided t o) (sym at) decided,
        )

    by_answer :
        (left attempt : ℕ) (r : Read K V)
        → read attempt ≡ r
        → VerifySpec left (attempt + 1) (verify_from keys left (attempt + 1) read key)
        → VerifySpec (suc left) attempt (verify_from keys (suc left) attempt read key)
    unfolding verify_from
    by_answer left attempt (ok k v) h rest = elim (Bool-cases (same_key k key)) [
      | inl mine ↦ rw (verify_from, h, mine) (settled left attempt (some v) (k, h, mine))
      | inr other ↦ rw (verify_from, h, other) (settled left attempt none (inr (k, v, h, other)))
    ]
    by_answer left attempt slot_free h rest =
        rw (verify_from, h) (settled left attempt none (inl h))
    by_answer left attempt transient h rest =
        rw (verify_from, h)
          (later left attempt (verify_from keys left (attempt + 1) read key) h rest)

    pub verify_from-VerifySpec :
        (left attempt : ℕ) → VerifySpec left attempt (verify_from keys left attempt read key)
    unfolding verify_from
    verify_from-VerifySpec zero attempt = inr (refl, λ i lt. absurd (omega arith))
    verify_from-VerifySpec (suc left) attempt =
        by_answer left attempt (read attempt) refl (verify_from-VerifySpec left (attempt + 1))

  module _ (cold : ColdTier) (base_map : BlockBaseMap) (read : ℕ → ℕ → Read K V) where
    -- Some slot held the key together with this value.
    abbrev pub IsStored : K → V → Type 0
    IsStored key value =
        (off : ℕ) × (n : ℕ) × (k : K) × (read off n ≡ ok k value) × (same_key k key ≡ true)

    abbrev pub VerifiedSpec : K → Option V → Type 0
    VerifiedSpec key (some value) = IsStored key value
    VerifiedSpec key none = Unit {0}

    stored_answer :
        (key : K) (off : ℕ) (o : Option V)
        → VerifySpec (read off) key (max_retries + 1) 0 o
        → VerifiedSpec key o
    stored_answer key off none spec = tt
    stored_answer key off (some v) (inl (n, lt, waits, (k, h, mine))) = (off, 0 + n, k, h, mine)
    stored_answer key off (some v) (inr (nothing, waits)) = absurd (ground arith)

    verified : (key : K) (off : ℕ) → VerifiedSpec key (verify_and_read_offset keys read key off)
    unfolding verify_and_read_offset
    verified key off = elim (Bool-cases (is_tombstone off)) [
      | inl gone ↦ rw gone tt
      | inr there ↦ rw there (
          stored_answer key off (verify_from keys (max_retries + 1) 0 (read off) key)
            (verify_from-VerifySpec (read off) key (max_retries + 1) 0))
    ]

    -- What the cold tier's offset for the key yields.
    abbrev pub of_offset : K → Option ℕ → Option V
    of_offset key none = none
    of_offset key (some off) = verify_and_read_offset keys read key off

    abbrev pub cold_answer : K → Option V
    cold_answer key =
        of_offset key (hiom.ColdTier.lookup cold (key_fingerprint64 key) (key_id_of key))

    abbrev pub GetSpec : K → Option V → Type 0
    GetSpec key (some value) = IsStored key value
    GetSpec key none = cold_answer key ≡ none

    slow_read :
        (key : K) (hot : HotTier) (off : ℕ) (o : Option V)
        → hiom.ColdTier.lookup cold (key_fingerprint64 key) (key_id_of key) ≡ some off
        → verify_and_read_offset keys read key off ≡ o
        → GetSpec key (resolve_slow keys cold base_map read key hot).0
    unfolding resolve_slow
    slow_read key hot off none h e = rw (resolve_slow, h, e) (ap (of_offset key) h ∙ e)
    slow_read key hot off (some v) h e =
        rw (resolve_slow, h, e) (subst (λ (t : Option V). VerifiedSpec key t) e (verified key off))

    slow :
        (key : K) (hot : HotTier) (c : Option ℕ)
        → hiom.ColdTier.lookup cold (key_fingerprint64 key) (key_id_of key) ≡ c
        → GetSpec key (resolve_slow keys cold base_map read key hot).0
    unfolding resolve_slow
    slow key hot none h = rw (resolve_slow, h) (ap (of_offset key) h)
    slow key hot (some off) h =
        slow_read key hot off (verify_and_read_offset keys read key off) h refl

    resolve_slow-GetSpec :
        (key : K) (hot : HotTier) → GetSpec key (resolve_slow keys cold base_map read key hot).0
    resolve_slow-GetSpec key hot =
        slow key hot (hiom.ColdTier.lookup cold (key_fingerprint64 key) (key_id_of key)) refl

    -- A read that tries a first offset, and the cold tier where that does not verify.
    tried :
        (key : K) (hot : HotTier) (off : ℕ) (o : Option V)
        → verify_and_read_offset keys read key off ≡ o
        → GetSpec key
            (elim o as (λ _. Option V × HotTier) [
              | some v ↦ (some v, hot)
              | none ↦ resolve_slow keys cold base_map read key hot
            ]).0
    tried key hot off none e = resolve_slow-GetSpec key hot
    tried key hot off (some v) e = subst (λ (t : Option V). VerifiedSpec key t) e (verified key off)

    got :
        (key : K) (hot : HotTier) (packed : Option ℕ)
        → (hiom.HotTier.Table.lookup hot (key_fingerprint key)).0 ≡ packed
        → GetSpec key (get keys cold base_map read key hot).0
    unfolding get
    got key hot none h =
        rw (get, h)
          (resolve_slow-GetSpec key (hiom.HotTier.Table.lookup hot (key_fingerprint key)).1)
    got key hot (some p) h =
        rw (get, h)
          (tried key (hiom.HotTier.Table.lookup hot (key_fingerprint key)).1
            (offset_of keys cold base_map read p)
            (verify_and_read_offset keys read key (offset_of keys cold base_map read p)) refl)

    -- A `get` returns a value only if some slot of the store held it together with the key; and it
    -- returns nothing only where the offset that the cold tier has for the key does not verify,
    -- whatever the hot tier holds.
    pub get-GetSpec :
        (key : K) (hot : HotTier) → GetSpec key (get keys cold base_map read key hot).0
    get-GetSpec key hot = got key hot (hiom.HotTier.Table.lookup hot (key_fingerprint key)).0 refl

    abbrev pub BatchSpec : List K → List (Option V) → Type 0
    BatchSpec [] values = values ≡ []
    BatchSpec (key ∷ ks) [] = ⊥
    BatchSpec (key ∷ ks) (value ∷ values) = GetSpec key value × BatchSpec ks values

    read_each-BatchSpec :
        (ks : List K) (offs : List (Option ℕ)) (hot : HotTier)
        → length offs ≡ length ks
        → BatchSpec ks (read_each keys cold base_map read ks offs hot).0
    unfolding read_each
    read_each-BatchSpec [] offs hot len = refl
    read_each-BatchSpec (key ∷ ks) [] hot len = absurd (omega arith)
    read_each-BatchSpec (key ∷ ks) (none ∷ offs) hot len =
        let slow_path = resolve_slow keys cold base_map read key hot in
        (resolve_slow-GetSpec key hot, read_each-BatchSpec ks offs slow_path.1 (omega (arith, len)))
    read_each-BatchSpec (key ∷ ks) (some off ∷ offs) hot len =
        let o = verify_and_read_offset keys read key off in
        let next = elim o as (λ _. Option V × HotTier) [
          | some v ↦ (some v, hot)
          | none ↦ resolve_slow keys cold base_map read key hot
        ] in
        (tried key hot off o refl, read_each-BatchSpec ks offs next.1 (omega (arith, len)))

    length-probe_each :
        (ks : List K) (hot : HotTier)
        → length (probe_each keys cold base_map read ks hot).0 ≡ length ks
    unfolding probe_each
    length-probe_each [] hot = refl
    length-probe_each (key ∷ ks) hot =
        ap suc (length-probe_each ks (hiom.HotTier.Table.lookup hot (key_fingerprint key)).1)

    -- A `get_batch` answers every key that it was given, and each answer meets the conditions of a
    -- `get` of its key.
    pub get_batch-BatchSpec :
        (ks : List K) (hot : HotTier) → BatchSpec ks (get_batch keys cold base_map read ks hot).0
    unfolding get_batch
    get_batch-BatchSpec ks hot =
        let probed = probe_each keys cold base_map read ks hot in
        read_each-BatchSpec ks probed.0 probed.1 (length-probe_each ks hot)
