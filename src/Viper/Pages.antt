-- ===== src/Viper/Pages.antt =====
-- What a put does to the client's page.

use hiom.Prelude.{
  ℕ, zero, suc, ◌+◌, leb, Bool, true, false, ◌<◌, ◌≤◌, ◌≡◌, ◌≢◌, inl, inr, arith, refl, ap, sym,
  Option, some, none, List, [], ◌∷◌, length, get_or, set, get_or-set_self, get_or-set_ne,
  Bool-cases,
}
use hiom.Viper.{
  VPage, PagePut, written, full, busy, put_on_page, find_first, record_at, is_free, lock,
}

find_first_lem :
    (bs : List Bool)
    → (find_first bs ≤ length bs)
      × (find_first bs < length bs → get_or bs (find_first bs) true ≡ true)
      × ((i : ℕ) → i < find_first bs → get_or bs i true ≡ false)
unfolding find_first
find_first_lem [] = (omega arith, λ h. refl, λ i lt. absurd (omega arith))
find_first_lem (true ∷ bs) = (omega arith, λ h. refl, λ i lt. absurd (omega arith))
find_first_lem (false ∷ bs) =
    let (le, free, busy_before) = find_first_lem bs in
    let next : find_first bs + 1 ≡ suc (find_first bs) = omega arith in
    (
      omega (arith, le),
      λ lt. rw next (free (omega (arith, lt))),
      λ i lt. before i (omega (arith, lt)) busy_before,
    )
  where
    before :
        (i : ℕ)
        → i < suc (find_first bs)
        → ((j : ℕ) → j < find_first bs → get_or bs j true ≡ false)
        → get_or (false ∷ bs) i true ≡ false
    before zero lt rest = refl
    before (suc j) lt rest = rest j (omega arith)

module _ {K V : Type 0} where
  pub record_at-set_self :
      (rs : List (K × V)) (i : ℕ) (r : K × V) → i < length rs → record_at (set rs i r) i ≡ some r
  unfolding record_at
  record_at-set_self [] i r lt = absurd (omega arith)
  record_at-set_self (x ∷ xs) zero r lt = refl
  record_at-set_self (x ∷ xs) (suc i) r lt = record_at-set_self xs i r (omega arith)

  pub record_at-set_ne :
      (rs : List (K × V)) (i j : ℕ) (r : K × V) → i ≢ j → record_at (set rs i r) j ≡ record_at rs j
  unfolding record_at
  record_at-set_ne [] i j r ne = refl
  record_at-set_ne (x ∷ xs) zero zero r ne = absurd (ne refl)
  record_at-set_ne (x ∷ xs) zero (suc j) r ne = refl
  record_at-set_ne (x ∷ xs) (suc i) zero r ne = refl
  record_at-set_ne (x ∷ xs) (suc i) (suc j) r ne = record_at-set_ne xs i j r (λ e. ne (ap suc e))

  -- A slot of a page is as it is in another page.
  abbrev pub Same : VPage K V → VPage K V → ℕ → Type 0
  Same p p' j = (is_free p' j ≡ is_free p j) × (record_at p'.records j ≡ record_at p.records j)

  abbrev pub PutSpec : K → V → VPage K V → PagePut K V → Type 0
  PutSpec key value p (written slot p') =
      (slot < length p.free_slots)
      × (is_free p slot ≡ true)
      × (is_free p' slot ≡ false)
      × (record_at p'.records slot ≡ some (key, value))
      × ((j : ℕ) → j ≢ slot → Same p p' j)
  PutSpec key value p (full p') =
      ((j : ℕ) → j < length p.free_slots → is_free p j ≡ false) × ((j : ℕ) → Same p p' j)
  PutSpec key value p busy = lock p.version_lock ≡ none

  module _ (key : K) (value : V) (p : VPage K V)
      (sized : length p.records ≡ length p.free_slots) where
    locked_put :
        (o : Option ℕ) → lock p.version_lock ≡ o → PutSpec key value p (put_on_page key value p)
    unfolding put_on_page
    locked_put none h = rw (put_on_page, h) h
    locked_put (some held) h =
        let (le, free, taken) = find_first_lem p.free_slots in
        let slot = find_first p.free_slots in
        elim (Bool-cases (leb (length p.free_slots) slot)) [
          | inl none_free ↦
              rw (put_on_page, h, none_free)
                ((λ j lt. taken j (ground (arith, none_free))), λ j. (refl, refl))
          | inr some_free ↦
              let lt : slot < length p.free_slots = ground (arith, some_free) in
              rw (put_on_page, h, some_free)
                (
                  lt,
                  free lt,
                  get_or-set_self p.free_slots slot false true lt,
                  record_at-set_self p.records slot (key, value) (omega (arith, lt, sized)),
                  λ j ne. (
                    get_or-set_ne p.free_slots slot j false true (λ e. ne (sym e)),
                    record_at-set_ne p.records slot j (key, value) (λ e. ne (sym e)),
                  ),
                )
        ]

    -- A put into a page that nobody holds writes the record into the first free slot and marks it
    -- used, and every other slot is as before; where no slot is free, no record and no slot changes.
    -- It waits only where the page is locked.
    pub put_on_page-PutSpec : PutSpec key value p (put_on_page key value p)
    put_on_page-PutSpec = locked_put (lock p.version_lock) refl
