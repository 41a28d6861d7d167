-- ===== src/Viper/Client/Kept.antt =====
-- The client's steps that leave every live record where it is, and every version free.
use hiom.Prelude.{
  inl, inr, Bool-cases, ℕ, zero, suc, ◌<◌, ◌≡◌, ◌&&◌, ltb, not, if◌then◌else◌, Bool, true, false,
  Option, some, none, List, [], ◌∷◌, get_or, set, length, length-replicate, get_or-replicate,
  bit_and, bit_or, arith, refl, sym, ap, ◌∙◌,
}
use hiom.Viper.{
  VPage, lock, unlock, is_locked, is_used, client_bit, is_free, record_at, no_page, page_at, init,
}
use hiom.Viper.Versions.{all_below, at_each}
use hiom.Viper.Client.{Pool, modify_page, drop_client, take_client, no_client_bit}

-- A version byte whose lock nobody holds.
abbrev pub IsQuiet : ℕ → Type 0
IsQuiet v = (v < 256) × (is_locked v ≡ false)

is_quiet : ℕ → Bool
is_quiet v = ltb v 256 && not (is_locked v)

-- Quiet, and in use as another version says.
follows : ℕ → ℕ → Bool
follows v w = is_quiet w && (if is_used v then is_used w else not (is_used w))

stays_quiet : ℕ → Bool
stays_quiet v =
    if is_locked v
    then true
    else follows v (bit_and v no_client_bit)
      && (follows v (bit_or v client_bit) && elim (lock v) [
        | some held ↦ (is_quiet (unlock held) && is_used (unlock held))
        | none ↦ false
      ])

all_quiet : all_below 256 stays_quiet ≡ true
unfolding all_below stays_quiet follows is_quiet is_locked is_used lock unlock
all_quiet = refl

lock_cases :
    (o : Option ℕ)
    → elim o as (λ _. Bool) [
      | some held ↦ (is_quiet (unlock held) && is_used (unlock held))
      | none ↦ false
    ]
      ≡ true
    → (held : ℕ) × (o ≡ some held) × IsQuiet (unlock held) × (is_used (unlock held) ≡ true)
unfolding is_quiet
lock_cases none h = absurd (ground (arith, h))
lock_cases (some held) h = (held, refl, (ground (arith, h), ground (arith, h)), ground (arith, h))

pub lock-IsQuiet :
    (v : ℕ)
    → IsQuiet v
    → (IsQuiet (bit_and v no_client_bit) × (is_used (bit_and v no_client_bit) ≡ is_used v))
      × (IsQuiet (bit_or v client_bit) × (is_used (bit_or v client_bit) ≡ is_used v))
      × ((held : ℕ) × (lock v ≡ some held) × IsQuiet (unlock held) × (is_used (unlock held) ≡ true))
unfolding stays_quiet follows is_quiet
lock-IsQuiet v (lt, free) =
    let each = at_each 256 stays_quiet v all_quiet lt in
    (
      ((ground (arith, each, free), ground (arith, each, free)), ground (arith, each, free)),
      ((ground (arith, each, free), ground (arith, each, free)), ground (arith, each, free)),
      lock_cases (lock v) (ground (arith, each, free)),
    )

module _ {A : Type 0} where
  pub set-All :
      (Q : ℕ → A → Type 0) (xs : List A) (i : ℕ) (v d : A)
      → Q i v
      → ((j : ℕ) → Q j (get_or xs j d))
      → (j : ℕ) → Q j (get_or (set xs i v) j d)
  set-All Q [] i v d h k j = k j
  set-All Q (x ∷ xs) zero v d h k zero = h
  set-All Q (x ∷ xs) zero v d h k (suc j) = k (suc j)
  set-All Q (x ∷ xs) (suc i) v d h k zero = k zero
  set-All Q (x ∷ xs) (suc i) v d h k (suc j) =
      set-All (λ n. Q (suc n)) xs i v d h (λ n. k (suc n)) j

  -- A place that holds something of a size is in range.
  pub set-sized :
      (size : A → ℕ) (xs : List A) (i : ℕ) (v d : A)
      → size d ≡ 0
      → 0 < size (get_or xs i d)
      → get_or (set xs i v) i d ≡ v
  set-sized size [] i v d h k = absurd (omega (arith, h, k))
  set-sized size (x ∷ xs) zero v d h k = refl
  set-sized size (x ∷ xs) (suc i) v d h k = set-sized size xs i v d h k

module _ {K V : Type 0} where
  abbrev pub slots : VPage K V → ℕ
  slots page = length page.free_slots

  pub modify_page-All :
      (Q : ℕ → ℕ → VPage K V → Type 0) (b p : ℕ) (f : VPage K V → VPage K V) (pool : Pool K V)
      → Q b p (f (page_at pool.blocks b p))
      → ((b' p' : ℕ) → Q b' p' (page_at pool.blocks b' p'))
      → (b' p' : ℕ) → Q b' p' (page_at (modify_page b p f pool).blocks b' p')
  unfolding modify_page
  modify_page-All Q b p f pool h k =
      set-All (λ b' row. (p' : ℕ) → Q b' p' (get_or row p' no_page)) pool.blocks b
        (set (get_or pool.blocks b []) p (f (page_at pool.blocks b p))) []
        (set-All (Q b) (get_or pool.blocks b []) p (f (page_at pool.blocks b p)) no_page h (k b)) k

  pub modify_page_self :
      (b p : ℕ) (f : VPage K V → VPage K V) (pool : Pool K V)
      → 0 < slots (page_at pool.blocks b p)
      → page_at (modify_page b p f pool).blocks b p ≡ f (page_at pool.blocks b p)
  unfolding modify_page
  modify_page_self b p f pool h =
      let row = get_or pool.blocks b [] in
      ap (λ (t : List (VPage K V)). get_or t p no_page)
        (set-sized (λ t. slots (get_or t p no_page)) pool.blocks b
          (set row p (f (page_at pool.blocks b p))) [] refl h)
      ∙ set-sized slots row p (f (page_at pool.blocks b p)) no_page refl h

  -- The record in a slot, where the page is in use and the slot is not free. A page that was never
  -- initialised, all zero, has no record.
  abbrev pub live : VPage K V → ℕ → Option (K × V)
  live page s =
      if is_free page s
      then none
      else if is_used page.version_lock
      then record_at page.records s
      else none

  pub live-free : (page : VPage K V) (s : ℕ) → is_free page s ≡ true → live page s ≡ none
  live-free page s h = rw h refl

  pub live-unused :
      (page : VPage K V) (s : ℕ) → is_used page.version_lock ≡ false → live page s ≡ none
  live-unused page s h = elim (Bool-cases (is_free page s)) [
    | inl free ↦ live-free page s free
    | inr taken ↦ rw (taken, h) refl
  ]

  -- What a live record says of its page and slot.
  pub live_used :
      (page : VPage K V) (s : ℕ) (r : K × V)
      → live page s ≡ some r
      → (is_used page.version_lock ≡ true)
        × (is_free page s ≡ false)
        × (record_at page.records s ≡ some r)
  live_used page s r h = elim (Bool-cases (is_free page s)) [
    | inl free ↦ absurd (ground (arith, sym h ∙ live-free page s free))
    | inr taken ↦ elim (Bool-cases (is_used page.version_lock)) [
      | inr unused ↦ absurd (ground (arith, sym h ∙ live-unused page s unused))
      | inl used ↦ (used, taken, sym (both used taken) ∙ h)
    ]
  ]
    where
      both :
          is_used page.version_lock ≡ true
          → is_free page s ≡ false
          → live page s ≡ record_at page.records s
      both used taken = rw (taken, used) refl

  pub record PageIsValid (page : VPage K V) : Type 0 where
    pub quiet : IsQuiet page.version_lock
    pub sized : length page.records ≡ slots page

  -- No record is there: the page was never in use, or all its slots are free.
  abbrev pub IsFresh : VPage K V → Type 0
  IsFresh page = (0 < slots page) × ((s : ℕ) → live page s ≡ none)

  -- As `init` leaves a page.
  abbrev pub IsOpened : VPage K V → Type 0
  IsOpened page =
      (is_used page.version_lock ≡ true) × (0 < slots page) × ((s : ℕ) → is_free page s ≡ true)

  -- A page after some steps, against the page before them.
  pub record IsKept (o page : VPage K V) : Type 0 where
    pub size : slots page ≡ slots o
    pub valid : PageIsValid page
    pub same : (s : ℕ) → live page s ≡ live o s
    pub used : is_used o.version_lock ≡ true → is_used page.version_lock ≡ true

  pub fresh-IsKept : (o page : VPage K V) → IsKept o page → IsFresh o → IsFresh page
  fresh-IsKept o page k (pos, none_live) = (omega (arith, pos, k.size), λ s. k.same s ∙ none_live s)

  -- Another version that says as much of the page's use.
  pub version-IsKept :
      (o page : VPage K V) (w : ℕ)
      → IsQuiet w
      → is_used w ≡ is_used page.version_lock
      → IsKept o page
      → IsKept o (record page { version_lock = w })
  version-IsKept o page w quiet e k = record {
    size = k.size;
    valid = record { quiet = quiet; sized = k.valid.sized };
    same = λ s. rw e (k.same s);
    used = λ u. e ∙ k.used u;
  }

  pub drop_client-IsKept : (o page : VPage K V) → IsKept o page → IsKept o (drop_client page)
  drop_client-IsKept o page k =
      let (quiet, e) = (lock-IsQuiet page.version_lock k.valid.quiet).0 in
      version-IsKept o page (bit_and page.version_lock no_client_bit) quiet e k

  pub take_client-IsKept : (o page : VPage K V) → IsKept o page → IsKept o (take_client page)
  take_client-IsKept o page k =
      let (quiet, e) = (lock-IsQuiet page.version_lock k.valid.quiet).1 in
      version-IsKept o page (bit_or page.version_lock client_bit) quiet e k

  pub init-IsKept : (o page : VPage K V) → IsFresh o → IsKept o page → IsKept o (init page)
  unfolding init is_locked is_used
  init-IsKept o page fresh k =
      let again = λ (s : ℕ). get_or-replicate (slots page) s true in
      record {
        size = length-replicate (slots page) true ∙ k.size;
        valid = record {
          quiet = (omega arith, refl);
          sized = k.valid.sized ∙ sym (length-replicate (slots page) true);
        };
        same = λ s. live-free (init page) s (again s) ∙ sym (fresh.1 s);
        used = λ _. refl;
      }

  pub init-IsOpened : (page : VPage K V) → 0 < slots page → IsOpened (init page)
  unfolding init is_used
  init-IsOpened page pos = (
    refl,
    omega (arith, pos, length-replicate (slots page) true),
    λ s. get_or-replicate (slots page) s true,
  )

  -- No record of the pool changes.
  abbrev pub PoolKept : List (List (VPage K V)) → List (List (VPage K V)) → Type 0
  PoolKept blocks blocks' = (b p : ℕ) → IsKept (page_at blocks b p) (page_at blocks' b p)
