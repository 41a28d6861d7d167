-- ===== src/Viper/Client/Writes.antt =====
-- A record that the client writes to its page.
use native.Mathlib.Nat.{mod-eq_of_lt, mod-eq-sub-mod}
use hiom.Prelude.{
  ℕ, ◌+◌, ◌%◌, ◌<◌, ◌≤◌, ◌≡◌, ◌≢◌, leb, ltb, true, false, some, none, arith, refl, sym, ◌∙◌, inl,
  inr, Bool-cases, length-set, ◌⊎◌,
}
use hiom.Viper.{
  VPage, PagePut, written, full, busy, page_at, put_on_page, find_first, is_free, record_at,
  is_used,
}
use hiom.Viper.Pages.{PutSpec, Same, put_on_page-PutSpec}
use hiom.Viper.Client.{Pool, ViperClient}
use hiom.Viper.Client.Kept.{IsOpened, IsKept, lock-IsQuiet, PageIsValid, slots, live, live-free}
use hiom.Viper.Client.Walk.{PoolIsValid}

-- The pages that the client has yet to come to are not the one it is on.
pub ahead_ne : (p i num : ℕ) → p < num → 0 < i → i < num → (p + i) % num ≢ p
ahead_ne p i num lt pos le e = elim (Bool-cases (ltb (p + i) num)) [
  | inl short ↦ omega (arith, sym (mod-eq_of_lt (ground (arith, short))) ∙ e, pos)
  | inr long ↦
      let reach : num ≤ p + i = ground (arith, long) in
      omega (
        arith,
        sym (mod-eq_of_lt (omega (arith, lt, le))) ∙ sym (mod-eq-sub-mod reach) ∙ e,
        le,
        reach,
      )
]

module _ {K V : Type 0} where
  -- Neither the size of the page nor its being valid and open changes.
  abbrev Sound : VPage K V → PagePut K V → Type 0
  Sound o (written slot page) =
      PageIsValid page × (slots page ≡ slots o) × (is_used page.version_lock ≡ true)
  Sound o (full page) =
      PageIsValid page × (slots page ≡ slots o) × (is_used page.version_lock ≡ true)
  Sound o busy = true ≡ false

  put_on_page-Sound :
      (key : K) (value : V) (o : VPage K V) → PageIsValid o → Sound o (put_on_page key value o)
  unfolding put_on_page
  put_on_page-Sound key value o v =
      let (held, e, quiet, used) = (lock-IsQuiet o.version_lock v.quiet).2 in
      let slot = find_first o.free_slots in
      elim (Bool-cases (leb (slots o) slot)) as (λ _. Sound o (put_on_page key value o)) [
        | inl none_free ↦
            rw (put_on_page, e, none_free) (record { quiet = quiet; sized = v.sized }, refl, used)
        | inr some_free ↦
            let size = length-set o.free_slots slot false in
            rw (put_on_page, e, some_free)
              (
                record {
                  quiet = quiet;
                  sized = length-set o.records slot (key, value) ∙ v.sized ∙ sym size;
                },
                size,
                used,
              )
      ]

  live-Same :
      (o page : VPage K V) (s : ℕ)
      → is_used o.version_lock ≡ true
      → is_used page.version_lock ≡ true
      → Same o page s
      → live page s ≡ live o s
  live-Same o page s before after (free, same) = rw (free, same, before, after) refl

  pub live-written :
      (page : VPage K V) (s : ℕ) (r : K × V)
      → is_used page.version_lock ≡ true
      → is_free page s ≡ false
      → record_at page.records s ≡ some r
      → live page s ≡ some r
  live-written page s r used free same = rw (free, used, same) refl

  -- The client finds no room on its page.
  pub record IsFull (c : ViperClient) (pool : Pool K V) (page : VPage K V) : Type 0 where
    pub kept : IsKept (page_at pool.blocks c.v_block_number c.v_page_number) page
    pub taken : IsOpened (page_at pool.blocks c.v_block_number c.v_page_number) → true ≡ false

  -- A record is written to a slot of the client's page.
  pub record IsWritten (r : K × V) (c : ViperClient) (pool : Pool K V) (slot : ℕ) (page : VPage K V)
      : Type 0 where
    pub size : slots page ≡ slots (page_at pool.blocks c.v_block_number c.v_page_number)
    pub valid : PageIsValid page
    pub used : is_used page.version_lock ≡ true
    pub unused : live (page_at pool.blocks c.v_block_number c.v_page_number) slot ≡ none
    pub stored : live page slot ≡ some r
    pub same :
        (s : ℕ)
        → s ≢ slot
        → live page s ≡ live (page_at pool.blocks c.v_block_number c.v_page_number) s

  pub put_on_page_cases :
      (key : K) (value : V) (c : ViperClient) (pool : Pool K V)
      → PoolIsValid pool
      → is_used (page_at pool.blocks c.v_block_number c.v_page_number).version_lock ≡ true
      → ((slot : ℕ) × (page : VPage K V) × (put_on_page key value
              (page_at pool.blocks c.v_block_number c.v_page_number)
            ≡ written slot page)
          × IsWritten (key, value) c pool slot page)
        ⊎ ((page : VPage K V) × (put_on_page key value
                (page_at pool.blocks c.v_block_number c.v_page_number)
              ≡ full page)
            × IsFull c pool page)
  put_on_page_cases key value c pool v opened =
      let o = page_at pool.blocks c.v_block_number c.v_page_number in
      let valid = v.pages c.v_block_number c.v_page_number in
      go (put_on_page key value o) refl opened (put_on_page-PutSpec key value o valid.sized)
        (put_on_page-Sound key value o valid)
    where
      go :
          (r : PagePut K V)
          → put_on_page key value (page_at pool.blocks c.v_block_number c.v_page_number) ≡ r
          → is_used (page_at pool.blocks c.v_block_number c.v_page_number).version_lock ≡ true
          → PutSpec key value (page_at pool.blocks c.v_block_number c.v_page_number) r
          → Sound (page_at pool.blocks c.v_block_number c.v_page_number) r
          → ((slot : ℕ) × (page : VPage K V) × (put_on_page key value
                  (page_at pool.blocks c.v_block_number c.v_page_number)
                ≡ written slot page)
              × IsWritten (key, value) c pool slot page)
            ⊎ ((page : VPage K V) × (put_on_page key value
                    (page_at pool.blocks c.v_block_number c.v_page_number)
                  ≡ full page)
                × IsFull c pool page)
      go (written slot page) e opened (lt, free, taken, there, same) (valid, size, used) = inl (
        slot,
        page,
        e,
        record {
          size = size;
          valid = valid;
          used = used;
          unused = live-free (page_at pool.blocks c.v_block_number c.v_page_number) slot free;
          stored = live-written page slot (key, value) used taken there;
          same = λ s ne.
              live-Same (page_at pool.blocks c.v_block_number c.v_page_number) page s opened used
                (same s ne);
        },
      )
      go (full page) e opened (taken, same) (valid, size, used) = inr (
        page,
        e,
        record {
          kept = record {
            size = size;
            valid = valid;
            same = λ s.
                live-Same (page_at pool.blocks c.v_block_number c.v_page_number) page s opened used
                  (same s);
            used = λ _. used;
          };
          taken = λ (_, pos, free). absurd (ground (arith, free 0, taken 0 pos));
        },
      )
      go busy e opened waits none_free = absurd (ground (arith, none_free))
