-- ===== src/Viper/Client/Frees.antt =====
-- Freeing the slot of a record.
use native.Mathlib.Decide.{ℕ_discrete}
use hiom.Prelude.{
  ℕ, zero, suc, ◌+◌, ◌%◌, ◌<◌, ◌≡◌, ◌≢◌, ◌==◌, ◌&&◌, Bool, true, List, [], ◌∷◌, some, none, length,
  length-set, get_or, set, false, get_or-set_ne, arith, refl, sym, ap, ◌∙◌, Bool-cases, inl, inr,
}
use hiom.Codec.{get_offsets}
use hiom.Viper.{VPage, page_at, invalidate_record, is_free, unlock, is_used}
use hiom.Viper.Client.{Pool, ViperClient, modify_page, free_occupied_slot}
use hiom.Viper.Client.Kept.{
  IsFresh, IsQuiet, PageIsValid, slots, live, live-free, live_used, lock-IsQuiet, modify_page-All,
  modify_page_self,
}
use hiom.Viper.Client.Walk.{ClientIsValid, PoolIsValid, IsShaped, modify_page-IsShaped}
use hiom.Viper.Client.Rewrites.{IsRewritten, modify_page-PoolIsValid}
use hiom.Viper.Client.Stored.{Apart, live_at}

set-true_self : (bs : List Bool) (i : ℕ) → get_or (set bs i true) i true ≡ true
set-true_self [] i = refl
set-true_self (b ∷ bs) zero = refl
set-true_self (b ∷ bs) (suc i) = set-true_self bs i

pub used-sized : (bs : List Bool) (s : ℕ) → get_or bs s true ≡ false → 0 < length bs
used-sized [] s h = absurd (ground (arith, h))
used-sized (b ∷ bs) s h = omega arith

module _ {K V : Type 0} where
  live-sized : (page : VPage K V) (s : ℕ) → is_free page s ≡ false → 0 < slots page
  live-sized page s h = used-sized page.free_slots s h

  -- A page against the page before a slot of it was freed.
  record IsFreed (o : VPage K V) (slot : ℕ) (page : VPage K V) : Type 0 where
    size : slots page ≡ slots o
    valid : PageIsValid page
    used : is_used page.version_lock ≡ true
    gone : is_free page slot ≡ true
    same : (s : ℕ) → s ≢ slot → live page s ≡ live o s
    fresh : IsFresh o → IsFresh page

  -- The page with a slot freed and another version.
  abbrev freed : ℕ → ℕ → VPage K V → VPage K V
  freed version slot page = record (invalidate_record page slot) { version_lock = version }

  invalidate_record-IsFreed :
      (o : VPage K V) (slot version : ℕ)
      → PageIsValid o
      → IsQuiet version
      → is_used version ≡ true
      → is_used o.version_lock ≡ true
      → IsFreed o slot (freed version slot o)
  unfolding invalidate_record
  invalidate_record-IsFreed o slot version v quiet used before =
      let size = length-set o.free_slots slot true in
      let gone = set-true_self o.free_slots slot in
      let same : (s : ℕ) → s ≢ slot → live (freed version slot o) s ≡ live o s = λ s ne.
        rw (get_or-set_ne o.free_slots slot s true true (λ e. ne (sym e)), used, before) refl in
      record {
        size = size;
        valid = record { quiet = quiet; sized = v.sized ∙ sym size };
        used = used;
        gone = gone;
        same = same;
        fresh = λ (pos, none_live). (
          omega (arith, pos, size),
          λ s. elim (ℕ_discrete s slot) [
            | yes e ↦ rw e (live-free (freed version slot o) slot gone)
            | no ne ↦ same s ne ∙ none_live s
          ],
        );
      }

  pub record FreeSpec (at : ℕ × ℕ × ℕ) (c : ViperClient) (pool : Pool K V) (pool' : Pool K V)
      : Type 0 where
    pub valid : PoolIsValid pool'
    pub client : ClientIsValid c pool'
    pub gone : live_at pool' at ≡ none
    pub same : (q : ℕ × ℕ × ℕ) → Apart q at → live_at pool' q ≡ live_at pool q

  -- One page of the pool loses a slot.
  modify_page-FreeSpec :
      (b p s : ℕ) (f : VPage K V → VPage K V) (c : ViperClient) (pool : Pool K V)
      → PoolIsValid pool
      → ClientIsValid c pool
      → 0 < slots (page_at pool.blocks b p)
      → IsFreed (page_at pool.blocks b p) s (f (page_at pool.blocks b p))
      → FreeSpec (b, p, s) c pool (modify_page b p f pool)
  modify_page-FreeSpec b p s f c pool v cv pos freed_one =
      let w : IsRewritten (page_at pool.blocks b p) s (f (page_at pool.blocks b p)) = record {
        valid = freed_one.valid;
        same = freed_one.same;
        fresh = freed_one.fresh;
      } in
      let (valid, same) = modify_page-PoolIsValid b p s f pool v w in
      let start : IsShaped pool pool = record {
        blocks = refl;
        num = refl;
        block = refl;
        page = refl;
      } in
      let shaped = modify_page-IsShaped b p f pool pool start in
      let fresh : (b' p' : ℕ)
          → IsFresh (page_at pool.blocks b' p')
          → IsFresh (page_at (modify_page b p f pool).blocks b' p') =
        modify_page-All (λ b' p' pg. IsFresh (page_at pool.blocks b' p') → IsFresh pg) b p f pool
          freed_one.fresh (λ b' p' free. free) in
      let size : (b' p' : ℕ)
          → slots (page_at (modify_page b p f pool).blocks b' p')
            ≡ slots (page_at pool.blocks b' p') =
        modify_page-All (λ b' p' pg. slots pg ≡ slots (page_at pool.blocks b' p')) b p f pool
          freed_one.size (λ b' p'. refl) in
      record {
        valid = valid;
        client = record {
          here = omega (arith, size c.v_block_number c.v_page_number, cv.here);
          opened =
              modify_page-All
                (λ b' p' pg.
                  is_used (page_at pool.blocks b' p').version_lock ≡ true
                  → is_used pg.version_lock ≡ true)
                b p f pool (λ _. freed_one.used) (λ b' p' u. u) c.v_block_number c.v_page_number
                cv.opened;
          page = omega (arith, cv.page, shaped.num);
          processed = omega (arith, cv.processed, shaped.num);
          claimed = omega (arith, cv.claimed, shaped.block);
          ahead = λ i later lt. rw shaped.num (
              fresh c.v_block_number ((c.v_page_number + i) % pool.num_pages_per_block)
                (cv.ahead i later (omega (arith, lt, shaped.num))));
        };
        gone =
            ap (λ t. live t s) (modify_page_self b p f pool pos)
            ∙ live-free (f (page_at pool.blocks b p)) s freed_one.gone;
        same = same;
      }

  pub free_occupied_slot-FreeSpec :
      (off : ℕ) (r : K × V) (c : ViperClient) (pool : Pool K V)
      → PoolIsValid pool
      → ClientIsValid c pool
      → live_at pool (get_offsets off) ≡ some r
      → (pool' : Pool K V) × (free_occupied_slot off c pool ≡ some pool')
        × FreeSpec (get_offsets off) c pool pool'
  unfolding free_occupied_slot invalidate_record
  free_occupied_slot-FreeSpec off r c pool v cv there =
      let (b, p, s) = get_offsets off in
      let o = page_at pool.blocks b p in
      let (before, taken, _) = live_used o s r there in
      let pos = live-sized o s taken in
      let valid = v.pages b p in
      let (held, e, quiet, used) = (lock-IsQuiet o.version_lock valid.quiet).2 in
      elim (Bool-cases (c.v_block_number == b && c.v_page_number == p)) [
        | inl own ↦
            let f = λ (vp : VPage K V). invalidate_record vp s in
            (
              modify_page b p f pool,
              rw (free_occupied_slot, own) refl,
              modify_page-FreeSpec b p s f c pool v cv pos
                  (invalidate_record-IsFreed o s o.version_lock valid valid.quiet before before),
            )
        | inr other ↦ (
          modify_page b p (freed (unlock held) s) pool,
          rw (free_occupied_slot, other, e) refl,
          modify_page-FreeSpec b p s (freed (unlock held) s) c pool v cv pos
              (invalidate_record-IsFreed o s (unlock held) valid quiet used before),
        )
      ]
