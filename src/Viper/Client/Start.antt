-- ===== src/Viper/Client/Start.antt =====
-- A brand-new pool, and the first block of a new client.
use native.Mathlib.Nat.{mod-lt}
use hiom.Prelude.{
  ℕ, zero, suc, ◌+◌, ◌%◌, ◌<◌, ◌≡◌, true, false, Option, some, none, [], get_or, replicate,
  length-replicate, max, arith, refl, sym, ap, ◌∙◌, subst,
}
use hiom.Viper.{page_at, no_page, init, is_used, is_locked}
use hiom.Viper.Client.{
  Pool, ViperClient, modify_page, take_client, claim_block, get_block_based_access, zero_page,
  new_pool, new_client, get_client,
}
use hiom.Viper.Client.Kept.{
  init-IsOpened, lock-IsQuiet, modify_page-All, IsFresh, IsOpened, PoolKept, PageIsValid,
  live-unused, fresh-IsKept, modify_page_self,
}
use hiom.Viper.Client.Walk.{
  kept_refl, init-Stays, ClientIsValid, PoolIsValid, IsAvailable, Stays, PoolIsValid-kept,
  enter-Stays,
}
use hiom.Viper.Client.Moves.{Claimed, claim_block_lem}

module _ {A : Type 0} where
  get_or-replicate_lt : (n i : ℕ) (a d : A) → i < n → get_or (replicate n a) i d ≡ a
  get_or-replicate_lt zero i a d lt = absurd (omega (arith, lt))
  get_or-replicate_lt (suc n) zero a d lt = refl
  get_or-replicate_lt (suc n) (suc i) a d lt = get_or-replicate_lt n i a d (omega (arith, lt))

  -- A property of the element and of the default holds at any index.
  get_or-replicate_all :
      (P : A → Type 0) (n i : ℕ) (a d : A) → P a → P d → P (get_or (replicate n a) i d)
  get_or-replicate_all P zero i a d h k = k
  get_or-replicate_all P (suc n) zero a d h k = h
  get_or-replicate_all P (suc n) (suc i) a d h k = get_or-replicate_all P n i a d h k

module _ {K V : Type 0} where
  zero_page-IsValid : (n : ℕ) (zeros : K × V) → PageIsValid (zero_page n zeros)
  unfolding is_locked
  zero_page-IsValid n zeros = record {
    quiet = (omega arith, refl);
    sized = length-replicate n zeros ∙ sym (length-replicate n false);
  }

  no_page-IsValid : PageIsValid (no_page {K = K} {V = V})
  unfolding is_locked
  no_page-IsValid = record { quiet = (omega arith, refl); sized = refl }

  zero_page-IsFresh : (n : ℕ) (zeros : K × V) → 0 < n → IsFresh (zero_page n zeros)
  unfolding is_used
  zero_page-IsFresh n zeros pos =
      (omega (arith, pos, length-replicate n false), λ s. live-unused (zero_page n zeros) s refl)

  pub new_pool-PoolIsValid :
      (num_blocks num_pages num_slots : ℕ) (zeros : K × V)
      → 0 < num_pages
      → 0 < num_slots
      → PoolIsValid (new_pool num_blocks num_pages num_slots zeros)
  unfolding new_pool
  new_pool-PoolIsValid num_blocks num_pages num_slots zeros some_page some_slot =
      let row = replicate num_pages (zero_page num_slots zeros) in
      record {
        pages = λ b p.
            get_or-replicate_all (λ r. PageIsValid (get_or r p no_page)) num_blocks b row []
              (get_or-replicate_all PageIsValid num_pages p (zero_page num_slots zeros) no_page
                (zero_page-IsValid num_slots zeros) no_page-IsValid)
              no_page-IsValid;
        start = some_page;
        unclaimed = λ b _ lt p lp.
            let in_range : b < num_blocks = omega (arith, lt, length-replicate num_blocks row) in
            let here : page_at (replicate num_blocks row) b p ≡ zero_page num_slots zeros =
              ap (λ r. get_or r p no_page) (get_or-replicate_lt num_blocks b row [] in_range)
              ∙ get_or-replicate_lt num_pages p (zero_page num_slots zeros) no_page lp in
            subst IsFresh (sym here) (zero_page-IsFresh num_slots zeros some_slot);
      }

  -- What a request for a client returned: no record of the pool changed, and the pool and the client are
  -- valid.
  abbrev pub Begins : Pool K V → Option (ViperClient × Pool K V) → Type 0
  Begins pool none = true ≡ false
  Begins pool (some (c', pool')) =
      PoolKept pool.blocks pool'.blocks × PoolIsValid pool' × ClientIsValid c' pool'

  entered :
      (free_block : Option ℕ) (random : ℕ) (pool : Pool K V) (b p : ℕ) (pool1 : Pool K V)
      → claim_block free_block random pool ≡ some (b, p, pool1)
      → Claimed pool b p pool1
      → Begins pool (get_client free_block random pool)
  unfolding get_client get_block_based_access
  entered free_block random pool b p pool1 e cl =
      let opened_pool = modify_page b p init pool1 in
      let pool3 = modify_page b 0 take_client opened_pool in
      let free = cl.fresh p cl.page in
      let (k, s) = enter-Stays b p false 0 pool1 cl.valid free in
      let start : Stays pool1 pool1 = (
        kept_refl pool1 cl.valid,
        record { blocks = refl; num = refl; block = refl; page = refl },
      ) in
      let (ki, si) = init-Stays b p pool1 pool1 free start in
      let opened =
        subst IsOpened (sym (modify_page_self b p init pool1 free.0))
          (init-IsOpened (page_at pool1.blocks b p) free.0) in
      let first = page_at opened_pool.blocks b 0 in
      let still = (lock-IsQuiet first.version_lock (ki b 0).valid.quiet).1 in
      let pool2 = record pool3 { num_used_blocks = max pool3.num_used_blocks (b + 1) } in
      let run : some (
        record new_client {
          has_block = true;
          v_block_number = b;
          v_page_number = p;
          num_v_pages_processed = 0;
        },
        pool2,
      )
          ≡ get_client free_block random pool =
        rw (get_client, get_block_based_access, e) refl in
      subst (Begins pool) run (
        subst (λ t. PoolKept t pool3.blocks) cl.blocks k,
        PoolIsValid-kept pool1 pool2 cl.valid k
            (record { blocks = s.blocks; num = s.num; block = s.block; page = s.page }),
        record {
          here = omega (arith, (k b p).size, free.0);
          opened =
              modify_page-All
                (λ b' p' pg.
                  is_used (page_at opened_pool.blocks b' p').version_lock ≡ true
                  → is_used pg.version_lock ≡ true)
                b 0 take_client opened_pool (λ u. still.1 ∙ u) (λ b' p' u. u) b p opened.0;
          page = omega (arith, cl.page, s.num);
          processed = omega (arith, cl.page, s.num);
          claimed = omega (arith, cl.taken, s.block);
          ahead = λ i pos lt. rw s.num (
              fresh-IsKept (page_at pool1.blocks b ((p + i) % pool1.num_pages_per_block))
                (page_at pool3.blocks b ((p + i) % pool1.num_pages_per_block))
                (k b ((p + i) % pool1.num_pages_per_block))
                (cl.fresh ((p + i) % pool1.num_pages_per_block)
                  (mod-lt (p + i) (omega (arith, cl.page)))));
        },
      )

  pub get_client-Begins :
      (free_block : Option ℕ) (random : ℕ) (pool : Pool K V)
      → PoolIsValid pool
      → IsAvailable free_block pool
      → Begins pool (get_client free_block random pool)
  get_client-Begins free_block random pool v available =
      let (b, p, pool1, e, cl) = claim_block_lem free_block random pool v available in
      entered free_block random pool b p pool1 e cl
