-- ===== src/Viper/Client/Moves.antt =====
-- The client's step to its next page, in its block or in a new one.
use native.Mathlib.Nat.{mod-lt, mod-add-mod}
use hiom.Prelude.{
  get_or, bit_and, ℕ, ◌+◌, ◌%◌, ◌<◌, ◌≡◌, ◌==◌, leb, not, if◌then◌else◌, true, false, Option, some,
  none, [], length, max, arith, refl, sym, ap, ◌∙◌, subst, inl, inr, Bool-cases,
}
use hiom.Viper.{VPage, page_at, init, client_bit}
use hiom.Viper.Client.{
  Pool, ViperClient, modify_page, drop_client, take_client, claim_block, get_new_block,
  get_block_based_access, update_access_information, is_owned,
}
use hiom.Viper.Client.Kept.{
  IsFresh, IsOpened, PoolKept, modify_page_self, init-IsOpened, fresh-IsKept,
}
use hiom.Viper.Client.Walk.{
  ClientIsValid, PoolIsValid, IsAvailable, IsFreshBlock, Stays, PoolIsValid-kept, enter-Stays,
  init-Stays, kept_refl,
}

one_on : (p i : ℕ) → p + 1 + i ≡ p + (1 + i)
one_on p i = omega arith

module _ {K V : Type 0} where
  -- A claimed block and its first page, before the client enters it.
  pub record Claimed (pool : Pool K V) (b p : ℕ) (pool1 : Pool K V) : Type 0 where
    pub blocks : pool1.blocks ≡ pool.blocks
    pub num : pool1.num_pages_per_block ≡ pool.num_pages_per_block
    pub page : p < pool1.num_pages_per_block
    pub taken : b < pool1.current_block
    pub fresh : IsFreshBlock pool1 b
    pub valid : PoolIsValid pool1

  pub claim_block_lem :
      (free_block : Option ℕ) (random : ℕ) (pool : Pool K V)
      → PoolIsValid pool
      → IsAvailable free_block pool
      → (b p : ℕ) × (pool1 : Pool K V) × (claim_block free_block random pool ≡ some (b, p, pool1))
        × Claimed pool b p pool1
  unfolding claim_block get_new_block
  claim_block_lem (some b) random pool v (lt, free) = (
    b,
    0,
    pool,
    refl,
    record {
      blocks = refl;
      num = refl;
      page = omega (arith, v.start);
      taken = lt;
      fresh = free;
      valid = v;
    },
  )
  claim_block_lem none random pool v lt =
      let there : leb (length pool.blocks) (pool.current_block + 1) ≡ false = ground (arith, lt) in
      (
        pool.current_block,
        pool.current_page,
        record pool {
          current_block = pool.current_block + 1;
          current_page = random % pool.num_pages_per_block;
        },
        rw there refl,
        record {
          blocks = refl;
          num = refl;
          page = v.start;
          taken = omega arith;
          fresh = v.unclaimed pool.current_block (omega arith) (omega (arith, lt));
          valid = record {
            pages = v.pages;
            start = mod-lt random (omega (arith, v.start));
            unclaimed = λ b le. v.unclaimed b (omega (arith, le));
          };
        },
      )

  -- No record of the pool changes, and the client comes to a page that is in use and free.
  pub record MoveSpec (pool : Pool K V) (c' : ViperClient) (pool' : Pool K V) : Type 0 where
    pub kept : PoolKept pool.blocks pool'.blocks
    pub valid : PoolIsValid pool'
    pub client : ClientIsValid c' pool'
    pub opened : IsOpened (page_at pool'.blocks c'.v_block_number c'.v_page_number)
    pub disowned :
        c'.v_page_number ≡ 0 → is_owned (get_or pool'.blocks c'.v_block_number []) ≡ false

  -- The client is at a page without records, with others ahead.
  arrive :
      (pool : Pool K V) (c' : ViperClient) (before : Pool K V)
      → PoolIsValid pool
      → Stays pool before
      → IsFresh (page_at pool.blocks c'.v_block_number c'.v_page_number)
      → c'.v_page_number < pool.num_pages_per_block
      → c'.num_v_pages_processed < pool.num_pages_per_block
      → c'.v_block_number < pool.current_block
      → ((i : ℕ)
          → 0 < i
          → c'.num_v_pages_processed + i < pool.num_pages_per_block
          → IsFresh (
              page_at pool.blocks c'.v_block_number
                ((c'.v_page_number + i) % pool.num_pages_per_block)))
      → MoveSpec pool c' (modify_page c'.v_block_number c'.v_page_number init before)
  unfolding init is_owned
  arrive pool c' before v stays free page processed claimed ahead =
      let b = c'.v_block_number in
      let pool' = modify_page b c'.v_page_number init before in
      let (k, s) = init-Stays b c'.v_page_number pool before free stays in
      let size = (stays.0 b c'.v_page_number).size in
      let here = modify_page_self b c'.v_page_number init before (omega (arith, size, free.0)) in
      let opened : IsOpened (page_at pool'.blocks b c'.v_page_number) =
        subst IsOpened (sym here) (
          init-IsOpened (page_at before.blocks b c'.v_page_number) (omega (arith, size, free.0))) in
      record {
        kept = k;
        valid = PoolIsValid-kept pool pool' v k s;
        client = record {
          here = opened.1;
          opened = opened.0;
          page = omega (arith, page, s.num);
          processed = omega (arith, processed, s.num);
          claimed = omega (arith, claimed, s.block);
          ahead = λ i pos lt. rw s.num (
              fresh-IsKept
                (page_at pool.blocks b ((c'.v_page_number + i) % pool.num_pages_per_block))
                (page_at pool'.blocks b ((c'.v_page_number + i) % pool.num_pages_per_block))
                (k b ((c'.v_page_number + i) % pool.num_pages_per_block))
                (ahead i pos (omega (arith, lt, s.num))));
        };
        opened = opened;
        disowned = λ first.
            ap (λ (p : VPage K V). not (bit_and p.version_lock client_bit == 0))
              (subst (λ q. page_at pool'.blocks b q ≡ init (page_at before.blocks b q)) first here);
      }

  enter_block :
      (free_block : Option ℕ) (random : ℕ) (c : ViperClient) (pool : Pool K V) (b p : ℕ)
      (pool1 : Pool K V)
      → claim_block free_block random pool ≡ some (b, p, pool1)
      → Claimed pool b p pool1
      → (c1 : ViperClient) × (pool2 : Pool K V) × (get_block_based_access free_block random c pool
          ≡ some (c1, pool2))
        × MoveSpec pool c1 (modify_page c1.v_block_number c1.v_page_number init pool2)
  unfolding get_block_based_access
  enter_block free_block random c pool b p pool1 e cl =
      let c1 = record c {
        has_block = true;
        v_block_number = b;
        v_page_number = p;
        num_v_pages_processed = 0;
      } in
      let pool3 = modify_page b 0 take_client (
        modify_page b p init
          (if c.has_block then modify_page c.v_block_number 0 drop_client pool1 else pool1)) in
      let pool2 = record pool3 { num_used_blocks = max pool3.num_used_blocks (b + 1) } in
      let free = cl.fresh p cl.page in
      let (k, s) = enter-Stays b p c.has_block c.v_block_number pool1 cl.valid free in
      let stays : Stays pool1 pool2 =
        (k, record { blocks = s.blocks; num = s.num; block = s.block; page = s.page }) in
      let move =
        arrive pool1 c1 pool2 cl.valid stays free cl.page (omega (arith, cl.page)) cl.taken
          (λ i pos lt.
            cl.fresh ((p + i) % pool1.num_pages_per_block)
              (mod-lt (p + i) (omega (arith, cl.page)))) in
      (
        c1,
        pool2,
        rw (get_block_based_access, e) refl,
        record {
          kept = subst (λ t. PoolKept t (modify_page b p init pool2).blocks) cl.blocks move.kept;
          valid = move.valid;
          client = move.client;
          opened = move.opened;
          disowned = move.disowned;
        },
      )

  -- In a valid pool, and where a block is there for a valid client, the client comes to its next
  -- page, in its block or in a new one. No record of the pool changes, the page it comes to is in
  -- use with every slot free, and the pool and the client are valid again. Where that page is the
  -- first of its block, the block no longer counts as one that a client works in.
  pub update_access_information-MoveSpec :
      (free_block : Option ℕ) (random : ℕ) (c : ViperClient) (pool : Pool K V)
      → PoolIsValid pool
      → ClientIsValid c pool
      → IsAvailable free_block pool
      → (c' : ViperClient) × (pool' : Pool K V) × (update_access_information free_block random c
            pool
          ≡ some (c', pool'))
        × MoveSpec pool c' pool'
  unfolding update_access_information
  update_access_information-MoveSpec free_block random c pool v cv available =
      elim (Bool-cases (c.num_v_pages_processed + 1 == pool.num_pages_per_block)) [
        | inl done ↦
            let (b, p, pool1, e, cl) = claim_block_lem free_block random pool v available in
            let (c1, pool2, entered, move) =
              enter_block free_block random
                (record c { num_v_pages_processed = c.num_v_pages_processed + 1 }) pool b p pool1 e
                cl in
            (
              c1,
              modify_page c1.v_block_number c1.v_page_number init pool2,
              rw (update_access_information, done, entered) refl,
              move,
            )
        | inr more ↦
            let lt : c.num_v_pages_processed + 1 < pool.num_pages_per_block =
              ground (arith, more, cv.processed) in
            let next = (c.v_page_number + 1) % pool.num_pages_per_block in
            let c' = record c {
              num_v_pages_processed = c.num_v_pages_processed + 1;
              v_page_number = next;
            } in
            let free = cv.ahead 1 (omega arith) lt in
            let further = λ (i : ℕ).
              mod-add-mod (c.v_page_number + 1) pool.num_pages_per_block i
              ∙ ap (λ t. t % pool.num_pages_per_block) (one_on c.v_page_number i) in
            (
              c',
              modify_page c.v_block_number next init pool,
              rw (update_access_information, more) refl,
              arrive pool c' pool v
                  (
                    kept_refl pool v,
                    record { blocks = refl; num = refl; block = refl; page = refl },
                  )
                  free (mod-lt (c.v_page_number + 1) (omega (arith, v.start))) lt cv.claimed
                  (λ i pos le.
                    subst (λ q. IsFresh (page_at pool.blocks c.v_block_number q)) (sym (further i))
                      (cv.ahead (1 + i) (omega arith) (omega (arith, le)))),
            )
      ]
