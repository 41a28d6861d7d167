-- ===== src/Viper/Client/Walk.antt =====
-- The client's walk from page to page and to its next block.

use hiom.Prelude.{
  ℕ, ◌+◌, ◌%◌, ◌<◌, ◌≤◌, ◌≡◌, if◌then◌else◌, Bool, true, false, Option, some, none, List, [],
  get_or, set, length, arith, refl, ◌∙◌, length-set,
}
use hiom.Viper.{VPage, page_at, init, is_used}
use hiom.Viper.Client.{Pool, ViperClient, modify_page, drop_client, take_client}
use hiom.Viper.Client.Kept.{
  IsFresh, IsKept, PoolKept, PageIsValid, modify_page-All, drop_client-IsKept, take_client-IsKept,
  init-IsKept, slots, fresh-IsKept,
}

module _ {K V : Type 0} where
  -- The client's page is in use. The pages of its block that it has yet to come to have no record; as
  -- the source has them, they were never initialised.
  pub record ClientIsValid (c : ViperClient) (pool : Pool K V) : Type 0 where
    pub here : 0 < slots (page_at pool.blocks c.v_block_number c.v_page_number)
    pub opened : is_used (page_at pool.blocks c.v_block_number c.v_page_number).version_lock ≡ true
    pub page : c.v_page_number < pool.num_pages_per_block
    pub processed : c.num_v_pages_processed < pool.num_pages_per_block
    pub claimed : c.v_block_number < pool.current_block
    pub ahead :
        (i : ℕ)
        → 0 < i
        → c.num_v_pages_processed + i < pool.num_pages_per_block
        → IsFresh (
            page_at pool.blocks c.v_block_number ((c.v_page_number + i) % pool.num_pages_per_block))

  -- A block without records: it was never in use, or its slots are all free.
  abbrev pub IsFreshBlock : Pool K V → ℕ → Type 0
  IsFreshBlock pool b = (p : ℕ) → p < pool.num_pages_per_block → IsFresh (page_at pool.blocks b p)

  -- No page is locked, and no block that is yet to be claimed has a record, as in a pool that is all zero.
  pub record PoolIsValid (pool : Pool K V) : Type 0 where
    pub pages : (b p : ℕ) → PageIsValid (page_at pool.blocks b p)
    pub start : pool.current_page < pool.num_pages_per_block
    pub unclaimed : (b : ℕ) → pool.current_block ≤ b → b < length pool.blocks → IsFreshBlock pool b

  -- A block is there for the client: a freed one, or one that nobody has claimed, with
  -- another behind it.
  abbrev pub IsAvailable : Option ℕ → Pool K V → Type 0
  IsAvailable (some b) pool = (b < pool.current_block) × IsFreshBlock pool b
  IsAvailable none pool = pool.current_block + 1 < length pool.blocks

  pub kept_refl : (pool : Pool K V) → PoolIsValid pool → PoolKept pool.blocks pool.blocks
  kept_refl pool v b p = record {
    size = refl;
    valid = v.pages b p;
    same = λ s. refl;
    used = λ u. u;
  }

  modify_page-PoolKept :
      (b p : ℕ) (f : VPage K V → VPage K V) (blocks : List (List (VPage K V))) (pool : Pool K V)
      → (IsKept (page_at blocks b p) (page_at pool.blocks b p)
          → IsKept (page_at blocks b p) (f (page_at pool.blocks b p)))
      → PoolKept blocks pool.blocks
      → PoolKept blocks (modify_page b p f pool).blocks
  modify_page-PoolKept b p f blocks pool h k =
      modify_page-All (λ b' p' pg. IsKept (page_at blocks b' p') pg) b p f pool (h (k b p)) k

  -- What a step over the pages leaves of the pool's other fields.
  pub record IsShaped (pool pool' : Pool K V) : Type 0 where
    pub blocks : length pool'.blocks ≡ length pool.blocks
    pub num : pool'.num_pages_per_block ≡ pool.num_pages_per_block
    pub block : pool'.current_block ≡ pool.current_block
    pub page : pool'.current_page ≡ pool.current_page

  pub modify_page-IsShaped :
      (b p : ℕ) (f : VPage K V → VPage K V) (o pool : Pool K V)
      → IsShaped o pool
      → IsShaped o (modify_page b p f pool)
  unfolding modify_page
  modify_page-IsShaped b p f o pool s = record {
    blocks =
        length-set pool.blocks b (set (get_or pool.blocks b []) p (f (page_at pool.blocks b p)))
        ∙ s.blocks;
    num = s.num;
    block = s.block;
    page = s.page;
  }

  pub PoolIsValid-kept :
      (o pool : Pool K V)
      → PoolIsValid o
      → PoolKept o.blocks pool.blocks
      → IsShaped o pool
      → PoolIsValid pool
  PoolIsValid-kept o pool v k s = record {
    pages = λ b p. (k b p).valid;
    start = omega (arith, v.start, s.page, s.num);
    unclaimed = λ b le lt p lp.
        fresh-IsKept (page_at o.blocks b p) (page_at pool.blocks b p) (k b p) (
          v.unclaimed b (omega (arith, le, s.block)) (omega (arith, lt, s.blocks)) p
            (omega (arith, lp, s.num)));
  }

  -- The pages of a pool after some steps, and its other fields.
  abbrev pub Stays : Pool K V → Pool K V → Type 0
  Stays o pool = PoolKept o.blocks pool.blocks × IsShaped o pool

  pub modify_page-Stays :
      (b p : ℕ) (f : VPage K V → VPage K V) (o pool : Pool K V)
      → (IsKept (page_at o.blocks b p) (page_at pool.blocks b p)
          → IsKept (page_at o.blocks b p) (f (page_at pool.blocks b p)))
      → Stays o pool
      → Stays o (modify_page b p f pool)
  modify_page-Stays b p f o pool h (k, s) =
      (modify_page-PoolKept b p f o.blocks pool h k, modify_page-IsShaped b p f o pool s)

  drop-Stays :
      (has : Bool) (old : ℕ) (o pool : Pool K V)
      → Stays o pool
      → Stays o (if has then modify_page old 0 drop_client pool else pool)
  drop-Stays false old o pool k = k
  drop-Stays true old o pool k =
      modify_page-Stays old 0 drop_client o pool
        (drop_client-IsKept (page_at o.blocks old 0) (page_at pool.blocks old 0)) k

  pub init-Stays :
      (b p : ℕ) (o pool : Pool K V)
      → IsFresh (page_at o.blocks b p)
      → Stays o pool
      → Stays o (modify_page b p init pool)
  init-Stays b p o pool free k =
      modify_page-Stays b p init o pool
        (init-IsKept (page_at o.blocks b p) (page_at pool.blocks b p) free) k

  pub enter-Stays :
      (b p : ℕ) (has : Bool) (old : ℕ) (o : Pool K V)
      → PoolIsValid o
      → IsFresh (page_at o.blocks b p)
      → Stays o (
          modify_page b 0 take_client
            (modify_page b p init (if has then modify_page old 0 drop_client o else o)))
  enter-Stays b p has old o v free =
      let dropped = if has then modify_page old 0 drop_client o else o in
      let start : Stays o o =
        (kept_refl o v, record { blocks = refl; num = refl; block = refl; page = refl }) in
      modify_page-Stays b 0 take_client o (modify_page b p init dropped)
        (take_client-IsKept (page_at o.blocks b 0)
          (page_at (modify_page b p init dropped).blocks b 0))
        (init-Stays b p o dropped free (drop-Stays has old o o start))
