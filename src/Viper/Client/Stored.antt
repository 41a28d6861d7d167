-- ===== src/Viper/Client/Stored.antt =====
-- The pool after the client has written a record to its page.
use hiom.Prelude.{ℕ, ◌+◌, ◌%◌, ◌≡◌, ◌≢◌, Option, some, none, arith, refl, ap, ◌∙◌}
use hiom.Viper.{is_used, VPage, page_at}
use hiom.Viper.Client.{Pool, ViperClient, modify_page}
use hiom.Viper.Client.Kept.{IsFresh, PageIsValid, slots, live, modify_page-All, modify_page_self}
use hiom.Viper.Client.Walk.{ClientIsValid, PoolIsValid, IsShaped, modify_page-IsShaped}
use hiom.Viper.Client.Writes.{IsWritten, ahead_ne}

abbrev pub Apart : ℕ × ℕ × ℕ → ℕ × ℕ × ℕ → Type 0
Apart a b = a ≢ b

abbrev OtherPage : ℕ × ℕ → ℕ × ℕ → Type 0
OtherPage a b = a ≢ b

module _ {K V : Type 0} where
  -- The record in a slot of a page of the pool.
  abbrev pub live_at : Pool K V → ℕ × ℕ × ℕ → Option (K × V)
  live_at pool (b, p, s) = live (page_at pool.blocks b p) s

  pub record IsStored (r : K × V) (c : ViperClient) (pool : Pool K V) (slot : ℕ) (c1 : ViperClient)
      (pool1 : Pool K V) : Type 0 where
    pub valid : PoolIsValid pool1
    pub client : ClientIsValid c1 pool1
    pub unused : live_at pool (c.v_block_number, c.v_page_number, slot) ≡ none
    pub stored : live_at pool1 (c.v_block_number, c.v_page_number, slot) ≡ some r
    pub same :
        (at : ℕ × ℕ × ℕ)
        → Apart at (c.v_block_number, c.v_page_number, slot)
        → live_at pool1 at ≡ live_at pool at

  module _ (r : K × V) (c : ViperClient) (pool : Pool K V) (slot : ℕ) (page : VPage K V)
      (v : PoolIsValid pool) (cv : ClientIsValid c pool) (w : IsWritten r c pool slot page) where
    pool1 : Pool K V
    pool1 = modify_page c.v_block_number c.v_page_number (λ _. page) pool

    shaped : IsShaped pool pool1
    unfolding pool1
    shaped =
        modify_page-IsShaped c.v_block_number c.v_page_number (λ _. page) pool pool
          (record { blocks = refl; num = refl; block = refl; page = refl })

    here : page_at pool1.blocks c.v_block_number c.v_page_number ≡ page
    unfolding pool1
    here = modify_page_self c.v_block_number c.v_page_number (λ _. page) pool cv.here

    same_at :
        (b p s : ℕ)
        → Apart (b, p, s) (c.v_block_number, c.v_page_number, slot)
        → live (page_at pool1.blocks b p) s ≡ live (page_at pool.blocks b p) s
    unfolding pool1
    same_at =
        modify_page-All
          (λ b p pg.
            (s : ℕ)
            → Apart (b, p, s) (c.v_block_number, c.v_page_number, slot)
            → live pg s ≡ live (page_at pool.blocks b p) s)
          c.v_block_number c.v_page_number (λ _. page) pool
          (λ s ne. w.same s (λ e. ne (ap (λ t. (c.v_block_number, c.v_page_number, t)) e)))
          (λ b p s ne. refl)

    fresh_elsewhere :
        (b p : ℕ)
        → OtherPage (b, p) (c.v_block_number, c.v_page_number)
        → IsFresh (page_at pool.blocks b p)
        → IsFresh (page_at pool1.blocks b p)
    unfolding pool1
    fresh_elsewhere =
        modify_page-All
          (λ b p pg.
            OtherPage (b, p) (c.v_block_number, c.v_page_number)
            → IsFresh (page_at pool.blocks b p)
            → IsFresh pg)
          c.v_block_number c.v_page_number (λ _. page) pool (λ ne. absurd (ne refl))
          (λ b p ne free. free)

    pages_valid : (b p : ℕ) → PageIsValid (page_at pool1.blocks b p)
    unfolding pool1
    pages_valid =
        modify_page-All (λ b p pg. PageIsValid pg) c.v_block_number c.v_page_number (λ _. page) pool
          w.valid v.pages

    written_valid : PoolIsValid pool1
    written_valid = record {
      pages = pages_valid;
      start = omega (arith, v.start, shaped.page, shaped.num);
      unclaimed = λ b le lt p lp.
          fresh_elsewhere b p (λ e. omega (arith, ap (λ t. t.0) e, le, cv.claimed, shaped.block))
            (v.unclaimed b (omega (arith, le, shaped.block)) (omega (arith, lt, shaped.blocks)) p
              (omega (arith, lp, shaped.num)));
    }

    client_valid : (off : ℕ) → ClientIsValid (record c { last_put_offset = off }) pool1
    client_valid off = record {
      here = omega (arith, ap slots here, w.size, cv.here);
      opened = ap (λ (t : VPage K V). is_used t.version_lock) here ∙ w.used;
      page = omega (arith, cv.page, shaped.num);
      processed = omega (arith, cv.processed, shaped.num);
      claimed = omega (arith, cv.claimed, shaped.block);
      ahead = λ i pos lt. rw shaped.num (
          fresh_elsewhere c.v_block_number ((c.v_page_number + i) % pool.num_pages_per_block)
            (λ e.
              ahead_ne c.v_page_number i pool.num_pages_per_block cv.page pos
                (omega (arith, lt, shaped.num)) (ap (λ t. t.1) e))
            (cv.ahead i pos (omega (arith, lt, shaped.num))));
    }

    pub write-IsStored :
        (off : ℕ)
        → IsStored r c pool slot
            (record c { last_put_offset = off })
            (modify_page c.v_block_number c.v_page_number (λ _. page) pool)
    unfolding pool1
    write-IsStored off = record {
      valid = written_valid;
      client = client_valid off;
      unused = w.unused;
      stored = ap (λ t. live t slot) here ∙ w.stored;
      same = λ (b, p, s) ne. same_at b p s ne;
    }
