-- ===== src/Viper/Client/Rewrites.antt =====
-- A page of the pool that is rewritten, but for the number of its slots.
use hiom.Prelude.{ℕ, ◌≡◌, ◌≢◌, arith, refl, ap}
use hiom.Viper.{VPage, page_at}
use hiom.Viper.Client.{Pool, modify_page}
use hiom.Viper.Client.Kept.{IsFresh, PageIsValid, live, modify_page-All}
use hiom.Viper.Client.Walk.{PoolIsValid, modify_page-IsShaped}
use hiom.Viper.Client.Stored.{Apart, live_at}

module _ {K V : Type 0} where
  -- A page against the page before its version and its records changed, of which only one may differ.
  pub record IsRewritten (o : VPage K V) (slot : ℕ) (page : VPage K V) : Type 0 where
    pub valid : PageIsValid page
    pub same : (s : ℕ) → s ≢ slot → live page s ≡ live o s
    pub fresh : IsFresh o → IsFresh page

  pub modify_page-PoolIsValid :
      (b p s : ℕ) (f : VPage K V → VPage K V) (pool : Pool K V)
      → PoolIsValid pool
      → IsRewritten (page_at pool.blocks b p) s (f (page_at pool.blocks b p))
      → PoolIsValid (modify_page b p f pool)
        × ((q : ℕ × ℕ × ℕ)
            → Apart q (b, p, s)
            → live_at (modify_page b p f pool) q ≡ live_at pool q)
  modify_page-PoolIsValid b p s f pool v w =
      let shaped =
        modify_page-IsShaped b p f pool pool
          (record { blocks = refl; num = refl; block = refl; page = refl }) in
      let fresh : (b' p' : ℕ)
          → IsFresh (page_at pool.blocks b' p')
          → IsFresh (page_at (modify_page b p f pool).blocks b' p') =
        modify_page-All (λ b' p' pg. IsFresh (page_at pool.blocks b' p') → IsFresh pg) b p f pool
          w.fresh (λ b' p' free. free) in
      let same : (b' p' s' : ℕ)
          → Apart (b', p', s') (b, p, s)
          → live (page_at (modify_page b p f pool).blocks b' p') s'
            ≡ live (page_at pool.blocks b' p') s' =
        modify_page-All
          (λ b' p' pg.
            (s' : ℕ)
            → Apart (b', p', s') (b, p, s)
            → live pg s' ≡ live (page_at pool.blocks b' p') s')
          b p f pool (λ s' ne. w.same s' (λ e. ne (ap (λ t. (b, p, t)) e))) (λ b' p' s' ne. refl) in
      (
        record {
          pages = modify_page-All (λ b' p' pg. PageIsValid pg) b p f pool w.valid v.pages;
          start = omega (arith, v.start, shaped.page, shaped.num);
          unclaimed = λ b' le lt p' lp. fresh b' p' (
              v.unclaimed b' (omega (arith, le, shaped.block)) (omega (arith, lt, shaped.blocks)) p'
                (omega (arith, lp, shaped.num)));
        },
        λ (b', p', s') ne. same b' p' s' ne,
      )
