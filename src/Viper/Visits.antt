-- ===== src/Viper/Visits.antt =====
-- What a scan of blocks hands to its visitor.
use native.Mathlib.Decide.{dec_lt, ℕ_discrete}
use hiom.Prelude.{
  ◌≢◌, ℕ, zero, suc, ◌+◌, ◌-◌, ◌^◌, ◌==◌, ◌&&◌, not, if◌then◌else◌, leb, ltb, min, Bool, true,
  false, ◌<◌, ◌≤◌, ◌≡◌, arith, refl, ◌∙◌, List, [], ◌∷◌, ◌++◌, length, get_or, to_nat, count_if,
  count_if-append,
}
use hiom.Codec.{get_offsets, key_value_offset}
use hiom.Codec.Offset.{get_offsets-key_value_offset}
use hiom.Viper.{
  VPage, Visited, no_page, page_at, is_used, is_free, visit_slots, visit_pages, visit_blocks,
  visit_records,
}

cons_count :
    {A : Type 0} (p : A → Bool) (x : Bool) (v : A) (vs : List A)
    → count_if p (if x then vs else v ∷ vs) ≡ (if x then 0 else to_nat (p v)) + count_if p vs
unfolding count_if
cons_count p true v vs = omega arith
cons_count p false v vs = refl

-- The slot that is asked for comes after, is, or came before the one that is visited.
after :
    (q g x : Bool) (i s : ℕ)
    → i < s
    → (if x then 0 else to_nat (q && i == s)) + to_nat (q && (leb (i + 1) s && g))
      ≡ to_nat (q && (leb i s && g))
after q g x i s lt = ground arith

exact :
    (q x g : Bool) (i s : ℕ)
    → i ≡ s
    → (if x then 0 else to_nat (q && i == s)) + to_nat (q && (leb (i + 1) s && g))
      ≡ to_nat (q && (leb i s && not x))
exact q x g i s e = ground (arith, e)

before :
    (q g x g' : Bool) (i s : ℕ)
    → s < i
    → (if x then 0 else to_nat (q && i == s)) + to_nat (q && (leb (i + 1) s && g'))
      ≡ to_nat (q && (leb i s && g))
before q g x g' i s lt = ground arith

-- The same for the pages of a block.
used_count :
    {A : Type 0} (p : A → Bool) (used : Bool) (xs ys : List A)
    → count_if p (if used then xs ++ ys else ys)
      ≡ (if used then count_if p xs else 0) + count_if p ys
used_count p true xs ys = count_if-append p xs ys
used_count p false xs ys = omega arith

whole : {s : ℕ} → s - 0 ≡ s
whole = omega arith

page_after :
    (q used f g : Bool) (page p s : ℕ)
    → page < p
    → (if used then to_nat ((q && page == p) && (leb 0 s && f)) else 0)
        + to_nat (q && (leb (page + 1) p && g))
      ≡ to_nat (q && (leb page p && g))
page_after q used f g page p s lt = ground arith

page_exact :
    (q used f g : Bool) (page p s : ℕ)
    → page ≡ p
    → (if used then to_nat ((q && page == p) && (leb 0 s && f)) else 0)
        + to_nat (q && (leb (page + 1) p && g))
      ≡ to_nat (q && (leb page p && (used && f)))
page_exact q used f g page p s e = ground (arith, e)

page_before :
    (q used f g g' : Bool) (page p s : ℕ)
    → p < page
    → (if used then to_nat ((q && page == p) && (leb 0 s && f)) else 0)
        + to_nat (q && (leb (page + 1) p && g))
      ≡ to_nat (q && (leb page p && g'))
page_before q used f g g' page p s lt = ground arith

unused_page : is_used 0 ≡ false
unfolding is_used
unused_page = refl

-- The same for blocks.
from_zero : (p : ℕ) → p - 0 ≡ p
from_zero p = omega arith

this_block :
    (left b p : ℕ) (g : Bool)
    → to_nat (b == b && (leb 0 p && g)) + to_nat ((leb (b + 1) b && ltb b (b + 1 + left)) && g)
      ≡ to_nat ((leb b b && ltb b (b + suc left)) && g)
this_block left b p g = ground arith

other_block :
    (left bn b p : ℕ) (g g' : Bool)
    → bn ≢ b
    → to_nat (bn == b && (leb 0 p && g)) + to_nat ((leb (bn + 1) b && ltb b (bn + 1 + left)) && g')
      ≡ to_nat ((leb bn b && ltb b (bn + suc left)) && g')
other_block left bn b p g g' ne = ground (arith, ne)

module _ {K V : Type 0} where
  -- The visit of one slot.
  abbrev pub visits_slot : ℕ → ℕ → ℕ → Visited K V → Bool
  visits_slot b p s v =
      let (block, page, slot) = get_offsets v.off in (block == b && page == p) && slot == s

  -- A record is live where its page is in use and its slot is not free.
  abbrev pub is_live : VPage K V → ℕ → Bool
  is_live page s = is_used page.version_lock && not (is_free page s)

  -- The pages of a block fit its offsets.
  abbrev pub PagesFit : List (VPage K V) → Type 0
  PagesFit [] = Unit {0}
  PagesFit (page ∷ pages) =
      (length page.records ≡ length page.free_slots)
      × (length page.free_slots ≤ 2 ^ 16)
      × PagesFit pages

  abbrev pub BlocksFit : List (List (VPage K V)) → Type 0
  BlocksFit [] = Unit {0}
  BlocksFit (pages ∷ blocks) = (length pages ≤ 8) × PagesFit pages × BlocksFit blocks

  BlocksFit-at :
      (blocks : List (List (VPage K V))) (n : ℕ)
      → BlocksFit blocks
      → (0 + length (get_or blocks n []) ≤ 8) × PagesFit (get_or blocks n [])
  BlocksFit-at [] n fit = (omega arith, tt)
  BlocksFit-at (pages ∷ blocks) zero (few, each, fit) = (omega arith, each)
  BlocksFit-at (pages ∷ blocks) (suc n) (few, each, fit) = BlocksFit-at blocks n fit

  module _ (b p s : ℕ) where
    -- The slot that is visited next, and the rest.
    step :
        (block page i : ℕ) (x : Bool) (key : K) (value : V) (bs : List Bool) (rs : List (K × V))
        → get_offsets (key_value_offset block page i) ≡ (block, page, i)
        → count_if (visits_slot b p s) (visit_slots block page (i + 1) bs rs)
          ≡ to_nat
              ((block == b && page == p) && (leb (i + 1) s && not (get_or bs (s - (i + 1)) true)))
        → count_if (visits_slot b p s) (visit_slots block page i (x ∷ bs) ((key, value) ∷ rs))
          ≡ to_nat ((block == b && page == p) && (leb i s && not (get_or (x ∷ bs) (s - i) true)))
    unfolding visit_slots count_if
    step block page i x key value bs rs at rest =
        let v : Visited K V = record {
          key = key;
          value = value;
          off = key_value_offset block page i;
        } in
        let own : visits_slot b p s v ≡ ((block == b && page == p) && i == s) = rw at refl in
        cons_count (visits_slot b p s) x v (visit_slots block page (i + 1) bs rs)
        ∙ rw (own, rest)
            (elim (dec_lt i s) [
              | yes later ↦
                  let next : s - i ≡ suc (s - (i + 1)) = omega arith in
                  rw next (
                    after (block == b && page == p) (not (get_or bs (s - (i + 1)) true)) x i s
                      later)
              | no here ↦ elim (dec_lt s i) [
                | yes past ↦
                    before (block == b && page == p) (not (get_or (x ∷ bs) (s - i) true)) x
                      (not (get_or bs (s - (i + 1)) true)) i s past
                | no at_it ↦
                    let first : s - i ≡ 0 = omega arith in
                    rw first (
                      exact (block == b && page == p) x (not (get_or bs (s - (i + 1)) true)) i s
                        (omega arith))
              ]
            ])

    count-visit_slots :
        (block page i : ℕ) (bs : List Bool) (rs : List (K × V))
        → block < 2 ^ 45
        → page < 8
        → i + length bs ≤ 2 ^ 16
        → length rs ≡ length bs
        → count_if (visits_slot b p s) (visit_slots block page i bs rs)
          ≡ to_nat ((block == b && page == p) && (leb i s && not (get_or bs (s - i) true)))
    unfolding visit_slots count_if
    count-visit_slots block page i [] rs hb hp hi len = ground arith
    count-visit_slots block page i (x ∷ bs) [] hb hp hi len = absurd (omega arith)
    count-visit_slots block page i (x ∷ bs) ((key, value) ∷ rs) hb hp hi len =
        let at = (get_offsets-key_value_offset block page i hb (omega arith) (omega arith)).0 in
        let rest = count-visit_slots block page (i + 1) bs rs hb hp (omega arith) (omega arith) in
        step block page i x key value bs rs at rest

    -- The pages from `page` on.
    count-visit_pages :
        (block page : ℕ) (pages : List (VPage K V))
        → block < 2 ^ 45
        → page + length pages ≤ 8
        → PagesFit pages
        → count_if (visits_slot b p s) (visit_pages block page pages)
          ≡ to_nat (block == b && (leb page p && is_live (get_or pages (p - page) no_page) s))
    unfolding visit_pages count_if
    count-visit_pages block page [] hb hp fit = ground (arith, unused_page)
    count-visit_pages block page (vp ∷ vps) hb hp (len, room, fit) =
        let q = block == b in
        let used = is_used vp.version_lock in
        let f = not (is_free vp s) in
        let live_at = λ (n : ℕ). is_live (get_or vps n no_page) s in
        used_count (visits_slot b p s) used (visit_slots block page 0 vp.free_slots vp.records)
          (visit_pages block (page + 1) vps)
        ∙ rw
            (
              count-visit_slots block page 0 vp.free_slots vp.records hb (omega arith) (omega arith)
                  len,
              whole,
              count-visit_pages block (page + 1) vps hb (omega arith) fit,
            )
            (elim (dec_lt page p) [
              | yes later ↦
                  let next : p - page ≡ suc (p - (page + 1)) = omega arith in
                  rw next (page_after q used f (live_at (p - (page + 1))) page p s later)
              | no here ↦ elim (dec_lt p page) [
                | yes past ↦
                    page_before q used f (live_at (p - (page + 1)))
                      (is_live (get_or (vp ∷ vps) (p - page) no_page) s) page p s past
                | no at_it ↦
                    let first : p - page ≡ 0 = omega arith in
                    rw first (page_exact q used f (live_at (p - (page + 1))) page p s (omega arith))
              ]
            ])

    -- `left` blocks from block `bn` on.
    count-visit_blocks :
        (left bn : ℕ) (blocks : List (List (VPage K V)))
        → bn + left ≤ 2 ^ 45
        → BlocksFit blocks
        → count_if (visits_slot b p s) (visit_blocks left bn blocks)
          ≡ to_nat ((leb bn b && ltb b (bn + left)) && is_live (page_at blocks b p) s)
    unfolding visit_blocks count_if
    count-visit_blocks zero bn blocks hb fit = ground arith
    count-visit_blocks (suc left) bn blocks hb fit =
        let pages = get_or blocks bn [] in
        let (few, each) = BlocksFit-at blocks bn fit in
        count_if-append (visits_slot b p s) (visit_pages bn 0 pages)
          (visit_blocks left (bn + 1) blocks)
        ∙ rw
            (
              count-visit_pages bn 0 pages (omega arith) few each,
              count-visit_blocks left (bn + 1) blocks (omega arith) fit,
              from_zero p,
            )
            (elim (ℕ_discrete bn b) [
              | yes e ↦ rw e (this_block left b p (is_live (page_at blocks b p) s))
              | no ne ↦
                  other_block left bn b p (is_live (get_or pages p no_page) s)
                    (is_live (page_at blocks b p) s) ne
            ])

    past_end :
        (blocks : List (List (VPage K V))) (n : ℕ)
        → length blocks ≤ n
        → is_live (page_at blocks n p) s ≡ false
    past_end [] n le = rw unused_page refl
    past_end (pages ∷ blocks) zero le = absurd (omega arith)
    past_end (pages ∷ blocks) (suc n) le = past_end blocks n (omega arith)

    -- A scan of a range of blocks visits each live record of these blocks once, and nothing else: no
    -- free slot, no page that is not in use, and no block outside of the range. The blocks and pages
    -- fit the fields of an offset.
    pub count-visit_records :
        (block_lo block_hi : ℕ) (blocks : List (List (VPage K V)))
        → length blocks ≤ 2 ^ 45
        → BlocksFit blocks
        → count_if (visits_slot b p s) (visit_records block_lo block_hi blocks)
          ≡ (if (leb block_lo b && ltb b block_hi) && is_live (page_at blocks b p) s then 1 else 0)
    unfolding visit_records visit_blocks count_if
    count-visit_records block_lo block_hi blocks few fit =
        elim (dec_lt (min block_hi (length blocks)) block_lo) [
          | yes nothing ↦
              let none_left : min block_hi (length blocks) - block_lo ≡ 0 = omega arith in
              rw none_left (ground (arith, past_end blocks b))
          | no within ↦
              count-visit_blocks (min block_hi (length blocks) - block_lo) block_lo blocks
                (omega arith) fit
              ∙ ground (arith, past_end blocks b)
        ]
