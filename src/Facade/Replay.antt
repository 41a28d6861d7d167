-- ===== src/Facade/Replay.antt =====
-- include/viper/hiom/hiom.hpp: `recover_tail_into_cold`, the blocks that a restart replays and how
-- they are shared out among the threads.
use hiom.Prelude.{
  inl, inr, Bool, true, false, refl, ℕ, zero, suc, ◌+◌, ◌-◌, ◌*◌, ◌/◌, min, max, ltb, leb, ◌==◌,
  if◌then◌else◌, Option, some, none, List, [], ◌∷◌, ◌<◌, ◌≤◌, ◌≡◌, arith, ◌∙◌, ap₂, Bool-cases,
}
use native.Mathlib.Nat.{lt-div-mul-add}
use hiom.Codec.{get_offsets}
use hiom.Checkpoint.{PmFile, read_valid, CheckpointRecord, proto_version}

-- `kProtoDurableFrontier`
abbrev pub proto_durable_frontier : ℕ
proto_durable_frontier = 2

-- What a restart reads.
unfoldable pub checkpoint_record : Option PmFile → Option CheckpointRecord
checkpoint_record none = none
checkpoint_record (some pm) = read_valid pm

-- The frontier that the checkpoint vouches for, by what `read_valid` returned.
unfoldable pub frontier_block : Option CheckpointRecord → ℕ
frontier_block none = 0
frontier_block (some rec) =
    if proto_version rec == proto_durable_frontier then (get_offsets rec.vpage_frontier).0 else 0

unfoldable pub start_block : Option CheckpointRecord → ℕ
start_block rec = frontier_block rec - 1

-- The range of thread `t`, from the count `left` of threads that are still to start.
abbrev pub Chunk : Type 0
Chunk = ℕ × ℕ

unfoldable pub chunks : ℕ → ℕ → ℕ → ℕ → ℕ → List Chunk
chunks zero t start per_thread current = []
chunks (suc left) t start per_thread current =
    let lo = start + t * per_thread in
    let hi = min (lo + per_thread) current in
    let rest = chunks left (t + 1) start per_thread current in
    if leb hi lo then rest else (lo, hi) ∷ rest

-- The ranges of blocks that the workers visit.
unfoldable pub tail_chunks : Option CheckpointRecord → ℕ → ℕ → List Chunk
tail_chunks rec current threads =
    let start = start_block rec in
    let num_blocks = current - start in
    let num_threads = min num_blocks (max 1 threads) in
    let per_thread = (num_blocks + num_threads - 1) / num_threads in
    if leb current start then [] else chunks num_threads 0 start per_thread current

-- How many of the ranges hold a block.
unfoldable pub visits : List Chunk → ℕ → ℕ
visits [] b = 0
visits ((lo, hi) ∷ cs) b = (if leb lo b then (if ltb b hi then 1 else 0) else 0) + visits cs b

covers : ℕ → ℕ → ℕ → ℕ
covers lo hi b = if leb lo b then (if ltb b hi then 1 else 0) else 0

-- A range from `x` of length `per`, then the rest up to `e`, all cut at `current`.
joined :
    (x per e current b n : ℕ)
    → 0 < per
    → x + per ≤ e
    → n ≡ covers (x + per) (min e current) b
    → (if leb (min (x + per) current) x then n else covers x (min (x + per) current) b + n)
      ≡ covers x (min e current) b
unfolding covers
joined x per e current b n h le ih = ground (arith, ih)

branch :
    (t : Bool) (lo hi : ℕ) (cs : List Chunk) (b : ℕ)
    → visits (if t then cs else (lo, hi) ∷ cs) b
      ≡ (if t then visits cs b else covers lo hi b + visits cs b)
unfolding visits covers
branch true lo hi cs b = refl
branch false lo hi cs b = refl

visits-chunks :
    (left t start per current b : ℕ)
    → 0 < per
    → visits (chunks left t start per current) b
      ≡ covers (start + t * per) (min (start + (t + left) * per) current) b
unfolding chunks visits covers
visits-chunks zero t start per current b h =
    let e : (t + 0) * per ≡ t * per = omega arith in rw e (ground arith)
visits-chunks (suc left) t start per current b h =
    let x = start + t * per in
    let next : start + (t + 1) * per ≡ x + per = omega arith in
    let last : start + (t + 1 + left) * per ≡ start + (t + suc left) * per = omega arith in
    let far : x + per ≤ start + (t + suc left) * per = omega arith in
    let n = visits (chunks left (t + 1) start per current) b in
    let ih : n ≡ covers (x + per) (min (start + (t + suc left) * per) current) b =
      visits-chunks left (t + 1) start per current b h
      ∙ ap₂ (λ (lo e : ℕ). covers lo (min e current) b) next last in
    branch (leb (min (x + per) current) x) x (min (x + per) current)
      (chunks left (t + 1) start per current) b
    ∙ joined x per (start + (t + suc left) * per) current b n h far ih

ceil_covers : (n t : ℕ) → 0 < t → n ≤ (n + t - 1) / t * t
ceil_covers n t h = omega (arith, lt-div-mul-add {a = n + t - 1} h)

some_product : (n t per : ℕ) → 0 < n → n ≤ per * t → 0 < per
some_product n t zero h le = absurd (omega arith)
some_product n t (suc per) h le = omega arith

up_to_current :
    (start current t per b : ℕ)
    → current ≤ start + per * t
    → covers (start + 0 * per) (min (start + (0 + t) * per) current) b
      ≡ (if leb start b then (if ltb b current then 1 else 0) else 0)
unfolding covers
up_to_current start current t per b le =
    let first : start + 0 * per ≡ start = omega arith in
    let last : start + (0 + t) * per ≡ start + per * t = omega arith in
    rw (first, last) (ground arith)

-- Every block from the start of the tail up to the frontier of the store is visited by exactly one
-- thread, and every other block by none, for any number of threads.
pub visits-tail_chunks :
    (rec : Option CheckpointRecord) (current threads b : ℕ)
    → visits (tail_chunks rec current threads) b
      ≡ (if leb (start_block rec) b then (if ltb b current then 1 else 0) else 0)
unfolding tail_chunks visits
visits-tail_chunks rec current threads b =
    let start = start_block rec in
    let n = current - start in
    let t = min n (max 1 threads) in
    let per = (n + t - 1) / t in
    elim (Bool-cases (leb current start)) [
      | inl nothing ↦ rw nothing (ground arith)
      | inr some_blocks ↦
          let some_thread : 0 < t = ground arith in
          let enough : n ≤ per * t = ceil_covers n t some_thread in
          let some_each : 0 < per = some_product n t per (ground arith) enough in
          rw some_blocks (
            visits-chunks t 0 start per current b some_each
            ∙ up_to_current start current t per b (ground (arith, enough)))
    ]
