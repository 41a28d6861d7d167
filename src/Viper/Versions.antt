-- ===== src/Viper/Versions.antt =====
-- The version of a page, which readers compare to see whether the page was written meanwhile.
use native.Mathlib.Decide.{ℕ_discrete}
use hiom.Prelude.{
  ℕ, zero, suc, ◌+◌, ◌*◌, ◌/◌, ◌%◌, ◌==◌, ◌&&◌, not, if◌then◌else◌, Bool, true, false, ◌<◌, ◌≡◌,
  ◌↔◌, arith, refl, ◌∙◌, some, none,
}
use hiom.Viper.{lock, unlock, is_locked, is_used}

-- A test of every number below `n`.
unfoldable pub all_below : ℕ → (ℕ → Bool) → Bool
all_below zero p = true
all_below (suc n) p = let rest = all_below n p in if p n then rest else false

pub at_each : (n : ℕ) (p : ℕ → Bool) (i : ℕ) → all_below n p ≡ true → i < n → p i ≡ true
unfolding all_below
at_each zero p i h lt = absurd (omega arith)
at_each (suc n) p i h lt = elim (ℕ_discrete i n) [
  | yes e ↦ rw e (ground (arith, h))
  | no ne ↦ at_each n p i (ground (arith, h)) (omega arith)
]

-- What a writer leaves behind: the lock is taken and released. A lock that is held is not taken.
unfoldable pub write_cycle : ℕ → ℕ
write_cycle version = elim (lock version) [ some held ↦ unlock held | none ↦ version ]

-- Six bits of version, of which the lowest is the lock; the two bits above are kept.
abbrev advance : ℕ → ℕ → ℕ
advance n version = version / 64 * 64 + (version + 2 * n) % 64

-- A page in use that nobody holds.
pub record IsOpen (version : ℕ) : Type 0 where
  pub byte : version < 256
  pub used : is_used version ≡ true
  pub unlocked : is_locked version ≡ false

abbrev is_open : ℕ → Bool
is_open v = is_used v && not (is_locked v)

steps_by_two : ℕ → Bool
steps_by_two v = if is_open v then is_open (write_cycle v) && write_cycle v == advance 1 v else true

all_step : all_below 256 steps_by_two ≡ true
unfolding all_below write_cycle steps_by_two is_used is_locked lock unlock
all_step = refl

one_cycle : (v : ℕ) → IsOpen v → (is_open (write_cycle v) ≡ true) × (write_cycle v ≡ advance 1 v)
unfolding steps_by_two
one_cycle v o =
    let each = at_each 256 steps_by_two v all_step o.byte in
    (ground (arith, each, o.used, o.unlocked), ground (arith, each, o.used, o.unlocked))

write_cycle-IsOpen : (v : ℕ) → IsOpen v → IsOpen (write_cycle v)
write_cycle-IsOpen v o =
    let (open_after, next) = one_cycle v o in
    record {
      byte = omega (arith, next, o.byte);
      used = ground (arith, open_after);
      unlocked = ground (arith, open_after);
    }

unfoldable pub write_cycles : ℕ → ℕ → ℕ
write_cycles zero version = version
write_cycles (suc n) version = write_cycles n (write_cycle version)

write_cycles-advance : (n v : ℕ) → IsOpen v → write_cycles n v ≡ advance n v
unfolding write_cycles
write_cycles-advance zero v o = omega (arith, o.byte)
write_cycles-advance (suc n) v o =
    let (open_after, next) = one_cycle v o in
    write_cycles-advance n (write_cycle v) (write_cycle-IsOpen v o) ∙ omega (arith, next)

-- Writers that lock and unlock a page in use leave its version as a reader saw it exactly where their
-- number is a multiple of 32.
pub write_cycles-same : (n v : ℕ) → IsOpen v → (write_cycles n v ≡ v) ↔ (n % 32 ≡ 0)
write_cycles-same n v o =
    let e = write_cycles-advance n v o in (λ h. omega (arith, e, h), λ h. omega (arith, e, h))
