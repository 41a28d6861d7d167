-- ===== src/Viper/Intents.antt =====
-- include/viper/viper.hpp: the registry of lock intents, which tells a live lock from one that a killed
-- process left. A page is known by its address, which is not 0. One call runs at a time.
use hiom.Prelude.{
  and_mask, subst, ℕ, zero, suc, ◌+◌, ◌-◌, ◌%◌, ◌<◌, ◌≡◌, ◌≢◌, ◌==◌, if◌then◌else◌, not, Bool, true,
  false, Option, some, none, List, [], ◌∷◌, arith, refl, Bool-cases, inl, inr, get_or, set, shr,
  bit_and,
}
use hiom.Viper.{is_locked, unlocked_bit}

-- `kLockIntentSlots`
abbrev pub lock_intent_slots : ℕ
lock_intent_slots = 128

-- From slot `i` on, `left` more probes; `none` where every slot is taken, and the source spins on.
unfoldable pub publish_from : ℕ → ℕ → ℕ → List ℕ → Option (ℕ × List ℕ)
publish_from zero i page intents = none
publish_from (suc left) i page intents =
    let on = publish_from left (bit_and (i + 1) (lock_intent_slots - 1)) page intents in
    if get_or intents i 1 == 0 then some (i, set intents i page) else on

unfoldable pub lock_intent_publish : ℕ → List ℕ → Option (ℕ × List ℕ)
unfolding publish_from
lock_intent_publish page intents =
    publish_from lock_intent_slots (bit_and (shr page 12) (lock_intent_slots - 1)) page intents

unfoldable pub lock_intent_clear : ℕ → List ℕ → List ℕ
lock_intent_clear slot intents = set intents slot 0

unfoldable pub lock_intent_registered : ℕ → List ℕ → Bool
lock_intent_registered page [] = false
lock_intent_registered page (p ∷ ps) =
    let rest = lock_intent_registered page ps in if p == page then true else rest

-- `hiom_try_repair_stale_lock`: whether the lock is free to be tried again, and the version after it.
unfoldable pub try_repair_stale_lock : ℕ → ℕ → List ℕ → Bool × ℕ
try_repair_stale_lock version page intents =
    if not (is_locked version)
    then (true, version)
    else if lock_intent_registered page intents
    then (false, version)
    else (true, bit_and version unlocked_bit)

registered_self :
    (page : ℕ) (intents : List ℕ) (i : ℕ)
    → get_or intents i 1 ≡ 0
    → lock_intent_registered page (set intents i page) ≡ true
unfolding lock_intent_registered
registered_self page [] i h = absurd (omega arith)
registered_self page (p ∷ ps) zero h = ground arith
registered_self page (p ∷ ps) (suc i) h = ground (arith, registered_self page ps i h)

-- A free slot that is filled hides no other page.
registered_other :
    (page q : ℕ) (intents : List ℕ) (i : ℕ)
    → q ≢ 0
    → get_or intents i 1 ≡ 0
    → lock_intent_registered q intents ≡ true
    → lock_intent_registered q (set intents i page) ≡ true
unfolding lock_intent_registered
registered_other page q [] i ne h there = there
registered_other page q (p ∷ ps) zero ne h there = ground (arith, h, ne, there)
registered_other page q (p ∷ ps) (suc i) ne h there =
    let rest = registered_other page q ps i ne h in ground (arith, there, rest)

-- The slot that was taken was free, and the page is registered from then on: no repair clears its
-- lock. Or every slot is taken.
abbrev pub PublishSpec : ℕ → List ℕ → Option (ℕ × List ℕ) → Type 0
PublishSpec page intents none = (j : ℕ) → j < lock_intent_slots → get_or intents j 1 ≢ 0
PublishSpec page intents (some (slot, intents')) =
    (get_or intents slot 1 ≡ 0)
    × ((version : ℕ)
        → is_locked version ≡ true
        → try_repair_stale_lock version page intents' ≡ (false, version))
    × ((q : ℕ)
        → q ≢ 0
        → lock_intent_registered q intents ≡ true
        → lock_intent_registered q intents' ≡ true)

wrapped : (i : ℕ) → bit_and (i + 1) (lock_intent_slots - 1) ≡ (i + 1) % 128
wrapped i = and_mask 7 (i + 1)

taken :
    (page : ℕ) (intents : List ℕ) (i : ℕ)
    → get_or intents i 1 ≡ 0
    → PublishSpec page intents (some (i, set intents i page))
unfolding try_repair_stale_lock
taken page intents i free = (
  free,
  λ version held. rw (held, registered_self page intents i free) refl,
  λ q ne there. registered_other page q intents i ne free there,
)

abbrev Probed : ℕ → ℕ → ℕ → List ℕ → Option (ℕ × List ℕ) → Type 0
Probed left i page intents none = (n : ℕ) → n < left → get_or intents ((i + n) % 128) 1 ≢ 0
Probed left i page intents (some found) = PublishSpec page intents (some found)

probe_next :
    (left i page : ℕ) (intents : List ℕ) (o : Option (ℕ × List ℕ))
    → i < 128
    → get_or intents i 1 ≢ 0
    → Probed left ((i + 1) % 128) page intents o
    → Probed (suc left) i page intents o
probe_next left i page intents (some found) lt busy h = h
probe_next left i page intents none lt busy h = go
  where
    go : (n : ℕ) → n < suc left → get_or intents ((i + n) % 128) 1 ≢ 0
    go zero hn = let at : (i + 0) % 128 ≡ i = omega arith in rw at busy
    go (suc n) hn =
        let at : (i + suc n) % 128 ≡ ((i + 1) % 128 + n) % 128 = omega arith in
        rw at (h n (omega arith))

probed :
    (left i page : ℕ) (intents : List ℕ)
    → i < 128
    → Probed left i page intents (publish_from left i page intents)
unfolding publish_from
probed zero i page intents lt = λ n hn. absurd (omega arith)
probed (suc left) i page intents lt = elim (Bool-cases (get_or intents i 1 == 0)) [
  | inl free ↦ rw (publish_from, free) (taken page intents i (ground (arith, free)))
  | inr busy ↦
      rw (publish_from, busy, wrapped i)
        (probe_next left i page intents (publish_from left ((i + 1) % 128) page intents) lt
          (ground (arith, busy)) (probed left ((i + 1) % 128) page intents (omega arith)))
]

all_probed :
    (i page : ℕ) (intents : List ℕ) (o : Option (ℕ × List ℕ))
    → i < 128
    → Probed 128 i page intents o
    → PublishSpec page intents o
all_probed i page intents (some found) lt h = h
all_probed i page intents none lt h = λ j hj.
    let at : (i + (j + 128 - i) % 128) % 128 ≡ j = omega arith in
    subst (λ (t : ℕ). get_or intents t 1 ≢ 0) at (h ((j + 128 - i) % 128) (omega arith))

-- `hiom_lock_intent_publish` takes a free slot wherever there is one. From then on a repair of the
-- page's lock is refused and leaves the version as it is, and every page that was registered stays
-- registered.
pub lock_intent_publish-PublishSpec :
    (page : ℕ) (intents : List ℕ) → PublishSpec page intents (lock_intent_publish page intents)
unfolding lock_intent_publish
lock_intent_publish-PublishSpec page intents =
    let first = bit_and (shr page 12) (lock_intent_slots - 1) in
    let lt : first < 128 = omega (arith, and_mask 7 (shr page 12)) in
    all_probed first page intents (publish_from lock_intent_slots first page intents) lt
      (probed lock_intent_slots first page intents lt)
