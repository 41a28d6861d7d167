-- ===== src/Facade/Covered.antt =====
-- include/viper/hiom/hiom.hpp: every durable record that the cold tier lacks is covered by a client's
-- announcement or by the ring of pending blocks, whatever the order of the steps.
use native.Mathlib.Decide.{ℕ_discrete}
use hiom.Prelude.{
  ℕ, ◌<◌, ◌≤◌, ◌≡◌, ◌≢◌, ◌==◌, leb, true, inl, inr, List, [], ◌∷◌, ◌++◌, arith, refl, ap, sym, ◌∙◌,
  subst, length, count_if, count_if-append, get_or-set_self, get_or-set_ne, Bool-cases,
}
use hiom.Pending.{PendingBlocks, Outcome}
use hiom.Pending.Counts.{
  IsValid, count_at, RegisterSpec, RetireSpec, pending_register-RegisterSpec,
  pending_retire-RetireSpec,
}
use hiom.Pending.Clients.{ClientSlot, client_at, no_client, note_client_block, note_inflight_block}
use hiom.Facade.Batch.{try_write_checkpoint}
use hiom.Facade.Frontier.{IsAtRisk, tail_chunks-try_write_checkpoint}
use hiom.Facade.Replay.{visits, tail_chunks, checkpoint_record}
use hiom.Facade.Protocol.{
  Unregistered, Protocol, Each, Step, announce, persist, note, register, retire, elsewhere, Steps,
  start, next, Announced, IsCovered, IsLacking,
}

Each-append :
    {A : Type 0} (P : A → Type 0) (xs ys : List A) → Each P xs → Each P ys → Each P (xs ++ ys)
Each-append P [] ys hx hy = hy
Each-append P (x ∷ xs) ys (h, hx) hy = (h, Each-append P xs ys hx hy)

Each-remove :
    {A : Type 0} (P : A → Type 0) (xs : List A) (y : A) (ys : List A)
    → Each P (xs ++ y ∷ ys)
    → P y × Each P (xs ++ ys)
Each-remove P [] y ys (h, rest) = (h, rest)
Each-remove P (x ∷ xs) y ys (h, rest) =
    let (hy, rest') = Each-remove P xs y ys rest in (hy, (h, rest'))

Each-map :
    {A : Type 0} (P Q : A → Type 0) (xs : List A) → ((x : A) → P x → Q x) → Each P xs → Each Q xs
Each-map P Q [] f h = tt
Each-map P Q (x ∷ xs) f (h, hs) = (f x h, Each-map P Q xs f hs)

Each-both :
    {A : Type 0} (P Q R : A → Type 0) (xs : List A)
    → ((x : A) → P x → Q x → R x)
    → Each P xs
    → Each Q xs
    → Each R xs
Each-both P Q R [] f h k = tt
Each-both P Q R (x ∷ xs) f (h, hs) (k, ks) = (f x h k, Each-both P Q R xs f hs ks)

client-other :
    (cs : List ClientSlot) (i j block : ℕ)
    → j ≢ i
    → client_at (note_inflight_block cs i block) j ≡ client_at cs j
unfolding note_inflight_block
client-other cs i j block ne = elim (Bool-cases (leb (length cs) i)) [
  | inl past ↦ rw past refl
  | inr there ↦ rw there (
      get_or-set_ne cs i j (record (client_at cs i) { inflight_block = block }) no_client
        (λ e. ne (sym e)))
]

Announced-other :
    (cs : List ClientSlot) (i block : ℕ) (w : Unregistered)
    → w.client ≢ i
    → Announced cs w
    → Announced (note_inflight_block cs i block) w
Announced-other cs i block w ne h =
    subst (λ (c : ClientSlot). (c.active ≡ true) × (c.inflight_block ≤ w.block))
      (sym (client-other cs i w.client block ne)) h

Announced-noted :
    (cs : List ClientSlot) (i block : ℕ) (w : Unregistered)
    → Announced cs w
    → Announced (note_client_block cs i block) w
unfolding note_client_block
Announced-noted cs i block w h = elim (Bool-cases (leb (length cs) i)) [
  | inl past ↦ rw past h
  | inr there ↦ elim (ℕ_discrete w.client i) [
    | yes e ↦
        let here =
          get_or-set_self cs i (record (client_at cs i) { last_block = block }) no_client
            (ground (arith, there)) in
        rw (there, e, here)
          (subst
            (λ (t : ℕ).
              ((client_at cs t).active ≡ true) × ((client_at cs t).inflight_block ≤ w.block))
            e h)
    | no ne ↦
        let other =
          get_or-set_ne cs i w.client (record (client_at cs i) { last_block = block }) no_client
            (λ e. ne (sym e)) in
        rw (there, other) h
  ]
]

Step-IsCovered : {p q : Protocol} → IsCovered p → Step p q → IsCovered q
unfolding count_if
Step-IsCovered {p} v (announce i block free) = record {
  valid = v.valid;
  counted = v.counted;
  announced =
      Each-both (λ w. w.client ≢ i) (Announced p.hiom_state.clients)
        (Announced (note_inflight_block p.hiom_state.clients i block)) p.waiting
        (Announced-other p.hiom_state.clients i block) free v.announced;
}
Step-IsCovered {p} v (persist i block on le) = record {
  valid = v.valid;
  counted = v.counted;
  announced = ((on, le), v.announced);
}
Step-IsCovered {p} v (note i block) = record {
  valid = v.valid;
  counted = v.counted;
  announced =
      Each-map (Announced p.hiom_state.clients)
        (Announced (note_client_block p.hiom_state.clients i block)) p.waiting
        (Announced-noted p.hiom_state.clients i block) v.announced;
}
Step-IsCovered {p} v (register w before after r split e) =
    let (valid, counts) =
      subst (λ (o : Outcome). RegisterSpec p.hiom_state.pending w.block o) e
        (pending_register-RegisterSpec p.hiom_state.pending v.valid w.block) in
    record {
      valid = valid;
      counted = λ b. ground (arith, counts b, v.counted b);
      announced =
          (Each-remove (Announced p.hiom_state.clients) before w after (
            subst (λ (ws : List Unregistered). Each (Announced p.hiom_state.clients) ws) split
              v.announced)).1;
    }
Step-IsCovered {p} v (retire block before after r split e) =
    let (valid, counts) =
      subst (λ (o : Outcome). RetireSpec p.hiom_state.pending block o) e
        (pending_retire-RetireSpec p.hiom_state.pending v.valid block) in
    record {
      valid = valid;
      counted = λ b.
          let all =
            ap (λ (bs : List ℕ). count_if (λ c. c == b) bs) split
            ∙ count_if-append (λ c. c == b) before (block ∷ after) in
          ground (arith, counts b, v.counted b, all, count_if-append (λ c. c == b) before after);
      announced = v.announced;
    }
Step-IsCovered {p} v (elsewhere s same_pending same_clients) = record {
  valid = subst IsValid (sym same_pending) v.valid;
  counted = λ b. ap (λ (r : PendingBlocks). count_at r b) same_pending ∙ v.counted b;
  announced =
      subst (λ (cs : List ClientSlot). Each (Announced cs) p.waiting) (sym same_clients)
        v.announced;
}

Steps-IsCovered : {p q : Protocol} → IsCovered p → Steps p q → IsCovered q
Steps-IsCovered v start = v
Steps-IsCovered v (next s t) = Step-IsCovered (Steps-IsCovered v s) t

Each-find :
    (P : Unregistered → Type 0) (ws : List Unregistered) (b : ℕ)
    → Each P ws
    → 0 < count_if (λ (w : Unregistered). w.block == b) ws
    → (w : Unregistered) × (w.block ≡ b) × P w
unfolding count_if
Each-find P [] b h some_there = absurd (ground (arith, some_there))
Each-find P (w ∷ ws) b (h, hs) some_there = elim (ℕ_discrete w.block b) [
  | yes e ↦ (w, e, h)
  | no ne ↦ Each-find P ws b hs (ground (arith, some_there, ne))
]

IsLacking-IsAtRisk : (p : Protocol) (b : ℕ) → IsCovered p → IsLacking p b → IsAtRisk p.hiom_state b
IsLacking-IsAtRisk p b v (inl unregistered) =
    let (w, e, (on, le)) =
      Each-find (Announced p.hiom_state.clients) p.waiting b v.announced unregistered in
    inr (
      w.client,
      on,
      inr (subst (λ (t : ℕ). (client_at p.hiom_state.clients w.client).inflight_block ≤ t) e le),
    )
IsLacking-IsAtRisk p b v (inr counted) = inl (ground (arith, v.counted b, counted))

-- However clients and flushers interleave from a state in which every record that the cold tier lacks is
-- counted in the ring or announced, a restart after a checkpoint of the state they reach visits exactly
-- once every block below the store's frontier that holds a durable record which the cold tier lacks.
pub visits-Steps :
    {p q : Protocol} (b current threads : ℕ)
    → IsCovered p
    → Steps p q
    → IsLacking q b
    → b < current
    → visits
        (tail_chunks
          (checkpoint_record (try_write_checkpoint q.hiom_state).checkpoint)
          current
          threads)
        b
      ≡ 1
visits-Steps {p} {q} b current threads v steps lacking lt =
    let covered = Steps-IsCovered v steps in
    tail_chunks-try_write_checkpoint q.hiom_state b current threads covered.valid
      (IsLacking-IsAtRisk q b covered lacking) lt
