-- ===== src/Facade/Protocol.antt =====
-- include/viper/hiom/hiom.hpp: the order in which a client announces a block, makes a record durable,
-- registers it and goes on, and in which flushers retire what they applied. Each step is one atomic
-- action of one thread, and the clients keep their slots. `waiting` and `registered` say which durable
-- records the cold tier lacks. `persist` is Viper's put: the record lands in the announced block or in a
-- higher one, which the source names as a precondition and keeps by refusing to run with reclamation.

use hiom.Prelude.{ℕ, ◌<◌, ◌≤◌, ◌≡◌, ◌≢◌, ◌⊎◌, ◌==◌, true, List, [], ◌∷◌, ◌++◌, count_if}
use hiom.Pending.{PendingBlocks, done, pending_register, pending_retire}
use hiom.Pending.Counts.{IsValid, count_at}
use hiom.Pending.Clients.{ClientSlot, client_at, note_client_block, note_inflight_block}
use hiom.Facade.Batch.{HiomState}

-- A durable record that its client has not registered yet.
pub record Unregistered : Type 0 where
  pub client : ℕ
  pub block : ℕ

pub record Protocol : Type 0 where
  pub hiom_state : HiomState
  pub waiting : List Unregistered
  pub registered : List ℕ

-- Every element of a list.
abbrev pub Each : {A : Type 0} → (A → Type 0) → List A → Type 0
Each P [] = Unit {0}
Each P (x ∷ xs) = P x × Each P xs

abbrev pub with_clients : Protocol → List ClientSlot → Protocol
with_clients p cs = record p { hiom_state = record p.hiom_state { clients = cs } }

abbrev pub with_pending : Protocol → PendingBlocks → Protocol
with_pending p r = record p { hiom_state = record p.hiom_state { pending = r } }

pub data Step : Protocol → Protocol → Type 0 where
  announce :
      {p : Protocol} (i block : ℕ)
      → Each (λ w. w.client ≢ i) p.waiting
      → Step p (with_clients p (note_inflight_block p.hiom_state.clients i block))
  persist :
      {p : Protocol} (i block : ℕ)
      → (client_at p.hiom_state.clients i).active ≡ true
      → (client_at p.hiom_state.clients i).inflight_block ≤ block
      → Step p (record p { waiting = record { client = i; block = block } ∷ p.waiting })
  note :
      {p : Protocol} (i block : ℕ)
      → Step p (with_clients p (note_client_block p.hiom_state.clients i block))
  register :
      {p : Protocol} (w : Unregistered) (before after : List Unregistered) (r : PendingBlocks)
      → p.waiting ≡ before ++ w ∷ after
      → pending_register w.block p.hiom_state.pending ≡ done r
      → Step p (record (with_pending p r) {
        waiting = before ++ after;
        registered = w.block ∷ p.registered;
      })
  retire :
      {p : Protocol} (block : ℕ) (before after : List ℕ) (r : PendingBlocks)
      → p.registered ≡ before ++ block ∷ after
      → pending_retire block p.hiom_state.pending ≡ done r
      → Step p (record (with_pending p r) { registered = before ++ after })
  elsewhere :
      {p : Protocol} (s : HiomState)
      → s.pending ≡ p.hiom_state.pending
      → s.clients ≡ p.hiom_state.clients
      → Step p (record p { hiom_state = s })

pub data Steps : Protocol → Protocol → Type 0 where
  start : {p : Protocol} → Steps p p
  next : {p q r : Protocol} → Steps p q → Step q r → Steps p r

abbrev pub Announced : List ClientSlot → Unregistered → Type 0
Announced cs w =
    ((client_at cs w.client).active ≡ true) × ((client_at cs w.client).inflight_block ≤ w.block)

-- Every record that the cold tier lacks is counted in the ring or announced by its client.
pub record IsCovered (p : Protocol) : Type 0 where
  pub valid : IsValid p.hiom_state.pending
  pub counted : (b : ℕ) → count_at p.hiom_state.pending b ≡ count_if (λ c. c == b) p.registered
  pub announced : Each (Announced p.hiom_state.clients) p.waiting

-- A block with a durable record that the cold tier lacks.
abbrev pub IsLacking : Protocol → ℕ → Type 0
IsLacking p b =
    (0 < count_if (λ (w : Unregistered). w.block == b) p.waiting)
    ⊎ (0 < count_if (λ (c : ℕ). c == b) p.registered)
