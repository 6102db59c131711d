-- ===== src/Pipeline.antt =====
-- src/net/Pipeline.h, src/net/Pipeline.cpp and src/net/Handler.h: a chain of handlers, and who owns the
-- messages between them.
--
-- A message is an object of the heap, with its status and its data. A handler is a function of the data
-- and of what is outside the messages, such as the buffer: it gives back the object that it was given,
-- with a status, or a new one. That it also may delete or keep its argument is not modelled.
pub mod Ownership
pub mod Unpacking
mod Tests
use libsaf.Common.{
  ℕ, ◌+◌, ◌≡◌, Bool, true, false, List, [], ◌∷◌, ◌++◌, Option, none, some, Result, ok, fault,
  use_after_free, ◌>>=◌, ◌==◌, if◌then◌else◌,
}

pub data HandlerStatus : Type 0 where
  success failed : HandlerStatus

pub data Answer (D : Type 0) : Type 0 where
  same : HandlerStatus → Answer D
  fresh : D → HandlerStatus → Answer D

pub record HandlerData (D : Type 0) : Type 0 where
  pub status : HandlerStatus
  pub content : D

-- The messages that are not deleted, and the number of the next.
pub record Heap (D : Type 0) : Type 0 where
  pub objects : ℕ → Option (HandlerData D)
  pub next : ℕ

abbrev pub Handler : Type 0 → Type 0 → Type 0
Handler D W = D → W → Result (Answer D × W)

-- A pipeline is its handlers.
unfoldable pub add_last : {F : Type 0} → List F → F → List F
add_last handlers handler = handlers ++ handler ∷ []

unfoldable pub add_first : {F : Type 0} → List F → F → List F
unfolding add_last
add_first [] handler = add_last [] handler
add_first (h ∷ handlers) handler = handler ∷ h ∷ handlers

module _ {D : Type 0} where
  abbrev pub write : Heap D → ℕ → Option (HandlerData D) → Heap D
  write h id o = record h { objects = λ i. if i == id then o else h.objects i }

  unfoldable pub deref : Heap D → ℕ → Result (HandlerData D)
  deref h id = live (h.objects id)
    where
      live : Option (HandlerData D) → Result (HandlerData D)
      live none = fault use_after_free
      live (some m) = ok m

  unfoldable pub create : Heap D → D → HandlerStatus → ℕ × Heap D
  create h d status = (
    h.next,
    record (write h h.next (some (record { status = status; content = d }))) { next = h.next + 1 },
  )

  -- The object that the handler returns.
  unfoldable pub answered : Heap D → ℕ → Answer D → Result (ℕ × Heap D)
  unfolding create
  answered h id (same status) =
      deref h id >>= λ m. ok (id, write h id (some (record m { status = status })))
  answered h id (fresh d status) = ok (create h d status)

  -- `holder.reset(p)`: the old object is deleted, also if it is the new one.
  unfoldable pub reset : Heap D → ℕ → ℕ → Result (ℕ × Heap D)
  reset h holder p = deref h holder >>= λ _. ok (p, write h holder none)

  unfoldable pub destroy : Heap D → ℕ → Result (Heap D)
  destroy h holder = deref h holder >>= λ _. ok (write h holder none)

  -- `holder.reset(handler->process(…))`, and the status that is read then
  unfoldable pub replace : Heap D → ℕ → Answer D → Result (ℕ × Heap D × HandlerStatus)
  replace h holder answer = do
    (p, h₁) ← answered h holder answer
    (holder', h₂) ← reset h₁ holder p
    m ← deref h₂ holder'
    ok (holder', h₂, m.status)

module _ {D W : Type 0} where
  -- The loop over the handlers.
  unfoldable pub process_loop : List (Handler D W) → Heap D → ℕ → W → Result (ℕ × Heap D × W)
  process_loop [] h holder w = ok (holder, h, w)
  process_loop (handler ∷ handlers) h holder w = do
    m ← deref h holder
    (answer, w') ← handler m.content w
    (holder', h', status) ← replace h holder answer
    elim status [ success ↦ process_loop handlers h' holder' w' | failed ↦ ok (holder', h', w') ]

  unfoldable pub process : List (Handler D W) → Heap D → D → W → Result (Heap D × W)
  process handlers h d w = do
    let (data_id, h₁) = create h d success
    (holder, h₂, w') ← process_loop handlers h₁ data_id w
    h₃ ← destroy h₂ holder
    ok (h₃, w')
