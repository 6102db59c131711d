-- ===== src/Pipeline/Ownership.antt =====
-- What Pipeline::process of src/net/Pipeline.cpp does with its messages.
use libsaf.Common.{
  ℕ, ◌+◌, ◌≤◌, ◌<◌, ◌≡◌, ◌≢◌, refl, ℕ_discrete, sym, subst, ◌∙◌, arith, List, [], ◌∷◌, Option, none,
  some, Result, ok, Fault, fault, use_after_free, ◌>>=◌, ==_refl, ne→==,
}
use libsaf.Pipeline.{
  HandlerStatus, success, failed, Answer, same, fresh, HandlerData, Heap, Handler, write, deref,
  create, answered, reset, replace, destroy, process_loop, process,
}

-- The chain without a heap: each handler gets what the one before it has made, until one fails; one
-- that gives back what it was given is the end.
module _ {D W : Type 0} where
  unfoldable pub reference : List (Handler D W) → D → W → Result W
  reference [] d w = ok w
  reference (handler ∷ handlers) d w = do
    (answer, w') ← handler d w
    elim answer [
      | same status ↦ fault use_after_free
      | fresh d' success ↦ reference handlers d' w'
      | fresh d' failed ↦ ok w'
    ]

module _ {D : Type 0} (h₀ : Heap D) where
  -- One message more than at the start: the holder's.
  record Holding (h : Heap D) (holder : ℕ) (d : D) : Type 0 where
    status : HandlerStatus
    there : h.objects holder ≡ some (record { status = status; content = d })
    newer : h₀.next ≤ holder
    older : holder < h.next
    others : (i : ℕ) → holder ≢ i → h.objects i ≡ h₀.objects i

  abbrev pub IsFresh : Type 0
  IsFresh = (i : ℕ) → h₀.next ≤ i → h₀.objects i ≡ none

module _ {D : Type 0} (h : Heap D) (id : ℕ) where
  write_same : (o : Option (HandlerData D)) → (write h id o).objects id ≡ o
  write_same o = rw (==_refl id) refl

  write_other :
      (o : Option (HandlerData D)) (i : ℕ) → id ≢ i → (write h id o).objects i ≡ h.objects i
  write_other o i ne = rw (ne→== i id (λ e. ne (sym e))) refl

  deref-some : (m : HandlerData D) → h.objects id ≡ some m → deref h id ≡ ok m
  unfolding deref
  deref-some m e = rw e refl

  deref-none : h.objects id ≡ none → deref h id ≡ fault use_after_free
  unfolding deref
  deref-none e = rw e refl

module _ {D : Type 0} (h₀ h : Heap D) (holder : ℕ) (d : D) (k : Holding h₀ h holder d) where
  -- A handler that gives back its argument: the holder deletes what it goes on to hold.
  replace-same : (status : HandlerStatus) → replace h holder (same status) ≡ fault use_after_free
  unfolding replace answered reset
  replace-same status =
      let m : HandlerData D = record { status = k.status; content = d } in
      let m' : HandlerData D = record { status = status; content = d } in
      let h₁ : Heap D = write h holder (some m') in
      let first : deref h holder ≡ ok m = deref-some h holder m k.there in
      let second : deref h₁ holder ≡ ok m' =
        deref-some h₁ holder m' (write_same h holder (some m')) in
      let third : deref (write h₁ holder none) holder ≡ fault use_after_free =
        deref-none (write h₁ holder none) holder (write_same h₁ holder none) in
      rw (first, second, third) refl

  -- A handler that makes a message: the holder deletes the old one and has the new one.
  abbrev made : D → HandlerStatus → Heap D
  made d' status = record (write h h.next (some (record { status = status; content = d' }))) {
    next = h.next + 1;
  }

  abbrev swapped : D → HandlerStatus → Heap D
  swapped d' status = write (made d' status) holder none

  not_next : holder ≢ h.next
  not_next e = absurd (omega (arith, e, k.older))

  swapped-next :
      (d' : D) (status : HandlerStatus)
      → (swapped d' status).objects h.next ≡ some (record { status = status; content = d' })
  swapped-next d' status =
      write_other (made d' status) holder none h.next not_next
      ∙ write_same h h.next (some (record { status = status; content = d' }))

  replace-fresh :
      (d' : D) (status : HandlerStatus)
      → replace h holder (fresh d' status) ≡ ok (h.next, swapped d' status, status)
  unfolding replace answered reset create
  replace-fresh d' status =
      let m' : HandlerData D = record { status = status; content = d' } in
      let old : (made d' status).objects holder ≡ some (record { status = k.status; content = d }) =
        write_other h h.next (some m') holder (λ e. not_next (sym e)) ∙ k.there in
      let first : deref (made d' status) holder ≡ ok (record { status = k.status; content = d }) =
        deref-some (made d' status) holder _ old in
      let second : deref (swapped d' status) h.next ≡ ok m' =
        deref-some (swapped d' status) h.next m' (swapped-next d' status) in
      rw (first, second) refl

  swapped-Holding :
      (d' : D) (status : HandlerStatus) → IsFresh h₀ → Holding h₀ (swapped d' status) h.next d'
  swapped-Holding d' status none_yet = record {
    status = status;
    there = swapped-next d' status;
    newer = omega (arith, k.newer, k.older);
    older = omega arith;
    others = λ i ne. elim (ℕ_discrete holder i) [
      | yes e ↦
          subst (λ j. (swapped d' status).objects j ≡ h₀.objects j) e
            (write_same (made d' status) holder none ∙ sym (none_yet holder k.newer))
      | no other ↦
          write_other (made d' status) holder none i other
          ∙ write_other h h.next (some (record { status = status; content = d' })) i ne
          ∙ k.others i other
    ];
  }

-- The loop and the chain without a heap end alike.
data Agrees {D W : Type 0} (h₀ : Heap D) : Result (ℕ × Heap D × W) → Result W → Type 0 where
  faults : (f : Fault) → Agrees h₀ (fault f) (fault f)
  holds :
      {holder : ℕ} {h : Heap D} {d : D} {w : W}
      → Holding h₀ h holder d
      → Agrees h₀ (ok (holder, h, w)) (ok w)

module _ {D W : Type 0} (h₀ : Heap D) (none_yet : IsFresh h₀) where
  -- The rest of a round, by what the handler answers.
  answer-Agrees :
      (handlers : List (Handler D W)) (h : Heap D) (holder : ℕ) (d : D)
      → Holding h₀ h holder d
      → ((h' : Heap D) (holder' : ℕ) (d' : D) (w' : W)
          → Holding h₀ h' holder' d'
          → Agrees h₀ (process_loop handlers h' holder' w') (reference handlers d' w'))
      → (r : Result (Answer D × W))
      → Agrees h₀
          (r >>= λ (answer, w'). replace h holder answer >>= λ (holder', h', status). elim status [
            | success ↦ process_loop handlers h' holder' w'
            | failed ↦ ok (holder', h', w')
          ])
          (r >>= λ (answer, w'). elim answer [
            | same status ↦ fault use_after_free
            | fresh d' success ↦ reference handlers d' w'
            | fresh d' failed ↦ ok w'
          ])
  answer-Agrees handlers h holder d k rest (fault f) = faults f
  answer-Agrees handlers h holder d k rest (ok (same status, w')) =
      rw (replace-same h₀ h holder d k status) (faults use_after_free)
  answer-Agrees handlers h holder d k rest (ok (fresh d' success, w')) =
      rw (replace-fresh h₀ h holder d k d' success) (
        rest (swapped h₀ h holder d k d' success) h.next d' w'
          (swapped-Holding h₀ h holder d k d' success none_yet))
  answer-Agrees handlers h holder d k rest (ok (fresh d' failed, w')) =
      rw (replace-fresh h₀ h holder d k d' failed)
        (holds (swapped-Holding h₀ h holder d k d' failed none_yet))

  loop-Agrees :
      (handlers : List (Handler D W)) (h : Heap D) (holder : ℕ) (d : D) (w : W)
      → Holding h₀ h holder d
      → Agrees h₀ (process_loop handlers h holder w) (reference handlers d w)
  unfolding process_loop reference
  loop-Agrees [] h holder d w k = holds k
  loop-Agrees (handler ∷ handlers) h holder d w k =
      rw (deref-some h holder (record { status = k.status; content = d }) k.there)
        (answer-Agrees handlers h holder d k (loop-Agrees handlers) (handler d w))

-- The end of process(): the same fault, or what the chain has done, with the heap as it was.
pub data Ended {D W : Type 0} (h₀ : Heap D) : Result (Heap D × W) → Result W → Type 0 where
  ended_fault : (f : Fault) → Ended h₀ (fault f) (fault f)
  ended_ok :
      {h : Heap D} {w : W} → ((i : ℕ) → h.objects i ≡ h₀.objects i) → Ended h₀ (ok (h, w)) (ok w)

module _ {D W : Type 0} (h₀ : Heap D) (none_yet : IsFresh h₀) where
  loop-Ended :
      {r : Result (ℕ × Heap D × W)} {ref : Result W}
      → Agrees h₀ r ref
      → Ended h₀ (r >>= λ (holder, h, w). destroy h holder >>= λ h'. ok (h', w)) ref
  unfolding destroy
  loop-Ended (faults f) = ended_fault f
  loop-Ended (holds {holder} {h} {d} k) =
      rw (deref-some h holder (record { status = k.status; content = d }) k.there) (
        ended_ok λ i. elim (ℕ_discrete holder i) [
          | yes e ↦
              subst (λ j. (write h holder none).objects j ≡ h₀.objects j) e
                (write_same h holder none ∙ sym (none_yet holder k.newer))
          | no other ↦ write_other h holder none i other ∙ k.others i other
        ])

-- process() over any handlers, in a heap with no object from its next number on, ends as the chain
-- without a heap does: it runs the handlers in order, each on what the one before has made, until
-- one fails, and the heap is then as it was, with every message made on the way deleted; or it ends
-- with the fault of a handler. But a handler that gives back the message that it was given, whether
-- it succeeds or fails, makes process() read a deleted message.
pub process-Ended :
    {D W : Type 0} (handlers : List (Handler D W)) (h : Heap D) (d : D) (w : W)
    → IsFresh h
    → Ended h (process handlers h d w) (reference handlers d w)
unfolding process create
process-Ended handlers h d w none_yet = loop-Ended h none_yet (
    loop-Agrees h none_yet handlers _ h.next d w (record {
      status = success;
      there = write_same h h.next (some (record { status = success; content = d }));
      newer = omega arith;
      older = omega arith;
      others = λ i ne. write_other h h.next (some (record { status = success; content = d })) i ne;
    }))
