-- ===== src/TimerQueue/Insert.antt =====
-- heapInsert of src/net/TimerQueue.cpp: a timer more in an ordered heap.
use libsaf.Common.{
  ℕ, suc, ◌/◌, ◌<◌, ◌≡◌, ◌≢◌, ◌↔◌, ◌⊎◌, sym, ap, subst, ◌∙◌, arith, some, List, [], ◌∷◌, ◌++◌, inl,
  inr, Returns, Returns-bind, Returns-map, length, length-append, dec_lt,
}
use libsaf.TimerQueue.{TimerQueue, heap_insert}
use libsaf.TimerQueue.Slots.{
  at, at-append, at-append_self, body, position, stamp, IsIndexed, Relabelled,
  set_heap_index-Relabelled,
}
use libsaf.TimerQueue.Order.{key, stamp-body, IsOrdered, Holds}
use libsaf.TimerQueue.Up.{UpInv, heap_up_restores}

-- One more timer in an ordered heap; every timer but for its position is as it was.
pub record Inserted (q : TimerQueue) (fd : ℕ) (q' : TimerQueue) : Type 0 where
  pub indexed : IsIndexed q'
  pub ordered : IsOrdered q'
  pub size : length q'.heap ≡ suc (length q.heap)
  pub bodies : (p : ℕ) → body q'.objects p ≡ body q.objects p
  pub keys : q'.timers ≡ q.timers
  pub count : q'.counter ≡ q.counter
  pub holds : (p : ℕ) → Holds q'.heap p ↔ (Holds q.heap p ⊎ (fd ≡ p))

module _ (q : TimerQueue) (fd : ℕ) (v : IsIndexed q) (slot : 0 < length q.heap)
    (new : ¬ Holds q.heap fd) where
  abbrev pushed : List ℕ
  pushed = q.heap ++ fd ∷ []

  length-pushed : length pushed ≡ suc (length q.heap)
  length-pushed = omega (arith, length-append q.heap (fd ∷ []))

  -- The slots of the longer heap: the old ones, and the new one.
  slot_cases :
      (i : ℕ)
      → i < length pushed
      → ((i < length q.heap) × (at pushed i ≡ at q.heap i))
        ⊎ ((i ≡ length q.heap) × (at pushed i ≡ fd))
  slot_cases i l = elim (dec_lt i (length q.heap)) [
    | yes old ↦ inl (old, at-append q.heap (fd ∷ []) i old)
    | no other ↦
        let e : i ≡ length q.heap = omega (arith, length-pushed) in
        inr (e, ap (at pushed) e ∙ at-append_self q.heap fd)
  ]

  pushed-Holds : (p : ℕ) → Holds pushed p ↔ (Holds q.heap p ⊎ (fd ≡ p))
  pushed-Holds p = (
    λ (i, pi, li, e). elim (slot_cases i li) [
      | inl (l, s) ↦ inl (i, pi, l, sym s ∙ e)
      | inr (_, s) ↦ inr (sym s ∙ e)
    ],
    elim [
      | inl (i, pi, li, e) ↦
          (i, pi, omega (arith, length-pushed), at-append q.heap (fd ∷ []) i li ∙ e)
      | inr e ↦ (length q.heap, slot, omega (arith, length-pushed), at-append_self q.heap fd ∙ e)
    ],
  )

  module _ (q₂ : TimerQueue)
      (r : Relabelled (record q { heap = pushed }) fd (length q.heap) q₂) where
    key-pushed : (c : ℕ) → c < length q.heap → key q₂ c ≡ key q c
    unfolding key
    key-pushed c l =
        stamp-body q q₂ r.bodies (at q₂.heap c)
        ∙ ap (λ xs. stamp q.objects (at xs c)) r.slots
        ∙ ap (stamp q.objects) (at-append q.heap (fd ∷ []) c l)

    pushed-IsIndexed : IsIndexed q₂
    pushed-IsIndexed c pc lc = rw r.slots (elim (slot_cases c (omega (arith, ap length r.slots))) [
      | inl (l, s) ↦
          let other : fd ≢ at q.heap c = λ e. new (c, pc, l, sym e) in
          rw s (ground (arith, r.positions (at q.heap c), v c pc l))
      | inr (e, s) ↦ rw s (ground (arith, r.positions fd))
    ])

    pushed-UpInv : IsOrdered q → UpInv q₂ (length q.heap)
    pushed-UpInv o = record {
      indexed = pushed-IsIndexed;
      positive = slot;
      inside = omega (arith, ap length r.slots, length-pushed);
      edges = λ c p l n.
          ground (arith, ap length r.slots, length-pushed, key-pushed c, key-pushed (c / 2), o c);
      bridged = λ c p l e t. absurd (omega (arith, ap length r.slots, length-pushed));
    }

-- heapInsert puts a live timer that the heap does not hold into it, and keeps the order.
pub heap_insert-Inserted :
    (q : TimerQueue) (fd i : ℕ)
    → IsIndexed q
    → IsOrdered q
    → 0 < length q.heap
    → position q.objects fd ≡ some i
    → ¬ Holds q.heap fd
    → Returns (Inserted q fd) (heap_insert q fd)
unfolding heap_insert
heap_insert-Inserted q fd i v o slot live new =
    Returns-bind
      (set_heap_index-Relabelled (record q { heap = q.heap ++ fd ∷ [] }) fd (length q.heap) i live)
      λ q₂ r.
        Returns-map (heap_up_restores q₂ (length q.heap) (pushed-UpInv q fd v slot new q₂ r o))
          λ q' (m, ordered). record {
            indexed = m.indexed;
            ordered = ordered;
            size = omega (arith, m.size, ap length r.slots, length-pushed q fd v slot new);
            bodies = λ p. m.bodies p ∙ r.bodies p;
            keys = m.keys ∙ r.keys;
            count = m.count ∙ r.count;
            holds = λ p.
                let h = pushed-Holds q fd v slot new p in
                let (to, from) = m.holds p in
                (
                  λ x. h.0 (subst (λ xs. Holds xs p) r.slots (to x)),
                  λ x. from (subst (λ xs. Holds xs p) (sym r.slots) (h.1 x)),
                );
          }
