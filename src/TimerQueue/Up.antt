-- ===== src/TimerQueue/Up.antt =====
-- heapUp of src/net/TimerQueue.cpp: it repairs a heap in which one timer may come before those above it.
use libsaf.Common.{
  ℕ, zero, suc, ◌+◌, ◌/◌, ◌≤◌, ◌<◌, ◌≡◌, ◌≢◌, arith, Bool-cases, inl, inr, Returns, returns,
  Returns-bind, Returns-map, ltb, ltb→lt, length,
}
use libsaf.TimerQueue.{TimerQueue, heap_up_loop, heap_up}
use libsaf.TimerQueue.Slots.{IsIndexed, Swapped, heap_swap-Swapped}
use libsaf.TimerQueue.Order.{
  key, get_timestamp-key, IsOrdered, Rearranged, Rearranged-refl, Rearranged-trans,
  Swapped-Rearranged, key-Swapped,
}

-- Only the edge above `i` may be out of order.
pub record UpInv (q : TimerQueue) (i : ℕ) : Type 0 where
  pub indexed : IsIndexed q
  pub positive : 0 < i
  pub inside : i < length q.heap
  pub edges : (c : ℕ) → 1 < c → c < length q.heap → c ≢ i → key q (c / 2) ≤ key q c
  pub bridged : (c : ℕ) → 1 < c → c < length q.heap → c / 2 ≡ i → 1 < i → key q (i / 2) ≤ key q c

swap-UpInv :
    (q q' : TimerQueue) (i : ℕ)
    → UpInv q i
    → 1 < i
    → key q i < key q (i / 2)
    → Swapped q i (i / 2) q'
    → UpInv q' (i / 2)
swap-UpInv q q' i v pos below s =
    let k =
      key-Swapped q i (i / 2) (omega arith) v.inside (omega arith) (omega (arith, v.inside)) q' s in
    record {
      indexed = s.indexed;
      positive = omega arith;
      inside = omega (arith, s.size, v.inside);
      edges = λ c p l n. ground (arith, s.size, k c, k (c / 2), v.edges c, v.edges i, v.bridged c);
      bridged = λ c p l e r. ground (arith, s.size, k c, k (i / 2 / 2), v.edges c, v.edges (i / 2));
    }

heap_up_loop_restores :
    (fuel : ℕ) (q : TimerQueue) (i : ℕ)
    → i < fuel
    → UpInv q i
    → Returns (λ q'. Rearranged q q' × IsOrdered q') (heap_up_loop fuel q i)
unfolding heap_up_loop
heap_up_loop_restores zero q i f v = absurd (omega arith)
heap_up_loop_restores (suc fuel) q i f v = elim (Bool-cases (ltb 1 i)) [
  | inl pos ↦
      let above : i / 2 < length q.heap = omega (arith, v.inside) in
      let up : 0 < i / 2 = omega (arith, ltb→lt 1 i pos) in
      rw
        (
          pos,
          get_timestamp-key q (i / 2) v.indexed up above,
          get_timestamp-key q i v.indexed v.positive v.inside,
        )
        (elim (Bool-cases (ltb (key q i) (key q (i / 2)))) [
          | inl below ↦ rw below (
              Returns-bind (heap_swap-Swapped q i (i / 2) v.indexed v.positive v.inside up above)
                λ q' s.
                  let moved = Swapped-Rearranged q i (i / 2) v.positive v.inside up above q' s in
                  let inv = swap-UpInv q q' i v (ltb→lt 1 i pos) (ltb→lt _ _ below) s in
                  Returns-map (heap_up_loop_restores fuel q' (i / 2) (omega arith) inv)
                    λ r (w, o). (Rearranged-trans moved w, o))
          | inr settled ↦
              rw settled
                (returns (Rearranged-refl q v.indexed, λ c p l. ground (arith, v.edges c p l)))
        ])
  | inr root ↦
      rw root (returns (Rearranged-refl q v.indexed, λ c p l. v.edges c p l (ground arith)))
]

-- heapUp turns such a heap into one in order, of the same timers.
pub heap_up_restores :
    (q : TimerQueue) (i : ℕ)
    → UpInv q i
    → Returns (λ q'. Rearranged q q' × IsOrdered q') (heap_up q i)
unfolding heap_up
heap_up_restores q i v = heap_up_loop_restores (i + 1) q i (omega arith) v
