-- ===== src/TimerQueue/Pop.antt =====
-- heapPop, checkTimers and popTimer of src/net/TimerQueue.cpp: which timer fires, and what becomes of it.
use libsaf.Common.{
  ℕ, zero, suc, ◌-◌, ◌/◌, ◌≤◌, ◌<◌, ◌≡◌, ◌≢◌, ◌↔◌, refl, ◌∙◌, arith, false, some, Returns, returns,
  Returns-bind, leb, length, ℕ_discrete,
}
use libsaf.TimerQueue.{TimerQueue, first_item, pop_back, heap_pop}
use libsaf.TimerQueue.Slots.{at, body, IsIndexed, entry-ok}
use libsaf.TimerQueue.Order.{key, IsOrdered, Holds, Rearranged}
use libsaf.TimerQueue.Down.{DownInv, heap_down_restores}
use libsaf.TimerQueue.Remove.{Detached, swap_out-Detached}

-- The heap of `q` without one timer; every other timer is as it was but for its position.
pub record Removed (q : TimerQueue) (fd : ℕ) (q' : TimerQueue) : Type 0 where
  pub indexed : IsIndexed q'
  pub size : suc (length q'.heap) ≡ length q.heap
  pub bodies : (p : ℕ) → body q'.objects p ≡ body q.objects p
  pub keys : q'.timers ≡ q.timers
  pub count : q'.counter ≡ q.counter
  pub holds : (p : ℕ) → Holds q'.heap p ↔ (Holds q.heap p × (fd ≢ p))

pub Removed-Rearranged :
    {q r s : TimerQueue} (pos : ℕ) → Detached q pos r → Rearranged r s → Removed q (at q.heap pos) s
Removed-Rearranged pos d m = record {
  indexed = m.indexed;
  size = omega (arith, d.size, m.size);
  bodies = λ p. m.bodies p ∙ d.bodies p;
  keys = m.keys ∙ d.keys;
  count = m.count ∙ d.count;
  holds = λ p. (λ h. (d.holds p).0 ((m.holds p).0 h), λ h. (m.holds p).1 ((d.holds p).1 h));
}

-- In a heap in order the first timer is due no later than any other.
root_least_below :
    (k : ℕ) (q : TimerQueue) (i : ℕ)
    → IsOrdered q
    → i < k
    → 0 < i
    → i < length q.heap
    → key q 1 ≤ key q i
root_least_below zero q i o f p l = absurd (omega arith)
root_least_below (suc k) q i o f p l = elim (ℕ_discrete i 1) [
  | yes e ↦ rw e (omega arith)
  | no n ↦ omega (
    arith,
    o i (omega arith) l,
    root_least_below k q (i / 2) o (omega arith) (omega arith) (omega arith),
  )
]

pub root_least :
    (q : TimerQueue) (i : ℕ) → IsOrdered q → 0 < i → i < length q.heap → key q 1 ≤ key q i
root_least q i o p l = root_least_below (suc i) q i o (omega arith) p l

module _ (q : TimerQueue) (v : IsIndexed q) (o : IsOrdered q) (some_timer : 1 < length q.heap) where
  pop-DownInv : {q' : TimerQueue} → Detached q 1 q' → DownInv q' 1
  pop-DownInv d = record {
    edges = λ c p l n. ground (arith, d.size, d.times c, d.times (c / 2), o c);
    bridged = λ c p l e t. absurd (omega arith);
  }

  -- heapPop takes out the first timer and restores the order.
  pub heap_pop-Removed :
      Returns
        (λ (r, q'). (r ≡ some (at q.heap 1)) × Removed q (at q.heap 1) q' × IsOrdered q')
        (heap_pop q)
  unfolding heap_pop
  heap_pop-Removed =
      let more : leb (length q.heap) first_item ≡ false = ground arith in
      rw more (
        swap_out-Detached q 1 v (omega arith) some_timer _ λ q₁ top size d.
          rw (entry-ok q₁ (length q.heap - 1) (omega (arith, size)), top)
            (Returns-bind (heap_down_restores (pop_back q₁) 1 d.indexed (omega arith))
              λ q' (w, r). returns (refl, Removed-Rearranged 1 d w.same, r (pop-DownInv d))))
