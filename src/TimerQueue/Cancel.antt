-- ===== src/TimerQueue/Cancel.antt =====
-- heapDelete and cancelTimer of src/net/TimerQueue.cpp. heapDelete only sifts down, so the order can be
-- lost: below is exactly when.
use libsaf.Common.{
  ℕ, ◌-◌, ◌/◌, ◌≤◌, ◌<◌, ◌≡◌, ◌≢◌, ◌↔◌, refl, sym, ap, subst, ◌∙◌, arith, true, false, none, some,
  ok, Returns, returns, Returns-bind, ◌||◌, leb, length, dec_lt,
}
use libsaf.TimerQueue.{TimerQueue, deref, erase, heap_delete, pop_back, cancel_timer}
use libsaf.TimerQueue.Slots.{at, body, position, live, IsIndexed}
use libsaf.TimerQueue.Order.{key, IsOrdered, Holds, IsValid}
use libsaf.TimerQueue.Down.{DownInv, Lowered, heap_down_restores}
use libsaf.TimerQueue.Remove.{Detached, swap_out-Detached}
use libsaf.TimerQueue.Pop.{Removed, Removed-Rearranged}
use libsaf.TimerQueue.Erase.{erase-IsIndexed, erase-order, erase-owned, erase-others, erase-freed}

-- The last timer of the heap may take the slot `pos`: it is no earlier than the timer above.
abbrev pub Fits : TimerQueue → ℕ → Type 0
Fits q pos = 1 < pos → pos < length q.heap - 1 → key q (pos / 2) ≤ key q (length q.heap - 1)

module _ (q : TimerQueue) (pos : ℕ) (v : IsIndexed q) (o : IsOrdered q) (pp : 0 < pos)
    (lp : pos < length q.heap) where
  delete-DownInv : {q' : TimerQueue} → Fits q pos → Detached q pos q' → DownInv q' pos
  delete-DownInv fits d = record {
    edges = λ c p l n. ground (arith, d.size, d.times c, d.times (c / 2), o c);
    bridged = λ c p l e t. ground (arith, d.size, d.times c, d.times (pos / 2), o c, o pos);
  }

  -- Unless the last timer fits, the edge above the slot is out of order at the end.
  delete-unordered :
      {q' r : TimerQueue} → ¬ Fits q pos → Detached q pos q' → Lowered q' pos r → ¬ IsOrdered r
  delete-unordered bad d w ordered = bad λ t l.
      let above = w.kept (pos / 2) (omega arith) in
      ground (arith, d.size, w.same.size, w.low, above, d.times pos, d.times (pos / 2), ordered pos)

  -- heapDelete takes the timer out. The order is kept exactly if the last timer fits.
  pub heap_delete-Removed :
      Returns
        (λ (b, q'). (b ≡ true) × Removed q (at q.heap pos) q' × (IsOrdered q' ↔ Fits q pos))
        (heap_delete q pos)
  unfolding heap_delete
  heap_delete-Removed =
      let good : (leb pos 0 || leb (length q.heap) pos) ≡ false = ground arith in
      rw good (
        swap_out-Detached q pos v pp lp _ λ q₁ top size d.
          Returns-bind (heap_down_restores (pop_back q₁) pos d.indexed pp) λ q' (w, r). returns (
            refl,
            Removed-Rearranged pos d w.same,
            (
              λ ordered t l. elim (dec_lt (key q (length q.heap - 1)) (key q (pos / 2))) [
                | yes less ↦
                    let bad : ¬ Fits q pos = λ fits. omega (arith, fits t l) in
                    absurd (delete-unordered bad d w ordered)
                | no other ↦ omega arith
              ],
              λ fits. r (delete-DownInv fits d),
            ),
          ))

-- A queue that owns all that `q` owns but one timer, which is gone from memory. It is valid but
-- perhaps for its order; no other timer has changed but for its position.
pub record Cancelled (q : TimerQueue) (fd : ℕ) (q' : TimerQueue) : Type 0 where
  pub indexed : IsIndexed q'
  pub owned : (p : ℕ) → (q'.timers p ≡ true) ↔ Holds q'.heap p
  pub holds : (p : ℕ) → Holds q'.heap p ↔ (Holds q.heap p × (fd ≢ p))
  pub freed : q'.objects fd ≡ none
  pub others : (p : ℕ) → fd ≢ p → body q'.objects p ≡ body q.objects p

cancelled :
    {q q₁ : TimerQueue} {fd : ℕ} → IsValid q → Removed q fd q₁ → Cancelled q fd (erase q₁ fd)
cancelled {q} {q₁} {fd} v m = record {
  indexed = erase-IsIndexed q fd q₁ m;
  owned = erase-owned q fd q₁ m v.owned;
  holds = unfold erase in m.holds;
  freed = erase-freed q fd q₁ m;
  others = erase-others q fd q₁ m;
}

-- cancelTimer on a valid queue that owns the timer does not fault: the timer is gone from the map,
-- the heap and memory, and no other is. The heap stays in order exactly if the timer in its last
-- slot is no earlier than the one above the freed slot, or is not moved below another timer.
pub cancel_timer-Cancelled :
    (q : TimerQueue) (fd pos : ℕ)
    → IsValid q
    → q.timers fd ≡ true
    → position q.objects fd ≡ some pos
    → Returns (λ q'. Cancelled q fd q' × (IsOrdered q' ↔ Fits q pos)) (cancel_timer q fd)
unfolding cancel_timer deref
cancel_timer-Cancelled q fd pos v own here =
    let (t, found, e) = live q.objects fd pos here in
    let (i, pi, li, at_i) = (v.owned fd).0 own in
    let same : some i ≡ some pos = sym (v.indexed i pi li) ∙ ap (position q.objects) at_i ∙ here in
    let slot : i ≡ pos = cc in
    let pp : 0 < pos = subst (λ n. 0 < n) slot pi in
    let lp : pos < length q.heap = subst (λ n. n < length q.heap) slot li in
    let at_pos : at q.heap pos ≡ fd = subst (λ n. at q.heap n ≡ fd) slot at_i in
    let deleted = heap_delete-Removed q pos v.indexed v.ordered pp lp in
    rw (own, found, e)
      (Returns-bind deleted λ (b, q₁) (_, m, order).
        let m' : Removed q fd q₁ = subst (λ p. Removed q p q₁) at_pos m in
        returns (
          cancelled v m',
          (
            λ x. order.0 ((erase-order q fd q₁ m').0 x),
            λ f. (erase-order q fd q₁ m').1 (order.1 f),
          ),
        ))

-- A fd that the map does not own is no error, and changes nothing.
pub cancel_timer-absent : (q : TimerQueue) (fd : ℕ) → q.timers fd ≡ false → cancel_timer q fd ≡ ok q
unfolding cancel_timer
cancel_timer-absent q fd e = rw e
