-- ===== src/TimerQueue/Erase.antt =====
-- What popTimer and cancelTimer of src/net/TimerQueue.cpp do to the object of a timer that has left the
-- heap.
use libsaf.Common.{ℕ, ◌/◌, ◌<◌, ◌≡◌, ◌≢◌, ◌↔◌, refl, sym, ap, ◌∙◌, arith, Bool, true, none, length}
use libsaf.TimerQueue.{Objects, TimerQueue, update, erase}
use libsaf.TimerQueue.Slots.{at, body, forget_index, stamp, IsIndexed}
use libsaf.TimerQueue.Order.{key, IsOrdered, Holds}
use libsaf.TimerQueue.Pop.{Removed}

-- A change of an object that the heap does not hold.
module _ (q : TimerQueue) (fd : ℕ) (new : ¬ Holds q.heap fd) (o : Objects)
    (same : (p : ℕ) → fd ≢ p → o p ≡ q.objects p) where
  abbrev pub changed : TimerQueue
  changed = record q { objects = o }

  unheld : (c : ℕ) → 0 < c → c < length q.heap → fd ≢ at q.heap c
  unheld c pc lc e = new (c, pc, lc, sym e)

  pub changed-IsIndexed : IsIndexed q → IsIndexed changed
  changed-IsIndexed v c pc lc = rw (same (at q.heap c) (unheld c pc lc)) (v c pc lc)

  key-changed : (c : ℕ) → 0 < c → c < length q.heap → key changed c ≡ key q c
  unfolding key stamp
  key-changed c pc lc = rw (same (at q.heap c) (unheld c pc lc))

  pub changed-IsOrdered : IsOrdered q → IsOrdered changed
  changed-IsOrdered v c pc lc =
      rw (key-changed c (omega arith) lc, key-changed (c / 2) (omega arith) (omega arith))
        (v c pc lc)

-- Freeing the object of a timer that has left the heap.
module _ (q : TimerQueue) (fd : ℕ) (q₁ : TimerQueue) (m : Removed q fd q₁) where
  gone : ¬ Holds q₁.heap fd
  gone h = ((m.holds fd).0 h).1 refl

  abbrev freed : Objects
  freed = update q₁.objects fd none

  same : (p : ℕ) → fd ≢ p → freed p ≡ q₁.objects p
  same p n = ground arith

  pub erase-IsIndexed : IsIndexed (erase q₁ fd)
  unfolding erase
  erase-IsIndexed = changed-IsIndexed q₁ fd gone freed same m.indexed

  pub erase-order : IsOrdered (erase q₁ fd) ↔ IsOrdered q₁
  unfolding erase key
  erase-order = (
    λ o c pc lc. omega (
      arith,
      key-changed q₁ fd gone freed same c (omega arith) lc,
      key-changed q₁ fd gone freed same (c / 2) (omega arith) (omega arith),
      o c pc lc,
    ),
    changed-IsOrdered q₁ fd gone freed same,
  )

  pub erase-owned :
      ((p : ℕ) → (q.timers p ≡ true) ↔ Holds q.heap p)
      → (p : ℕ) → ((erase q₁ fd).timers p ≡ true) ↔ Holds (erase q₁ fd).heap p
  unfolding erase
  erase-owned own p = (
    λ e.
        let n : fd ≢ p = ground arith in
        let kept : q.timers p ≡ true = ground (arith, ap (λ (f : ℕ → Bool). f p) m.keys) in
        (m.holds p).1 ((own p).0 kept, n),
    λ h.
        let (old, n) = (m.holds p).0 h in
        ground (arith, (own p).1 old, ap (λ (f : ℕ → Bool). f p) m.keys),
  )

  pub erase-others : (p : ℕ) → fd ≢ p → body (erase q₁ fd).objects p ≡ body q.objects p
  unfolding erase
  erase-others p n = ap forget_index (same p n) ∙ m.bodies p

  pub erase-freed : (erase q₁ fd).objects fd ≡ none
  unfolding erase
  erase-freed = ground arith

  pub erase-fresh : (p : ℕ) → q₁.objects p ≡ none → (erase q₁ fd).objects p ≡ none
  unfolding erase
  erase-fresh p e = ground arith
