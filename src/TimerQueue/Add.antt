-- ===== src/TimerQueue/Add.antt =====
-- createTimer and addTimer of src/net/TimerQueue.cpp.
use libsaf.Common.{
  ℤ, later, ℕ, ◌+◌, ◌/◌, ◌≤◌, ◌<◌, ◌≡◌, ◌≢◌, ◌↔◌, ◌⊎◌, sym, ap, arith, Bool, true, none, some, inl,
  inr, Returns, returns, Returns-bind, length, ℕ_discrete,
}
use libsaf.TimerQueue.{Timer, TimerQueue, update, store, create_timer, add_timer}
use libsaf.TimerQueue.Slots.{at, body-live, body-none, body, position, stamp, IsIndexed}
use libsaf.TimerQueue.Order.{key, IsOrdered, Holds, IsValid}
use libsaf.TimerQueue.Insert.{Inserted, heap_insert-Inserted}

-- An object that no map owns yet.
pub record IsPending (q : TimerQueue) (fd : ℕ) (t : Timer) : Type 0 where
  pub object : body q.objects fd ≡ some (record t { heap_index = 0 })
  pub free : ¬ Holds q.heap fd
  pub counted : fd ≤ q.counter

Holds-live :
    (q : TimerQueue) (p : ℕ)
    → IsIndexed q
    → Holds q.heap p
    → (i : ℕ) × (position q.objects p ≡ some i)
Holds-live q p v (i, pi, li, e) = (i, rw e at (v i pi li))

module _ (q : TimerQueue) (now : ℕ) (interval : ℤ) (callback : ℕ) (repeated : Bool)
    (v : IsValid q) where
  abbrev pub made : TimerQueue
  made = (create_timer q now interval callback repeated).1

  abbrev pub made_timer : Timer
  made_timer = record {
    repeated = repeated;
    heap_index = 0;
    interval = interval;
    timestamp = later now interval;
    callback = callback;
  }

  unused : ¬ Holds q.heap (q.counter + 1)
  unused h =
      let (i, e) = Holds-live q (q.counter + 1) v.indexed h in
      let gone : q.objects (q.counter + 1) ≡ none = v.fresh (q.counter + 1) (omega arith) in
      ground arith

  old_fd : (c : ℕ) → 0 < c → c < length q.heap → q.counter + 1 ≢ at q.heap c
  old_fd c pc lc e = unused (c, pc, lc, sym e)

  key-made : (c : ℕ) → 0 < c → c < length q.heap → key made c ≡ key q c
  unfolding key create_timer store stamp
  key-made c pc lc = ground (arith, old_fd c pc lc)

  -- createTimer keeps the queue valid; the new timer is due an interval after now, and waits to be
  -- added.
  pub create_timer-IsPending :
      IsValid made × IsPending made (create_timer q now interval callback repeated).0 made_timer
  unfolding create_timer store
  create_timer-IsPending = (
    record {
      indexed = λ c pc lc. ground (arith, old_fd c pc lc, v.indexed c pc lc);
      ordered = λ c pc lc.
          rw (key-made c (omega arith) lc, key-made (c / 2) (omega arith) (omega arith))
            (v.ordered c pc lc);
      slot = v.slot;
      owned = v.owned;
      fresh = λ p l. ground (arith, v.fresh p);
    },
    record { object = ground arith; free = unused; counted = omega arith },
  )

-- A valid queue with one more timer than `q`; no timer has changed but for its position in the heap.
pub record Added (q : TimerQueue) (fd : ℕ) (q' : TimerQueue) : Type 0 where
  pub valid : IsValid q'
  pub bodies : (p : ℕ) → body q'.objects p ≡ body q.objects p
  pub holds : (p : ℕ) → Holds q'.heap p ↔ (Holds q.heap p ⊎ (fd ≡ p))

pub rekeyed-IsOrdered :
    (q : TimerQueue) (timers : ℕ → Bool) → IsOrdered q → IsOrdered (record q { timers = timers })
unfolding key
rekeyed-IsOrdered q timers o = o

owner :
    (q : TimerQueue) (fd : ℕ) (q' : TimerQueue)
    → IsValid q
    → Inserted q fd q'
    → (p : ℕ) → (update q'.timers fd true p ≡ true) ↔ Holds q'.heap p
owner q fd q' v s p = (
  λ e. elim (ℕ_discrete fd p) [
    | yes same ↦ (s.holds p).1 (inr same)
    | no other ↦
        (s.holds p).1 (inl ((v.owned p).0 (ground (arith, e, ap (λ (f : ℕ → Bool). f p) s.keys))))
  ],
  λ h. elim ((s.holds p).0 h) [
    | inl old ↦ ground (arith, (v.owned p).1 old, ap (λ (f : ℕ → Bool). f p) s.keys)
    | inr same ↦ ground arith
  ],
)

-- addTimer on a valid queue, with a timer that waits to be added: it does not fault, the queue stays
-- valid and owns that timer too, and no timer has changed but for its position in the heap.
pub add_timer-Added :
    (q : TimerQueue) (fd : ℕ) (t : Timer)
    → IsValid q
    → IsPending q fd t
    → Returns (Added q fd) (add_timer q fd)
unfolding add_timer
add_timer-Added q fd t v w =
    let (i, live) = body-live q.objects fd w.object in
    Returns-bind (heap_insert-Inserted q fd i v.indexed v.ordered v.slot live w.free) λ q' s.
      returns (record {
        valid = record {
          indexed = s.indexed;
          ordered = rekeyed-IsOrdered q' (update q'.timers fd true) s.ordered;
          slot = omega (arith, s.size);
          owned = owner q fd q' v s;
          fresh = λ p l.
              body-none q.objects q'.objects p (s.bodies p) (v.fresh p (omega (arith, s.count)));
        };
        bodies = s.bodies;
        holds = s.holds;
      })
