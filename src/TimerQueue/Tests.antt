-- ===== src/TimerQueue/Tests.antt =====
-- Runs of src/net/TimerQueue.cpp on small queues, and the theorems at them.
use libsaf.Common.{
  pos, negsuc, subst, zero, suc, ◌<◌, fault, out_of_fuel, ℕ, ◌≤◌, ◌≡◌, ◌↔◌, refl, arith, Bool, true,
  false, some, List, [], ◌∷◌, Result, ok, Returns, returns, length,
}
use libsaf.TimerQueue.{
  Objects, TimerQueue, init, create_timer, add_timer, cancel_timer, check_timers, pop_timer,
  heap_insert, heap_up, heap_up_loop, heap_down, heap_down_loop, heap_pop, heap_delete, heap_swap,
  set_heap_index, store, before, down_target, get_timestamp, deref, entry, fire, erase, pop_back,
}
use libsaf.TimerQueue.Slots.{at, body, position, stamp}
use libsaf.TimerQueue.Order.{key, IsOrdered, Holds, IsValid}
use libsaf.TimerQueue.Add.{Added, create_timer-IsPending, add_timer-Added}
use libsaf.TimerQueue.Fire.{Fired, pop_timer-Fired}
use libsaf.EventLoop.Timers.{
  run_timers, run_timers_loop, IsSteady, is_steady, count_due, run_timers-Ended,
}
use libsaf.TimerQueue.Cancel.{Fits, Cancelled, cancel_timer-Cancelled}

-- The times of the heap, from the first slot on.
abbrev heap_times : Objects → List ℕ → List ℕ
heap_times o [] = []
heap_times o (fd ∷ fds) = stamp o fd ∷ heap_times o fds

abbrev times : Result TimerQueue → List ℕ
times (ok q) = heap_times q.objects q.heap
times _ = []

-- The queue that a call leaves.
value : Result TimerQueue → TimerQueue
value (ok q) = q
value _ = init

Returns-value : {P : TimerQueue → Type 0} {r : Result TimerQueue} → Returns P r → P (value r)
unfolding value
Returns-value (returns p) = p

-- A timer that is due so long after time 100, made and added.
add_due : ℕ → Bool → TimerQueue → TimerQueue
unfolding value
add_due delay repeated q =
    let r = create_timer q 100 (pos delay) 7 repeated in value (add_timer r.1 r.0)

-- All that a run of a queue calls.
running : ℕ → Bool → TimerQueue → TimerQueue
unfolding add_due init create_timer add_timer heap_insert heap_up heap_up_loop heap_swap
    set_heap_index store get_timestamp deref entry cancel_timer heap_delete heap_down heap_down_loop
    before down_target pop_back erase check_timers pop_timer heap_pop fire stamp
running = add_due

added :
    times (ok (add_due 1 false (add_due 7 false (add_due 4 false (add_due 9 false init)))))
    ≡ 0 ∷ 101 ∷ 104 ∷ 107 ∷ 109 ∷ []
unfolding running
added = refl

init-IsValid : IsValid init
unfolding init
init-IsValid = record {
  indexed = λ i pi li. absurd (omega arith);
  ordered = λ c pc lc. absurd (omega arith);
  slot = omega arith;
  owned = λ p. (λ e. absurd (ground arith), λ (i, pi, li, _). absurd (omega arith));
  fresh = λ p l. refl;
}

add_due-IsValid :
    (delay : ℕ) (repeated : Bool) (q : TimerQueue) → IsValid q → IsValid (add_due delay repeated q)
unfolding add_due
add_due-IsValid delay repeated q v =
    let (w, p) = create_timer-IsPending q 100 (pos delay) 7 repeated v in
    (Returns-value (add_timer-Added _ _ _ w p)).valid

-- Due at 101, 110, 102, 111, 112 and 103, in slots 1 to 6.
six : TimerQueue
six =
    add_due 3 false (
      add_due 12 false (add_due 11 false (add_due 2 true (add_due 10 false (add_due 1 true init)))))

six-IsValid : IsValid six
unfolding six
six-IsValid = add_due-IsValid 3 false _ (
    add_due-IsValid 12 false _ (
      add_due-IsValid 11 false _ (
        add_due-IsValid 2 true _
          (add_due-IsValid 10 false _ (add_due-IsValid 1 true _ init-IsValid)))))

six_times : times (ok six) ≡ 0 ∷ 101 ∷ 110 ∷ 102 ∷ 111 ∷ 112 ∷ 103 ∷ []
unfolding six running
six_times = refl

-- Without the timer in slot 4 the one due at 103 stands below the one due at 110.
cancel_times : times (cancel_timer six 12349) ≡ 0 ∷ 101 ∷ 110 ∷ 102 ∷ 103 ∷ 112 ∷ []
unfolding six running
cancel_times = refl

add_timer-Added_example :
    Returns
      (Added (create_timer six 100 (pos 5) 7 false).1 (create_timer six 100 (pos 5) 7 false).0)
      (add_timer (create_timer six 100 (pos 5) 7 false).1 (create_timer six 100 (pos 5) 7 false).0)
add_timer-Added_example =
    add_timer-Added _ _
      (record { repeated = false; heap_index = 0; interval = pos 5; timestamp = 105; callback = 7 })
      (create_timer-IsPending six 100 (pos 5) 7 false six-IsValid).0
      (create_timer-IsPending six 100 (pos 5) 7 false six-IsValid).1

six_size : length six.heap ≡ 7
unfolding six running
six_size = refl

pop_timer-Fired_example : Returns (Fired six 105) (pop_timer six 105)
pop_timer-Fired_example = pop_timer-Fired six 105 six-IsValid (omega (arith, six_size))

six_slot : (six.timers 12349 ≡ true) × (position six.objects 12349 ≡ some 4)
unfolding six running
six_slot = (refl, refl)

cancel_timer-Cancelled_example :
    Returns (λ q'. Cancelled six 12349 q' × (IsOrdered q' ↔ Fits six 4)) (cancel_timer six 12349)
cancel_timer-Cancelled_example =
    cancel_timer-Cancelled six 12349 4 six-IsValid six_slot.0 six_slot.1

-- So cancelling that timer loses the order.
six_misfit : ¬ Fits six 4
unfolding six running key at
six_misfit fits =
    let bad : 110 ≤ 103 = fits (omega arith) (omega arith) in absurd (omega (arith, bad))

six_steady : (i : ℕ) → 1 ≤ i → i < 7 → is_steady (body six.objects (at six.heap i)) ≡ true
unfolding six running at
six_steady zero l h = absurd (omega arith)
six_steady (suc zero) l h = refl
six_steady (suc (suc zero)) l h = refl
six_steady (suc (suc (suc zero))) l h = refl
six_steady (suc (suc (suc (suc zero)))) l h = refl
six_steady (suc (suc (suc (suc (suc zero))))) l h = refl
six_steady (suc (suc (suc (suc (suc (suc zero)))))) l h = refl
six_steady (suc (suc (suc (suc (suc (suc (suc i))))))) l h = absurd (omega arith)

six-IsSteady : IsSteady six
six-IsSteady p (i, l, h, e) =
    subst (λ r. is_steady (body six.objects r) ≡ true) e
      (six_steady i l (omega (arith, h, six_size)))

run_timers-Ended_example :
    Returns
      (λ (calls, q').
        IsValid q'
        × ((p : ℕ) → Holds q'.heap p → 105 ≤ stamp q'.objects p)
        × (length calls ≡ count_due six 105))
      (run_timers six 105)
run_timers-Ended_example = run_timers-Ended six 105 six-IsValid six-IsSteady

-- A timer that is due again a millisecond before it fires: each round fires it once more.
restless : TimerQueue
unfolding value
restless = let r = create_timer init 100 (negsuc 0) 7 true in value (add_timer r.1 r.0)

restless_fires : run_timers_loop 5 restless 105 ≡ fault out_of_fuel
unfolding running restless value run_timers_loop
restless_fires = refl
