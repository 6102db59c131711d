-- ===== src/EventLoop/Tests.antt =====
-- Functors that queue functors, and the theorem there.
use libsaf.Common.{ℕ, zero, suc, ◌≡◌, refl, true, false, List, [], ◌∷◌, ◌++◌, none}
use libsaf.EventLoop.{Program, EventLoop, run_functors, call, queue_in_loop}
use libsaf.EventLoop.Functors.{serve, run_functors-serve}

-- A functor is a number: it is recorded, and it queues the number below.
abbrev below : ℕ → List ℕ
below zero = []
below (suc n) = n ∷ []

abbrev countdown : Program ℕ (List ℕ)
countdown = record {
  perform = λ n w. (w ++ n ∷ [], below n);
  dispatch = λ fd w. (w, []);
  run_timers = λ w. (w, []);
  is_quit = λ w. false;
}

abbrev waiting : EventLoop ℕ (List ℕ)
waiting = record {
  looping = true;
  handling = false;
  current_fd = none;
  functors = 2 ∷ 0 ∷ 5 ∷ [];
  world = [];
}

waiting_functors :
    run_functors countdown waiting
    ≡ record waiting { functors = 1 ∷ 4 ∷ []; world = 2 ∷ 0 ∷ 5 ∷ [] }
unfolding run_functors call queue_in_loop
waiting_functors = refl

run_functors-serve_example : run_functors countdown waiting ≡ serve countdown 3 waiting
run_functors-serve_example = run_functors-serve countdown waiting
