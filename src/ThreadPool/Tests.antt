-- ===== src/ThreadPool/Tests.antt =====
-- A pool with one worker and two tasks, and the theorem there.
use libsaf.Common.{◌≡◌, refl, false, List, [], ◌∷◌}
use libsaf.ThreadPool.{ThreadPool, Event, runs, works, steps, step, run, work}
use libsaf.ThreadPool.Tasks.{Served, submitted, steps-Served}

abbrev one_worker : ThreadPool
one_worker = record { stopped = false; workers = 1; waiting = 1; tasks = []; done = [] }

abbrev two_tasks : List Event
two_tasks = runs 7 ∷ works ∷ runs 8 ∷ works ∷ works ∷ []

-- The second task waits for ever.
two_tasks_done : (steps one_worker two_tasks).done ≡ 7 ∷ []
unfolding steps step run work
two_tasks_done = refl

steps-Served_example : Served one_worker (submitted two_tasks) (steps one_worker two_tasks)
steps-Served_example = steps-Served one_worker two_tasks refl refl
