-- ===== src/ThreadPool.antt =====
-- src/base/ThreadPool.h and src/base/ThreadPool.cpp: tasks that wait for the workers of a pool.
--
-- A task is its number. `workers` is the size of the vector of threads, and `waiting` counts those
-- that have not yet taken a task or left. `done` is what has been run, in the order of the starts.
-- Each operation holds the lock, so what the threads do is a sequence of events.
pub mod Tasks
mod Tests
use libsaf.Common.{
  ℕ, ◌-◌, ◌≡◌, Bool, true, false, List, [], ◌∷◌, ◌++◌, Result, ok, assert, ◌==◌, if◌then◌else◌,
}

pub record ThreadPool : Type 0 where
  pub stopped : Bool
  pub workers : ℕ
  pub waiting : ℕ
  pub tasks : List ℕ
  pub done : List ℕ

unfoldable pub run : ThreadPool → ℕ → ThreadPool
run p task =
    if p.stopped
    then p
    else if p.workers == 0
    then record p { done = p.done ++ task ∷ [] }
    else record p { tasks = p.tasks ++ task ∷ [] }

unfoldable pub start : ThreadPool → ℕ → Result ThreadPool
start p count = assert (p.workers == 0) (ok (record p { workers = count; waiting = count }))

-- stop() before it joins the workers
unfoldable pub stop : ThreadPool → ThreadPool
stop p = record p { stopped = true }

-- A worker that wakes up: it leaves if the pool is stopped, runs the first task, or waits again.
unfoldable pub take_task : ThreadPool → List ℕ → ThreadPool
take_task p [] = p
take_task p (task ∷ tasks) = record p {
  waiting = p.waiting - 1;
  tasks = tasks;
  done = p.done ++ task ∷ [];
}

unfoldable pub work : ThreadPool → ThreadPool
unfolding take_task
work p =
    if p.waiting == 0
    then p
    else if p.stopped
    then record p { waiting = p.waiting - 1 }
    else take_task p p.tasks

-- What the threads do.
pub data Event : Type 0 where
  runs : ℕ → Event
  works : Event

unfoldable pub step : ThreadPool → Event → ThreadPool
step p (runs task) = run p task
step p works = work p

unfoldable pub steps : ThreadPool → List Event → ThreadPool
steps p [] = p
steps p (e ∷ es) = steps (step p e) es
