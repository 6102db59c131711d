-- ===== src/ThreadPool/Tasks.antt =====
-- Which tasks the pool of src/base/ThreadPool.cpp runs.
use libsaf.Common.{
  ℕ, ◌+◌, ◌≡◌, refl, sym, ap, ◌∙◌, arith, Bool, true, false, List, [], ◌∷◌, ◌++◌, append_assoc,
  append-nil, length, length-append, ◌==◌, if◌then◌else◌,
}
use libsaf.ThreadPool.{ThreadPool, run, work, take_task, Event, runs, works, step, steps}

unfoldable pub submitted : List Event → List ℕ
submitted [] = []
submitted (runs task ∷ es) = task ∷ submitted es
submitted (works ∷ es) = submitted es

-- A pool that runs, with the tasks `new` more than `p`.
pub record Served (p : ThreadPool) (new : List ℕ) (q : ThreadPool) : Type 0 where
  pub stopped : q.stopped ≡ p.stopped
  pub workers : q.workers ≡ p.workers
  pub order : q.done ++ q.tasks ≡ p.done ++ p.tasks ++ new
  pub spent : length q.done + q.waiting ≡ length p.done + p.waiting

module _ (p : ThreadPool) (on : p.stopped ≡ false) where
  run-Served : (task : ℕ) → (p.workers == 0) ≡ false → Served p (task ∷ []) (run p task)
  unfolding run
  run-Served task some_worker =
      rw (on, some_worker)
        (record {
          stopped = refl;
          workers = refl;
          order = sym (append_assoc p.done p.tasks (task ∷ []));
          spent = refl;
        })

  taken :
      (tasks : List ℕ)
      → p.tasks ≡ tasks
      → (p.waiting == 0) ≡ false
      → Served p [] (take_task p tasks)
  unfolding take_task
  taken [] e w = record {
    stopped = refl;
    workers = refl;
    order = sym (append-nil (p.done ++ p.tasks));
    spent = refl;
  }
  taken (t ∷ ts) e w = record {
    stopped = refl;
    workers = refl;
    order =
        append_assoc p.done (t ∷ []) ts
        ∙ ap (λ xs. p.done ++ xs) (sym e)
        ∙ sym (append-nil (p.done ++ p.tasks));
    spent = ground (arith, length-append p.done (t ∷ []));
  }

  pick :
      {x y : ThreadPool} (b : Bool)
      → (b ≡ true → Served p [] x)
      → (b ≡ false → Served p [] y)
      → Served p [] (if b then x else y)
  pick true f g = f refl
  pick false f g = g refl

  work-Served : Served p [] (work p)
  unfolding work
  work-Served =
      pick (p.waiting == 0)
        (λ none_waits. record {
          stopped = refl;
          workers = refl;
          order = sym (append-nil (p.done ++ p.tasks));
          spent = refl;
        })
        (λ waits.
          pick p.stopped (λ off. absurd (ground arith)) (λ still_on. taken p.tasks refl waits))

-- While a pool with workers is not stopped, the tasks that it has run and those that wait are, in
-- order, those submitted; and each task that a worker runs costs the pool that worker.
pub steps-Served :
    (p : ThreadPool) (es : List Event)
    → p.stopped ≡ false
    → (p.workers == 0) ≡ false
    → Served p (submitted es) (steps p es)
unfolding steps step submitted
steps-Served p [] on some_worker = record {
  stopped = refl;
  workers = refl;
  order = sym (append-nil (p.done ++ p.tasks));
  spent = refl;
}
steps-Served p (runs task ∷ es) on some_worker =
    let a = run-Served p on task some_worker in
    let rest =
      steps-Served (run p task) es (a.stopped ∙ on) (ap (λ n. n == 0) a.workers ∙ some_worker) in
    record {
      stopped = rest.stopped ∙ a.stopped;
      workers = rest.workers ∙ a.workers;
      order =
          rest.order
          ∙ ap (λ xs. xs ++ submitted es) a.order
          ∙ append_assoc (p.done ++ p.tasks) (task ∷ []) (submitted es);
      spent = rest.spent ∙ a.spent;
    }
steps-Served p (works ∷ es) on some_worker =
    let a = work-Served p on in
    let rest =
      steps-Served (work p) es (a.stopped ∙ on) (ap (λ n. n == 0) a.workers ∙ some_worker) in
    record {
      stopped = rest.stopped ∙ a.stopped;
      workers = rest.workers ∙ a.workers;
      order = rest.order ∙ ap (λ xs. xs ++ submitted es) (a.order ∙ append-nil (p.done ++ p.tasks));
      spent = rest.spent ∙ a.spent;
    }
