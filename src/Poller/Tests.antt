-- ===== src/Poller/Tests.antt =====
-- Runs of the watcher, its poller and its handlers on small inputs, and the theorems there.
use libsaf.Common.{ℕ, ◌≡◌, refl, true, false, inl, inr, List, [], ◌∷◌, ◌++◌, none, some, Returns}
use libsaf.Poller.{Watched, new, added, no_events, Events, ctl_add, insert}
use libsaf.Poller.Kernel.{replay, change}
use libsaf.Poller.Interest.{IsSynced}
use libsaf.Poller.Session.{
  enable_read, enable_write, disable_all, Action, attaches, detaches, switches, run, run-IsSynced,
  legal,
}
use libsaf.Poller.Dispatch.{
  Flags, no_flags, Event, on_read, on_write, Handlers, handle_event, notify, notify_all, all_events,
  handle_event-notifies, poll, polls, Polled, polls-Polled, init_event_list,
}

-- A descriptor of no loop.
abbrev fresh : Watched
fresh = record {
  watcher = record { address = 640; fd = 5; events = no_events; status = new; looper = none };
  poller = record { fds = λ fd. none; controls = [] };
}

fresh-IsSynced : IsSynced 1 fresh
unfolding replay
fresh-IsSynced = record {
  kernel = λ fd. none;
  replayed = refl;
  interest = refl;
  known = refl;
  idle = refl;
  place = inr (refl, refl);
}

abbrev reads : Events
reads = record { read = true; write = false }

-- The same, in loop 1 and reading.
abbrev reader : Watched
reader = record {
  watcher = record { address = 640; fd = 5; events = reads; status = added; looper = some 1 };
  poller = record {
    fds = insert (λ fd. none) 5 (some 640);
    controls = record { operation = ctl_add; fd = 5; events = reads } ∷ [];
  };
}

reader-IsSynced : IsSynced 1 reader
unfolding replay
reader-IsSynced = record {
  kernel = change (λ fd. none) 5 (some reads);
  replayed = refl;
  interest = refl;
  known = refl;
  idle = refl;
  place = inl refl;
}

abbrev life : List Action
life =
    attaches
    ∷ switches enable_read
    ∷ switches enable_write
    ∷ switches disable_all
    ∷ switches enable_read
    ∷ detaches
    ∷ []

run-IsSynced_example : Returns (IsSynced 1) (run 1 life fresh)
unfolding legal
run-IsSynced_example = run-IsSynced 1 life fresh fresh-IsSynced refl

-- Handlers that only keep the record of their calls.
abbrev recorder : Handlers (List Event)
recorder = record {
  has_observer = λ w. true;
  observer = λ e w. w ++ e ∷ [];
  has_callback = λ e w. false;
  callback = λ e w. w;
}

abbrev in_out : Flags
in_out = record no_flags { pollin = true; pollout = true; pollhup = true }

in_out_calls : (handle_event recorder in_out []).world ≡ on_read ∷ on_write ∷ []
unfolding handle_event notify
in_out_calls = refl

handle_event-notifies_example :
    ((handle_event recorder in_out []).world ≡ notify_all recorder in_out all_events [])
    × ((handle_event recorder in_out []).revents ≡ no_flags)
    × ((handle_event recorder in_out []).handling ≡ false)
handle_event-notifies_example = handle_event-notifies recorder in_out []

-- Sixteen watchers are ready, twice.
abbrev sixteen : ℕ → List (ℕ × Flags)
sixteen n =
    let four = (5, in_out) ∷ (6, in_out) ∷ (7, in_out) ∷ (8, in_out) ∷ [] in
    four ++ four ++ four ++ four

polls-Polled_example :
    Polled init_event_list
      (polls init_event_list (sixteen ∷ sixteen ∷ []))
      sixteen
      (poll (polls init_event_list (sixteen ∷ sixteen ∷ [])) sixteen)
polls-Polled_example = polls-Polled init_event_list (sixteen ∷ sixteen ∷ []) sixteen
