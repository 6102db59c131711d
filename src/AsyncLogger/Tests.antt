-- ===== src/AsyncLogger/Tests.antt =====
-- Runs of the logger with buffers of eight bytes, and the theorems there.
use libsaf.Common.{ℕ, ◌++◌, ◌≡◌, refl, true, false, List, [], ◌∷◌, ok, Returns}
use libsaf.AsyncLogger.{
  AsyncLogger, resting, ended, Event, logs, proceeds, stops, run, step, proceed, test_running,
  take_buffers, write_buffers, append_line, buffer_append, avail, stop, concat,
}
use libsaf.AsyncLogger.Delivery.{content, logged, run-Delivered}
use libsaf.AsyncLogger.Stopping.{Idle, run-stopped}

abbrev started : AsyncLogger
started = record {
  running = true;
  phase = resting;
  current = [];
  buffers = [];
  spare = [];
  writing = [];
  file = [];
}

abbrev abc : List ℕ
abc = 97 ∷ 98 ∷ 99 ∷ []

-- The third line of a buffer turns it.
abbrev lines : List Event
lines =
    logs abc
    ∷ logs abc
    ∷ proceeds
    ∷ proceeds
    ∷ logs abc
    ∷ logs abc
    ∷ logs abc
    ∷ proceeds
    ∷ proceeds
    ∷ stops
    ∷ proceeds
    ∷ proceeds
    ∷ []

run-Delivered_example :
    Returns (λ l. content l ≡ content started ++ logged 8 lines) (run 8 started lines)
run-Delivered_example = run-Delivered 8 started lines (record { writing = refl; spare = refl })

-- A stop() during the wait lets the thread write all that waits.
waited :
    run 8 started (logs abc ∷ proceeds ∷ stops ∷ proceeds ∷ proceeds ∷ proceeds ∷ [])
    ≡ ok (record started { running = false; phase = ended; file = abc })
unfolding run step proceed test_running take_buffers write_buffers append_line buffer_append avail
    stop concat
waited = refl

-- One between two rounds does not.
abbrev stopped : AsyncLogger
stopped = record started { running = false; current = abc }

run-stopped_example : Returns (Idle stopped) (run 8 stopped (proceeds ∷ proceeds ∷ []))
run-stopped_example =
    run-stopped 8 stopped (proceeds ∷ proceeds ∷ []) (record { running = refl; past = λ e. cc })
