-- ===== src/AsyncLogger/Stopping.antt =====
-- What is lost when the logger of src/base/AsyncLogger.cpp is stopped.
use libsaf.Common.{
  ℕ, ◌≡◌, ◌≢◌, refl, sym, ap₂, ◌∙◌, false, List, [], ◌∷◌, ◌++◌, append-nil, ok, Returns, returns,
  Returns-map, Returns-bind,
}
use libsaf.AsyncLogger.{
  AsyncLogger, Phase, resting, waiting, holding, ended, test_running, write_buffers, concat, stop,
  proceed, Event, logs, proceeds, stops, step, run,
}
use libsaf.AsyncLogger.Delivery.{append_line-Untouched}

-- A stopped logger whose thread has not gone into another round: it has left its loop, or is before the
-- test of its loop, or still writes what it has taken.
pub record IsStopped (l : AsyncLogger) : Type 0 where
  pub running : l.running ≡ false
  pub past : l.phase ≢ waiting

-- What the file has got and is about to get.
abbrev pub taken : AsyncLogger → List ℕ
taken l = l.file ++ concat l.writing

-- A stopped logger that has taken what `l` has.
pub record Idle (l l' : AsyncLogger) : Type 0 where
  pub stopped : IsStopped l'
  pub taken : taken l' ≡ taken l

test_running-ended :
    (l : AsyncLogger) → l.running ≡ false → test_running l ≡ ok (record l { phase = ended })
unfolding test_running
test_running-ended l e = rw e refl

taken-write_buffers : (l : AsyncLogger) → taken (write_buffers l) ≡ taken l
unfolding write_buffers concat
taken-write_buffers l = append-nil (l.file ++ concat l.writing)

write_buffers-IsStopped : (l : AsyncLogger) → IsStopped l → IsStopped (write_buffers l)
unfolding write_buffers
write_buffers-IsStopped l s = record { running = s.running; past = λ e. cc }

proceed-Idle :
    (p : Phase) (l : AsyncLogger) → p ≡ l.phase → IsStopped l → Returns (Idle l) (proceed p l)
unfolding proceed
proceed-Idle resting l e s =
    rw (test_running-ended l s.running)
      (returns (record { stopped = record { running = s.running; past = λ e. cc }; taken = refl }))
proceed-Idle waiting l e s = absurd (s.past (sym e))
proceed-Idle holding l e s =
    returns (record { stopped = write_buffers-IsStopped l s; taken = taken-write_buffers l })
proceed-Idle ended l e s = returns (record { stopped = s; taken = refl })

step-Idle :
    (size : ℕ) (l : AsyncLogger) (e : Event) → IsStopped l → Returns (Idle l) (step size l e)
unfolding step stop
step-Idle size l (logs line) s =
    let u = append_line-Untouched size l line in
    returns (record {
      stopped = record { running = u.running ∙ s.running; past = λ e. s.past (sym u.phase ∙ e) };
      taken = ap₂ (λ f w. f ++ concat w) u.file u.writing;
    })
step-Idle size l proceeds s = proceed-Idle l.phase l refl s
step-Idle size l stops s =
    returns (record { stopped = record { running = refl; past = s.past }; taken = refl })

-- Once a logger has been stopped while its thread is not between the test of its loop and the swap of
-- the buffers, whatever the threads do, the file gets no more than what the thread had taken to write:
-- the lines that wait in the logger's buffers then, and all later ones, are lost.
pub run-stopped :
    (size : ℕ) (l : AsyncLogger) (es : List Event) → IsStopped l → Returns (Idle l) (run size l es)
unfolding run
run-stopped size l [] s = returns (record { stopped = s; taken = refl })
run-stopped size l (e ∷ es) s = Returns-bind (step-Idle size l e s) λ l₁ i.
    Returns-map (run-stopped size l₁ es i.stopped)
      λ l' j. record { stopped = j.stopped; taken = j.taken ∙ i.taken }
