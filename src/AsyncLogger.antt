-- ===== src/AsyncLogger.antt =====
-- src/base/AsyncLogger.h and src/base/AsyncLogger.cpp: FixedBuffer, and the logger whose thread writes
-- full buffers to a file.
--
-- A buffer is the bytes that it holds, of at most `size`, the template's SIZE. `spare` is the
-- thread's emptyBuffer: after a swap it is the buffer that is also the last of `writing`. append() and
-- the swap hold the lock, `running` is atomic, and `spare`, `writing` and `file` are the thread's own,
-- so what the threads do is a sequence of events. `file` is what the file has been given. How long the
-- thread waits is not modelled.
pub mod Delivery
pub mod Stopping
mod Tests
use libsaf.Common.{
  ℕ, ◌+◌, ◌-◌, ◌≤◌, ◌≡◌, Bool, true, false, not, List, [], ◌∷◌, ◌++◌, Result, ok, fault, assert,
  ◌>>=◌, ltb, leb, if◌then◌else◌, length,
}

module _ (size : ℕ) where
  -- FixedBuffer: what does not fit is dropped.
  unfoldable pub avail : List ℕ → ℕ
  avail buffer = size - length buffer

  unfoldable pub buffer_append : List ℕ → List ℕ → List ℕ
  buffer_append buffer line = if ltb (length line) (avail buffer) then buffer ++ line else buffer

-- Where the thread is: before the test of its loop, in the wait for the lock and the condition, with
-- buffers to write, or past its loop.
pub data Phase : Type 0 where
  resting waiting holding ended : Phase

pub record AsyncLogger : Type 0 where
  pub running : Bool
  pub phase : Phase
  pub current : List ℕ
  pub buffers : List (List ℕ)
  pub spare : List ℕ
  pub writing : List (List ℕ)
  pub file : List ℕ

unfoldable pub init : AsyncLogger
init = record {
  running = false;
  phase = ended;
  current = [];
  buffers = [];
  spare = [];
  writing = [];
  file = [];
}

abbrev pub is_empty : List (List ℕ) → Bool
is_empty [] = true
is_empty (_ ∷ _) = false

unfoldable pub concat : List (List ℕ) → List ℕ
concat [] = []
concat (b ∷ bs) = b ++ concat bs

module _ (size : ℕ) where
  unfoldable pub append_line : AsyncLogger → List ℕ → AsyncLogger
  append_line l line =
      let turned = record l {
        buffers = l.buffers ++ l.current ∷ [];
        current = buffer_append size [] line;
      } in
      let kept = record l { current = buffer_append size l.current line } in
      if leb (avail size l.current) (length line) then turned else kept

-- threadFunc: the test of the loop, with the assertion behind it.
unfoldable pub test_running : AsyncLogger → Result AsyncLogger
test_running l =
    if l.running
    then assert (is_empty l.writing) (ok (record l { phase = waiting }))
    else ok (record l { phase = ended })

-- The swap under the lock, after the wait, whether the logger still runs or not.
unfoldable pub take_buffers : AsyncLogger → AsyncLogger
take_buffers l = record l {
  phase = holding;
  writing = l.buffers ++ l.current ∷ [];
  buffers = [];
  current = l.spare;
  spare = l.current;
}

-- The rest of a round.
unfoldable pub write_buffers : AsyncLogger → AsyncLogger
write_buffers l = record l {
  phase = resting;
  file = l.file ++ concat l.writing;
  spare = [];
  writing = [];
}

unfoldable pub start : AsyncLogger → Result AsyncLogger
start l = assert (not l.running) (ok (record l { running = true; phase = resting }))

-- stop() before it joins the thread
unfoldable pub stop : AsyncLogger → AsyncLogger
stop l = record l { running = false }

-- What the threads do: a line of some thread, the next step of the logger's own, and stop().
pub data Event : Type 0 where
  logs : List ℕ → Event
  proceeds stops : Event

-- The next step of the logger's thread.
unfoldable pub proceed : Phase → AsyncLogger → Result AsyncLogger
proceed resting l = test_running l
proceed waiting l = ok (take_buffers l)
proceed holding l = ok (write_buffers l)
proceed ended l = ok l

module _ (size : ℕ) where
  unfoldable pub step : AsyncLogger → Event → Result AsyncLogger
  step l (logs line) = ok (append_line size l line)
  step l proceeds = proceed l.phase l
  step l stops = ok (stop l)

  unfoldable pub run : AsyncLogger → List Event → Result AsyncLogger
  run l [] = ok l
  run l (e ∷ es) = step l e >>= λ l'. run l' es
