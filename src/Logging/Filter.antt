-- ===== src/Logging/Filter.antt =====
-- What `log` of src/base/Logging.cpp hands to the logger.
use libsaf.Common.{
  ℕ, ◌≤◌, ◌<◌, ◌≡◌, refl, arith, Bool, false, List, Returns, returns, Returns-bind, Returns-if, ltb,
  leb, ltb→lt, ltb→le, Bool-cases, inl, inr, length,
}
use libsaf.Decimal.{ℤ}
use libsaf.AsyncLogger.{AsyncLogger, avail, append_line}
use libsaf.Logging.{LogLevel, to_int, buffer_size, Entry, log}
use libsaf.Logging.Line.{Fits, Assembled, line_of-Assembled}

-- The filter, the line, and whether the process goes on.
pub record Logged (errno_to_string : ℤ → List ℕ) (least : LogLevel) (l : AsyncLogger) (e : Entry)
    (n k : ℕ) (clock : List ℕ) (r : AsyncLogger × Bool) : Type 0 where
  pub dropped : to_int e.level < to_int least → r ≡ (l, false)
  pub written :
      to_int least ≤ to_int e.level
      → (text : List ℕ) × Assembled errno_to_string e n k clock text
        × (r ≡ (append_line buffer_size l text, leb 4 (to_int e.level)))
  pub unwritten : r.0.file ≡ l.file

append_line-file :
    (l : AsyncLogger) (text : List ℕ) → (append_line buffer_size l text).file ≡ l.file
unfolding append_line
append_line-file l text = elim (Bool-cases (leb (avail buffer_size l.current) (length text))) [
  | inl e ↦ rw e refl
  | inr e ↦ rw e refl
]

-- log() of an entry whose numbers are not negative and fit 32 bits, and whose texts fit the buffers,
-- with a time in the layout of `ctime`, does not fault. Below the least level it does nothing. From
-- it on it gives the logger one line: the level's name, the error's text and number if there is an
-- error, the clock with the milliseconds, the file, the line number, the function if it is named, and
-- the content, with the numbers in decimal, ended by a newline; and it aborts for FATAL alone. The file
-- has got nothing then, also when the process aborts.
pub log-Logged :
    (errno_to_string : ℤ → List ℕ) (least : LogLevel) (l : AsyncLogger) (e : Entry) (n k : ℕ)
    (clock : List ℕ)
    → Fits errno_to_string e n k clock
    → Returns (Logged errno_to_string least l e n k clock) (log errno_to_string least l e)
unfolding log
log-Logged errno_to_string least l e n k clock f =
    Returns-if (ltb (to_int e.level) (to_int least))
      (λ below. returns (record {
        dropped = λ _. refl;
        written = λ h. absurd (omega (arith, ltb→lt _ _ below, h));
        unwritten = refl;
      }))
      λ above. Returns-bind (line_of-Assembled errno_to_string e n k clock f) λ text a.
        returns (record {
          dropped = λ h. absurd (omega (arith, ltb→le _ _ above, h));
          written = λ _. (text, a, refl);
          unwritten = append_line-file l text;
        })
