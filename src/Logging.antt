-- ===== src/Logging.antt =====
-- src/base/Logging.h and src/base/Logging.cpp: the function log, over the asynchronous logger of
-- src/base/AsyncLogger.cpp.
--
-- The texts of `strerror_r`, `ctime` and `vsprintf` are arguments: the first a function of the error,
-- the others fields of the entry, with the milliseconds of the clock. A text is the list of its
-- characters, without the terminator.
pub mod Grown
pub mod Parts
pub mod Line
pub mod Filter
mod Tests
use Prim.Native.Char.{code}
use Prim.Native.String.{String}
use libsaf.Common.{
  ℕ, ◌+◌, ◌-◌, ◌*◌, ◌%◌, ◌≡◌, Bool, true, false, List, [], ◌∷◌, ◌++◌, Option, none, some, Result,
  ok, fault, out_of_bounds, or_fault, ◌>>=◌, ltb, leb, ◌==◌, if◌then◌else◌, length, take, drop,
}
use libsaf.Decimal.{ℤ, pos, is_zero, convert}
use libsaf.AsyncLogger.{AsyncLogger, avail, buffer_append, append_line}

-- The characters of a literal.
abbrev pub codes : String → List ℕ
codes String.[] = []
codes (String.◌∷◌ c s) = code c ∷ codes s

pub data LogLevel : Type 0 where
  debug info warn error fatal : LogLevel

abbrev pub to_int : LogLevel → ℕ
to_int debug = 0
to_int info = 1
to_int warn = 2
to_int error = 3
to_int fatal = 4

abbrev pub log_level_name : LogLevel → List ℕ
log_level_name debug = codes "DEBUG -"
log_level_name info = codes "INFO -"
log_level_name warn = codes "WARN -"
log_level_name error = codes "ERROR -"
log_level_name fatal = codes "FATAL -"

-- LoggerBuffer, whose size is also that of the logger's buffers
abbrev pub buffer_size : ℕ
buffer_size = 128 * 1024

abbrev pub max_numeric_size : ℕ
max_numeric_size = 32

abbrev pub content_size : ℕ
content_size = 1024

unfoldable pub append_integer : List ℕ → ℤ → Result (List ℕ)
append_integer buffer v =
    if leb max_numeric_size (avail buffer_size buffer)
    then (convert v >>= λ text. ok (buffer ++ text))
    else ok buffer

-- Calls of appendString, one after the other.
unfoldable pub append_strings : List ℕ → List (List ℕ) → List ℕ
append_strings buffer [] = buffer
append_strings buffer (s ∷ ss) = append_strings (buffer_append buffer_size buffer s) ss

-- `find_last_of` of a space; `none` is `npos`.
unfoldable pub find_last_of : List ℕ → Option ℕ
find_last_of [] = none
find_last_of (c ∷ cs) = later (find_last_of cs)
  where
    later : Option ℕ → Option ℕ
    later (some i) = some (i + 1)
    later none = if c == 32 then some 0 else none

-- `rfind` of a space up to the position before `end_pos`, which is `npos` for 0.
abbrev pub rfind : List ℕ → ℕ → Option ℕ
rfind s end_pos = if end_pos == 0 then find_last_of s else find_last_of (take end_pos s)

-- What append_time takes of the text of `ctime`.
unfoldable pub clock_of : List ℕ → Result (List ℕ)
clock_of time_str = do
  end_pos ← or_fault (find_last_of time_str) out_of_bounds
  star_pos ← or_fault (rfind time_str end_pos) out_of_bounds
  ok (take (end_pos - star_pos) (drop star_pos time_str))

unfoldable pub append_time : List ℕ → List ℕ → ℕ → Result (List ℕ)
append_time buffer time_str ms = do
  clock ← clock_of time_str
  timed ← append_integer (append_strings buffer (clock ∷ codes ":" ∷ [])) (pos (ms % 1000))
  ok (append_strings timed (codes " " ∷ []))

-- The arguments of a call, and what the call reads of the system.
pub record Entry : Type 0 where
  pub level : LogLevel
  pub file : List ℕ
  pub line : ℤ
  pub function : Option (List ℕ)
  pub error : ℤ
  pub content : List ℕ
  pub time_str : List ℕ
  pub ms : ℕ

unfoldable pub append_place : List ℕ → List ℕ → ℤ → Result (List ℕ)
append_place buffer file line = do
  lined ← append_integer (append_strings buffer (codes "- " ∷ file ∷ codes "(" ∷ [])) line
  ok (append_strings lined (codes ")" ∷ []))

abbrev pub append_function : List ℕ → Option (List ℕ) → List ℕ
append_function buffer none = buffer
append_function buffer (some function) = append_strings buffer (codes " - " ∷ function ∷ [])

-- `vsprintf` into the array `content`, which also has to hold the terminator.
abbrev pub formatted : List ℕ → Result (List ℕ)
formatted content = if ltb (length content) content_size then ok content else fault out_of_bounds

module _ (errno_to_string : ℤ → List ℕ) where
  unfoldable pub append_error : List ℕ → ℤ → Result (List ℕ)
  append_error buffer e =
      let numbered =
        append_integer
          (append_strings buffer (codes " " ∷ errno_to_string e ∷ codes " errno(" ∷ [])) e in
      if is_zero e then ok buffer else numbered >>= λ b. ok (append_strings b (codes ") -" ∷ []))

  -- The line, in the buffer of the thread.
  unfoldable pub line_of : Entry → Result (List ℕ)
  line_of e = do
    errored ← append_error (append_strings [] (log_level_name e.level ∷ [])) e.error
    timed ← append_time errored e.time_str e.ms
    placed ← append_place timed e.file e.line
    let headed = append_strings (append_function placed e.function) (codes ": " ∷ [])
    content ← formatted e.content
    ok (append_strings headed (content ∷ codes "\n" ∷ []))

  -- log(): the logger afterwards, and whether the process aborts.
  unfoldable pub log : LogLevel → AsyncLogger → Entry → Result (AsyncLogger × Bool)
  log least l e =
      let written = line_of e >>= λ text.
      ok (append_line buffer_size l text, leb (to_int fatal) (to_int e.level)) in
      if ltb (to_int e.level) (to_int least) then ok (l, false) else written
