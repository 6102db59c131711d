-- ===== src/Logging/Parts.antt =====
-- The parts of a line of `log` in src/base/Logging.cpp.
use libsaf.Common.{
  ℕ, zero, suc, ◌+◌, ◌-◌, ◌%◌, ◌^◌, ◌≤◌, ◌<◌, ◌≡◌, ◌≢◌, refl, sym, ap, ◌∙◌, arith, false, List, [],
  ◌∷◌, ◌++◌, append_assoc, append-nil, Option, none, some, ok, Returns, returns, Returns-inv, ◌==◌,
  ne→==, length, length-append, drop, take-append, drop-append,
}
use libsaf.Decimal.{ℤ, pos}
use libsaf.Decimal.RoundTrip.{convert-Printed}
use libsaf.AsyncLogger.{concat}
use libsaf.Logging.{
  codes, buffer_size, find_last_of, clock_of, append_time, append_place, append_function,
  append_error,
}
use libsaf.Logging.Grown.{Number, total, Grown, append_strings-Grown, enclosed-Grown}

-- The pieces of the error, printed as `text`.
abbrev pub error_pieces : List ℕ → ℕ → List ℕ → List (List ℕ)
error_pieces message zero text = []
error_pieces message (suc n) text = codes " " ∷ message ∷ codes " errno(" ∷ text ∷ codes ") -" ∷ []

pub append_error-Grown :
    (errno_to_string : ℤ → List ℕ) (b : List ℕ) (n : ℕ)
    → n < 2 ^ 31
    → length b + length (errno_to_string (pos n)) + 60 ≤ buffer_size
    → Returns
        (λ b'.
          (text : List ℕ) × Number n text
          × Grown (error_pieces (errno_to_string (pos n)) n text) b b')
        (append_error errno_to_string b (pos n))
unfolding append_error concat
append_error-Grown errno_to_string b zero small room =
    let (text, _, p) = Returns-inv (convert-Printed zero) in
    returns (text, (p, p.width 9 (omega arith)), sym (append-nil b))
append_error-Grown errno_to_string b (suc n) small room =
    enclosed-Grown b (codes " " ∷ errno_to_string (pos (suc n)) ∷ codes " errno(" ∷ [])
      (codes ") -" ∷ []) (suc n) small (omega (arith, room))

abbrev NoSpace : List ℕ → Type 0
NoSpace [] = Unit {0}
NoSpace (c ∷ cs) = (c ≢ 32) × NoSpace cs

find_last_of-none : (cs : List ℕ) → NoSpace cs → find_last_of cs ≡ none
unfolding find_last_of
find_last_of-none [] h = refl
find_last_of-none (c ∷ cs) (ne, h) = rw (find_last_of-none cs h, ne→== c 32 ne) refl

find_last_of-append :
    (before cs : List ℕ) → NoSpace cs → find_last_of (before ++ 32 ∷ cs) ≡ some (length before)
unfolding find_last_of
find_last_of-append [] cs h = rw (find_last_of-none cs h) refl
find_last_of-append (b ∷ before) cs h = rw (find_last_of-append before cs h) (ap some (omega arith))

-- The text of `ctime`: the clock stands between the last two spaces.
pub record IsCtime (time_str clock : List ℕ) : Type 0 where
  pub date : List ℕ
  pub year : List ℕ
  pub layout : time_str ≡ (date ++ 32 ∷ clock) ++ 32 ∷ year
  pub clock_whole : NoSpace clock
  pub year_whole : NoSpace year

abbrev pub time_pieces : List ℕ → List ℕ → List (List ℕ)
time_pieces clock text = (32 ∷ clock) ∷ codes ":" ∷ text ∷ codes " " ∷ []

clock_of-clock :
    (date clock year : List ℕ)
    → NoSpace clock
    → NoSpace year
    → clock_of ((date ++ 32 ∷ clock) ++ 32 ∷ year) ≡ ok (32 ∷ clock)
unfolding clock_of
clock_of-clock date clock year whole whole_year =
    let front = date ++ 32 ∷ clock in
    let size = length-append date (32 ∷ clock) in
    let end_ne : (length front == 0) ≡ false = ne→== _ _ (λ e. absurd (omega (arith, e, size))) in
    let cut : drop (length date) (front ++ 32 ∷ year) ≡ 32 ∷ clock ++ 32 ∷ year =
      ap (drop (length date)) (append_assoc date (32 ∷ clock) (32 ∷ year))
      ∙ drop-append (length date) date _ refl in
    rw
      (
        find_last_of-append front year whole_year,
        end_ne,
        take-append (length front) front (32 ∷ year) refl,
        find_last_of-append date clock whole,
        cut,
      )
      (ap ok
        (take-append (length front - length date) (32 ∷ clock) (32 ∷ year) (omega (arith, size))))

pub append_time-Grown :
    (b time_str clock : List ℕ) (ms : ℕ)
    → IsCtime time_str clock
    → length b + length time_str + 60 ≤ buffer_size
    → Returns
        (λ b'. (text : List ℕ) × Number (ms % 1000) text × Grown (time_pieces clock text) b b')
        (append_time b time_str ms)
unfolding append_time
append_time-Grown b time_str clock ms t room =
    let clock_found : clock_of time_str ≡ ok (32 ∷ clock) =
      ap clock_of t.layout ∙ clock_of-clock t.date clock t.year t.clock_whole t.year_whole in
    let size : length clock < length time_str = omega (
      arith,
      ap (λ l. length l) t.layout,
      length-append (t.date ++ 32 ∷ clock) (32 ∷ t.year),
      length-append t.date (32 ∷ clock),
    ) in
    rw clock_found (
      enclosed-Grown b ((32 ∷ clock) ∷ codes ":" ∷ []) (codes " " ∷ []) (ms % 1000) (omega arith)
        (omega (arith, size, room)))

abbrev pub place_pieces : List ℕ → List ℕ → List (List ℕ)
place_pieces file text = codes "- " ∷ file ∷ codes "(" ∷ text ∷ codes ")" ∷ []

pub append_place-Grown :
    (b file : List ℕ) (n : ℕ)
    → n < 2 ^ 31
    → length b + length file + 60 ≤ buffer_size
    → Returns
        (λ b'. (text : List ℕ) × Number n text × Grown (place_pieces file text) b b')
        (append_place b file (pos n))
unfolding append_place
append_place-Grown b file n small room =
    enclosed-Grown b (codes "- " ∷ file ∷ codes "(" ∷ []) (codes ")" ∷ []) n small
      (omega (arith, room))

abbrev pub function_pieces : Option (List ℕ) → List (List ℕ)
function_pieces none = []
function_pieces (some function) = codes " - " ∷ function ∷ []

pub append_function-Grown :
    (b : List ℕ) (function : Option (List ℕ))
    → length b + total (function_pieces function) < buffer_size
    → Grown (function_pieces function) b (append_function b function)
unfolding concat
append_function-Grown b none room = sym (append-nil b)
append_function-Grown b (some function) room =
    append_strings-Grown b (codes " - " ∷ function ∷ []) room
