-- ===== src/Logging/Line.antt =====
-- The line that `log` of src/base/Logging.cpp writes.
use libsaf.Common.{
  ℕ, zero, suc, ◌+◌, ◌%◌, ◌^◌, ◌≤◌, ◌<◌, ◌≡◌, ap, arith, List, [], ◌∷◌, ◌++◌, Returns, returns,
  Returns-bind, lt→ltb, length, length-append,
}
use libsaf.Decimal.{ℤ, pos}
use libsaf.AsyncLogger.{concat}
use libsaf.Logging.{
  LogLevel, debug, info, warn, error, fatal, log_level_name, codes, buffer_size, append_strings,
  Entry, append_function, line_of,
}
use libsaf.Logging.Grown.{Number, total, Grown, Grown-length, Grown-then, append_strings-Grown}
use libsaf.Logging.Parts.{
  error_pieces, IsCtime, time_pieces, place_pieces, function_pieces, append_error-Grown,
  append_time-Grown, append_place-Grown, append_function-Grown,
}

-- The line of an entry: its error number, the milliseconds and its line number are printed as the
-- three texts.
abbrev pub line_pieces :
    (ℤ → List ℕ) → Entry → List ℕ → ℕ → List ℕ → List ℕ → List ℕ → List (List ℕ)
line_pieces errno_to_string e clock n error_text ms_text line_text =
    (log_level_name e.level ∷ [])
    ++ error_pieces (errno_to_string (pos n)) n error_text
    ++ time_pieces clock ms_text
    ++ place_pieces e.file line_text
    ++ function_pieces e.function
    ++ codes ": " ∷ e.content ∷ codes "\n" ∷ []

pub record Assembled (errno_to_string : ℤ → List ℕ) (e : Entry) (n k : ℕ) (clock text : List ℕ)
    : Type 0 where
  pub error_text : List ℕ
  pub ms_text : List ℕ
  pub line_text : List ℕ
  pub error_number : Number n error_text
  pub ms_number : Number (e.ms % 1000) ms_text
  pub line_number : Number k line_text
  pub whole : text ≡ concat (line_pieces errno_to_string e clock n error_text ms_text line_text)

-- What an entry has to be for its line to be written whole: the numbers are not negative and fit 32
-- bits, and the texts fit the buffers.
pub record Fits (errno_to_string : ℤ → List ℕ) (e : Entry) (n k : ℕ) (clock : List ℕ) : Type 0 where
  pub error : e.error ≡ pos n
  pub line : e.line ≡ pos k
  pub error_small : n < 2 ^ 31
  pub line_small : k < 2 ^ 31
  pub time : IsCtime e.time_str clock
  pub content : length e.content < 1024
  pub room :
      length (errno_to_string (pos n))
        + length e.time_str
        + length e.file
        + total (function_pieces e.function)
        + 1300
      ≤ buffer_size

name-short : (l : LogLevel) → length (log_level_name l) ≤ 7
name-short debug = omega arith
name-short info = omega arith
name-short warn = omega arith
name-short error = omega arith
name-short fatal = omega arith

error-total :
    (message : List ℕ) (n : ℕ) (text : List ℕ)
    → total (error_pieces message n text) ≤ length message + length text + 11
error-total message zero text = omega arith
error-total message (suc n) text = omega arith

time-total :
    (time_str clock text : List ℕ)
    → IsCtime time_str clock
    → total (time_pieces clock text) ≤ length time_str + length text + 2
time-total time_str clock text t = omega (
  arith,
  ap (λ l. length l) t.layout,
  length-append (t.date ++ 32 ∷ clock) (32 ∷ t.year),
  length-append t.date (32 ∷ clock),
)

module _ (errno_to_string : ℤ → List ℕ) (e : Entry) (n k : ℕ) (clock : List ℕ) where
  abbrev ending : List (List ℕ)
  ending = codes ": " ∷ e.content ∷ codes "\n" ∷ []

  ending-Grown :
      (b : List ℕ)
      → length b + length e.content + 4 ≤ buffer_size
      → Grown ending b
          (append_strings (append_strings b (codes ": " ∷ [])) (e.content ∷ codes "\n" ∷ []))
  ending-Grown b room =
      let first = append_strings-Grown b (codes ": " ∷ []) (omega (arith, room)) in
      let second =
        append_strings-Grown (append_strings b (codes ": " ∷ [])) (e.content ∷ codes "\n" ∷ [])
          (omega (arith, room, Grown-length (codes ": " ∷ []) b _ first)) in
      Grown-then (codes ": " ∷ []) (e.content ∷ codes "\n" ∷ []) b _ _ first second

  first_size :
      (b t : List ℕ)
      → Number n t
      → Grown
          (error_pieces (errno_to_string (pos n)) n t)
          (append_strings [] (log_level_name e.level ∷ []))
          b
      → length b ≤ length (errno_to_string (pos n)) + 28
  first_size b t p g =
      let named =
        append_strings-Grown [] (log_level_name e.level ∷ []) (omega (arith, name-short e.level)) in
      omega (
        arith,
        name-short e.level,
        Grown-length (log_level_name e.level ∷ []) [] _ named,
        p.1,
        error-total (errno_to_string (pos n)) n t,
        Grown-length (error_pieces (errno_to_string (pos n)) n t) _ b g,
      )

  second_size :
      (b b' t : List ℕ)
      → Number (e.ms % 1000) t
      → Grown (time_pieces clock t) b b'
      → IsCtime e.time_str clock
      → length b' ≤ length b + length e.time_str + 12
  second_size b b' t p g c =
      omega (arith, p.1, time-total e.time_str clock t c, Grown-length (time_pieces clock t) b b' g)

  third_size :
      (b b' t : List ℕ)
      → Number k t
      → Grown (place_pieces e.file t) b b'
      → length b' ≤ length b + length e.file + 14
  third_size b b' t p g = omega (arith, p.1, Grown-length (place_pieces e.file t) b b' g)

  assembled :
      (b₁ b₂ b₃ t₁ t₂ t₃ : List ℕ)
      → Grown
          (error_pieces (errno_to_string (pos n)) n t₁)
          (append_strings [] (log_level_name e.level ∷ []))
          b₁
      → Grown (time_pieces clock t₂) b₁ b₂
      → Grown (place_pieces e.file t₃) b₂ b₃
      → length b₃ + total (function_pieces e.function) + length e.content + 4 ≤ buffer_size
      → append_strings
          (append_strings (append_function b₃ e.function) (codes ": " ∷ []))
          (e.content ∷ codes "\n" ∷ [])
        ≡ concat (line_pieces errno_to_string e clock n t₁ t₂ t₃)
  assembled b₁ b₂ b₃ t₁ t₂ t₃ g₁ g₂ g₃ room =
      let named =
        append_strings-Grown [] (log_level_name e.level ∷ []) (omega (arith, name-short e.level)) in
      let function = append_function-Grown b₃ e.function (omega (arith, room)) in
      let size = Grown-length (function_pieces e.function) b₃ _ function in
      let level : List (List ℕ) = log_level_name e.level ∷ [] in
      let errored = level ++ error_pieces (errno_to_string (pos n)) n t₁ in
      let timed = errored ++ time_pieces clock t₂ in
      let placed = timed ++ place_pieces e.file t₃ in
      let g₁ : Grown errored [] b₁ = Grown-then level _ [] _ b₁ named g₁ in
      let g₂ : Grown timed [] b₂ = Grown-then errored (time_pieces clock t₂) [] b₁ b₂ g₁ g₂ in
      let g₃ : Grown placed [] b₃ = Grown-then timed (place_pieces e.file t₃) [] b₂ b₃ g₂ g₃ in
      let g₄ : Grown (placed ++ function_pieces e.function) [] (append_function b₃ e.function) =
        Grown-then placed (function_pieces e.function) [] b₃ _ g₃ function in
      let ended = ending-Grown (append_function b₃ e.function) (omega (arith, size, room)) in
      Grown-then (placed ++ function_pieces e.function) ending [] _ _ g₄ ended

  pub line_of-Assembled :
      Fits errno_to_string e n k clock
      → Returns (Assembled errno_to_string e n k clock) (line_of errno_to_string e)
  unfolding line_of
  line_of-Assembled f =
      let named =
        append_strings-Grown [] (log_level_name e.level ∷ []) (omega (arith, name-short e.level)) in
      let named_size = Grown-length (log_level_name e.level ∷ []) [] _ named in
      let first =
        append_error-Grown errno_to_string (append_strings [] (log_level_name e.level ∷ [])) n
          f.error_small (omega (arith, f.room, named_size, name-short e.level)) in
      rw (f.error, f.line, lt→ltb _ _ f.content)
        (Returns-bind first λ b₁ (t₁, p₁, g₁).
          Returns-bind
            (append_time-Grown b₁ e.time_str clock e.ms f.time
              (omega (arith, f.room, first_size b₁ t₁ p₁ g₁)))
            λ b₂ (t₂, p₂, g₂).
              Returns-bind
                (append_place-Grown b₂ e.file k f.line_small (
                  omega (arith, f.room, first_size b₁ t₁ p₁ g₁, second_size b₁ b₂ t₂ p₂ g₂ f.time)))
                λ b₃ (t₃, p₃, g₃). returns (record {
                  error_text = t₁;
                  ms_text = t₂;
                  line_text = t₃;
                  error_number = p₁;
                  ms_number = p₂;
                  line_number = p₃;
                  whole = assembled b₁ b₂ b₃ t₁ t₂ t₃ g₁ g₂ g₃ (
                      omega (
                        arith,
                        f.room,
                        f.content,
                        first_size b₁ t₁ p₁ g₁,
                        second_size b₁ b₂ t₂ p₂ g₂ f.time,
                        third_size b₂ b₃ t₃ p₃ g₃,
                      ));
                }))
