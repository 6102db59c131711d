-- ===== src/Decimal.antt =====
-- `convert` of src/base/Logging.cpp: an integer in decimal.
--
-- `T` is a signed integer; that its value fits is a hypothesis where it matters. The array of digits
-- has eleven characters, the last of them the terminator.
pub mod RoundTrip
pub use libsaf.Common.{ℤ, pos, negsuc}
use libsaf.Common.{
  ℕ, zero, suc, ◌+◌, ◌*◌, ◌/◌, ◌%◌, ◌^◌, ◌≤◌, ◌<◌, ◌≡◌, refl, sym, ap, ◌∙◌, arith, Bool, true,
  false, List, [], ◌∷◌, ◌++◌, reverse, Option, none, some, Result, ok, fault, out_of_bounds,
  out_of_fuel, or_fault, ◌>>=◌, Returns, returns, Returns-bind, Returns-map, if◌then◌else◌, length,
  get_elem?, length-append, length-reverse,
}

abbrev pub negative : ℕ → ℤ
negative zero = pos 0
negative (suc n) = negsuc n

-- The quotient and the remainder of C++, which round to zero.
abbrev pub tenth : ℤ → ℤ
tenth (pos n) = pos (n / 10)
tenth (negsuc n) = negative ((n + 1) / 10)

abbrev pub last_digit : ℤ → ℤ
last_digit (pos n) = pos (n % 10)
last_digit (negsuc n) = negative ((n + 1) % 10)

abbrev pub is_zero : ℤ → Bool
is_zero (pos zero) = true
is_zero (pos (suc n)) = false
is_zero (negsuc n) = false

abbrev pub is_negative : ℤ → Bool
is_negative (pos n) = false
is_negative (negsuc n) = true

abbrev digits : List ℕ
digits = 48 ∷ 49 ∷ 50 ∷ 51 ∷ 52 ∷ 53 ∷ 54 ∷ 55 ∷ 56 ∷ 57 ∷ 0 ∷ []

-- digits[lsd]
unfoldable pub digit_of : ℤ → Result ℕ
digit_of (pos n) = or_fault (get_elem? digits n) out_of_bounds
digit_of (negsuc n) = fault out_of_bounds

abbrev pub magnitude : ℤ → ℕ
magnitude (pos n) = n
magnitude (negsuc n) = n + 1

-- The characters in the order of the loop, the last digit first.
unfoldable pub convert_loop : ℕ → ℤ → Result (List ℕ)
convert_loop zero i = fault out_of_fuel
convert_loop (suc fuel) i =
    let more = convert_loop fuel (tenth i) in
    do d ← digit_of (last_digit i); ds ← if is_zero (tenth i) then ok [] else more; ok (d ∷ ds)

unfoldable pub convert : ℤ → Result (List ℕ)
unfolding convert_loop
convert value = convert_loop (magnitude value + 1) value >>= λ ds.
    ok (reverse (if is_negative value then ds ++ 45 ∷ [] else ds))
