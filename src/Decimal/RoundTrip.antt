-- ===== src/Decimal/RoundTrip.antt =====
-- What `convert` of src/base/Logging.cpp prints, and when it cannot.
use libsaf.Common.{
  ℕ, zero, suc, ◌+◌, ◌-◌, ◌*◌, ◌/◌, ◌%◌, ◌^◌, ◌≤◌, ◌<◌, ◌≡◌, ◌⊎◌, inl, inr, refl, sym, ap, subst,
  ◌∙◌, arith, false, List, [], ◌∷◌, ◌++◌, reverse, Result, ok, fault, out_of_bounds, Returns,
  returns, Returns-bind, length, length-reverse, ℕ_discrete,
}
use mathlib.Core.List.{reverse-cons}
use libsaf.Decimal.{ℤ, is_zero, magnitude, pos, negsuc, digit_of, convert_loop, convert}

-- Reading a number from the left, after `seen`.
unfoldable pub read_decimal : ℕ → List ℕ → ℕ
read_decimal seen [] = seen
read_decimal seen (c ∷ cs) = read_decimal (seen * 10 + (c - 48)) cs

abbrev pub AreDigits : List ℕ → Type 0
AreDigits [] = Unit {0}
AreDigits (c ∷ cs) = (48 ≤ c) × (c ≤ 57) × AreDigits cs

read_decimal-append :
    (seen : ℕ) (cs : List ℕ) (c : ℕ)
    → read_decimal seen (cs ++ c ∷ []) ≡ read_decimal seen cs * 10 + (c - 48)
unfolding read_decimal
read_decimal-append seen [] c = refl
read_decimal-append seen (d ∷ cs) c = read_decimal-append (seen * 10 + (d - 48)) cs c

digit_of-pos : (n : ℕ) → n < 10 → digit_of (pos n) ≡ ok (n + 48)
unfolding digit_of
digit_of-pos zero h = refl
digit_of-pos (suc zero) h = refl
digit_of-pos (suc (suc zero)) h = refl
digit_of-pos (suc (suc (suc zero))) h = refl
digit_of-pos (suc (suc (suc (suc zero)))) h = refl
digit_of-pos (suc (suc (suc (suc (suc zero))))) h = refl
digit_of-pos (suc (suc (suc (suc (suc (suc zero)))))) h = refl
digit_of-pos (suc (suc (suc (suc (suc (suc (suc zero))))))) h = refl
digit_of-pos (suc (suc (suc (suc (suc (suc (suc (suc zero)))))))) h = refl
digit_of-pos (suc (suc (suc (suc (suc (suc (suc (suc (suc zero))))))))) h = refl
digit_of-pos (suc (suc (suc (suc (suc (suc (suc (suc (suc (suc n)))))))))) h = absurd (omega arith)

append-AreDigits : (cs : List ℕ) (c : ℕ) → AreDigits cs → 48 ≤ c → c ≤ 57 → AreDigits (cs ++ c ∷ [])
append-AreDigits [] c h low high = (low, high, tt)
append-AreDigits (d ∷ cs) c (l, g, h) low high = (l, g, append-AreDigits cs c h low high)

-- The characters of the loop are those of the number, the last digit first.
record Looped (n : ℕ) (ds : List ℕ) : Type 0 where
  value : read_decimal 0 (reverse ds) ≡ n
  digits : AreDigits (reverse ds)
  width : (k : ℕ) → n < 10 ^ suc k → length ds ≤ suc k
  some_digit : 0 < length ds

last-Looped : (n : ℕ) → n < 10 → Looped n ((n + 48) ∷ [])
unfolding read_decimal
last-Looped n h = record {
  value = omega arith;
  digits = (omega arith, omega (arith, h), tt);
  width = λ k l. omega arith;
  some_digit = omega arith;
}

more-width :
    (n : ℕ) (ds : List ℕ)
    → 10 ≤ n
    → ((k : ℕ) → n / 10 < 10 ^ suc k → length ds ≤ suc k)
    → (k : ℕ) → n < 10 ^ suc k
    → suc (length ds) ≤ suc k
more-width n ds many h zero l = absurd (omega arith)
more-width n ds many h (suc k) l =
    let fewer : n / 10 < 10 ^ suc k = omega (arith, l) in omega (arith, h k fewer)

more-Looped : (n : ℕ) (ds : List ℕ) → Looped (n / 10) ds → 10 ≤ n → Looped n ((n % 10 + 48) ∷ ds)
more-Looped n ds h many = record {
  value =
      ap (read_decimal 0) (reverse-cons (n % 10 + 48) ds)
      ∙ read_decimal-append 0 (reverse ds) (n % 10 + 48)
      ∙ omega (arith, h.value);
  digits =
      subst AreDigits (sym (reverse-cons (n % 10 + 48) ds))
        (append-AreDigits (reverse ds) (n % 10 + 48) h.digits (omega arith) (omega arith));
  width = more-width n ds many h.width;
  some_digit = omega arith;
}

is_zero-pos : (n : ℕ) → 0 < n → is_zero (pos n) ≡ false
is_zero-pos zero h = absurd (omega arith)
is_zero-pos (suc n) h = refl

convert_loop-Looped : (fuel n : ℕ) → n < fuel → Returns (Looped n) (convert_loop fuel (pos n))
unfolding convert_loop
convert_loop-Looped zero n h = absurd (omega arith)
convert_loop-Looped (suc fuel) n h = elim (ℕ_discrete (n / 10) 0) [
  | yes e ↦
      let small : n % 10 ≡ n = omega (arith, e) in
      rw (e, small, digit_of-pos n (omega (arith, e))) (returns (last-Looped n (omega (arith, e))))
  | no ne ↦
      let many : 10 ≤ n = omega (arith, ne) in
      let before = convert_loop-Looped fuel (n / 10) (omega (arith, many, h)) in
      rw (is_zero-pos (n / 10) (omega (arith, many)), digit_of-pos (n % 10) (omega arith))
        (Returns-bind before λ ds l. returns (more-Looped n ds l many))
]

-- What is printed for a number.
pub record Printed (n : ℕ) (text : List ℕ) : Type 0 where
  pub value : read_decimal 0 text ≡ n
  pub digits : AreDigits text
  pub width : (k : ℕ) → n < 10 ^ suc k → length text ≤ suc k
  pub some_digit : 0 < length text

pub convert-Printed : (n : ℕ) → Returns (Printed n) (convert (pos n))
unfolding convert
convert-Printed n = Returns-bind (convert_loop-Looped (n + 1) n (omega arith)) λ ds l.
    returns (record {
      value = l.value;
      digits = l.digits;
      width = λ k h. omega (arith, length-reverse ds, l.width k h);
      some_digit = omega (arith, length-reverse ds, l.some_digit);
    })

zero_or_suc : (n : ℕ) → (n ≡ 0) ⊎ ((m : ℕ) × (n ≡ suc m))
zero_or_suc zero = inl refl
zero_or_suc (suc m) = inr (m, refl)

convert_loop-negsuc : (fuel n : ℕ) → n < fuel → convert_loop fuel (negsuc n) ≡ fault out_of_bounds
unfolding convert_loop digit_of
convert_loop-negsuc zero n h = absurd (omega arith)
convert_loop-negsuc (suc fuel) n h = elim (zero_or_suc ((n + 1) % 10)) [
  | inr (r, e) ↦ rw e refl
  | inl e ↦ elim (zero_or_suc ((n + 1) / 10)) [
    | inl none_left ↦ absurd (omega (arith, e, none_left))
    | inr (m, more) ↦ rw (e, more, convert_loop-negsuc fuel m (omega (arith, e, more, h))) refl
  ]
]

convert-negsuc : (n : ℕ) → convert (negsuc n) ≡ fault out_of_bounds
unfolding convert
convert-negsuc n = rw (convert_loop-negsuc (magnitude (negsuc n) + 1) n (omega arith)) refl

-- How the conversion ends.
abbrev pub Converted : ℤ → Result (List ℕ) → Type 0
Converted (pos n) r = Returns (Printed n) r
Converted (negsuc n) r = r ≡ fault out_of_bounds

-- convert() of every number that is not negative ends, without a fault, with decimal digits that read
-- back as the number, and no more digits than it needs. No negative number can be printed: the loop takes
-- the character of a negative remainder from the table of digits, which has none there.
pub convert-Converted : (value : ℤ) → Converted value (convert value)
convert-Converted (pos n) = convert-Printed n
convert-Converted (negsuc n) = convert-negsuc n
