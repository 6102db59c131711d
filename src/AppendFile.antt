-- ===== src/AppendFile.antt =====
-- AppendFile of src/base/FileUtils.h and src/base/FileUtils.cpp: a file that is written at its end.
--
-- `answers k` is what the k-th call of `fwrite` takes, of what it is given; `file` is what the
-- stream has been given. `written_bytes` is a signed integer of 32 bits, by its bit pattern. What
-- is printed on an error is not modelled.
mod Tests
use libsaf.Common.{
  ℕ, zero, suc, ◌+◌, ◌%◌, ◌^◌, ◌≤◌, ◌<◌, ◌≡◌, ◌≢◌, refl, sym, ap, ◌∙◌, arith, min, Bool, true,
  false, Bool-cases, inl, inr, List, [], ◌∷◌, ◌++◌, append_assoc, append-nil, Result, ok, fault,
  out_of_fuel, ◌>>=◌, Returns, returns, Returns-bind, Returns-map, Returns-if, ◌==◌, ==→eq,
  if◌then◌else◌, length, take, drop, length-take, length-append, length-drop, take-append,
  take-append-drop,
}

pub record AppendFile : Type 0 where
  pub file : List ℕ
  pub written_bytes : ℕ

module _ (answers : ℕ → ℕ) where
  -- The number of bytes that the call takes.
  abbrev pub write : ℕ → List ℕ → ℕ
  write k line = min (answers k) (length line)

  abbrev pub put : AppendFile → ℕ → List ℕ → AppendFile
  put f x line = record f { file = f.file ++ take x line }

  -- The rounds from the k-th call on, with what remains of the line.
  unfoldable pub append_loop : ℕ → ℕ → AppendFile → List ℕ → Result AppendFile
  append_loop zero k f remain = fault out_of_fuel
  append_loop (suc fuel) k f remain =
      let x = write k remain in
      let more = append_loop fuel (k + 1) (put f x remain) (drop x remain) in
      if length remain == 0 then ok f else if x == 0 then ok f else more

  unfoldable pub append : AppendFile → List ℕ → Result AppendFile
  append f line = do
    let n = write 0 line
    f' ← append_loop (length line + 1) 1 (put f n line) (drop n line)
    ok (record f' { written_bytes = (f'.written_bytes + length line) % 2 ^ 32 })

-- The line is parted into what the file has got from the k-th call on, and what it has not.
record Looped (answers : ℕ → ℕ) (k : ℕ) (remain : List ℕ) (f f' : AppendFile) : Type 0 where
  front : List ℕ
  back : List ℕ
  parted : remain ≡ front ++ back
  grown : f'.file ≡ f.file ++ front
  whole : ((j : ℕ) → k ≤ j → 0 < answers j) → back ≡ []
  counted : f'.written_bytes ≡ f.written_bytes

length-zero : (xs : List ℕ) → length xs ≡ 0 → xs ≡ []
length-zero [] e = refl
length-zero (x ∷ xs) e = absurd (omega (arith, e))

module _ (answers : ℕ → ℕ) where
  -- Nothing more is written.
  stopped-Looped :
      (k : ℕ) (remain : List ℕ) (f : AppendFile)
      → (((j : ℕ) → k ≤ j → 0 < answers j) → remain ≡ [])
      → Looped answers k remain f f
  stopped-Looped k remain f whole = record {
    front = [];
    back = remain;
    parted = refl;
    grown = sym (append-nil f.file);
    whole = whole;
    counted = refl;
  }

  -- A call before what is written already.
  put-Looped :
      (k k' : ℕ) (remain : List ℕ) (x : ℕ) (f f' : AppendFile)
      → k ≤ k'
      → Looped answers k' (drop x remain) (put answers f x remain) f'
      → Looped answers k remain f f'
  put-Looped k k' remain x f f' later l = record {
    front = take x remain ++ l.front;
    back = l.back;
    parted =
        sym (take-append-drop x remain)
        ∙ ap (λ r. take x remain ++ r) l.parted
        ∙ sym (append_assoc (take x remain) l.front l.back);
    grown = l.grown ∙ append_assoc f.file (take x remain) l.front;
    whole = λ h. l.whole (λ j h'. h j (omega (arith, h', later)));
    counted = l.counted;
  }

  append_loop-Looped :
      (fuel k : ℕ) (f : AppendFile) (remain : List ℕ)
      → length remain < fuel
      → Returns (Looped answers k remain f) (append_loop answers fuel k f remain)
  unfolding append_loop
  append_loop-Looped zero k f remain h = absurd (omega arith)
  append_loop-Looped (suc fuel) k f remain h =
      let x = write answers k remain in
      Returns-if (length remain == 0)
        (λ e. returns (stopped-Looped k remain f (λ _. length-zero remain (==→eq _ _ e))))
        λ some_left.
          Returns-if (x == 0)
            (λ e. returns (
              stopped-Looped k remain f
                (λ all. length-zero remain (omega (arith, ==→eq x 0 e, all k (omega arith))))))
            λ more.
              Returns-map
                (append_loop-Looped fuel (k + 1) (put answers f x remain) (drop x remain)
                  (ground (arith, h, more, length-drop x remain)))
                λ f' l. put-Looped k (k + 1) remain x f f' (omega arith) l

-- The file has got the first `count` bytes of the line.
pub record Written (answers : ℕ → ℕ) (line : List ℕ) (f f' : AppendFile) : Type 0 where
  pub count : ℕ
  pub inside : count ≤ length line
  pub grown : f'.file ≡ f.file ++ take count line
  pub whole : ((k : ℕ) → 0 < answers k) → f'.file ≡ f.file ++ line
  pub counted : f'.written_bytes ≡ (f.written_bytes + length line) % 2 ^ 32

-- append() of a line ends, whatever the calls of `fwrite` take: the file has got a prefix of the line,
-- and the whole line if every call takes something. The count of written bytes has
-- grown by the length of the line, modulo 2 ^ 32, also when the file has not got all of it.
pub append-Written :
    (answers : ℕ → ℕ) (f : AppendFile) (line : List ℕ)
    → Returns (Written answers line f) (append answers f line)
unfolding append
append-Written answers f line =
    let n = write answers 0 line in
    Returns-bind
      (append_loop-Looped answers (length line + 1) 1 (put answers f n line) (drop n line)
        (omega (arith, length-drop n line)))
      λ f' l.
        let all = put-Looped answers 0 1 line n f f' (omega arith) l in
        let cut : take (length all.front) line ≡ all.front =
          ap (take (length all.front)) all.parted
          ∙ take-append (length all.front) all.front all.back refl in
        returns (record {
          count = length all.front;
          inside = omega (arith, ap (λ r. length r) all.parted, length-append all.front all.back);
          grown = all.grown ∙ ap (λ r. f.file ++ r) (sym cut);
          whole = λ h.
              all.grown
              ∙ ap (λ r. f.file ++ r)
                  (sym (append-nil all.front)
                    ∙ ap (λ r. all.front ++ r) (sym (all.whole (λ k _. h k)))
                    ∙ sym all.parted);
          counted = ap (λ b. (b + length line) % 2 ^ 32) all.counted;
        })
