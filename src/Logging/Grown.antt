-- ===== src/Logging/Grown.antt =====
-- How the buffer of `log` in src/base/Logging.cpp grows.
use libsaf.Common.{
  ℕ, ◌+◌, ◌-◌, ◌^◌, ◌≤◌, ◌<◌, ◌≡◌, refl, sym, ap, ◌∙◌, arith, List, [], ◌∷◌, ◌++◌, append_assoc,
  append-nil, ok, ◌>>=◌, Returns, returns, Returns-bind, le→leb, lt→ltb, length, length-append,
}
use libsaf.Decimal.{pos}
use libsaf.Decimal.RoundTrip.{Printed, convert-Printed}
use libsaf.AsyncLogger.{avail, buffer_append, concat}
use libsaf.Logging.{buffer_size, append_integer, append_strings}

buffer_append-fits :
    (size : ℕ) (b s : List ℕ) → length b + length s < size → buffer_append size b s ≡ b ++ s
unfolding buffer_append avail
buffer_append-fits size b s h = rw (lt→ltb (length s) (size - length b) (omega (arith, h))) refl

append_strings-fits :
    (b : List ℕ) (ss : List (List ℕ))
    → length b + length (concat ss) < buffer_size
    → append_strings b ss ≡ b ++ concat ss
unfolding append_strings concat
append_strings-fits b [] h = sym (append-nil b)
append_strings-fits b (s ∷ ss) h =
    let lengths = length-append s (concat ss) in
    rw (buffer_append-fits buffer_size b s (omega (arith, h, lengths))) (
      append_strings-fits (b ++ s) ss (omega (arith, h, lengths, length-append b s))
      ∙ append_assoc b s (concat ss))

abbrev pub total : List (List ℕ) → ℕ
total [] = 0
total (s ∷ ss) = length s + total ss

length-concat : (ss : List (List ℕ)) → length (concat ss) ≡ total ss
unfolding concat
length-concat [] = refl
length-concat (s ∷ ss) = omega (arith, length-append s (concat ss), length-concat ss)

concat-append : (ss ts : List (List ℕ)) → concat (ss ++ ts) ≡ concat ss ++ concat ts
unfolding concat
concat-append [] ts = refl
concat-append (s ∷ ss) ts =
    ap (λ r. s ++ r) (concat-append ss ts) ∙ sym (append_assoc s (concat ss) (concat ts))

-- The buffer has grown by the pieces.
abbrev pub Grown : List (List ℕ) → List ℕ → List ℕ → Type 0
Grown ss b b' = b' ≡ b ++ concat ss

pub Grown-length :
    (ss : List (List ℕ)) (b b' : List ℕ) → Grown ss b b' → length b' ≡ length b + total ss
Grown-length ss b b' g =
    omega (arith, ap (λ l. length l) g, length-append b (concat ss), length-concat ss)

pub Grown-then :
    (ss ts : List (List ℕ)) (b b' b'' : List ℕ)
    → Grown ss b b'
    → Grown ts b' b''
    → Grown (ss ++ ts) b b''
Grown-then ss ts b b' b'' g h =
    h
    ∙ ap (λ l. l ++ concat ts) g
    ∙ append_assoc b (concat ss) (concat ts)
    ∙ ap (λ l. b ++ l) (sym (concat-append ss ts))

pub append_strings-Grown :
    (b : List ℕ) (ss : List (List ℕ))
    → length b + total ss < buffer_size
    → Grown ss b (append_strings b ss)
append_strings-Grown b ss h = append_strings-fits b ss (omega (arith, h, length-concat ss))

-- A number of 32 bits, in at most ten digits.
abbrev pub Number : ℕ → List ℕ → Type 0
Number n text = Printed n text × (length text ≤ 10)

pub append_integer-Grown :
    (b : List ℕ) (n : ℕ)
    → n < 2 ^ 31
    → length b + 32 ≤ buffer_size
    → Returns
        (λ b'. (text : List ℕ) × Number n text × Grown (text ∷ []) b b')
        (append_integer b (pos n))
unfolding append_integer avail concat
append_integer-Grown b n small room =
    rw (le→leb 32 (buffer_size - length b) (omega (arith, room))) (
      Returns-bind (convert-Printed n) λ text p.
        returns
          (text, (p, p.width 9 (omega (arith, small))), ap (λ l. b ++ l) (sym (append-nil text))))

-- A number between strings.
pub enclosed-Grown :
    (b : List ℕ) (before after : List (List ℕ)) (n : ℕ)
    → n < 2 ^ 31
    → length b + total before + total after + 32 ≤ buffer_size
    → Returns
        (λ b'. (text : List ℕ) × Number n text × Grown (before ++ text ∷ after) b b')
        (append_integer (append_strings b before) (pos n) >>= λ b'. ok (append_strings b' after))
enclosed-Grown b before after n small room =
    let opened = append_strings-Grown b before (omega (arith, room)) in
    let size = Grown-length before b _ opened in
    Returns-bind
      (append_integer-Grown (append_strings b before) n small (omega (arith, size, room)))
      λ b' (text, p, g).
        let closed =
          append_strings-Grown b' after
            (omega (arith, size, room, p.1, Grown-length (text ∷ []) _ _ g)) in
        returns (
          text,
          p,
          Grown-then before (text ∷ after) b _ _ opened
              (Grown-then (text ∷ []) after _ b' _ g closed),
        )
