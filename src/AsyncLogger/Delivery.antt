-- ===== src/AsyncLogger/Delivery.antt =====
-- What becomes of the lines in src/base/AsyncLogger.cpp.
use libsaf.Common.{
  ℕ, ◌-◌, ◌<◌, ◌≡◌, refl, sym, ap, subst, ◌∙◌, arith, false, Bool-cases, leb→lt, lt→ltb, inl, inr,
  List, [], ◌∷◌, ◌++◌, append_assoc, append-nil, Result, Returns, returns, Returns-bind, Returns-if,
  assert, Returns-map, ltb, leb, if◌then◌else◌, length,
}
use libsaf.AsyncLogger.{
  AsyncLogger, Phase, resting, waiting, holding, ended, avail, buffer_append, append_line,
  test_running, take_buffers, write_buffers, is_empty, concat, stop, proceed, Event, logs, proceeds,
  stops, step, run,
}

-- Every byte that the logger has taken, in the order of the file.
unfoldable pub content : AsyncLogger → List ℕ
content l = l.file ++ concat l.writing ++ concat l.buffers ++ l.current

-- The lines that fit into an empty buffer.
unfoldable pub logged : ℕ → List Event → List ℕ
logged size [] = []
logged size (logs line ∷ es) = (if ltb (length line) size then line else []) ++ logged size es
logged size (proceeds ∷ es) = logged size es
logged size (stops ∷ es) = logged size es

-- Unless it has buffers to write, the thread has nothing to write and an empty spare buffer.
pub record IsRested (l : AsyncLogger) : Type 0 where
  pub writing : l.writing ≡ []
  pub spare : l.spare ≡ []

abbrev pub Fits : Phase → AsyncLogger → Type 0
Fits holding l = Unit {0}
Fits _ l = IsRested l

concat-append :
    (xs : List (List ℕ)) (ys : List (List ℕ)) → concat (xs ++ ys) ≡ concat xs ++ concat ys
unfolding concat
concat-append [] ys = refl
concat-append (x ∷ xs) ys =
    ap (λ zs. x ++ zs) (concat-append xs ys) ∙ sym (append_assoc x (concat xs) (concat ys))

-- A buffer that is turned stands at the end of those that wait.
turned :
    (f w : List ℕ) (bs : List (List ℕ)) (c line : List ℕ)
    → f ++ w ++ concat (bs ++ c ∷ []) ++ line ≡ (f ++ w ++ concat bs ++ c) ++ line
unfolding concat
turned f w bs c line =
    rw (concat-append bs (c ∷ []), append-nil c)
      (ap (λ xs. xs ++ line) (sym (append_assoc (f ++ w) (concat bs) c)))

kept : (f w b c line : List ℕ) → f ++ w ++ b ++ (c ++ line) ≡ (f ++ w ++ b ++ c) ++ line
kept f w b c line = sym (append_assoc (f ++ w ++ b) c line)

-- A line goes into a new buffer or into the current one.
buffer_append-empty :
    (size : ℕ) (line : List ℕ)
    → buffer_append size [] line ≡ (if ltb (length line) size then line else [])
unfolding buffer_append avail
buffer_append-empty size line = let whole : size - 0 ≡ size = omega arith in rw whole refl

buffer_append-fits :
    (size : ℕ) (buffer line : List ℕ)
    → leb (avail size buffer) (length line) ≡ false
    → buffer_append size buffer line ≡ buffer ++ (if ltb (length line) size then line else [])
unfolding buffer_append avail
buffer_append-fits size buffer line e =
    let short : length line < size - length buffer = leb→lt _ _ e in
    rw (lt→ltb _ _ short, lt→ltb (length line) size (omega (arith, short))) refl

content-append_line :
    (size : ℕ) (l : AsyncLogger) (line : List ℕ)
    → content (append_line size l line) ≡ content l ++ (if ltb (length line) size then line else [])
unfolding content append_line
content-append_line size l line = elim (Bool-cases (leb (avail size l.current) (length line))) [
  | inl full ↦
      rw (full, buffer_append-empty size line)
        (turned l.file (concat l.writing) l.buffers l.current _)
  | inr fits ↦
      rw (fits, buffer_append-fits size l.current line fits)
        (kept l.file (concat l.writing) (concat l.buffers) l.current _)
]

rested-Fits : (p : Phase) (l : AsyncLogger) → IsRested l → Fits p l
rested-Fits resting l r = r
rested-Fits waiting l r = r
rested-Fits holding l r = tt
rested-Fits ended l r = r

-- A step of another thread leaves the thread's own buffers alone.
same-Fits :
    (p : Phase) (l l' : AsyncLogger)
    → l'.writing ≡ l.writing
    → l'.spare ≡ l.spare
    → Fits p l
    → Fits p l'
same-Fits resting l l' w s f = record { writing = w ∙ f.writing; spare = s ∙ f.spare }
same-Fits waiting l l' w s f = record { writing = w ∙ f.writing; spare = s ∙ f.spare }
same-Fits holding l l' w s f = tt
same-Fits ended l l' w s f = record { writing = w ∙ f.writing; spare = s ∙ f.spare }

-- What a line leaves alone.
pub record Untouched (l l' : AsyncLogger) : Type 0 where
  pub running : l'.running ≡ l.running
  pub phase : l'.phase ≡ l.phase
  pub writing : l'.writing ≡ l.writing
  pub spare : l'.spare ≡ l.spare
  pub file : l'.file ≡ l.file

pub append_line-Untouched :
    (size : ℕ) (l : AsyncLogger) (line : List ℕ) → Untouched l (append_line size l line)
unfolding append_line
append_line-Untouched size l line = elim (Bool-cases (leb (avail size l.current) (length line))) [
  | inl full ↦
      rw full (record { running = refl; phase = refl; writing = refl; spare = refl; file = refl })
  | inr fits ↦
      rw fits (record { running = refl; phase = refl; writing = refl; spare = refl; file = refl })
]

-- All the buffers, in their order, before and after the swap.
swapped :
    (file spare current : List ℕ) (writing buffers : List (List ℕ))
    → spare ≡ []
    → writing ≡ []
    → file ++ concat (buffers ++ current ∷ []) ++ concat [] ++ spare
      ≡ file ++ concat writing ++ concat buffers ++ current
unfolding concat
swapped file spare current writing buffers s w =
    rw (s, w, concat-append buffers (current ∷ []), append-nil current, append-nil file)
      (append-nil (file ++ (concat buffers ++ current) ++ [])
        ∙ append-nil (file ++ (concat buffers ++ current))
        ∙ sym (append_assoc file (concat buffers) current))

asserted :
    {P : AsyncLogger → Type 0} {r : Result AsyncLogger} (writing : List (List ℕ))
    → writing ≡ []
    → Returns P r
    → Returns P (assert (is_empty writing) r)
asserted [] e p = p
asserted (b ∷ bs) e p = absurd (ground arith)

-- The logger is well formed, and has the bytes that it had.
record Kept (l l' : AsyncLogger) : Type 0 where
  fits : Fits l'.phase l'
  content : content l' ≡ content l

test_running-Kept : (l : AsyncLogger) → IsRested l → Returns (Kept l) (test_running l)
unfolding test_running content
test_running-Kept l r =
    Returns-if l.running
      (λ on. asserted l.writing r.writing (
        returns
          (record { fits = record { writing = r.writing; spare = r.spare }; content = refl })))
      (λ off.
        returns (record { fits = record { writing = r.writing; spare = r.spare }; content = refl }))

take_buffers-Kept : (l : AsyncLogger) → IsRested l → Kept l (take_buffers l)
unfolding take_buffers content
take_buffers-Kept l r = record {
  fits = tt;
  content = swapped l.file l.spare l.current l.writing l.buffers r.spare r.writing;
}

write_buffers-Kept : (l : AsyncLogger) → Kept l (write_buffers l)
unfolding write_buffers content concat
write_buffers-Kept l = record {
  fits = record { writing = refl; spare = refl };
  content = rw (append-nil (l.file ++ concat l.writing));
}

proceed-Kept :
    (p : Phase) (l : AsyncLogger) → p ≡ l.phase → Fits p l → Returns (Kept l) (proceed p l)
unfolding proceed
proceed-Kept resting l e f = test_running-Kept l f
proceed-Kept waiting l e f = returns (take_buffers-Kept l f)
proceed-Kept holding l e f = returns (write_buffers-Kept l)
proceed-Kept ended l e f = returns (record { fits = subst (λ p. Fits p l) e f; content = refl })

stop-Fits : (l : AsyncLogger) → Fits l.phase l → Fits (stop l).phase (stop l)
unfolding stop
stop-Fits l f = same-Fits l.phase l (record l { running = false }) refl refl f

content-stop : (l : AsyncLogger) → content (stop l) ≡ content l
unfolding content stop
content-stop l = refl

-- Whatever lines are logged while the logger's thread goes through its rounds, and whenever it is
-- stopped, the thread does not fault, if it holds nothing that is not to be written; and every line
-- that is shorter than a buffer is, in order and once, in the file or in a buffer that waits; a longer
-- line is dropped.
pub run-Delivered :
    (size : ℕ) (l : AsyncLogger) (es : List Event)
    → Fits l.phase l
    → Returns (λ l'. content l' ≡ content l ++ logged size es) (run size l es)
unfolding run step logged
run-Delivered size l [] f = returns (sym (append-nil (content l)))
run-Delivered size l (logs line ∷ es) f =
    let u = append_line-Untouched size l line in
    let l₁ = append_line size l line in
    let f₁ : Fits l₁.phase l₁ =
      subst (λ p. Fits p l₁) (sym u.phase) (same-Fits l.phase l l₁ u.writing u.spare f) in
    Returns-map (run-Delivered size l₁ es f₁) λ l' e.
      e
      ∙ ap (λ xs. xs ++ logged size es) (content-append_line size l line)
      ∙ append_assoc (content l) _ _
run-Delivered size l (proceeds ∷ es) f = Returns-bind (proceed-Kept l.phase l refl f) λ l₁ k.
    Returns-map (run-Delivered size l₁ es k.fits)
      λ l' e. e ∙ ap (λ xs. xs ++ logged size es) k.content
run-Delivered size l (stops ∷ es) f =
    Returns-map (run-Delivered size (stop l) es (stop-Fits l f))
      λ l' e. e ∙ ap (λ xs. xs ++ logged size es) (content-stop l)
