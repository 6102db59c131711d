-- ===== src/AppendFile/Tests.antt =====
-- A line of four bytes, of which the stream takes two and then nothing more.
use libsaf.Common.{ℕ, ◌≡◌, refl, [], ◌∷◌, Returns, ok, if◌then◌else◌, ◌==◌}
use libsaf.AppendFile.{AppendFile, append, append_loop, Written, append-Written}

abbrev two_then_none : ℕ → ℕ
two_then_none k = if k == 0 then 2 else 0

abbrev opened : AppendFile
opened = record { file = 9 ∷ []; written_bytes = 1 }

-- Two bytes are lost, and all four are counted.
append_half :
    append two_then_none opened (1 ∷ 2 ∷ 3 ∷ 4 ∷ [])
    ≡ ok (record { file = 9 ∷ 1 ∷ 2 ∷ []; written_bytes = 5 })
unfolding append append_loop
append_half = refl

append-Written_example :
    Returns
      (Written two_then_none (1 ∷ 2 ∷ 3 ∷ 4 ∷ []) opened)
      (append two_then_none opened (1 ∷ 2 ∷ 3 ∷ 4 ∷ []))
append-Written_example = append-Written two_then_none opened (1 ∷ 2 ∷ 3 ∷ 4 ∷ [])
