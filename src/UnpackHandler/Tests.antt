-- ===== src/UnpackHandler/Tests.antt =====
-- A package of two bytes on a little-endian machine, and the theorem there.
use libsaf.Common.{◌++◌, true, arith, [], ◌∷◌, Returns, replicate}
use libsaf.Buffer.{Buffer, IsValid, as_string}
use libsaf.Buffer.Integers.{little_endian}
use libsaf.Buffer.Integers.Little.{little, byte_swap}
use libsaf.UnpackHandler.{process}
use libsaf.UnpackHandler.Packages.{Processed, process-Processed}

-- The size, the rest of the header, the package and one byte more.
abbrev packed : Buffer
packed = record {
  bytes = (0 ∷ 0 ∷ 0 ∷ 2 ∷ []) ++ replicate 28 0 ++ 104 ∷ 105 ∷ 33 ∷ [];
  reader_index = 0;
  writer_index = 35;
}

packed-IsValid : IsValid packed
packed-IsValid = record { ordered = omega arith; inside = omega arith }

process-Processed_example : Returns (Processed packed 2 true) (process little packed)
unfolding byte_swap little_endian as_string
process-Processed_example = process-Processed little packed packed-IsValid
