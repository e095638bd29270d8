-- ===== src/Base/Bytes.antt =====
-- Bytes of a buffer, 0 past its end, and big-endian words.
use Prim.Native.Nat.{ℕ, ◌+◌, ◌*◌, ◌^◌}
use mathlib.Core.List.{List}
use mathlib.Core.Option.{Option, none, some}
use cubiboot.Base.Lists.{get_elem?}

abbrev pub byte_or : Option ℕ → ℕ
byte_or none = 0
byte_or (some b) = b

abbrev pub byte_of : List ℕ → ℕ → ℕ
byte_of bytes i = byte_or (get_elem? bytes i)

abbrev pub word_at : List ℕ → ℕ → ℕ
word_at bytes i =
    byte_of bytes i * 2 ^ 24
    + byte_of bytes (i + 1) * 2 ^ 16
    + byte_of bytes (i + 2) * 2 ^ 8
    + byte_of bytes (i + 3)
