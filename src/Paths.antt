-- ===== src/Paths.antt =====
-- The suffix of a file name: patches/source/paths.c. A path is the list of its characters, and the
-- answer is the index that the result points to.
pub mod Suffix
use cubiboot.Base.{
  ℕ, zero, suc, ◌+◌, ◌-◌, Bool, true, false, not, ◌&&◌, ◌||◌, Option, none, some, List, ltb, ◌==◌,
  if◌then◌else◌, length, get_elem?,
}

abbrev pub dot : ℕ
dot = 0x2E

abbrev pub slash : ℕ
slash = 0x2F

abbrev pub backslash : ℕ
backslash = 0x5C

-- `path[i]`, with the terminating 0 behind the end.
abbrev pub char_at : List ℕ → ℕ → ℕ
char_at path i = elim (get_elem? path i) [ none ↦ 0 | some c ↦ c ]

abbrev pub is_separator : ℕ → Bool
is_separator c = c == slash || c == backslash

-- The loop, from index `i` down.
unfoldable pub scan : (ℕ → ℕ) → ℕ → ℕ
scan p zero = zero
scan p (suc i) =
    let rest = scan p i in if p (suc i) == dot || is_separator (p (suc i)) then suc i else rest

-- `FileSuffix`
unfoldable pub file_suffix : List ℕ → ℕ
file_suffix path =
    let p = char_at path in
    let n = length path in
    let i = scan p (n - 1) in
    if ltb 0 i && ltb i (n - 1) && p i == dot && not (is_separator (p (i - 1))) then i else n
