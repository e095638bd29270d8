-- ===== src/Fdrv/Words.antt =====
-- What the drive reads in a command: the words and the blobs of cubeboot/source/emu/fdrv.c, lines 313
-- to 455.
use cubiboot.Base.{
  ℕ, zero, suc, ◌-◌, ◌/◌, ◌%◌, ◌^◌, ◌<◌, List, [], ◌∷◌, ◌++◌, ◌≡◌, refl, ap, ◌∙◌, Bool-cases, inl,
  inr, arith, ◌==◌, if◌then◌else◌, length, take, drop, All, length-append, append_assoc,
}
use cubiboot.Fdrv.Files.{
  file_word, oem_read_word, default_word, ipc_set_default_fd, strncpy, string_field, file_entry,
  file_entry_size,
}

-- The parts of a word: the opcode, the first and the second descriptor, and the command.
abbrev pub Carries : ℕ → ℕ → ℕ → ℕ → ℕ → Type 0
Carries word opcode fd second ipc =
    (word / 2 ^ 24 ≡ opcode)
    × (word / 2 ^ 16 % 256 ≡ fd)
    × (word / 2 ^ 8 % 256 ≡ second)
    × (word % 256 ≡ ipc)

-- In the word of each command stand its opcode, its number, and the low bytes of its descriptors,
-- whatever the descriptors: no part spills into another. The number is below 256.
pub words_lem :
    (ipc fd second : ℕ)
    → ipc < 256
    → Carries (file_word ipc fd) 0xB5 (fd % 256) 0 ipc
      × Carries (oem_read_word fd) 0xA8 (fd % 256) 0 0
      × Carries (default_word fd second) 0xB5 (fd % 256) (second % 256) ipc_set_default_fd
unfolding file_word oem_read_word default_word
words_lem ipc fd second small = (
  (omega arith, omega arith, omega arith, omega arith),
  (omega arith, omega arith, omega arith, omega arith),
  (omega arith, omega arith, omega arith, omega arith),
)

-- A string in memory ends at its first 0.
unfoldable pub c_string : List ℕ → List ℕ
c_string [] = []
c_string (c ∷ s) = let rest = c_string s in if c == 0 then [] else c ∷ rest

length-strncpy : (n : ℕ) (s : List ℕ) → length (strncpy n s) ≡ n
unfolding strncpy
length-strncpy zero s = refl
length-strncpy (suc n) [] = ap suc (length-strncpy n [])
length-strncpy (suc n) (c ∷ s) = ap suc (length-strncpy n s)

c_string-zeros : (n : ℕ) (rest : List ℕ) → c_string (strncpy n [] ++ (0 ∷ rest)) ≡ []
unfolding strncpy c_string
c_string-zeros zero rest = refl
c_string-zeros (suc n) rest = refl

c_string-strncpy :
    (n : ℕ) (s rest : List ℕ) → All (λ c. 0 < c) s → c_string (strncpy n s ++ (0 ∷ rest)) ≡ take n s
unfolding strncpy c_string
c_string-strncpy zero s rest h = refl
c_string-strncpy (suc n) [] rest h = refl
c_string-strncpy (suc n) (c ∷ s) rest h = elim (Bool-cases (c == 0)) [
  | inl e ↦ absurd (ground (arith, e, h.0))
  | inr e ↦ rw (e, c_string-strncpy n s rest h.1) refl
]

drop-strncpy :
    (n : ℕ) (s : List ℕ) (c : ℕ) (rest : List ℕ) → drop (suc n) (strncpy n s ++ (c ∷ rest)) ≡ rest
unfolding strncpy
drop-strncpy zero s c rest = refl
drop-strncpy (suc n) [] c rest = drop-strncpy n [] c rest
drop-strncpy (suc n) (x ∷ s) c rest = drop-strncpy n s c rest

-- The blob of a path, of characters that are not 0, has the size of a directory entry. The drive
-- reads the first 255 characters of the path in it, which is the path itself unless it is longer,
-- and behind the 256 bytes of the name the type and the flags.
pub file_entry_lem :
    (path : List ℕ) (type flags : ℕ)
    → All (λ c. 0 < c) path
    → (length (file_entry path type flags) ≡ file_entry_size)
      × (c_string (file_entry path type flags) ≡ take 255 path)
      × (take 2 (drop 256 (file_entry path type flags)) ≡ type ∷ flags ∷ [])
unfolding file_entry string_field
file_entry_lem path type flags h =
    let tail = type ∷ flags ∷ strncpy (file_entry_size - 258) [] in
    let split : (strncpy 255 path ++ (0 ∷ [])) ++ tail ≡ strncpy 255 path ++ (0 ∷ tail) =
      append_assoc (strncpy 255 path) (0 ∷ []) tail in
    (
      ap length split
          ∙ length-append (strncpy 255 path) (0 ∷ tail)
          ∙ omega (arith, length-strncpy 255 path, length-strncpy (file_entry_size - 258) []),
      ap c_string split ∙ c_string-strncpy 255 path tail h,
      ap (λ l. take 2 (drop 256 l)) split ∙ ap (take 2) (drop-strncpy 255 path 0 tail),
    )
