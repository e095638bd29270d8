-- ===== src/Boot/Arguments.antt =====
-- The arguments of a program: setup_argv, is_swiss and chainload_swiss_game of
-- cubeboot/source/emu/loader.c. Strings are lists of characters that are not 0.
use cubiboot.Base.{
  ℕ, ◌+◌, ◌-◌, ◌/◌, ◌%◌, ◌^◌, Bool, true, false, not, ◌&&◌, ◌||◌, Option, none, some, List, [], ◌∷◌,
  ◌++◌, ltb, ◌==◌, if◌then◌else◌, length, drop, take, codes,
}
use cubiboot.Cache.Device.{overwrite}
use cubiboot.Games.Files.{same_name}
use cubiboot.Fdrv.Files.{FileStatus}
use cubiboot.Boot.{Loader, DolInfo, load_dol_file}

-- A big-endian word in memory.
abbrev pub store_word : (ℕ → ℕ) → ℕ → ℕ → ℕ → ℕ
store_word mem at v =
    overwrite mem at (v / 2 ^ 24 % 256 ∷ v / 2 ^ 16 % 256 ∷ v / 2 ^ 8 % 256 ∷ v % 256 ∷ [])

-- The loop of `setup_argv`: each string with its end, one after the other.
unfoldable pub copy_strings : List (List ℕ) → ℕ → (ℕ → ℕ) → (ℕ → ℕ) × ℕ
copy_strings [] at mem = (mem, at)
copy_strings (s ∷ rest) at mem =
    copy_strings rest (at + length s + 1) (overwrite mem at (s ++ (0 ∷ [])))

-- `setup_argv`, with the length that it returns.
unfoldable pub setup_argv : List (List ℕ) → ℕ → ℕ → ℕ → (ℕ → ℕ) → (ℕ → ℕ) × ℕ
setup_argv string_list buffer argv_struct magic mem =
    let (copied, end) = copy_strings string_list buffer mem in
    let buffer_len = end - buffer in
    let with_magic = store_word copied argv_struct magic in
    let with_line = store_word with_magic (argv_struct + 4) buffer in
    (store_word with_line (argv_struct + 8) buffer_len, buffer_len)

-- What stands after the last slash or backslash.
unfoldable pub filename_of : List ℕ → Option (List ℕ)
filename_of [] = none
filename_of (c ∷ s) = elim (filename_of s) [
  | some name ↦ some name
  | none ↦ if c == 0x2F || c == 0x5C then some s else none
]

abbrev pub name_in : List ℕ → List ℕ
name_in path = elim (filename_of path) [ none ↦ path | some name ↦ name ]

abbrev dol_suffix : List ℕ
dol_suffix = codes ".dol"

abbrev swiss_prefix : List ℕ
swiss_prefix = codes "swiss"

unfoldable pub is_swiss : Option (List ℕ) → Bool
is_swiss none = false
is_swiss (some game_path) =
    let filename = name_in game_path in
    not (ltb (length game_path) 10)
    && (not (ltb (length filename) 10)
        && (same_name (drop (length filename - 4) filename) dol_suffix
            && same_name (take 5 filename) swiss_prefix))

abbrev pub path_or_none : Option (List ℕ) → List ℕ
path_or_none none = []
path_or_none (some p) = p

abbrev pub autoload_arg : List ℕ → Option (List ℕ) → Bool → List ℕ
autoload_arg device game_path true = codes "Autoload=dvd:/*.gcm"
autoload_arg device none false = codes "Autoload=" ++ (device ++ (0x3A ∷ []))
autoload_arg device (some path) false = codes "Autoload=" ++ (device ++ (0x3A ∷ path))

abbrev pub arg_list : List ℕ → Bool → List (List ℕ)
arg_list autoload apploader =
    codes "swiss-gc.dol"
    ∷ autoload
    ∷ codes "AutoBoot=Yes"
    ∷ codes "BS2Boot=No"
    ∷ codes "Prefer Clean Boot=No"
    ∷ (if apploader then codes "IGRType=Apploader" ∷ [] else [])

-- Whether the flash memory has the apploader of Swiss, which is left open.
abbrev pub is_there : Option FileStatus → Bool
is_there none = false
is_there (some s) = s.result == 0

abbrev pub find_apploader : {World : Type 0} → Loader World → World → Bool × World
find_apploader loader w =
    let (status, w1) =
      loader.status_of (loader.open_at true (codes "/swiss/patches/apploader.img") w) in
    (is_there status, w1)

-- ARGV_MAGIC and ENVP_MAGIC are those of the console library.
module _ (argv_magic envp_magic : ℕ) where
  -- The arguments and the environment of a loaded program.
  unfoldable pub pass_arguments : DolInfo → List (List ℕ) → (ℕ → ℕ) → ℕ → ℕ
  pass_arguments info args mem =
      let argz = info.max_addr + 32 in
      let (with_args, argz_len) = setup_argv args argz (info.entrypoint + 8) argv_magic mem in
      let envz = argz + argz_len + 32 in
      (setup_argv (codes "CUBEBOOT=1" ∷ []) envz (info.entrypoint + 40) envp_magic with_args).0

  -- `chainload_swiss_game`: the memory, and the address at which the program is run.
  unfoldable pub chainload_swiss_game :
      {World : Type 0}
      → Loader World
      → (device : List ℕ) → Option (List ℕ)
      → Bool
      → (ℕ → ℕ)
      → World
      → (ℕ → ℕ) × ℕ × World
  chainload_swiss_game loader device game_path passthrough mem w =
      let (own, own_mem, own_w) = load_dol_file loader (path_or_none game_path) false mem w in
      let (info, loaded, w1) = load_dol_file loader (codes "/swiss-gc.dol") true mem w in
      let (apploader, w2) = find_apploader loader w1 in
      let args = arg_list (autoload_arg device game_path passthrough) apploader in
      if is_swiss game_path
      then (own_mem, own.entrypoint, own_w)
      else (pass_arguments info args loaded, info.entrypoint, w2)
