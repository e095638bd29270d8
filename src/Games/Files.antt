-- ===== src/Games/Files.antt =====
-- The listing of a directory: patches/source/games.c, lines 454 to 500 and 521 to 603. A string is the
-- list of its characters.
use cubiboot.Base.{
  ℕ, zero, suc, ◌+◌, Bool, true, false, not, ◌&&◌, ◌||◌, Option, none, some, List, [], ◌∷◌, ◌++◌,
  leb, ltb, ◌==◌, if◌then◌else◌, length, bit_and,
}
use cubiboot.Fdrv.Files.{FileStatus}
use cubiboot.Emu.Services.{FileEntry, file_entry_type_dir}

-- `gm_file_type_t`
pub data FileType : Type 0 where
  type_unknown type_directory type_program type_game : FileType

-- `gm_path_entry_t`
pub record PathEntry : Type 0 where
  pub path : List ℕ
  pub type : FileType

-- FILE_ATTRIB_FLAG_HIDDEN, and the number of entries that ends a listing.
abbrev pub file_attrib_flag_hidden : ℕ
file_attrib_flag_hidden = 0x02

abbrev pub most_entries : ℕ
most_entries = 1920

-- A buffer `char[128]`: the string in it, or none when the string and its end do not fit, where the
-- source writes beyond the buffer.
abbrev pub path_size : ℕ
path_size = 128

abbrev pub in_buffer : List ℕ → Option (List ℕ)
in_buffer s = if ltb (length s) path_size then some s else none

-- `strrchr(path, '.')`
unfoldable pub last_dot : List ℕ → Option (List ℕ)
last_dot [] = none
last_dot (c ∷ s) = elim (last_dot s) [
  | some ext ↦ some ext
  | none ↦ if c == 0x2E then some (c ∷ s) else none
]

-- `strcasecmp` of ASCII, equal or not.
abbrev pub lower : ℕ → ℕ
lower c = if leb 0x41 c && leb c 0x5A then c + 0x20 else c

unfoldable pub same_name : List ℕ → List ℕ → Bool
same_name [] [] = true
same_name [] (d ∷ t) = false
same_name (c ∷ s) [] = false
same_name (c ∷ s) (d ∷ t) = lower c == lower d && same_name s t

unfoldable pub one_of : List ℕ → List (List ℕ) → Bool
one_of name [] = false
one_of name (n ∷ names) = same_name name n || one_of name names

-- ".gcm", ".iso" and ".fdi", and ".dol" and ".dol+cli"
abbrev pub valid_game_exts : List (List ℕ)
valid_game_exts =
    (0x2E ∷ 0x67 ∷ 0x63 ∷ 0x6D ∷ [])
    ∷ (0x2E ∷ 0x69 ∷ 0x73 ∷ 0x6F ∷ [])
    ∷ (0x2E ∷ 0x66 ∷ 0x64 ∷ 0x69 ∷ [])
    ∷ []

abbrev pub valid_prog_exts : List (List ℕ)
valid_prog_exts =
    (0x2E ∷ 0x64 ∷ 0x6F ∷ 0x6C ∷ [])
    ∷ (0x2E ∷ 0x64 ∷ 0x6F ∷ 0x6C ∷ 0x2B ∷ 0x63 ∷ 0x6C ∷ 0x69 ∷ [])
    ∷ []

unfoldable pub gm_get_file_type : List ℕ → FileType
gm_get_file_type path = elim (last_dot path) [
  | none ↦ type_unknown
  | some ext ↦
      if one_of ext valid_game_exts
      then type_game
      else if one_of ext valid_prog_exts
      then type_program
      else type_unknown
]

-- "$RECYCLE.BIN", "System Volume Information", "Recovery", "swiss" and "MCBACKUP", in lower case.
abbrev pub hidden_file_names : List (List ℕ)
hidden_file_names =
    (0x24 ∷ 0x72 ∷ 0x65 ∷ 0x63 ∷ 0x79 ∷ 0x63 ∷ 0x6C ∷ 0x65 ∷ 0x2E ∷ 0x62 ∷ 0x69 ∷ 0x6E ∷ [])
    ∷ (0x73 ∷ 0x79 ∷ 0x73 ∷ 0x74 ∷ 0x65 ∷ 0x6D ∷ 0x20 ∷ 0x76 ∷ 0x6F ∷ 0x6C ∷ 0x75 ∷ 0x6D ∷ 0x65
        ∷ 0x20 ∷ 0x69 ∷ 0x6E ∷ 0x66 ∷ 0x6F ∷ 0x72 ∷ 0x6D ∷ 0x61 ∷ 0x74 ∷ 0x69 ∷ 0x6F ∷ 0x6E ∷ [])
    ∷ (0x72 ∷ 0x65 ∷ 0x63 ∷ 0x6F ∷ 0x76 ∷ 0x65 ∷ 0x72 ∷ 0x79 ∷ [])
    ∷ (0x73 ∷ 0x77 ∷ 0x69 ∷ 0x73 ∷ 0x73 ∷ [])
    ∷ (0x6D ∷ 0x63 ∷ 0x62 ∷ 0x61 ∷ 0x63 ∷ 0x6B ∷ 0x75 ∷ 0x70 ∷ [])
    ∷ []

-- Whether a string begins, or ends, with a character.
abbrev pub begins_with : ℕ → List ℕ → Bool
begins_with c [] = false
begins_with c (d ∷ s) = d == c

unfoldable pub ends_with : ℕ → List ℕ → Bool
ends_with c [] = false
ends_with c (d ∷ []) = d == c
ends_with c (d ∷ e ∷ s) = ends_with c (e ∷ s)

-- `check_file_hidden`, of a name that is not empty.
unfoldable pub check_file_hidden : List ℕ → Bool
check_file_hidden name =
    begins_with 0x2E name
    || (begins_with 0x7E name || (ends_with 0x7E name || one_of name hidden_file_names))

-- What an entry of the directory is listed as.
unfoldable pub type_of : FileEntry → FileType
type_of ent = if ent.type == file_entry_type_dir then type_directory else gm_get_file_type ent.name

abbrev pub is_unknown : FileType → Bool
is_unknown type_unknown = true
is_unknown type_directory = false
is_unknown type_program = false
is_unknown type_game = false

abbrev pub is_empty : List ℕ → Bool
is_empty [] = true
is_empty (c ∷ s) = false

-- An entry that the listing passes over.
abbrev pub is_skipped : FileEntry → Bool
is_skipped ent =
    not (bit_and ent.attrib file_attrib_flag_hidden == 0)
    || (check_file_hidden ent.name || is_unknown (type_of ent))

-- How the loop ends: the directory is read to its end or the list is full, a read of the directory is
-- refused, or a path overflows its buffer.
pub data ListEnd : Type 0 where
  complete refused overflows : ListEnd

module _ {World : Type 0} (readdir : World → (ℕ × FileEntry) × World) (target_dir : List ℕ) where
  -- The path of an entry, in `file_full_path_buf` and in the list.
  abbrev pub entry_for : FileEntry → Option PathEntry
  entry_for ent = elim (in_buffer (target_dir ++ ent.name)) [
    | none ↦ none
    | some path ↦ some (record { path = path; type = type_of ent })
  ]

  -- The loop of `gm_list_files`, on fuel.
  unfoldable pub list_entries :
      ℕ → List PathEntry → World → Option (ListEnd × List PathEntry × World)
  list_entries zero acc w = none
  list_entries (suc fuel) acc w =
      let ((ret, ent), w1) = readdir w in
      let passed_over = list_entries fuel acc w1 in
      let taken : PathEntry → Option (ListEnd × List PathEntry × World) =
        λ entry. list_entries fuel (acc ++ (entry ∷ [])) w1 in
      if not (ret == 0)
      then some (refused, acc, w1)
      else if is_empty ent.name
      then some (complete, acc, w1)
      else if is_skipped ent
      then passed_over
      else elim (entry_for ent) [
        | none ↦ some (overflows, acc, w1)
        | some entry ↦
            if leb most_entries (length (acc ++ (entry ∷ [])))
            then some (complete, acc ++ (entry ∷ []), w1)
            else taken entry
      ]

-- What the listing of a directory comes to: it could not be opened, a read of it was refused and the
-- menu panics, a path was written beyond its buffer, or its paths.
pub data Enumeration : Type 0 where
  not_opened panicked overrun : Enumeration
  listed : List PathEntry → Enumeration

-- dvd_custom_open of a directory, dvd_custom_status, dvd_custom_readdir and dvd_custom_close, as the
-- listing calls them.
pub record Folders (World : Type 0) : Type 0 where
  pub open_folder : List ℕ → World → ℕ × World
  pub folder_status : World → Option FileStatus × World
  pub next_entry : ℕ → World → (ℕ × FileEntry) × World
  pub close_folder : ℕ → World → World

module _ {World : Type 0} (folders : Folders World) (target_dir : List ℕ) where
  -- The directory once it is opened: its descriptor, none when it cannot be opened.
  unfoldable pub open_dir : World → Option ℕ × World
  open_dir w =
      let (res, w1) = folders.open_folder target_dir w in
      let (status, w2) = folders.folder_status w1 in
      if not (res == 0) then (none, w1) else elim status [
        | none ↦ (none, w2)
        | some s ↦ if not (s.result == 0) then (none, w2) else (some s.fd, w2)
      ]

  -- The end of the loop: the directory is closed, unless the menu panicked.
  abbrev pub close_dir :
      ℕ → Option (ListEnd × List PathEntry × World) → Option (Enumeration × World)
  close_dir fd none = none
  close_dir fd (some (refused, acc, w)) = some (panicked, w)
  close_dir fd (some (overflows, acc, w)) = some (overrun, w)
  close_dir fd (some (complete, acc, w)) = some (listed acc, folders.close_folder fd w)

  unfoldable pub gm_list_files : ℕ → World → Option (Enumeration × World)
  gm_list_files fuel w = elim (open_dir w).0 [
    | none ↦ some (not_opened, (open_dir w).1)
    | some fd ↦
        close_dir fd (list_entries (folders.next_entry fd) target_dir fuel [] (open_dir w).1)
  ]
