-- ===== src/Games/Info.antt =====
-- What the game list reads of a disc image: patches/source/dolphin_dvd.c, with the table of
-- patches/source/bnr_offsets.c. What a read leaves in its buffer is a list of bytes; the hash of the
-- table is a parameter.
use cubiboot.Base.{
  ℕ, zero, suc, ◌+◌, ◌-◌, ◌*◌, ◌/◌, ◌%◌, ◌^◌, Bool, not, ◌&&◌, ◌||◌, Option, none, some, List, [],
  ◌∷◌, ltb, ◌==◌, if◌then◌else◌, take, length, byte_of, word_at,
}
use cubiboot.Fdrv.Files.{FileStatus}
use cubiboot.Games.Files.{lower}

-- What the program reads of `DiskHeader`.
pub record DiskHeader : Type 0 where
  pub game_id : List ℕ
  pub disc_id : ℕ
  pub version : ℕ
  pub dol_offset : ℕ
  pub fst_offset : ℕ
  pub fst_size : ℕ
  pub max_fst_size : ℕ

unfoldable pub disk_header_of : List ℕ → DiskHeader
disk_header_of bytes = record {
  game_id = take 6 bytes;
  disc_id = byte_of bytes 6;
  version = byte_of bytes 7;
  dol_offset = word_at bytes 0x420;
  fst_offset = word_at bytes 0x424;
  fst_size = word_at bytes 0x428;
  max_fst_size = word_at bytes 0x42C;
}

abbrev pub disk_header_size : ℕ
disk_header_size = 0x440

-- `dolphin_game_into_t`, of a valid file
pub record GameInfo : Type 0 where
  pub header : DiskHeader
  pub bnr_offset : ℕ
  pub bnr_type : Bool

-- The calls by which files are read.
pub record Drive (World : Type 0) : Type 0 where
  pub open_file : List ℕ → World → ℕ × World
  pub file_status : World → Option FileStatus × World
  pub threaded_read : ℕ → ℕ → ℕ → World → List ℕ × World
  pub close_file : ℕ → World → World

abbrev lookup_offset : List (ℕ × ℕ) → ℕ → ℕ
lookup_offset [] hash = 0
lookup_offset ((h, offset) ∷ rest) hash = if h == hash then offset else lookup_offset rest hash

unfoldable pub get_banner_offset_fast : (List ℕ → ℕ) → List (ℕ × ℕ) → List ℕ → ℕ
unfolding disk_header_of
get_banner_offset_fast crc32 bnr_offsets header =
    if (disk_header_of header).dol_offset == 0 then 0 else lookup_offset bnr_offsets (crc32 header)

-- The table of files in memory, at 0x81700000, and its end.
abbrev fst_start : ℕ
fst_start = 0x81700000

abbrev fst_end : ℕ
fst_end = 0x81800000

abbrev opening_bnr : List ℕ
opening_bnr = 0x6F ∷ 0x70 ∷ 0x65 ∷ 0x6E ∷ 0x69 ∷ 0x6E ∷ 0x67 ∷ 0x2E ∷ 0x62 ∷ 0x6E ∷ 0x72 ∷ []

-- `strcasecmp` of the text at an address with a name in lower case, equal or not.
is_name_at : (ℕ → ℕ) → ℕ → List ℕ → Bool
is_name_at mem address [] = mem address == 0
is_name_at mem address (c ∷ name) = lower (mem address) == c && is_name_at mem (address + 1) name

abbrev word_of : (ℕ → ℕ) → ℕ → ℕ
word_of mem a = mem a * 2 ^ 24 + mem (a + 1) * 2 ^ 16 + mem (a + 2) * 2 ^ 8 + mem (a + 3)

-- Whether the entry `i` of the table is the banner; its type is the first bit of the entry.
unfoldable pub is_banner_entry : (ℕ → ℕ) → ℕ → ℕ → Bool
unfolding is_name_at
is_banner_entry mem string_table i =
    let entry = fst_start + 12 * i in
    let string_offset = mem (entry + 1) * 2 ^ 16 + mem (entry + 2) * 2 ^ 8 + mem (entry + 3) in
    ltb (mem entry) 128 && is_name_at mem ((string_table + string_offset) % 2 ^ 32) opening_bnr

unfoldable pub first_banner : (ℕ → ℕ) → ℕ → ℕ → ℕ → ℕ
first_banner mem string_table zero i = 0
first_banner mem string_table (suc left) i =
    let rest = first_banner mem string_table left (i + 1) in
    if is_banner_entry mem string_table i then word_of mem (fst_start + 12 * i + 4) else rest

-- `get_banner_offset_slow`, once the table is read: its `offset`, which is all that is used.
unfoldable pub banner_in_table : (ℕ → ℕ) → ℕ
banner_in_table mem =
    let total_entries = word_of mem (fst_start + 8) in
    let string_table = (fst_start + 12 * total_entries) % 2 ^ 32 in
    if ltb string_table fst_start || ltb fst_end string_table
    then 0
    else first_banner mem string_table (total_entries - 1) 1

-- Memory with bytes written at the start of the table.
abbrev with_table : List ℕ → (ℕ → ℕ) → ℕ → ℕ
with_table bytes mem a =
    if ltb a fst_start || not (ltb a (fst_start + length bytes))
    then mem a
    else byte_of bytes (a - fst_start)

module _ {World : Type 0} (drive : Drive World) (crc32 : List ℕ → ℕ) (bnr_offsets : List (ℕ × ℕ))
    (memory : World → ℕ → ℕ) where
  unfoldable pub get_banner_offset_slow : DiskHeader → ℕ → World → ℕ × World
  get_banner_offset_slow header fd w =
      let size = (header.fst_size + 31) / 32 * 32 in
      let (bytes, w1) = drive.threaded_read size header.fst_offset fd w in
      (banner_in_table (with_table bytes (memory w1)), w1)

  -- BANNER_MAGIC_1 and BANNER_MAGIC_2
  abbrev is_magic : ℕ → Bool
  is_magic m = m == 0x424E5231 || m == 0x424E5232

  abbrev game_info : DiskHeader → ℕ → ℕ → GameInfo
  game_info header offset magic = record {
    header = header;
    bnr_offset = offset;
    bnr_type = magic == 0x424E5232;
  }

  -- A banner that is looked for at an offset, none for 0, or for anything but a banner there.
  unfoldable pub try_banner : DiskHeader → ℕ → ℕ → World → Option GameInfo × World
  try_banner header offset fd w =
      let (small_buf, w1) = drive.threaded_read 32 offset fd w in
      let magic = word_at small_buf 0 in
      if offset == 0
      then (none, w)
      else if is_magic magic
      then (some (game_info header offset magic), w1)
      else (none, w1)

  abbrev give_up : ℕ → World → Option (GameInfo × ℕ) × World
  give_up fd w = (none, drive.close_file fd w)

  -- The file is open: its game, none for no valid game. The caller takes the open file.
  unfoldable pub read_info : ℕ → World → Option (GameInfo × ℕ) × World
  read_info fd w =
      let (bytes, w1) = drive.threaded_read disk_header_size 0 fd w in
      let header = disk_header_of bytes in
      let (fast, w2) = try_banner header (get_banner_offset_fast crc32 bnr_offsets bytes) fd w1 in
      let (offset, w3) = get_banner_offset_slow header fd w2 in
      let (slow, w4) = try_banner header offset fd w3 in
      elim fast [
        | some info ↦ (some (info, fd), w2)
        | none ↦
            if ltb 0x100000 header.fst_size
            then give_up fd w2
            else elim slow [ some info ↦ (some (info, fd), w4) | none ↦ give_up fd w4 ]
      ]

  unfoldable pub get_game_info : List ℕ → World → Option (GameInfo × ℕ) × World
  get_game_info game_path w =
      let (ret, w1) = drive.open_file game_path w in
      let (status, w2) = drive.file_status w1 in
      if not (ret == 0) then (none, w1) else elim status [
        | none ↦ (none, w2)
        | some s ↦ if not (s.result == 0) then give_up s.fd w2 else read_info s.fd w2
      ]
