-- ===== src/Games/Warm.antt =====
-- The game list reads its files: patches/source/games.c, lines 632 to 684 and 752 to 858, and the
-- banners of a directory are read ahead, lines 1025 to 1054.
use cubiboot.Base.{
  ℕ, ◌+◌, ◌-◌, ◌*◌, ◌%◌, ◌^◌, Bool, true, false, not, Option, none, some, List, [], ◌∷◌, ltb, ◌==◌,
  if◌then◌else◌,
}
use cubiboot.Banners.{bnr_size}
use cubiboot.Games.Files.{
  PathEntry, FileType, type_unknown, type_directory, type_program, type_game,
}
use cubiboot.Games.Info.{Drive, GameInfo, get_game_info}

-- The calls beside those of the drive: the cache of banners by the hash of a path, the mutex that stops
-- the enumeration, the line at the top of the screen, and the transfer of a banner to the entry of a
-- number, of a flag for unloading it and of an address in auxiliary memory.
pub record Around (World : Type 0) : Type 0 where
  pub path_hash : List ℕ → ℕ
  pub cache_get : ℕ → World → Bool × World
  pub cache_put : ℕ → List ℕ → World → World
  pub try_mutex : World → Bool × World
  pub top_line_of : World → ℕ
  pub stage : ℕ → Bool → ℕ → World → Bool × World

-- BNR_PIXELDATA_LEN, ICON_PIXELDATA_LEN, the first address of the assets, and ASSETS_INITIAL_COUNT
abbrev pub bnr_pixeldata_len : ℕ
bnr_pixeldata_len = 96 * 32 * 2

abbrev pub icon_pixeldata_len : ℕ
icon_pixeldata_len = 32 * 32 * 2

abbrev pub assets_start : ℕ
assets_start = 1 * 1024 * 1024

abbrev pub assets_initial_count : ℕ
assets_initial_count = 48

abbrev pub is_game_type : FileType → Bool
is_game_type type_game = true
is_game_type type_unknown = false
is_game_type type_directory = false
is_game_type type_program = false

-- An entry of the list: its path and type, what is known of a game, and where in auxiliary memory its
-- banner is kept.
pub record GameEntry : Type 0 where
  pub source : PathEntry
  pub info : Option GameInfo
  pub banner_at : ℕ

module _ {World : Type 0} (drive : Drive World) (around : Around World) (crc32 : List ℕ → ℕ)
    (bnr_offsets : List (ℕ × ℕ)) (memory : World → ℕ → ℕ) where
  abbrev pub info_of : List ℕ → World → Option (GameInfo × ℕ) × World
  info_of path w = get_game_info drive crc32 bnr_offsets memory path w

  abbrev pub close_open : Option ℕ → World → World
  close_open none w = w
  close_open (some fd) w = drive.close_file fd w

  -- The file that is open is read, closed, and its banner cached.
  unfoldable pub read_banner : List ℕ → ℕ → ℕ → World → World
  read_banner path bnr_offset fd w =
      let (bytes, w1) = drive.threaded_read bnr_size bnr_offset fd w in
      around.cache_put (around.path_hash path) bytes (drive.close_file fd w1)

  -- `gm_load_banner` up to the banner in its buffer; false is for the failures.
  unfoldable pub fetch_banner : List ℕ → ℕ → Option ℕ → World → Bool × World
  fetch_banner path bnr_offset open_fd w =
      let (hit, w1) = around.cache_get (around.path_hash path) w in
      let (ret, w2) = drive.open_file path w1 in
      let (status, w3) = drive.file_status w2 in
      if bnr_offset == 0
      then (false, close_open open_fd w)
      else if hit
      then (true, close_open open_fd w1)
      else elim open_fd [
        | some fd ↦ (true, read_banner path bnr_offset fd w1)
        | none ↦ elim status [
          | none ↦ (false, w3)
          | some s ↦
              if not (s.result == 0)
              then (false, w3)
              else (true, read_banner path bnr_offset s.fd w3)
        ]
      ]

  unfoldable pub gm_load_banner : ℕ → List ℕ → ℕ → ℕ → Bool → Option ℕ → World → Bool × World
  gm_load_banner number path bnr_offset aram_offset force_unload open_fd w =
      let (fetched, w1) = fetch_banner path bnr_offset open_fd w in
      if fetched then around.stage number force_unload aram_offset w1 else (false, w1)

  -- `gm_check_files` up to the search for games of several discs: the entries, `count` of them being
  -- there before.
  unfoldable pub check_paths : List PathEntry → ℕ → ℕ → World → List GameEntry × World
  check_paths [] count aram_offset w = ([], w)
  check_paths (entry ∷ rest) count aram_offset w =
      let top = around.top_line_of w in
      let force_unload = ltb assets_initial_count ((count + 2 ^ 32 - top * 8) % 2 ^ 32) in
      let (goes_on, w1) = around.try_mutex w in
      let (found, w2) = info_of entry.path w1 in
      let passed = check_paths rest count aram_offset w2 in
      let other = check_paths rest (count + 1) (aram_offset + icon_pixeldata_len) w1 in
      let as_other : GameEntry = record { source = entry; info = none; banner_at = aram_offset } in
      if not goes_on
      then ([], w1)
      else if is_game_type entry.type
      then elim found [
        | none ↦ passed
        | some (info, fd) ↦
            (let loaded =
                gm_load_banner count entry.path info.bnr_offset aram_offset force_unload (some fd)
                  w2 in
              let next = aram_offset + bnr_pixeldata_len + icon_pixeldata_len in
              let (entries, w3) = check_paths rest (count + 1) next loaded.1 in
              (record { source = entry; info = some info; banner_at = aram_offset } ∷ entries, w3))
      ]
      else (as_other ∷ other.0, other.1)

  unfoldable pub gm_warm_files : List PathEntry → World → Bool × World
  gm_warm_files [] w = (true, w)
  gm_warm_files (entry ∷ rest) w =
      let (goes_on, w1) = around.try_mutex w in
      let (found, w2) = info_of entry.path w1 in
      let passed = gm_warm_files rest w in
      let invalid = gm_warm_files rest w2 in
      if not (is_game_type entry.type)
      then passed
      else if not goes_on
      then (false, w1)
      else elim found [
        | none ↦ invalid
        | some (info, fd) ↦
            (let (hit, w3) = around.cache_get (around.path_hash entry.path) w2 in
              let cached = gm_warm_files rest (drive.close_file fd w3) in
              let zero_offset = gm_warm_files rest (drive.close_file fd w2) in
              let read = gm_warm_files rest (read_banner entry.path info.bnr_offset fd w3) in
              if info.bnr_offset == 0 then zero_offset else if hit then cached else read)
      ]
