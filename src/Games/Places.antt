-- ===== src/Games/Places.antt =====
-- Where the banners of the game list are kept in auxiliary memory: patches/source/games.c, lines 752
-- to 858, below the cache of banners of cubeboot/source/emu/tweaks.c.
use cubiboot.Base.{
  ℕ, ◌+◌, ◌-◌, ◌*◌, ◌≤◌, Option, none, some, List, [], ◌∷◌, arith, inl, inr, Bool-cases,
  Option-cases, length,
}
use cubiboot.Banners.{bnr_size, bnr_cache_size, aram_end}
use cubiboot.Games.Files.{PathEntry}
use cubiboot.Games.Info.{Drive, GameInfo, get_game_info}
use cubiboot.Games.Warm.{
  Around, GameEntry, check_paths, is_game_type, assets_start, bnr_pixeldata_len, icon_pixeldata_len,
}

-- The room that the banner of an entry takes.
abbrev pub room_of : Option GameInfo → ℕ
room_of none = 0
room_of (some info) = bnr_pixeldata_len

-- The banners have areas of their own, in order, from an address on and up to another.
abbrev pub Apart : ℕ → List GameEntry → ℕ → Type 0
Apart from [] until = from ≤ until
Apart from (e ∷ entries) until =
    (from ≤ e.banner_at) × Apart (e.banner_at + room_of e.info) entries until

Apart_wider :
    (entries : List GameEntry) (from from' until until' : ℕ)
    → from' ≤ from
    → until ≤ until'
    → Apart from entries until
    → Apart from' entries until'
Apart_wider [] from from' until until' h k a = omega arith
Apart_wider (e ∷ entries) from from' until until' h k a =
    (omega (arith, a.0), Apart_wider entries _ _ until until' (omega arith) k a.1)

module _ {World : Type 0} (drive : Drive World) (around : Around World) (crc32 : List ℕ → ℕ)
    (bnr_offsets : List (ℕ × ℕ)) (memory : World → ℕ → ℕ) where
  paths_Apart :
      (paths : List PathEntry) (count at : ℕ) (w : World)
      → Apart at
          (check_paths drive around crc32 bnr_offsets memory paths count at w).0
          (at + 8192 * length paths)
  unfolding check_paths
  paths_Apart [] count at w = omega arith
  paths_Apart (entry ∷ rest) count at w =
      let w1 = (around.try_mutex w).1 in
      let found = get_game_info drive crc32 bnr_offsets memory entry.path w1 in
      elim (Bool-cases (around.try_mutex w).0) [
        | inr stop ↦ rw stop (omega arith)
        | inl on ↦ elim (Bool-cases (is_game_type entry.type)) [
          | inr other ↦
              rw (on, other)
                (
                  omega arith,
                  Apart_wider _ _ _ _ _ (omega arith) (omega arith)
                      (paths_Apart rest (count + 1) (at + icon_pixeldata_len) w1),
                )
          | inl game ↦ elim (Option-cases found.0) [
            | inl invalid ↦
                rw (on, game, invalid)
                  (Apart_wider _ _ _ _ _ (omega arith) (omega arith)
                    (paths_Apart rest count at found.1))
            | inr ((info, fd), e) ↦
                rw (on, game, e)
                  (
                    omega arith,
                    Apart_wider _ _ _ _ _ (omega arith) (omega arith) (
                        paths_Apart rest (count + 1) (at + bnr_pixeldata_len + icon_pixeldata_len)
                          _),
                  )
          ]
        ]
      ]

  -- The banners of at most 908 files each have an area of their own in auxiliary memory, above the
  -- first MiB and below all slots of the cache of banners.
  pub check_paths-Apart :
      (paths : List PathEntry) (w : World)
      → length paths ≤ 908
      → Apart assets_start
          (check_paths drive around crc32 bnr_offsets memory paths 0 assets_start w).0
          (aram_end - bnr_size * bnr_cache_size)
  check_paths-Apart paths w few =
      Apart_wider _ _ _ _ _ (omega arith) (omega arith) (paths_Apart paths 0 assets_start w)
