-- ===== src/Games/Opened.antt =====
-- The files that are looked into: get_game_info of patches/source/dolphin_dvd.c, lines 86 to 194,
-- leaves the file of a valid game open, and closes all others.
use cubiboot.Base.{
  ℕ, Bool, true, false, Option, none, some, List, ◌==◌, ◌≡◌, refl, arith, inl, inr, Bool-cases,
  Option-cases, fun_ext, sym, ◌∙◌, ltb,
}
use cubiboot.Fdrv.Files.{FileStatus}
use cubiboot.Games.{put}
use cubiboot.Games.Info.{
  Drive, GameInfo, DiskHeader, get_game_info, read_info, disk_header_of, disk_header_size,
  get_banner_offset_fast, try_banner, get_banner_offset_slow,
}
use cubiboot.Games.Warm.{Around}

-- The descriptors of a drive that are open and that its statuses have reported, and how its calls
-- change them: a file that is opened has a descriptor that was free, and no other call opens one. When
-- the drive gives no status for a file that it has opened, the descriptor of that file is not reported
-- and not counted here; the source cannot close it.
pub record Opens {World : Type 0} (drive : Drive World) (around : Around World) : Type 0 where
  pub is_open : World → ℕ → Bool
  pub refused :
      (path : List ℕ) (w : World)
      → ((drive.open_file path w).0 == 0) ≡ false
      → is_open (drive.open_file path w).1 ≡ is_open w
  pub failed :
      (path : List ℕ) (w : World) (s : FileStatus)
      → (drive.file_status (drive.open_file path w).1).0 ≡ some s
      → (s.result == 0) ≡ false
      → (is_open (drive.file_status (drive.open_file path w).1).1 ≡ is_open w)
        × (is_open w s.fd ≡ false)
  pub unreported :
      (path : List ℕ) (w : World)
      → ((drive.open_file path w).0 == 0) ≡ true
      → (drive.file_status (drive.open_file path w).1).0 ≡ none
      → is_open (drive.file_status (drive.open_file path w).1).1 ≡ is_open w
  pub opened :
      (path : List ℕ) (w : World) (s : FileStatus)
      → (drive.file_status (drive.open_file path w).1).0 ≡ some s
      → (s.result == 0) ≡ true
      → (is_open (drive.file_status (drive.open_file path w).1).1 ≡ put (is_open w) s.fd true)
        × (is_open w s.fd ≡ false)
  pub closes : (fd : ℕ) (w : World) → is_open (drive.close_file fd w) ≡ put (is_open w) fd false
  pub reads :
      (len offset fd : ℕ) (w : World) → is_open (drive.threaded_read len offset fd w).1 ≡ is_open w
  pub gets : (key : ℕ) (w : World) → is_open (around.cache_get key w).1 ≡ is_open w
  pub puts : (key : ℕ) (b : List ℕ) (w : World) → is_open (around.cache_put key b w) ≡ is_open w
  pub locks : (w : World) → is_open (around.try_mutex w).1 ≡ is_open w
  pub stages :
      (n : ℕ) (force : Bool) (at : ℕ) (w : World)
      → is_open (around.stage n force at w).1 ≡ is_open w

put_back : (f : ℕ → Bool) (fd : ℕ) → f fd ≡ false → put (put f fd true) fd false ≡ f
put_back f fd h = fun_ext (λ k. elim (Bool-cases (k == fd)) [
  | inl e ↦ (let same : k ≡ fd = ground (arith, e) in rw (e, same) (sym h))
  | inr e ↦ rw e refl
])

put_closed : (f : ℕ → Bool) (fd : ℕ) → f fd ≡ false → put f fd false ≡ f
put_closed f fd h = fun_ext (λ k. elim (Bool-cases (k == fd)) [
  | inl e ↦ (let same : k ≡ fd = ground (arith, e) in rw (e, same) (sym h))
  | inr e ↦ rw e refl
])

module _ {World : Type 0} (drive : Drive World) (around : Around World) (crc32 : List ℕ → ℕ)
    (bnr_offsets : List (ℕ × ℕ)) (memory : World → ℕ → ℕ) (opens : Opens drive around) where
  try_banner_open :
      (header : DiskHeader) (offset fd : ℕ) (w : World)
      → opens.is_open (try_banner drive crc32 bnr_offsets memory header offset fd w).1
        ≡ opens.is_open w
  unfolding try_banner
  try_banner_open header offset fd w = ground (arith, opens.reads 32 offset fd w)

  slow_open :
      (header : DiskHeader) (fd : ℕ) (w : World)
      → opens.is_open (get_banner_offset_slow drive crc32 bnr_offsets memory header fd w).1
        ≡ opens.is_open w
  unfolding get_banner_offset_slow
  slow_open header fd w = opens.reads _ _ fd w

  -- What a file that is looked into leaves open: that of a valid game, and no other new one.
  abbrev pub Left : (ℕ → Bool) → Option (GameInfo × ℕ) × World → Type 0
  Left before (none, w) = opens.is_open w ≡ before
  Left before (some (info, fd), w) = (opens.is_open w ≡ put before fd true) × (before fd ≡ false)

  -- The descriptor that was opened is closed.
  pub closed :
      (before : ℕ → Bool) (fd : ℕ) (w : World)
      → before fd ≡ false
      → opens.is_open w ≡ put before fd true
      → opens.is_open (drive.close_file fd w) ≡ before
  closed before fd w free h = opens.closes fd w ∙ (rw h (put_back before fd free))

  read_info-Left :
      (before : ℕ → Bool) (fd : ℕ) (w : World)
      → before fd ≡ false
      → opens.is_open w ≡ put before fd true
      → Left before (read_info drive crc32 bnr_offsets memory fd w)
  unfolding read_info
  read_info-Left before fd w free h =
      let got = drive.threaded_read disk_header_size 0 fd w in
      let header = disk_header_of got.0 in
      let fast_at = get_banner_offset_fast crc32 bnr_offsets got.0 in
      let fast = try_banner drive crc32 bnr_offsets memory header fast_at fd got.1 in
      let slow_at = get_banner_offset_slow drive crc32 bnr_offsets memory header fd fast.1 in
      let slow = try_banner drive crc32 bnr_offsets memory header slow_at.0 fd slow_at.1 in
      let after_fast : opens.is_open fast.1 ≡ put before fd true =
        try_banner_open header fast_at fd got.1 ∙ (opens.reads disk_header_size 0 fd w ∙ h) in
      let after_slow : opens.is_open slow.1 ≡ put before fd true =
        try_banner_open header slow_at.0 fd slow_at.1 ∙ (slow_open header fd fast.1 ∙ after_fast) in
      elim (Option-cases fast.0) [
        | inr (info, e) ↦ rw (read_info, e) (after_fast, free)
        | inl e ↦ elim (Bool-cases (ltb 0x100000 header.fst_size)) [
          | inl large ↦ rw (read_info, e, large) (closed before fd fast.1 free after_fast)
          | inr small ↦ elim (Option-cases slow.0) [
            | inr (info, f) ↦ rw (read_info, e, small, f) (after_slow, free)
            | inl f ↦ rw (read_info, e, small, f) (closed before fd slow.1 free after_slow)
          ]
        ]
      ]

  pub get_game_info-Left :
      (path : List ℕ) (w : World)
      → Left (opens.is_open w) (get_game_info drive crc32 bnr_offsets memory path w)
  unfolding get_game_info
  get_game_info-Left path w = elim (Bool-cases ((drive.open_file path w).0 == 0)) [
    | inr no_file ↦ rw no_file (opens.refused path w no_file)
    | inl accepted ↦ elim (Option-cases (drive.file_status (drive.open_file path w).1).0) [
      | inl silent ↦ rw (accepted, silent) (opens.unreported path w accepted silent)
      | inr (s, e) ↦ elim (Bool-cases (s.result == 0)) [
        | inl good ↦
            (let (now, free) = opens.opened path w s e good in
              rw (accepted, e, good) (read_info-Left (opens.is_open w) s.fd _ free now))
        | inr bad ↦
            (let (now, free) = opens.failed path w s e bad in
              rw (accepted, e, bad)
                (opens.closes s.fd _ ∙ (rw now (put_closed (opens.is_open w) s.fd free))))
      ]
    ]
  ]

  pub Left-none :
      (before : ℕ → Bool) (r : Option (GameInfo × ℕ) × World)
      → Left before r
      → r.0 ≡ none
      → opens.is_open r.1 ≡ before
  Left-none before (none, w) h e = h
  Left-none before (some g, w) h e = cc e

  pub Left-some :
      (before : ℕ → Bool) (r : Option (GameInfo × ℕ) × World) (info : GameInfo) (fd : ℕ)
      → Left before r
      → r.0 ≡ some (info, fd)
      → (opens.is_open r.1 ≡ put before fd true) × (before fd ≡ false)
  Left-some before (none, w) info fd h e = cc e
  Left-some before (some (i, d), w) info fd h e =
      (let same : d ≡ fd = cc e in rw (← same) h.0, let same : d ≡ fd = cc e in rw (← same) h.1)
