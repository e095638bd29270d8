-- ===== src/Emu/Files.antt =====
-- The file operations behind the storage device: cubeboot/source/emu/flippy_emu.c, lines 169 to 441.
-- They go to the FlippyDrive client or to FatFs; the statuses are those of cubeboot.dol.
use cubiboot.Base.{
  ℕ, ◌+◌, ◌*◌, ◌/◌, ◌%◌, ◌^◌, Bool, true, false, not, ◌&&◌, Option, none, some, List, [], ◌∷◌, ◌++◌,
  ◌==◌, if◌then◌else◌, bit_and,
}
use cubiboot.Emu.{emu_get_device, emu_is_native, mount_dol, mount_ipl}
use cubiboot.Emu.Services.{
  Services, Disc, Build, dol, ipl, FileEntry, FilInfo, file_entry_type_file, file_entry_type_dir,
  ipc_file_flag_write, am_dir, fa_read, fa_read_write, device_name, code_of, on_world, after,
}
use cubiboot.Fdrv.Files.{FileStatus, FsInfo}

-- `dev_path`: the device, a colon and the path. Behind a mount there is a device.
unfoldable pub dev_path : Option ℕ → List ℕ → List ℕ
dev_path sd_device path = elim (emu_get_device sd_device) [
  | none ↦ 0x3A ∷ path
  | some d ↦ device_name d ++ (0x3A ∷ path)
]

-- "/cubiboot"
abbrev pub flash_prefix : List ℕ
flash_prefix = 0x2F ∷ 0x63 ∷ 0x75 ∷ 0x62 ∷ 0x69 ∷ 0x62 ∷ 0x6F ∷ 0x6F ∷ 0x74 ∷ []

-- `__builtin_bswap64`
unfoldable pub bswap64 : ℕ → ℕ
bswap64 n =
    n % 256 * 2 ^ 56
    + n / 2 ^ 8 % 256 * 2 ^ 48
    + n / 2 ^ 16 % 256 * 2 ^ 40
    + n / 2 ^ 24 % 256 * 2 ^ 32
    + n / 2 ^ 32 % 256 * 2 ^ 24
    + n / 2 ^ 40 % 256 * 2 ^ 16
    + n / 2 ^ 48 % 256 * 2 ^ 8
    + n / 2 ^ 56 % 256

module _ {World : Type 0} (build : Build) (services : Services World) where
  open services use {
    bring_up, fdrv_open, fdrv_open_flash, fdrv_status, fdrv_close, fdrv_set_default_fd, fdrv_read,
    fdrv_threaded_read, fdrv_readdir, fdrv_mkdir, fdrv_unlink, fdrv_unlink_flash, fdrv_write,
    fdrv_fs_info, fdrv_presence, fdrv_bypass_enter, fdrv_bypass_exit, normal_dvd_read, di_reset,
    di_stop_motor, f_open, f_opendir, f_close, f_closedir, f_lseek, f_read, f_readdir, f_mkdir,
    f_size, file_fs, dir_fs,
  }

  abbrev pub is_native : Disc World → Bool
  is_native s = emu_is_native s.emu.sd_device

  abbrev pub flippy_emu_mount : Disc World → Bool × Disc World
  flippy_emu_mount s = elim build [
    | dol ↦ (let (up, e) = mount_dol bring_up s.emu in (up, record s { emu = e }))
    | ipl ↦ (let (up, e) = mount_ipl bring_up s.emu in (up, record s { emu = e }))
  ]

  unfoldable pub dvd_custom_close : ℕ → Disc World → Disc World
  dvd_custom_close fd s =
      if is_native s then after (fdrv_close fd) s else after (λ w. f_closedir (f_close w)) s

  -- What `dvd_custom_open` asks of FatFs.
  unfoldable pub open_emulated : List ℕ → ℕ → ℕ → Disc World → ℕ × Disc World
  open_emulated path type flags s =
      let full = dev_path s.emu.sd_device path in
      let ffs_flags = if bit_and flags ipc_file_flag_write == 0 then fa_read else fa_read_write in
      let (dir_ok, s1) = on_world (f_opendir full) s in
      let (file_ok, s2) = on_world (f_open full ffs_flags) s in
      if type == file_entry_type_dir
      then (code_of dir_ok, s1)
      else if type == file_entry_type_file
      then (code_of file_ok, s2)
      else (1, s)

  unfoldable pub dvd_custom_open : List ℕ → ℕ → ℕ → Disc World → ℕ × Disc World
  dvd_custom_open path type flags s =
      let (up, mounted) = flippy_emu_mount s in
      if not up
      then (1, mounted)
      else if is_native mounted
      then on_world (fdrv_open path type flags) mounted
      else open_emulated path type flags (dvd_custom_close 1 mounted)

  -- The native part of `dvd_custom_open_flash`.
  unfoldable pub open_flash_native : List ℕ → ℕ → ℕ → Disc World → ℕ × Disc World
  open_flash_native path type flags s =
      let (opened, s1) = on_world (fdrv_open_flash path type flags) s in
      let ((got, st), s2) = on_world fdrv_status s1 in
      if opened == 0
      then (if got == 0 && st.result == 0 then (0, s2) else on_world (fdrv_open path type flags) s2)
      else on_world (fdrv_open path type flags) s1

  unfoldable pub dvd_custom_open_flash : List ℕ → ℕ → ℕ → Disc World → ℕ × Disc World
  dvd_custom_open_flash path type flags s =
      let (up, mounted) = flippy_emu_mount s in
      let (ret, opened) = dvd_custom_open (flash_prefix ++ path) type flags mounted in
      if not (type == file_entry_type_file)
      then (1, s)
      else if up && is_native mounted
      then open_flash_native path type flags mounted
      else if ret == 0
      then (0, opened)
      else dvd_custom_open path type flags opened

  -- `dvd_custom_status`: its answer, and the status.
  unfoldable pub dvd_custom_status : Disc World → (ℕ × FileStatus) × Disc World
  dvd_custom_status s =
      if is_native s
      then on_world fdrv_status s
      else if not (file_fs s.emu.world) && not (dir_fs s.emu.world)
      then ((0, record { result = 1; fsize = 0; fd = 1 }), s)
      else ((0, record { result = 0; fsize = bswap64 (f_size s.emu.world); fd = 1 }), s)

  -- What `dvd_read` asks of FatFs: its answer, and what reaches the buffer.
  unfoldable pub read_emulated : ℕ → ℕ → Disc World → (ℕ × List ℕ) × Disc World
  read_emulated len offset s =
      let (sought, s1) = on_world (f_lseek offset) s in
      let ((ok, got), s2) = on_world (f_read len) s1 in
      if not sought then ((1, []), s1) else ((code_of ok, got), s2)

  unfoldable pub dvd_read : ℕ → ℕ → ℕ → Disc World → (ℕ × List ℕ) × Disc World
  dvd_read len offset fd s =
      if s.passthrough
      then on_world (normal_dvd_read len offset fd) s
      else if is_native s
      then on_world (fdrv_read len offset fd) s
      else read_emulated len offset s

  unfoldable pub dvd_threaded_read : ℕ → ℕ → ℕ → Disc World → (ℕ × List ℕ) × Disc World
  dvd_threaded_read len offset fd s =
      if not s.passthrough && is_native s
      then on_world (fdrv_threaded_read len offset fd) s
      else dvd_read len offset fd s

  -- The entry of a directory that FatFs has read.
  unfoldable pub entry_of : FilInfo → FileEntry → FileEntry
  entry_of fno dst = elim fno.fname [
    | [] ↦ record dst { name = [] }
    | c ∷ cs ↦ record {
      name = c ∷ cs;
      type = if bit_and fno.fattrib am_dir == 0 then file_entry_type_file else file_entry_type_dir;
      size = fno.fsize;
      attrib = fno.fattrib;
    }
  ]

  unfoldable pub dvd_custom_readdir : FileEntry → ℕ → Disc World → (ℕ × FileEntry) × Disc World
  dvd_custom_readdir dst fd s =
      let ((ok, fno), s1) = on_world f_readdir s in
      if is_native s
      then on_world (fdrv_readdir fd dst) s
      else if not ok
      then ((1, dst), s1)
      else ((0, entry_of fno dst), s1)

  unfoldable pub dvd_custom_mkdir : List ℕ → Disc World → ℕ × Disc World
  dvd_custom_mkdir path s =
      let (up, mounted) = flippy_emu_mount s in
      let (ok, made) = on_world (f_mkdir path) mounted in
      if not up
      then (1, mounted)
      else if is_native mounted
      then on_world (fdrv_mkdir path) mounted
      else (code_of ok, made)

  unfoldable pub dvd_custom_bypass_enter : Disc World → Disc World
  dvd_custom_bypass_enter s =
      let s1 = record s { passthrough = true } in
      if is_native s then after fdrv_bypass_enter s1 else after di_reset s1

  unfoldable pub dvd_custom_bypass_exit : Disc World → Disc World
  dvd_custom_bypass_exit s =
      if is_native s
      then record (after fdrv_bypass_exit s) { passthrough = false }
      else record (after di_stop_motor s) { passthrough = false }

  -- The operations that only a FlippyDrive has.
  unfoldable pub dvd_custom_write : List ℕ → ℕ → ℕ → ℕ → Disc World → ℕ × Disc World
  dvd_custom_write buf offset length fd s =
      if is_native s then on_world (fdrv_write buf offset length fd) s else (1, s)

  unfoldable pub dvd_set_default_fd : ℕ → ℕ → Disc World → Disc World
  dvd_set_default_fd current_fd second_fd s =
      if is_native s then after (fdrv_set_default_fd current_fd second_fd) s else s

  unfoldable pub dvd_custom_unlink : List ℕ → Disc World → ℕ × Disc World
  dvd_custom_unlink path s = if is_native s then on_world (fdrv_unlink path) s else (1, s)

  unfoldable pub dvd_custom_unlink_flash : List ℕ → Disc World → ℕ × Disc World
  dvd_custom_unlink_flash path s =
      if is_native s then on_world (fdrv_unlink_flash path) s else (1, s)

  unfoldable pub dvd_custom_presence : Bool → List ℕ → List ℕ → Disc World → ℕ × Disc World
  dvd_custom_presence playing status sub_status s =
      if is_native s then on_world (fdrv_presence playing status sub_status) s else (1, s)

  unfoldable pub dvd_custom_fs_info : FsInfo → Disc World → (ℕ × FsInfo) × Disc World
  dvd_custom_fs_info status s = if is_native s then on_world fdrv_fs_info s else ((1, status), s)
