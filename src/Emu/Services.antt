-- ===== src/Emu/Services.antt =====
-- What the file operations call and keep: cubeboot/source/emu/flippy_emu.c, lines 50 to 52 and 169 to
-- 170, with the constants of cubeboot/source/ipc.h and of FatFs.
use cubiboot.Base.{ℕ, ◌+◌, Bool, List, [], ◌∷◌, if◌then◌else◌}
use cubiboot.Emu.{Device, fldrv, gcldr, sdc, sdb, sda, ataa, atab, atac, Emu}
use cubiboot.Fdrv.Files.{FileStatus, FsInfo}

-- FILE_ENTRY_TYPE_FILE and FILE_ENTRY_TYPE_DIR
abbrev pub file_entry_type_file : ℕ
file_entry_type_file = 0

abbrev pub file_entry_type_dir : ℕ
file_entry_type_dir = 1

-- IPC_FILE_FLAG_WRITE, AM_DIR, FA_READ, and FA_READ | FA_WRITE | FA_OPEN_ALWAYS
abbrev pub ipc_file_flag_write : ℕ
ipc_file_flag_write = 0x08

abbrev pub am_dir : ℕ
am_dir = 0x10

abbrev pub fa_read : ℕ
fa_read = 0x01

abbrev pub fa_read_write : ℕ
fa_read_write = 0x01 + 0x02 + 0x10

-- The builds: cubeboot.dol, and the patches of the IPL.
pub data Build : Type 0 where
  dol ipl : Build

-- The fields of a `file_entry_t` that a directory read fills.
pub record FileEntry : Type 0 where
  pub name : List ℕ
  pub type : ℕ
  pub size : ℕ
  pub attrib : ℕ

-- `FILINFO`
pub record FilInfo : Type 0 where
  pub fname : List ℕ
  pub fattrib : ℕ
  pub fsize : ℕ

-- The calls out of flippy_emu.c, on the hardware with the memory of FatFs: the FlippyDrive client, the
-- disc drive, and FatFs on the objects `file` and `dir`. Those of FatFs answer whether they give
-- FR_OK; `file_fs` and `dir_fs` say whether `obj.fs` of the object is not NULL.
pub record Services (World : Type 0) : Type 0 where
  pub bring_up : World → ℕ → Bool × World
  pub fdrv_open : List ℕ → ℕ → ℕ → World → ℕ × World
  pub fdrv_open_flash : List ℕ → ℕ → ℕ → World → ℕ × World
  pub fdrv_status : World → (ℕ × FileStatus) × World
  pub fdrv_close : ℕ → World → World
  pub fdrv_set_default_fd : ℕ → ℕ → World → World
  pub fdrv_read : ℕ → ℕ → ℕ → World → (ℕ × List ℕ) × World
  pub fdrv_threaded_read : ℕ → ℕ → ℕ → World → (ℕ × List ℕ) × World
  pub fdrv_readdir : ℕ → FileEntry → World → (ℕ × FileEntry) × World
  pub fdrv_mkdir : List ℕ → World → ℕ × World
  pub fdrv_unlink : List ℕ → World → ℕ × World
  pub fdrv_unlink_flash : List ℕ → World → ℕ × World
  pub fdrv_write : List ℕ → ℕ → ℕ → ℕ → World → ℕ × World
  pub fdrv_fs_info : World → (ℕ × FsInfo) × World
  pub fdrv_presence : Bool → List ℕ → List ℕ → World → ℕ × World
  pub fdrv_bypass_enter : World → World
  pub fdrv_bypass_exit : World → World
  pub normal_dvd_read : ℕ → ℕ → ℕ → World → (ℕ × List ℕ) × World
  pub di_reset : World → World
  pub di_stop_motor : World → World
  pub f_open : List ℕ → ℕ → World → Bool × World
  pub f_opendir : List ℕ → World → Bool × World
  pub f_close : World → World
  pub f_closedir : World → World
  pub f_lseek : ℕ → World → Bool × World
  pub f_read : ℕ → World → (Bool × List ℕ) × World
  pub f_readdir : World → (Bool × FilInfo) × World
  pub f_mkdir : List ℕ → World → Bool × World
  pub f_size : World → ℕ
  pub file_fs : World → Bool
  pub dir_fs : World → Bool

-- The state of flippy_emu.c.
pub record Disc (World : Type 0) : Type 0 where
  pub emu : Emu World
  pub passthrough : Bool

-- The names of the devices, in ASCII.
abbrev pub device_name : Device → List ℕ
device_name fldrv = 0x66 ∷ 0x6C ∷ 0x64 ∷ 0x72 ∷ 0x76 ∷ []
device_name gcldr = 0x67 ∷ 0x63 ∷ 0x6C ∷ 0x64 ∷ 0x72 ∷ []
device_name sdc = 0x73 ∷ 0x64 ∷ 0x63 ∷ []
device_name sdb = 0x73 ∷ 0x64 ∷ 0x62 ∷ []
device_name sda = 0x73 ∷ 0x64 ∷ 0x61 ∷ []
device_name ataa = 0x61 ∷ 0x74 ∷ 0x61 ∷ 0x61 ∷ []
device_name atab = 0x61 ∷ 0x74 ∷ 0x61 ∷ 0x62 ∷ []
device_name atac = 0x61 ∷ 0x74 ∷ 0x61 ∷ 0x63 ∷ []

-- `res == FR_OK ? 0 : 1`
abbrev pub code_of : Bool → ℕ
code_of ok = if ok then 0 else 1

-- A call on the hardware of the state.
abbrev pub on_world : {World A : Type 0} → (World → A × World) → Disc World → A × Disc World
on_world call s =
    let (r, w) = call s.emu.world in (r, record s { emu = record s.emu { world = w } })

abbrev pub after : {World : Type 0} → (World → World) → Disc World → Disc World
after call s = record s { emu = record s.emu { world = call s.emu.world } }
