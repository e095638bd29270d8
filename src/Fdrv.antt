-- ===== src/Fdrv.antt =====
-- The FlippyDrive client: cubeboot/source/emu/fdrv.c, lines 47 to 307. Commands go to the registers of
-- the disc interface, which are a parameter.
pub mod Files
pub mod Probe
pub mod Polls
pub mod Words
pub mod Results
use cubiboot.Base.{
  ℕ, zero, suc, ◌+◌, ◌*◌, ◌%◌, ◌^◌, Bool, true, false, not, ◌&&◌, ◌||◌, Option, none, some, List,
  [], ◌∷◌, ◌==◌, if◌then◌else◌,
}
use cubiboot.Gcode.Bus.{wait, poll_limit, gcode_rel_date, dvd_oem_inquiry}

-- DVD_OEM_READ, DVD_FLIPPY_FILEAPI_BASE and DVD_FLIPPY_BYPASS
abbrev pub dvd_oem_read : ℕ
dvd_oem_read = 0xA8000000

abbrev pub dvd_flippy_fileapi_base : ℕ
dvd_flippy_fileapi_base = 0xB5000000

abbrev pub dvd_flippy_bypass : ℕ
dvd_flippy_bypass = 0xDC000000

-- FLIPPY_BOOT_MAGIC0, FLIPPY_BOOT_MAGIC1 and FLIPPY_NOUPDATE_MAGIC1
abbrev pub flippy_boot_magic0 : ℕ
flippy_boot_magic0 = 0xABADBEEF

abbrev pub flippy_boot_magic1 : ℕ
flippy_boot_magic1 = 0xCAFE6969

abbrev pub flippy_noupdate_magic1 : ℕ
flippy_noupdate_magic1 = 0xDECAF420

-- FD_BYPASS_EXIT_MAGIC0 and FD_BYPASS_EXIT_MAGIC1
abbrev pub fd_bypass_exit_magic0 : ℕ
fd_bypass_exit_magic0 = 0xE3F72BAB

abbrev pub fd_bypass_exit_magic1 : ℕ
fd_bypass_exit_magic1 = 0x72648977

-- FLIPPY_REL_DATE_BOOTLOADER and FLIPPY_REL_DATE_FIRMWARE
abbrev pub flippy_rel_date_bootloader : ℕ
flippy_rel_date_bootloader = 0x20220420

abbrev pub flippy_rel_date_firmware : ℕ
flippy_rel_date_firmware = 0x20220426

-- FDRV_BOOT_ATTEMPTS
abbrev pub fdrv_boot_attempts : ℕ
fdrv_boot_attempts = 60

-- The values of DI_CR: an immediate command, a transfer from the drive, and one to it.
abbrev pub di_immediate : ℕ
di_immediate = 1

abbrev pub di_dma_read : ℕ
di_dma_read = 2 + 1

abbrev pub di_dma_write : ℕ
di_dma_write = 4 + 2 + 1

-- `sizeof(dvd_info_t)`
abbrev pub probe_info_size : ℕ
probe_info_size = 32

-- What is written to the registers before a command starts, and the memory that it sends.
pub record FdCommand : Type 0 where
  pub cmdbuf0 : ℕ
  pub cmdbuf1 : ℕ
  pub cmdbuf2 : ℕ
  pub length : ℕ
  pub control : ℕ
  pub payload : List ℕ

-- The disc interface, with what the last inquiry has written to `probe_info`; `clear` sets that to
-- zeros. `landed` is what the last transfer has written to its buffer.
pub record FdBus : Type 1 where
  pub Bus : Type 0
  pub prepare : Bus → Bus
  pub start : Bus → FdCommand → Bus
  pub poll : Bus → Bool × Bus
  pub device_error : Bus → Bool
  pub settle : Bus → Bus
  pub yield_thread : Bus → Bus
  pub clear : Bus → Bus
  pub rel_date : Bus → ℕ
  pub fw_ver : Bus → ℕ
  pub landed : Bus → List ℕ

-- `is_stock_rel_date`
unfoldable pub is_stock_rel_date : ℕ → Bool
is_stock_rel_date date =
    date == 0x20010608 || date == 0x20010831 || date == 0x20020402 || date == 0x20020823

abbrev pub immediate : ℕ → ℕ → ℕ → FdCommand
immediate cmd arg0 arg1 = record {
  cmdbuf0 = cmd;
  cmdbuf1 = arg0;
  cmdbuf2 = arg1;
  length = 0;
  control = di_immediate;
  payload = [];
}

-- `has_fdrv` is `none` for -1, and the state of the client is with it the version of the firmware.
pub record Fdrv : Type 0 where
  pub has_fdrv : Option Bool
  pub fdrv_fw_ver : ℕ

module _ (di : FdBus) where
  open di use {Bus, prepare, start, poll, device_error, settle, clear, rel_date, fw_ver}

  -- `_di_regs[DI_SR] & DI_SR_DEINT ? 1 : 0`
  abbrev pub error_bit : Bus → ℕ
  error_bit b = if device_error b then 1 else 0

  -- `fdrv_wait`, on fuel.
  unfoldable pub fdrv_wait : ℕ → Bus → Option (ℕ × Bus)
  fdrv_wait zero b = none
  fdrv_wait (suc fuel) b =
      let (busy, polled) = poll b in
      let rest = fdrv_wait fuel polled in if busy then rest else some (error_bit polled, polled)

  unfoldable pub fdrv_wait_bounded : Bus → ℕ × Bus
  fdrv_wait_bounded b =
      let (in_time, done) = wait poll poll_limit b in
      if not in_time then (1, done) else (error_bit done, done)

  -- `fdrv_cmd` with `bounded`, and without it.
  unfoldable pub fdrv_cmd_bounded : ℕ → ℕ → ℕ → Bus → ℕ × Bus
  fdrv_cmd_bounded cmd arg0 arg1 b = fdrv_wait_bounded (start (prepare b) (immediate cmd arg0 arg1))

  unfoldable pub fdrv_cmd : ℕ → ℕ → ℕ → ℕ → Bus → Option (ℕ × Bus)
  fdrv_cmd fuel cmd arg0 arg1 b = fdrv_wait fuel (start (prepare b) (immediate cmd arg0 arg1))

  -- `fdrv_dma`, from the drive and to it.
  unfoldable pub fdrv_dma_from : ℕ → ℕ → ℕ → ℕ → ℕ → Bus → Option (ℕ × Bus)
  fdrv_dma_from fuel cmd arg0 arg1 len b = fdrv_wait fuel (
      start (prepare b) (record {
        cmdbuf0 = cmd;
        cmdbuf1 = arg0;
        cmdbuf2 = arg1;
        length = len;
        control = di_dma_read;
        payload = [];
      }))

  unfoldable pub fdrv_dma_to : ℕ → ℕ → ℕ → ℕ → List ℕ → ℕ → Bus → Option (ℕ × Bus)
  fdrv_dma_to fuel cmd arg0 arg1 buf len b = fdrv_wait fuel (
      start (prepare b) (record {
        cmdbuf0 = cmd;
        cmdbuf1 = arg0;
        cmdbuf2 = arg1;
        length = len;
        control = di_dma_write;
        payload = buf;
      }))

  -- `fdrv_inquiry`
  unfoldable pub fdrv_inquiry : Bus → ℕ × Bus
  fdrv_inquiry b = fdrv_wait_bounded (
      start (prepare (clear b)) (record {
        cmdbuf0 = dvd_oem_inquiry;
        cmdbuf1 = 0;
        cmdbuf2 = 0;
        length = probe_info_size;
        control = di_dma_read;
        payload = [];
      }))

  -- The loop over `attempt` of `fdrv_probe`: whether the firmware came up, with `left` attempts to go.
  unfoldable pub await_firmware : ℕ → Bus → Bool × Bus
  await_firmware zero b = (false, b)
  await_firmware (suc left) b =
      let (ret, asked) = fdrv_inquiry b in
      let rest = await_firmware left (settle asked) in
      if ret == 0 && rel_date asked == flippy_rel_date_firmware then (true, asked) else rest

  -- The end of `fdrv_probe`: what the date says.
  unfoldable pub identify : Fdrv → Bus → Bool × Fdrv × Bus
  identify fdrv b =
      if rel_date b == flippy_rel_date_firmware
      then (true, record { has_fdrv = some true; fdrv_fw_ver = fw_ver b }, b)
      else if is_stock_rel_date (rel_date b)
      then (false, record { has_fdrv = some false; fdrv_fw_ver = fdrv.fdrv_fw_ver }, b)
      else (false, fdrv, b)

  -- The two knocks that boot the firmware.
  unfoldable pub boot_firmware : Bus → Bus
  boot_firmware b =
      let (ret, knocked) =
        fdrv_cmd_bounded dvd_oem_inquiry flippy_boot_magic0 flippy_boot_magic1 b in
      (fdrv_cmd_bounded dvd_oem_inquiry flippy_boot_magic0 flippy_noupdate_magic1 knocked).1

  -- `fdrv_probe` from the test for the bootloader on.
  unfoldable pub boot_and_identify : Fdrv → Bus → Bool × Fdrv × Bus
  boot_and_identify fdrv b =
      let (up, waited) = await_firmware fdrv_boot_attempts (boot_firmware b) in
      if rel_date b == flippy_rel_date_bootloader
      then (if not up then (false, fdrv, waited) else identify fdrv waited)
      else identify fdrv b

  -- `fdrv_probe` behind the test of `has_fdrv`.
  unfoldable pub ask_drive : Fdrv → Bus → Bool × Fdrv × Bus
  ask_drive fdrv b =
      let (ret, asked) = fdrv_inquiry b in
      let (ignored, left) =
        fdrv_cmd_bounded dvd_flippy_bypass fd_bypass_exit_magic0 fd_bypass_exit_magic1 asked in
      let (ret', again) = fdrv_inquiry left in
      if not (ret == 0)
      then (false, fdrv, asked)
      else if rel_date asked == gcode_rel_date
      then (false, record { has_fdrv = some false; fdrv_fw_ver = fdrv.fdrv_fw_ver }, asked)
      else if is_stock_rel_date (rel_date asked)
      then (if not (ret' == 0) then (false, fdrv, again) else boot_and_identify fdrv again)
      else boot_and_identify fdrv asked

  unfoldable pub fdrv_probe : Fdrv → Bus → Bool × Fdrv × Bus
  fdrv_probe fdrv b = elim fdrv.has_fdrv [ some known ↦ (known, fdrv, b) | none ↦ ask_drive fdrv b ]

-- `fdrv_present`, and `fdrv_version`, which is NULL for `none`.
unfoldable pub fdrv_present : Fdrv → Bool
fdrv_present fdrv = elim fdrv.has_fdrv [ some known ↦ known | none ↦ false ]

unfoldable pub fdrv_version : Fdrv → Option ℕ
fdrv_version fdrv = if fdrv_present fdrv then some fdrv.fdrv_fw_ver else none
