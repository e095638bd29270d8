-- ===== src/Gcode/Bus.antt =====
-- The disc interface that the GCLoader driver polls: the registers of cubeboot/source/emu/gcode.c,
-- lines 17 to 60, and its bounded wait.
use cubiboot.Base.{
  ℕ, zero, suc, ◌*◌, Bool, true, false, List, ◌≡◌, refl, ◌∙◌, if◌then◌else◌, span, Bool-cases, inl,
  inr,
}

-- DVD_OEM_INQUIRY and DVD_GCODE_READ
abbrev pub dvd_oem_inquiry : ℕ
dvd_oem_inquiry = 0x12000000

abbrev pub dvd_gcode_read : ℕ
dvd_gcode_read = 0xB2000000

-- GCODE_REL_DATE
abbrev pub gcode_rel_date : ℕ
gcode_rel_date = 0x20196c64

-- GCODE_SECTOR_SIZE and GCODE_MAX_XFER
abbrev pub gcode_sector_size : ℕ
gcode_sector_size = 512

abbrev pub gcode_max_xfer : ℕ
gcode_max_xfer = 64 * 1024

-- `sizeof(gcode_drvinfo)`
abbrev pub drvinfo_size : ℕ
drvinfo_size = 32

-- `u32 timeout`
abbrev pub poll_limit : ℕ
poll_limit = 1000000

-- What the driver writes to the registers before it starts a transfer: DI_CMDBUF0 to DI_CMDBUF2,
-- and DI_LENGTH.
pub record DiCommand : Type 0 where
  pub cmdbuf0 : ℕ
  pub cmdbuf1 : ℕ
  pub cmdbuf2 : ℕ
  pub length : ℕ

-- The registers of a read of `bytes` bytes, and of an inquiry.
abbrev pub read_command : ℕ → ℕ → DiCommand
read_command sector bytes = record {
  cmdbuf0 = dvd_gcode_read;
  cmdbuf1 = sector;
  cmdbuf2 = bytes;
  length = bytes;
}

abbrev pub inquiry_command : DiCommand
inquiry_command = record {
  cmdbuf0 = dvd_oem_inquiry;
  cmdbuf1 = 0;
  cmdbuf2 = 0;
  length = drvinfo_size;
}

-- `while ((_di_regs[DI_CR] & DI_CR_TSTART) && --timeout);`, and whether `timeout` is not 0 behind
-- it. `poll` reads the register.
unfoldable pub wait : {Bus : Type 0} → (Bus → Bool × Bus) → ℕ → Bus → Bool × Bus
wait poll zero bus = (false, bus)
wait poll (suc timeout) bus =
    let (busy, polled) = poll bus in
    let rest = wait poll timeout polled in if busy then rest else (true, polled)

-- The disc interface. `start` writes DI_CR with DI_CR_TSTART; `device_error` is DI_SR_DEINT of
-- DI_SR; `landed` and `rel_date` are what the transfer has written to memory; `settle` waits.
pub record DiBus (Sector : Type 0) : Type 1 where
  pub Bus : Type 0
  pub medium : Bus → ℕ → Sector
  pub prepare : Bus → Bus
  pub start : Bus → DiCommand → Bus
  pub poll : Bus → Bool × Bus
  pub settle : Bus → Bus
  pub device_error : Bus → Bool
  pub landed : Bus → List Sector
  pub rel_date : Bus → ℕ
  -- No command of the driver changes the medium.
  pub prepare_keeps : (b : Bus) → medium (prepare b) ≡ medium b
  pub start_keeps : (b : Bus) (c : DiCommand) → medium (start b c) ≡ medium b
  pub poll_keeps : (b : Bus) → medium (poll b).1 ≡ medium b
  pub settle_keeps : (b : Bus) → medium (settle b) ≡ medium b
  -- A read that ends without an error has written the sectors asked for.
  pub read_lands :
      (b : Bus) (sector n timeout : ℕ)
      → (wait poll timeout (start b (read_command sector (n * gcode_sector_size)))).0 ≡ true
      → device_error (wait poll timeout (start b (read_command sector (n * gcode_sector_size)))).1
        ≡ false
      → landed (wait poll timeout (start b (read_command sector (n * gcode_sector_size)))).1
        ≡ span (medium b) sector n

module _ {Sector : Type 0} (di : DiBus Sector) where
  open di use {Bus, medium, poll, poll_keeps}

  pub wait_keeps : (timeout : ℕ) (b : Bus) → medium (wait poll timeout b).1 ≡ medium b
  unfolding wait
  wait_keeps zero b = refl
  wait_keeps (suc timeout) b = elim (Bool-cases (poll b).0) [
    | inl e ↦ rw e (wait_keeps timeout (poll b).1 ∙ poll_keeps b)
    | inr e ↦ rw e (poll_keeps b)
  ]
