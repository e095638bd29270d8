-- ===== src/Disk.antt =====
-- The glue between FatFs and the storage drivers: cubeboot/source/emu/ffs/diskio.c, lines 17 to 194.
-- The drivers are parameters here; their sectors have 32-bit numbers, where FatFs has 64-bit ones.
pub mod Media
pub mod Contract
use cubiboot.Base.{
  ℕ, zero, suc, ◌+◌, ◌-◌, ◌*◌, ◌%◌, ◌^◌, ◌≤◌, ◌<◌, Bool, true, false, not, ◌&&◌, ◌||◌, Option, none,
  some, List, [], ◌∷◌, ◌++◌, ◌≡◌, ltb, ◌==◌, if◌then◌else◌, length, span,
}
use cubiboot.Cache.Access.{cache_read, cache_write}
use cubiboot.Cache.Device.{
  BlockDevice, DResult, res_ok, res_error, res_wrprt, res_notrdy, res_parerr, overwrite,
}
use cubiboot.Cache.Round.{Reply}
use cubiboot.Cache.State.{Cache, reset_cache}

-- DEV_SDA, DEV_SDB, DEV_SDC, DEV_ATAA, DEV_ATAB, DEV_ATAC and DEV_GCLDR
abbrev pub dev_sda : ℕ
dev_sda = 0

abbrev pub dev_sdb : ℕ
dev_sdb = 1

abbrev pub dev_sdc : ℕ
dev_sdc = 2

abbrev pub dev_ataa : ℕ
dev_ataa = 3

abbrev pub dev_atab : ℕ
dev_atab = 4

abbrev pub dev_atac : ℕ
dev_atac = 5

abbrev pub dev_gcldr : ℕ
dev_gcldr = 7

-- STA_NOINIT
abbrev pub sta_noinit : ℕ
sta_noinit = 1

-- `exi_port`: `chn` and `dev`.
pub record ExiPort : Type 0 where
  pub chn : ℕ
  pub dev : ℕ

-- The drivers, tsd_sd_* for SD cards, ata_* for IDE-EXI drives and gcode_sd_* for the GCLoader, each
-- from the state of the hardware to the next.
pub record Drivers (Sector : Type 0) : Type 1 where
  pub World : Type 0
  pub tsd_sd_init : World → ExiPort → Bool × World
  pub tsd_sd_read : World → ExiPort → ℕ → ℕ → Bool × List Sector × World
  pub tsd_sd_write : World → ExiPort → ℕ → List Sector → ℕ → Bool × World
  pub ata_init : World → ExiPort → Bool × World
  pub ata_read : World → ExiPort → ℕ → ℕ → Bool × List Sector × World
  pub ata_write : World → ExiPort → ℕ → List Sector → ℕ → Bool × World
  pub gcode_sd_init : World → Bool × World
  pub gcode_sd_read : World → ℕ → ℕ → Bool × List Sector × World
  pub gcode_sd_write : World → ℕ → List Sector → ℕ → Bool × World

unfoldable pub disk_is_sd : ℕ → Bool
disk_is_sd pdrv = pdrv == dev_sda || pdrv == dev_sdb || pdrv == dev_sdc

unfoldable pub disk_is_ata : ℕ → Bool
disk_is_ata pdrv = pdrv == dev_ataa || pdrv == dev_atab || pdrv == dev_atac

unfoldable pub disk_is_gcldr : ℕ → Bool
disk_is_gcldr pdrv = pdrv == dev_gcldr

-- `exi_port_map[pdrv]`, whose further elements are zero.
unfoldable pub exi_port_map : ℕ → ExiPort
exi_port_map pdrv =
    if pdrv == 1
    then record { chn = 1; dev = 0 }
    else if pdrv == 2
    then record { chn = 2; dev = 0 }
    else record { chn = 0; dev = 0 }

unfoldable pub ata_port : ℕ → ExiPort
ata_port pdrv =
    if pdrv == dev_atac
    then record { chn = 0; dev = 2 }
    else record { chn = pdrv - dev_ataa; dev = 0 }

-- `disk_status`
unfoldable pub disk_status : ℕ → ℕ
disk_status pdrv =
    if disk_is_sd pdrv
    then 0
    else if disk_is_ata pdrv
    then 0
    else if disk_is_gcldr pdrv
    then 0
    else sta_noinit

-- `disk_shutdown`
unfoldable pub disk_shutdown : ℕ → DResult
disk_shutdown pdrv =
    if disk_is_sd pdrv
    then res_ok
    else if disk_is_ata pdrv
    then res_ok
    else if disk_is_gcldr pdrv
    then res_ok
    else res_parerr

-- The commands of `disk_ioctl`, and what it writes to its buffer.
pub data IoctlCommand : Type 0 where
  ctrl_sync get_sector_count get_sector_size get_block_size : IoctlCommand
  other_command : ℕ → IoctlCommand

abbrev pub ioctl_known : IoctlCommand → DResult × Option ℕ
ioctl_known ctrl_sync = (res_ok, none)
ioctl_known get_sector_count = (res_ok, some 0xFFFFFFFF)
ioctl_known get_sector_size = (res_ok, some 512)
ioctl_known get_block_size = (res_ok, some 1)
ioctl_known (other_command n) = (res_parerr, none)

unfoldable pub disk_ioctl : ℕ → IoctlCommand → DResult × Option ℕ
disk_ioctl pdrv cmd =
    if disk_is_sd pdrv || disk_is_ata pdrv || disk_is_gcldr pdrv
    then ioctl_known cmd
    else (res_parerr, none)

module _ {Sector : Type 0} (ds : Drivers Sector) where
  open ds use {
    World, tsd_sd_init, tsd_sd_read, tsd_sd_write, ata_init, ata_read, ata_write, gcode_sd_init,
    gcode_sd_read, gcode_sd_write,
  }

  -- `disk_initialize`, with the block cache of `pages` pages.
  unfoldable pub disk_initialize : ℕ → ℕ → Cache Sector → World → ℕ × Cache Sector × World
  disk_initialize pages pdrv c w =
      let emptied = reset_cache pages c in
      let (sd, w_sd) = tsd_sd_init w (exi_port_map pdrv) in
      let (ata, w_ata) = ata_init w (ata_port pdrv) in
      let (gcldr, w_gcldr) = gcode_sd_init w in
      if disk_is_sd pdrv
      then (if sd then 0 else sta_noinit, emptied, w_sd)
      else if disk_is_ata pdrv
      then (if ata then 0 else sta_noinit, emptied, w_ata)
      else if disk_is_gcldr pdrv
      then (if gcldr then 0 else sta_noinit, emptied, w_gcldr)
      else (sta_noinit, emptied, w)

  -- `disk_read_raw`; the drivers' sector number has 32 bits.
  unfoldable pub disk_read_raw : World → ℕ → ℕ → ℕ → DResult × List Sector × World
  disk_read_raw w pdrv sector count =
      let (sd, sd_got, w_sd) = tsd_sd_read w (exi_port_map pdrv) (sector % 2 ^ 32) count in
      let (ata, ata_got, w_ata) = ata_read w (ata_port pdrv) (sector % 2 ^ 32) count in
      let (gcldr, gcldr_got, w_gcldr) = gcode_sd_read w (sector % 2 ^ 32) count in
      if disk_is_sd pdrv
      then (if sd then res_ok else res_error, sd_got, w_sd)
      else if disk_is_ata pdrv
      then (if ata then res_ok else res_error, ata_got, w_ata)
      else if disk_is_gcldr pdrv
      then (if gcldr then res_ok else res_error, gcldr_got, w_gcldr)
      else (res_parerr, [], w)

  -- `disk_write_raw`
  unfoldable pub disk_write_raw : World → ℕ → List Sector → ℕ → ℕ → DResult × World
  disk_write_raw w pdrv buff sector count =
      let (sd, w_sd) = tsd_sd_write w (exi_port_map pdrv) (sector % 2 ^ 32) buff count in
      let (ata, w_ata) = ata_write w (ata_port pdrv) (sector % 2 ^ 32) buff count in
      let (gcldr, w_gcldr) = gcode_sd_write w (sector % 2 ^ 32) buff count in
      if disk_is_sd pdrv
      then (if sd then res_ok else res_wrprt, w_sd)
      else if disk_is_ata pdrv
      then (if ata then res_ok else res_wrprt, w_ata)
      else if disk_is_gcldr pdrv
      then (if gcldr then res_ok else res_wrprt, w_gcldr)
      else (res_parerr, w)
