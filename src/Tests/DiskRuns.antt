-- ===== src/Tests/DiskRuns.antt =====
-- The disk functions over drivers for SD cards and a GCLoader, which refuse every write.
use cubiboot.Base.{ℕ, Bool, true, false, some, List, [], ◌≡◌, refl, ◌⊎◌, span, arith, ap}
use cubiboot.Cache.Contract.{ReadAnswer}
use cubiboot.Cache.Contract.Claim.{Usable, idle}
use cubiboot.Cache.Device.{res_parerr}
use cubiboot.Cache.Round.{Reply}
use cubiboot.Disk.{Drivers, disk_is_sd, disk_is_gcldr, exi_port_map, disk_initialize}
use cubiboot.Disk.Contract.{is_drive, disk_read_lem, disk_initialize-read}
use cubiboot.Disk.Media.{Faithful, disk_device, disk_read}
use cubiboot.Tests.{ramp, blank}

abbrev refuse : {A : Type 0} → (ℕ → ℕ → ℕ) → A → ℕ → List ℕ → ℕ → Bool × (ℕ → ℕ → ℕ)
refuse w p s buff n = (false, w)

abbrev drivers : Drivers ℕ
drivers = record {
  World = ℕ → ℕ → ℕ;
  tsd_sd_init = λ w p. (true, w);
  tsd_sd_read = λ w p s n. (true, span (w p.chn) s n, w);
  tsd_sd_write = refuse;
  ata_init = λ w p. (false, w);
  ata_read = λ w p s n. (false, [], w);
  ata_write = refuse;
  gcode_sd_init = λ w. (true, w);
  gcode_sd_read = λ w s n. (true, span (w 7) s n, w);
  gcode_sd_write = λ w s buff n. (false, w);
}

sd_chn : (pdrv : ℕ) → disk_is_sd pdrv ≡ true → (exi_port_map pdrv).chn ≡ pdrv
unfolding disk_is_sd exi_port_map
sd_chn pdrv h = ground arith

gcldr_number : (pdrv : ℕ) → disk_is_gcldr pdrv ≡ true → 7 ≡ pdrv
unfolding disk_is_gcldr
gcldr_number pdrv h = ground arith

drivers-Faithful : Faithful drivers (λ w. w)
drivers-Faithful = record {
  sd_gives = λ w pdrv s n h bound e. ap (λ k. span (w k) s n) (sd_chn pdrv h);
  sd_keeps = λ w p s n. refl;
  sd_sets = λ w pdrv s buff n h bound whole e. absurd (ground arith);
  ata_gives = λ w pdrv s n h bound e. absurd (ground arith);
  ata_keeps = λ w p s n. refl;
  ata_sets = λ w pdrv s buff n h bound whole e. absurd (ground arith);
  gcldr_gives = λ w pdrv s n h bound e. ap (λ k. span (w k) s n) (gcldr_number pdrv h);
  gcldr_keeps = λ w s n. refl;
  gcldr_sets = λ w pdrv s buff n h bound whole e. absurd (ground arith);
}

disk_read_example :
    (reply : Reply (disk_device drivers (λ w. w) drivers-Faithful)) × (disk_read drivers
        (λ w. w)
        drivers-Faithful
        2
        1
        true
        2
        3
        blank
        ramp
      ≡ some reply)
    × (reply.drive ≡ ramp)
    × Usable (disk_device drivers (λ w. w) drivers-Faithful) 2 reply.cache reply.drive
    × (((is_drive 1 ≡ false) × (reply.res ≡ res_parerr))
        ⊎ ReadAnswer (disk_device drivers (λ w. w) drivers-Faithful) 1 2 3 ramp reply)
disk_read_example =
    disk_read_lem drivers (λ w. w) drivers-Faithful 2 1 true 2 3 blank ramp (omega arith)
      (omega arith) (idle refl)

disk_initialize-read_example :
    (reply : Reply (disk_device drivers (λ w. w) drivers-Faithful)) × (disk_read drivers
        (λ w. w)
        drivers-Faithful
        2
        7
        false
        4
        1
        (disk_initialize drivers 2 1 blank ramp).1
        (disk_initialize drivers 2 1 blank ramp).2
      ≡ some reply)
    × (((is_drive 7 ≡ false) × (reply.res ≡ res_parerr))
        ⊎ ReadAnswer
            (disk_device drivers (λ w. w) drivers-Faithful)
            7
            4
            1
            (disk_initialize drivers 2 1 blank ramp).2
            reply)
disk_initialize-read_example =
    disk_initialize-read drivers (λ w. w) drivers-Faithful 2 1 7 false 4 1 blank ramp (omega arith)
      (omega arith)
