-- ===== src/Emu/Runs/Native.antt =====
-- With a FlippyDrive the file operations of cubeboot/source/emu/flippy_emu.c, lines 169 to 441, leave
-- FatFs and its devices alone.
use cubiboot.Base.{
  ℕ, zero, suc, ◌+◌, Bool, true, some, List, [], ◌∷◌, ◌++◌, ◌≡◌, refl, ◌∙◌, Bool-cases, inl, inr,
  arith,
}
use cubiboot.Emu.{emu_is_native, mount_dol, mount_ipl, mount_found, retry, device_flippy}
use cubiboot.Emu.Files.{
  flippy_emu_mount, dvd_custom_close, dvd_custom_open, open_flash_native, dvd_custom_open_flash,
  dvd_custom_status, dvd_read, dvd_threaded_read, dvd_custom_readdir, dvd_custom_mkdir,
  dvd_custom_bypass_enter, dvd_custom_bypass_exit, dvd_custom_write, dvd_set_default_fd,
  dvd_custom_unlink, dvd_custom_unlink_flash, dvd_custom_presence, dvd_custom_fs_info, flash_prefix,
}
use cubiboot.Emu.Runs.{FileCall, perform, run}
use cubiboot.Emu.Services.{Services, Disc, Build, dol, ipl, FileEntry}

-- What the FlippyDrive client and the disc drive do not reach.
pub record Apart {World : Type 0} (services : Services World) (View : Type 0) : Type 0 where
  pub view : World → View
  pub bring_up_apart : (w : World) → view (services.bring_up w device_flippy).1 ≡ view w
  pub open_apart : (p : List ℕ) (t f : ℕ) (w : World) → view (services.fdrv_open p t f w).1 ≡ view w
  pub open_flash_apart :
      (p : List ℕ) (t f : ℕ) (w : World) → view (services.fdrv_open_flash p t f w).1 ≡ view w
  pub status_apart : (w : World) → view (services.fdrv_status w).1 ≡ view w
  pub close_apart : (fd : ℕ) (w : World) → view (services.fdrv_close fd w) ≡ view w
  pub default_apart : (a b : ℕ) (w : World) → view (services.fdrv_set_default_fd a b w) ≡ view w
  pub read_apart : (l o f : ℕ) (w : World) → view (services.fdrv_read l o f w).1 ≡ view w
  pub threaded_apart :
      (l o f : ℕ) (w : World) → view (services.fdrv_threaded_read l o f w).1 ≡ view w
  pub readdir_apart :
      (f : ℕ) (d : FileEntry) (w : World) → view (services.fdrv_readdir f d w).1 ≡ view w
  pub mkdir_apart : (p : List ℕ) (w : World) → view (services.fdrv_mkdir p w).1 ≡ view w
  pub unlink_apart : (p : List ℕ) (w : World) → view (services.fdrv_unlink p w).1 ≡ view w
  pub unlink_flash_apart :
      (p : List ℕ) (w : World) → view (services.fdrv_unlink_flash p w).1 ≡ view w
  pub write_apart :
      (b : List ℕ) (o l f : ℕ) (w : World) → view (services.fdrv_write b o l f w).1 ≡ view w
  pub fs_info_apart : (w : World) → view (services.fdrv_fs_info w).1 ≡ view w
  pub presence_apart :
      (p : Bool) (a b : List ℕ) (w : World) → view (services.fdrv_presence p a b w).1 ≡ view w
  pub enter_apart : (w : World) → view (services.fdrv_bypass_enter w) ≡ view w
  pub exit_apart : (w : World) → view (services.fdrv_bypass_exit w) ≡ view w
  pub normal_apart : (l o f : ℕ) (w : World) → view (services.normal_dvd_read l o f w).1 ≡ view w

module _ {World View : Type 0} (build : Build) (services : Services World)
    (apart : Apart services View) where
  open apart use {view}

  -- The device stays the FlippyDrive, and the rest of the hardware as it was.
  abbrev pub Kept : Disc World → Disc World → Type 0
  Kept s t = (view t.emu.world ≡ view s.emu.world) × (t.emu.sd_device ≡ some device_flippy)

  abbrev Native : Disc World → Type 0
  Native s = s.emu.sd_device ≡ some device_flippy

  emu_is_native-of : (s : Disc World) → Native s → emu_is_native s.emu.sd_device ≡ true
  unfolding emu_is_native
  emu_is_native-of s n = rw n refl

  join : (s t u : Disc World) → Kept s t → Kept t u → Kept s u
  join s t u (a, n) (b, m) = (b ∙ a, m)

  retry_apart :
      (left waits : ℕ) (w : World)
      → view (retry services.bring_up left device_flippy waits w).2 ≡ view w
  unfolding retry
  retry_apart zero waits w = refl
  retry_apart (suc left) waits w = elim (Bool-cases (services.bring_up w device_flippy).0) [
    | inl e ↦ rw e (apart.bring_up_apart w)
    | inr e ↦ rw e (retry_apart left (waits + 1) _ ∙ apart.bring_up_apart w)
  ]

  dol-Kept : (s : Disc World) → Native s → Kept s (flippy_emu_mount dol services s).1
  unfolding mount_dol
  dol-Kept s n = ground (arith, n)

  ipl-Kept : (s : Disc World) → Native s → Kept s (flippy_emu_mount ipl services s).1
  unfolding mount_ipl mount_found
  ipl-Kept s n = ground (arith, n, retry_apart 30 s.emu.udelays s.emu.world)

  mount-Kept : (s : Disc World) → Native s → Kept s (flippy_emu_mount build services s).1
  mount-Kept s n = elim build as (λ b. Kept s (flippy_emu_mount b services s).1) [
    | dol ↦ dol-Kept s n
    | ipl ↦ ipl-Kept s n
  ]

  open-Kept :
      (path : List ℕ) (type flags : ℕ) (s : Disc World)
      → Native s
      → Kept s (dvd_custom_open build services path type flags s).1
  unfolding dvd_custom_open
  open-Kept path type flags s n =
      let (kept, native) = mount-Kept s n in
      let mounted = (flippy_emu_mount build services s).1 in
      elim (Bool-cases (flippy_emu_mount build services s).0) [
        | inl up ↦
            rw (up, emu_is_native-of mounted native)
              (apart.open_apart path type flags mounted.emu.world ∙ kept, native)
        | inr down ↦ rw down (kept, native)
      ]

  close-Kept : (fd : ℕ) (s : Disc World) → Native s → Kept s (dvd_custom_close build services fd s)
  unfolding dvd_custom_close
  close-Kept fd s n = rw (emu_is_native-of s n) (apart.close_apart fd s.emu.world, n)

  read-Kept :
      (len offset fd : ℕ) (s : Disc World)
      → Native s
      → Kept s (dvd_read build services len offset fd s).1
  unfolding dvd_read
  read-Kept len offset fd s n = ground (
    arith,
    emu_is_native-of s n,
    apart.normal_apart len offset fd s.emu.world,
    apart.read_apart len offset fd s.emu.world,
  )

  threaded-Kept :
      (len offset fd : ℕ) (s : Disc World)
      → Native s
      → Kept s (dvd_threaded_read build services len offset fd s).1
  unfolding dvd_threaded_read
  threaded-Kept len offset fd s n = ground (
    arith,
    emu_is_native-of s n,
    read-Kept len offset fd s n,
    apart.threaded_apart len offset fd s.emu.world,
  )

  from_flash-Kept :
      (path : List ℕ) (type flags : ℕ) (s : Disc World)
      → Native s
      → Kept s (open_flash_native build services path type flags s).1
  unfolding open_flash_native
  from_flash-Kept path type flags s n =
      let w1 = (services.fdrv_open_flash path type flags s.emu.world).1 in
      let w2 = (services.fdrv_status w1).1 in
      ground (
        arith,
        apart.open_flash_apart path type flags s.emu.world,
        apart.status_apart w1,
        apart.open_apart path type flags w1,
        apart.open_apart path type flags w2,
      )

  open_flash-Kept :
      (path : List ℕ) (type flags : ℕ) (s : Disc World)
      → Native s
      → Kept s (dvd_custom_open_flash build services path type flags s).1
  unfolding dvd_custom_open_flash
  open_flash-Kept path type flags s n =
      let (kept, native) = mount-Kept s n in
      let mounted = (flippy_emu_mount build services s).1 in
      let again = open-Kept (flash_prefix ++ path) type flags mounted native in
      let opened = (dvd_custom_open build services (flash_prefix ++ path) type flags mounted).1 in
      ground (
        arith,
        kept,
        native,
        again,
        open-Kept path type flags opened again.1,
        from_flash-Kept path type flags mounted native,
      )

  mkdir-Kept :
      (path : List ℕ) (s : Disc World)
      → Native s
      → Kept s (dvd_custom_mkdir build services path s).1
  unfolding dvd_custom_mkdir
  mkdir-Kept path s n =
      let (kept, native) = mount-Kept s n in
      let mounted = (flippy_emu_mount build services s).1 in
      ground (
        arith,
        kept,
        native,
        emu_is_native-of mounted native,
        apart.mkdir_apart path mounted.emu.world,
      )

  perform-Kept : (c : FileCall) (s : Disc World) → Native s → Kept s (perform build services c s)
  unfolding perform dvd_custom_status dvd_custom_readdir dvd_custom_bypass_enter
      dvd_custom_bypass_exit dvd_custom_write dvd_set_default_fd dvd_custom_unlink
      dvd_custom_unlink_flash dvd_custom_presence dvd_custom_fs_info
  perform-Kept (FileCall.open_call path type flags) s n = open-Kept path type flags s n
  perform-Kept (FileCall.open_flash_call path type flags) s n = open_flash-Kept path type flags s n
  perform-Kept FileCall.status_call s n =
      ground (arith, emu_is_native-of s n, apart.status_apart s.emu.world)
  perform-Kept FileCall.bypass_enter_call s n =
      ground (arith, emu_is_native-of s n, apart.enter_apart s.emu.world)
  perform-Kept FileCall.bypass_exit_call s n =
      ground (arith, emu_is_native-of s n, apart.exit_apart s.emu.world)
  perform-Kept (FileCall.read_call len offset fd) s n = read-Kept len offset fd s n
  perform-Kept (FileCall.threaded_read_call len offset fd) s n = threaded-Kept len offset fd s n
  perform-Kept (FileCall.readdir_call dst fd) s n =
      ground (arith, emu_is_native-of s n, apart.readdir_apart fd dst s.emu.world)
  perform-Kept (FileCall.mkdir_call path) s n = mkdir-Kept path s n
  perform-Kept (FileCall.unlink_call path) s n =
      ground (arith, emu_is_native-of s n, apart.unlink_apart path s.emu.world)
  perform-Kept (FileCall.unlink_flash_call path) s n =
      ground (arith, emu_is_native-of s n, apart.unlink_flash_apart path s.emu.world)
  perform-Kept (FileCall.close_call fd) s n = close-Kept fd s n
  perform-Kept (FileCall.write_call buf offset length fd) s n =
      ground (arith, emu_is_native-of s n, apart.write_apart buf offset length fd s.emu.world)
  perform-Kept (FileCall.default_fd_call current_fd second_fd) s n =
      ground (arith, emu_is_native-of s n, apart.default_apart current_fd second_fd s.emu.world)
  perform-Kept (FileCall.presence_call playing status sub_status) s n =
      ground
        (arith, emu_is_native-of s n, apart.presence_apart playing status sub_status s.emu.world)
  perform-Kept (FileCall.fs_info_call status) s n =
      ground (arith, emu_is_native-of s n, apart.fs_info_apart s.emu.world)

  -- Once the device is a FlippyDrive, every sequence of file operations is the drive's: no part of the
  -- hardware that the client and the disc drive do not reach, such as the memory of FatFs and the
  -- storage devices behind it, is ever changed, and the device stays the FlippyDrive.
  pub run-Kept :
      (calls : List FileCall) (s : Disc World)
      → s.emu.sd_device ≡ some device_flippy
      → Kept s (run build services calls s)
  unfolding run
  run-Kept [] s n = (refl, n)
  run-Kept (c ∷ calls) s n =
      let kept = perform-Kept c s n in
      join s (perform build services c s) (run build services calls (perform build services c s))
        kept (run-Kept calls (perform build services c s) kept.1)
