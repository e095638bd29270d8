-- ===== src/Emu/Runs.antt =====
-- Sequences of the file operations of cubeboot/source/emu/flippy_emu.c, lines 169 to 441.
pub mod Native
use cubiboot.Base.{
  ◌⊎◌, ℕ, Bool, true, false, not, ◌&&◌, List, [], ◌∷◌, ◌++◌, ◌≡◌, refl, sym, ◌∙◌, ap, Bool-cases,
  inl, inr, arith, ◌==◌, if◌then◌else◌,
}
use cubiboot.Emu.Files.{
  is_native, flippy_emu_mount, dvd_custom_close, open_emulated, dvd_custom_open, open_flash_native,
  dvd_custom_open_flash, dvd_custom_status, read_emulated, dvd_read, dvd_threaded_read,
  dvd_custom_readdir, dvd_custom_mkdir, dvd_custom_bypass_enter, dvd_custom_bypass_exit,
  dvd_custom_write, dvd_set_default_fd, dvd_custom_unlink, dvd_custom_unlink_flash,
  dvd_custom_presence, dvd_custom_fs_info, flash_prefix,
}
use cubiboot.Emu.Services.{
  Services, Disc, Build, on_world, dol, ipl, FileEntry, file_entry_type_file, file_entry_type_dir,
}
use cubiboot.Fdrv.Files.{FsInfo}

-- The calls that the rest of the program makes.
pub data FileCall : Type 0 where
  open_call open_flash_call : List ℕ → ℕ → ℕ → FileCall
  status_call bypass_enter_call bypass_exit_call : FileCall
  read_call threaded_read_call : ℕ → ℕ → ℕ → FileCall
  readdir_call : FileEntry → ℕ → FileCall
  mkdir_call unlink_call unlink_flash_call : List ℕ → FileCall
  close_call : ℕ → FileCall
  write_call : List ℕ → ℕ → ℕ → ℕ → FileCall
  default_fd_call : ℕ → ℕ → FileCall
  presence_call : Bool → List ℕ → List ℕ → FileCall
  fs_info_call : FsInfo → FileCall

module _ {World : Type 0} (build : Build) (services : Services World) where
  unfoldable pub perform : FileCall → Disc World → Disc World
  perform (open_call path type flags) s = (dvd_custom_open build services path type flags s).1
  perform (open_flash_call path type flags) s =
      (dvd_custom_open_flash build services path type flags s).1
  perform status_call s = (dvd_custom_status build services s).1
  perform bypass_enter_call s = dvd_custom_bypass_enter build services s
  perform bypass_exit_call s = dvd_custom_bypass_exit build services s
  perform (read_call len offset fd) s = (dvd_read build services len offset fd s).1
  perform (threaded_read_call len offset fd) s =
      (dvd_threaded_read build services len offset fd s).1
  perform (readdir_call dst fd) s = (dvd_custom_readdir build services dst fd s).1
  perform (mkdir_call path) s = (dvd_custom_mkdir build services path s).1
  perform (unlink_call path) s = (dvd_custom_unlink build services path s).1
  perform (unlink_flash_call path) s = (dvd_custom_unlink_flash build services path s).1
  perform (close_call fd) s = dvd_custom_close build services fd s
  perform (write_call buf offset length fd) s =
      (dvd_custom_write build services buf offset length fd s).1
  perform (default_fd_call current_fd second_fd) s =
      dvd_set_default_fd build services current_fd second_fd s
  perform (presence_call playing status sub_status) s =
      (dvd_custom_presence build services playing status sub_status s).1
  perform (fs_info_call status) s = (dvd_custom_fs_info build services status s).1

  unfoldable pub run : List FileCall → Disc World → Disc World
  run [] s = s
  run (c ∷ calls) s = run calls (perform c s)

-- What the calls for bypass make of the flag.
unfoldable pub bypassed : List FileCall → Bool → Bool
bypassed [] p = p
bypassed (bypass_enter_call ∷ calls) p = bypassed calls true
bypassed (bypass_exit_call ∷ calls) p = bypassed calls false
bypassed (_ ∷ calls) p = bypassed calls p

module _ {World : Type 0} (build : Build) (services : Services World) where
  mount-passthrough :
      (s : Disc World) → (flippy_emu_mount build services s).1.passthrough ≡ s.passthrough
  mount-passthrough s =
      elim build as (λ b. (flippy_emu_mount b services s).1.passthrough ≡ s.passthrough) [
        | dol ↦ refl
        | ipl ↦ refl
      ]

  open-passthrough :
      (path : List ℕ) (type flags : ℕ) (s : Disc World)
      → (dvd_custom_open build services path type flags s).1.passthrough ≡ s.passthrough
  unfolding dvd_custom_open open_emulated dvd_custom_close
  open-passthrough path type flags s = ground (arith, mount-passthrough s)

  open_flash-passthrough :
      (path : List ℕ) (type flags : ℕ) (s : Disc World)
      → (dvd_custom_open_flash build services path type flags s).1.passthrough ≡ s.passthrough
  unfolding dvd_custom_open_flash open_flash_native
  open_flash-passthrough path type flags s =
      let mounted = (flippy_emu_mount build services s).1 in
      ground (
        arith,
        mount-passthrough s,
        open-passthrough (flash_prefix ++ path) type flags mounted,
        open-passthrough path type flags
            (dvd_custom_open build services (flash_prefix ++ path) type flags mounted).1,
      )

  status-passthrough :
      (s : Disc World) → (dvd_custom_status build services s).1.passthrough ≡ s.passthrough
  unfolding dvd_custom_status
  status-passthrough s = ground arith

  enter-passthrough :
      (s : Disc World) → (dvd_custom_bypass_enter build services s).passthrough ≡ true
  unfolding dvd_custom_bypass_enter
  enter-passthrough s = ground arith

  exit-passthrough :
      (s : Disc World) → (dvd_custom_bypass_exit build services s).passthrough ≡ false
  unfolding dvd_custom_bypass_exit
  exit-passthrough s = ground arith

  read-passthrough :
      (len offset fd : ℕ) (s : Disc World)
      → (dvd_read build services len offset fd s).1.passthrough ≡ s.passthrough
  unfolding dvd_read read_emulated
  read-passthrough len offset fd s = ground arith

  threaded-passthrough :
      (len offset fd : ℕ) (s : Disc World)
      → (dvd_threaded_read build services len offset fd s).1.passthrough ≡ s.passthrough
  unfolding dvd_threaded_read
  threaded-passthrough len offset fd s = ground (arith, read-passthrough len offset fd s)

  readdir-passthrough :
      (dst : FileEntry) (fd : ℕ) (s : Disc World)
      → (dvd_custom_readdir build services dst fd s).1.passthrough ≡ s.passthrough
  unfolding dvd_custom_readdir
  readdir-passthrough dst fd s = ground arith

  mkdir-passthrough :
      (path : List ℕ) (s : Disc World)
      → (dvd_custom_mkdir build services path s).1.passthrough ≡ s.passthrough
  unfolding dvd_custom_mkdir
  mkdir-passthrough path s = ground (arith, mount-passthrough s)

  close-passthrough :
      (fd : ℕ) (s : Disc World) → (dvd_custom_close build services fd s).passthrough ≡ s.passthrough
  unfolding dvd_custom_close
  close-passthrough fd s = ground arith

  -- The flag that `perform` leaves is the one that the call asks for.
  perform-passthrough :
      (c : FileCall) (s : Disc World)
      → (perform build services c s).passthrough ≡ bypassed (c ∷ []) s.passthrough
  unfolding perform bypassed dvd_custom_write dvd_set_default_fd dvd_custom_unlink
      dvd_custom_unlink_flash dvd_custom_presence dvd_custom_fs_info
  perform-passthrough (open_call path type flags) s = open-passthrough path type flags s
  perform-passthrough (open_flash_call path type flags) s = open_flash-passthrough path type flags s
  perform-passthrough status_call s = status-passthrough s
  perform-passthrough bypass_enter_call s = enter-passthrough s
  perform-passthrough bypass_exit_call s = exit-passthrough s
  perform-passthrough (read_call len offset fd) s = read-passthrough len offset fd s
  perform-passthrough (threaded_read_call len offset fd) s = threaded-passthrough len offset fd s
  perform-passthrough (readdir_call dst fd) s = readdir-passthrough dst fd s
  perform-passthrough (mkdir_call path) s = mkdir-passthrough path s
  perform-passthrough (unlink_call path) s = ground arith
  perform-passthrough (unlink_flash_call path) s = ground arith
  perform-passthrough (close_call fd) s = close-passthrough fd s
  perform-passthrough (write_call buf offset length fd) s = ground arith
  perform-passthrough (default_fd_call current_fd second_fd) s = ground arith
  perform-passthrough (presence_call playing status sub_status) s = ground arith
  perform-passthrough (fs_info_call status) s = ground arith

  bypassed-cons :
      (c : FileCall) (calls : List FileCall) (p : Bool)
      → bypassed (c ∷ calls) p ≡ bypassed calls (bypassed (c ∷ []) p)
  unfolding bypassed
  bypassed-cons (open_call _ _ _) calls p = refl
  bypassed-cons (open_flash_call _ _ _) calls p = refl
  bypassed-cons status_call calls p = refl
  bypassed-cons bypass_enter_call calls p = refl
  bypassed-cons bypass_exit_call calls p = refl
  bypassed-cons (read_call _ _ _) calls p = refl
  bypassed-cons (threaded_read_call _ _ _) calls p = refl
  bypassed-cons (readdir_call _ _) calls p = refl
  bypassed-cons (mkdir_call _) calls p = refl
  bypassed-cons (unlink_call _) calls p = refl
  bypassed-cons (unlink_flash_call _) calls p = refl
  bypassed-cons (close_call _) calls p = refl
  bypassed-cons (write_call _ _ _ _) calls p = refl
  bypassed-cons (default_fd_call _ _) calls p = refl
  bypassed-cons (presence_call _ _ _) calls p = refl
  bypassed-cons (fs_info_call _) calls p = refl

  run_flag :
      (calls : List FileCall) (s : Disc World)
      → (run build services calls s).passthrough ≡ bypassed calls s.passthrough
  unfolding run bypassed
  run_flag [] s = refl
  run_flag (c ∷ calls) s =
      run_flag calls (perform build services c s)
      ∙ ap (bypassed calls) (perform-passthrough c s)
      ∙ sym (bypassed-cons c calls s.passthrough)

  -- Where both kinds of read go: to the physical disc, to the client, or to FatFs.
  abbrev pub GoesTo : Bool → ℕ → ℕ → ℕ → Disc World → Type 0
  GoesTo true len offset fd s =
      (dvd_read build services len offset fd s
        ≡ on_world (services.normal_dvd_read len offset fd) s)
      × (dvd_threaded_read build services len offset fd s
          ≡ on_world (services.normal_dvd_read len offset fd) s)
  GoesTo false len offset fd s =
      ((is_native build services s ≡ true)
        × (dvd_read build services len offset fd s ≡ on_world (services.fdrv_read len offset fd) s)
        × (dvd_threaded_read build services len offset fd s
            ≡ on_world (services.fdrv_threaded_read len offset fd) s))
      ⊎ ((is_native build services s ≡ false)
          × (dvd_read build services len offset fd s ≡ read_emulated build services len offset s)
          × (dvd_threaded_read build services len offset fd s
              ≡ read_emulated build services len offset s))

  read_goes :
      (p : Bool) (len offset fd : ℕ) (s : Disc World) → s.passthrough ≡ p → GoesTo p len offset fd s
  unfolding dvd_read dvd_threaded_read
  read_goes true len offset fd s e = (rw e refl, rw e refl)
  read_goes false len offset fd s e = elim (Bool-cases (is_native build services s)) [
    | inl n ↦ inl (n, rw (e, n) refl, rw (e, n) refl)
    | inr n ↦ inr (n, rw (e, n) refl, rw (e, n) refl)
  ]

  -- After any sequence of file operations, a read goes to the physical disc exactly if bypass was
  -- entered last and not left, or was in force before and no operation was about it: no other
  -- operation, and no failure, changes that. Otherwise it goes to the FlippyDrive client, if that is
  -- the device, and to FatFs, if not.
  pub run-passthrough :
      (calls : List FileCall) (s : Disc World) (len offset fd : ℕ)
      → GoesTo (bypassed calls s.passthrough) len offset fd (run build services calls s)
  run-passthrough calls s len offset fd = read_goes _ len offset fd _ (run_flag calls s)
