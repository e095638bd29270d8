-- ===== src/Tests/FileRuns.antt =====
-- The file operations over concrete services.
use cubiboot.Base.{ℕ, suc, true, false, some, List, [], ◌∷◌, ◌≡◌, refl}
use cubiboot.Emu.{Emu, device_flippy}
use cubiboot.Emu.Files.{is_native}
use cubiboot.Emu.Runs.{FileCall, run, bypassed, GoesTo, run-passthrough}
use cubiboot.Emu.Runs.Native.{Apart, Kept, run-Kept}
use cubiboot.Emu.Services.{Services, Disc, dol, ipl}
use cubiboot.Fdrv.Files.{FileStatus}

-- The hardware is the number of the calls of FatFs, of a file of 300 bytes, with the number of the
-- calls of the client and of the disc drive.
abbrev Calls : Type 0
Calls = ℕ × ℕ

abbrev drive_call : Calls → Calls
drive_call (fat, drive) = (fat, suc drive)

abbrev fat_call : Calls → Calls
fat_call (fat, drive) = (suc fat, drive)

abbrev found_status : FileStatus
found_status = record { result = 0; fsize = 300; fd = 1 }

abbrev counting : Services Calls
counting = record {
  bring_up = λ w i. (true, drive_call w);
  fdrv_open = λ p t f w. (0, drive_call w);
  fdrv_open_flash = λ p t f w. (1, drive_call w);
  fdrv_status = λ w. ((0, found_status), drive_call w);
  fdrv_close = λ fd w. drive_call w;
  fdrv_set_default_fd = λ a b w. drive_call w;
  fdrv_read = λ l o f w. ((0, []), drive_call w);
  fdrv_threaded_read = λ l o f w. ((0, []), drive_call w);
  fdrv_readdir = λ f d w. ((0, d), drive_call w);
  fdrv_mkdir = λ p w. (0, drive_call w);
  fdrv_unlink = λ p w. (0, drive_call w);
  fdrv_unlink_flash = λ p w. (0, drive_call w);
  fdrv_write = λ b o l f w. (0, drive_call w);
  fdrv_fs_info = λ w. ((0, record { fs_result = 0; free = 1; total = 2 }), drive_call w);
  fdrv_presence = λ p a b w. (0, drive_call w);
  fdrv_bypass_enter = λ w. drive_call w;
  fdrv_bypass_exit = λ w. drive_call w;
  normal_dvd_read = λ l o f w. ((0, []), drive_call w);
  di_reset = λ w. drive_call w;
  di_stop_motor = λ w. drive_call w;
  f_open = λ p m w. (true, fat_call w);
  f_opendir = λ p w. (true, fat_call w);
  f_close = λ w. fat_call w;
  f_closedir = λ w. fat_call w;
  f_lseek = λ o w. (true, fat_call w);
  f_read = λ l w. ((true, []), fat_call w);
  f_readdir = λ w. ((true, record { fname = []; fattrib = 0; fsize = 0 }), fat_call w);
  f_mkdir = λ p w. (true, fat_call w);
  f_size = λ w. 300;
  file_fs = λ w. true;
  dir_fs = λ w. false;
}

abbrev on_device : ℕ → Disc Calls
on_device i = record {
  emu = record {
    sd_device = some i;
    mounted = true;
    world = (0, 0);
    udelays = 0;
    boot_updates = 0;
  };
  passthrough = false;
}

abbrev some_calls : List FileCall
some_calls =
    FileCall.open_flash_call (0x2F ∷ 0x61 ∷ []) 0 0
    ∷ FileCall.read_call 32 0 1
    ∷ FileCall.bypass_enter_call
    ∷ FileCall.status_call
    ∷ []

run-passthrough_example :
    GoesTo dol counting
      (bypassed some_calls false)
      32
      0
      1
      (run dol counting some_calls (on_device 1))
run-passthrough_example = run-passthrough dol counting some_calls (on_device 1) 32 0 1

abbrev fat_apart : Apart counting ℕ
fat_apart = record {
  view = λ w. w.0;
  bring_up_apart = λ w. refl;
  open_apart = λ p t f w. refl;
  open_flash_apart = λ p t f w. refl;
  status_apart = λ w. refl;
  close_apart = λ fd w. refl;
  default_apart = λ a b w. refl;
  read_apart = λ l o f w. refl;
  threaded_apart = λ l o f w. refl;
  readdir_apart = λ f d w. refl;
  mkdir_apart = λ p w. refl;
  unlink_apart = λ p w. refl;
  unlink_flash_apart = λ p w. refl;
  write_apart = λ b o l f w. refl;
  fs_info_apart = λ w. refl;
  presence_apart = λ p a b w. refl;
  enter_apart = λ w. refl;
  exit_apart = λ w. refl;
  normal_apart = λ l o f w. refl;
}

run-Kept_example :
    Kept ipl counting fat_apart
      (on_device device_flippy)
      (run ipl counting some_calls (on_device device_flippy))
run-Kept_example = run-Kept ipl counting fat_apart some_calls (on_device device_flippy) refl

not_native : is_native dol counting (on_device 1) ≡ false
unfolding cubiboot.Emu.emu_is_native
not_native = refl
