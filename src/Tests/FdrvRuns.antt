-- ===== src/Tests/FdrvRuns.antt =====
-- The FlippyDrive client on a bus whose drive is ready at once.
use cubiboot.Base.{
  ℕ, suc, ◌+◌, ◌≤◌, true, false, none, some, List, [], ◌∷◌, ◌≡◌, ◌⊎◌, refl, arith, length, take,
  drop,
}
use cubiboot.Fdrv.{FdBus, Fdrv, fdrv_probe, ask_drive, fdrv_present, flippy_rel_date_firmware}
use cubiboot.Gcode.Bus.{gcode_rel_date}
use cubiboot.Fdrv.Files.{
  FileStatus, fdrv_status, file_status_of, file_word, oem_read_word, default_word, ipc_file_readdir,
  ipc_set_default_fd, file_entry, file_entry_size,
}
use cubiboot.Fdrv.Polls.{PollClock, fdrv_probe_polls}
use cubiboot.Fdrv.Probe.{Answered, Verdict, ask_drive_lem, fdrv_probe_again}
use cubiboot.Fdrv.Results.{quiet_after, Told, fdrv_status_lem}
use cubiboot.Fdrv.Words.{Carries, c_string, words_lem, file_entry_lem}

-- The bus counts its polls.
abbrev ready_drive : FdBus
ready_drive = record {
  Bus = ℕ;
  prepare = λ b. b;
  start = λ b c. b;
  poll = λ b. (false, suc b);
  device_error = λ b. false;
  settle = λ b. b;
  yield_thread = λ b. b;
  clear = λ b. b;
  rel_date = λ b. 0x20220426;
  fw_ver = λ b. 0x01020003;
  landed = λ b. 0 ∷ 0 ∷ 0 ∷ 0 ∷ [];
}

abbrev unknown : Fdrv
unknown = record { has_fdrv = none; fdrv_fw_ver = 0 }

abbrev counted : PollClock ready_drive
counted = record {
  polls = λ b. b;
  prepare_free = λ b. omega arith;
  start_free = λ b c. omega arith;
  settle_free = λ b. omega arith;
  clear_free = λ b. omega arith;
  poll_one = λ b. omega arith;
}

ask_drive_example :
    Verdict ready_drive 0 unknown (ask_drive ready_drive unknown 0)
    × ((c : ℕ)
        → Answered ready_drive 0 c
        → ready_drive.rel_date c ≡ flippy_rel_date_firmware
        → ask_drive ready_drive unknown 0
          ≡ (true, record { has_fdrv = some true; fdrv_fw_ver = ready_drive.fw_ver c }, c))
    × ((c : ℕ)
        → Answered ready_drive 0 c
        → ready_drive.rel_date c ≡ gcode_rel_date
        → ask_drive ready_drive unknown 0
          ≡ (false, record { has_fdrv = some false; fdrv_fw_ver = unknown.fdrv_fw_ver }, c))
ask_drive_example = ask_drive_lem ready_drive unknown 0

fdrv_probe_again_example :
    (fdrv_present (fdrv_probe ready_drive unknown 0).1 ≡ (fdrv_probe ready_drive unknown 0).0)
    × ((((fdrv_probe ready_drive unknown 0).0 ≡ false)
          × ((fdrv_probe ready_drive unknown 0).1.has_fdrv ≡ none))
        ⊎ (fdrv_probe ready_drive
              (fdrv_probe ready_drive unknown 0).1
              (fdrv_probe ready_drive unknown 0).2
            ≡ fdrv_probe ready_drive unknown 0))
fdrv_probe_again_example = fdrv_probe_again ready_drive unknown 0

fdrv_probe_polls_example : (fdrv_probe ready_drive unknown 0).2 ≤ 0 + 65000000
fdrv_probe_polls_example = fdrv_probe_polls ready_drive counted unknown 0

words_example :
    Carries (file_word ipc_file_readdir 3) 0xB5 3 0 ipc_file_readdir
    × Carries (oem_read_word 3) 0xA8 3 0 0
    × Carries (default_word 3 4) 0xB5 3 4 ipc_set_default_fd
words_example = words_lem ipc_file_readdir 3 4 (omega arith)

-- "/a"
abbrev short_path : List ℕ
short_path = 0x2F ∷ 0x61 ∷ []

file_entry_example :
    (length (file_entry short_path 0 1) ≡ file_entry_size)
    × (c_string (file_entry short_path 0 1) ≡ take 255 short_path)
    × (take 2 (drop 256 (file_entry short_path 0 1)) ≡ 0 ∷ 1 ∷ [])
file_entry_example = file_entry_lem short_path 0 1 (omega arith, (omega arith, tt))

quiet_at_once : (b : ℕ) → quiet_after ready_drive 0 b ≡ true
unfolding quiet_after
quiet_at_once b = refl

fdrv_status_example :
    (ret : ℕ) × (dst : FileStatus) × (done : ℕ) × (fdrv_status ready_drive 1 0
      ≡ some (ret, dst, done))
    × Told ready_drive file_status_of (λ s. s.result) ret dst done
fdrv_status_example = fdrv_status_lem ready_drive 1 0 0 (omega arith) (quiet_at_once 0)
