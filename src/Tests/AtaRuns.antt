-- ===== src/Tests/AtaRuns.antt =====
-- Addresses of an IDE-EXI drive.
use cubiboot.Base.{ℕ, suc, true, ◌≡◌, some, arith}
use cubiboot.Ata.Exi.{Exi}
use cubiboot.Ata.Meter.{Metered}
use cubiboot.Disk.{ExiPort}
use cubiboot.Ata.{task_file}
use cubiboot.Ata.Address.{Drive, behind_writes, task_file_lem}

abbrev dirty : Drive
dirty = record { last = λ r. 0xFF; before = λ r. 0xAA; started = some (9, 9) }

task_file_example : (behind_writes (task_file true 0x12345678) dirty).started ≡ some (0x12345678, 1)
task_file_example = task_file_lem true 0x12345678 dirty (omega arith)

-- A library with a drive whose status is always DRQ and whose sectors are all 7; the world counts the
-- locks.
abbrev steady : Exi ℕ
steady = record {
  World = ℕ;
  exi_lock = λ w c d. (true, suc w);
  exi_select = λ w c d f. (true, w);
  exi_unlock = λ w c. w;
  exi_deselect = λ w c. w;
  exi_imm = λ w c v n m. (0x08000000, w);
  exi_dma = λ w c. (7, w);
}

abbrev slot_a : ExiPort
slot_a = record { chn = 0; dev = 0 }

abbrev steady_clock : Metered steady
steady_clock = record {
  clock = λ w. w;
  lock_spent = λ w c d. record { within = omega arith };
  select_spent = λ w c d f. record { within = omega arith };
  unlock_spent = λ w c. record { within = omega arith };
  deselect_spent = λ w c. record { within = omega arith };
  imm_spent = λ w c v n m. record { within = omega arith };
  dma_spent = λ w c. record { within = omega arith };
}
