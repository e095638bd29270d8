-- ===== src/Ata.antt =====
-- How a sector of an IDE-EXI drive is asked for: the registers that ata_read_one of
-- cubeboot/source/emu/ata.c writes, lines 34 to 58 and 274 to 293.
pub mod Address
pub mod Exi
pub mod Driver
pub mod Meter
pub mod Reads
use cubiboot.Base.{
  ℕ, zero, suc, ◌+◌, ◌*◌, ◌/◌, ◌%◌, ◌^◌, Bool, true, false, List, [], ◌∷◌, ◌==◌, if◌then◌else◌,
}

-- ATA_REG_SECCOUNT to ATA_REG_COMMAND
pub data AtaRegister : Type 0 where
  seccount lbalo lbamid lbahi device command : AtaRegister

-- ATA_CMD_READSECT and ATA_CMD_READSECTEXT
abbrev pub ata_cmd_readsect : ℕ
ata_cmd_readsect = 0x21

abbrev pub ata_cmd_readsectext : ℕ
ata_cmd_readsectext = 0x24

-- ATA_HEAD_USE_LBA
abbrev pub ata_head_use_lba : ℕ
ata_head_use_lba = 0x40

-- `(lba >> k) & 0xFF`
abbrev pub byte_at : ℕ → ℕ → ℕ
byte_at k lba = lba / 2 ^ k % 256

-- The writes of `ata_read_one`, in order, with `ata_lba48` of the port. The bits of the last nibble
-- of the address are not those of ATA_HEAD_USE_LBA, so that `|` is a sum.
unfoldable pub task_file : Bool → ℕ → List (AtaRegister × ℕ)
task_file true lba =
    (device, ata_head_use_lba)
    ∷ (seccount, 0)
    ∷ (lbalo, byte_at 24 lba)
    ∷ (lbamid, 0)
    ∷ (lbahi, 0)
    ∷ (seccount, 1)
    ∷ (lbalo, byte_at 0 lba)
    ∷ (lbamid, byte_at 8 lba)
    ∷ (lbahi, byte_at 16 lba)
    ∷ (command, ata_cmd_readsectext)
    ∷ []
task_file false lba =
    (device, ata_head_use_lba + lba / 2 ^ 24 % 16)
    ∷ (seccount, 1)
    ∷ (lbalo, byte_at 0 lba)
    ∷ (lbamid, byte_at 8 lba)
    ∷ (lbahi, byte_at 16 lba)
    ∷ (command, ata_cmd_readsect)
    ∷ []
