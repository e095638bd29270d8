-- ===== src/Ata/Driver.antt =====
-- The IDE-EXI driver over the transactions of `Ata.Exi`: cubeboot/source/emu/ata.c, lines 201 to 328.
use cubiboot.Base.{
  ℕ, zero, suc, ◌+◌, ◌%◌, ◌^◌, Bool, true, false, not, ◌||◌, Option, none, some, List, [], ◌∷◌,
  ◌++◌, ltb, leb, ◌==◌, if◌then◌else◌, bit_and,
}
use cubiboot.Ata.{device, command, ata_head_use_lba, task_file}
use cubiboot.Ata.Exi.{
  Exi, ata_rd8, ata_wr8, ata_rd_buffer, write_registers, register_number, ata_reg_status,
  ata_reg_devctrl,
}
use cubiboot.Disk.{ExiPort}

-- ATA_SR_BSY, ATA_SR_DRQ and ATA_SR_ERR
abbrev pub ata_sr_bsy : ℕ
ata_sr_bsy = 0x80

abbrev pub ata_sr_drq : ℕ
ata_sr_drq = 0x08

abbrev pub ata_sr_err : ℕ
ata_sr_err = 0x01

-- ATA_DCR_SRST and ATA_DCR_NIEN
abbrev pub ata_dcr_srst : ℕ
ata_dcr_srst = 0x04

abbrev pub ata_dcr_nien : ℕ
ata_dcr_nien = 0x02

-- ATA_CMD_IDENTIFY, ATA_READ_RETRIES and ATA_NUM_CHN
abbrev pub ata_cmd_identify : ℕ
ata_cmd_identify = 0xEC

abbrev pub ata_read_retries : ℕ
ata_read_retries = 4

abbrev pub ata_num_chn : ℕ
ata_num_chn = 3

-- The limit of the loop of `ata_wait`.
abbrev pub ata_polls : ℕ
ata_polls = 100000

module _ {Sector : Type 0} (exi : Exi Sector) where
  open exi use {World}

  -- The loop of `ata_wait`, with `left` reads of the status to go.
  unfoldable pub poll_status : ℕ → ExiPort → ℕ → ℕ → World → Bool × World
  poll_status zero port mask want w = (false, w)
  poll_status (suc left) port mask want w =
      let (st, w1) = ata_rd8 exi port ata_reg_status w in
      let rest = poll_status left port mask want w1 in
      if st == 0xFF then (false, w1) else if bit_and st mask == want then (true, w1) else rest

  abbrev pub ata_wait : ExiPort → ℕ → ℕ → World → Bool × World
  ata_wait port mask want w = poll_status ata_polls port mask want w

  -- `ata_soft_reset`
  unfoldable pub ata_soft_reset : ExiPort → World → World
  ata_soft_reset port w =
      let w1 = ata_wr8 exi port ata_reg_devctrl (ata_dcr_srst + ata_dcr_nien) w in
      let w2 = ata_wr8 exi port ata_reg_devctrl ata_dcr_nien w1 in (ata_wait port ata_sr_bsy 0 w2).1

  -- The data block of a command that has been written: the wait for DRQ, the test of ERR, and the
  -- transfer.
  unfoldable pub data_block : ExiPort → World → Option Sector × World
  data_block port w =
      let (ready, w1) = ata_wait port (ata_sr_bsy + ata_sr_drq) ata_sr_drq w in
      let (st, w2) = ata_rd8 exi port ata_reg_status w1 in
      let (got, w3) = ata_rd_buffer exi port w2 in
      if not ready
      then (none, w1)
      else if not (bit_and st ata_sr_err == 0)
      then (none, w2)
      else (got, w3)

  -- `ata_init`, with `ata_lba48` as it leaves it. `id_word` reads a word of the data block.
  unfoldable pub ata_init :
      (Sector → ℕ → ℕ) → ExiPort → (ℕ → Bool) → World → Bool × (ℕ → Bool) × World
  ata_init id_word port ata_lba48 w =
      let w1 = ata_wr8 exi port (register_number device) ata_head_use_lba w in
      let (idle, w2) = ata_wait port ata_sr_bsy 0 w1 in
      let w3 = ata_wr8 exi port (register_number command) ata_cmd_identify w2 in
      let (id, w4) = data_block port w3 in
      if leb ata_num_chn port.chn
      then (false, ata_lba48, w)
      else if not idle
      then (false, ata_lba48, w2)
      else elim id [
        | none ↦ (false, ata_lba48, w4)
        | some block ↦ (
          true,
          λ chn.
              if chn == port.chn
              then not (bit_and (id_word block 83) (2 ^ 10) == 0) || id_word block 0 == 0
              else ata_lba48 chn,
          w4,
        )
      ]

  -- `ata_read_one`: the sector, if the drive gave it.
  unfoldable pub ata_read_one : ExiPort → (ℕ → Bool) → ℕ → World → Option Sector × World
  ata_read_one port ata_lba48 lba w =
      let (idle, w1) = ata_wait port ata_sr_bsy 0 w in
      let asked = write_registers exi port (task_file (ata_lba48 port.chn) lba) w1 in
      let (got, w2) = data_block port asked in if not idle then (none, w1) else (got, w2)

  -- The loop over `t` of `ata_read`, with `left` attempts to go.
  unfoldable pub read_attempts : ℕ → ℕ → ExiPort → (ℕ → Bool) → ℕ → World → Option Sector × World
  read_attempts zero t port ata_lba48 lba w = (none, w)
  read_attempts (suc left) t port ata_lba48 lba w =
      let ready = if ltb 0 t then ata_soft_reset port w else w in
      let (got, w1) = ata_read_one port ata_lba48 lba ready in
      let rest = read_attempts left (t + 1) port ata_lba48 lba w1 in
      elim got [ none ↦ rest | some s ↦ (some s, w1) ]

  -- The loop over `i` of `ata_read`, from `lba`, which is `sector + i`, with `left` sectors to go.
  unfoldable pub read_sectors :
      ℕ → ExiPort → (ℕ → Bool) → ℕ → List Sector → World → Bool × List Sector × World
  read_sectors zero port ata_lba48 lba data_out w = (true, data_out, w)
  read_sectors (suc left) port ata_lba48 lba data_out w =
      let (got, w1) = read_attempts ata_read_retries 0 port ata_lba48 lba w in
      elim got [
        | none ↦ (false, data_out, w1)
        | some s ↦ read_sectors left port ata_lba48 ((lba + 1) % 2 ^ 32) (data_out ++ (s ∷ [])) w1
      ]

  unfoldable pub ata_read : ExiPort → (ℕ → Bool) → ℕ → ℕ → World → Bool × List Sector × World
  ata_read port ata_lba48 sector count w = read_sectors count port ata_lba48 sector [] w

  unfoldable pub ata_write : ExiPort → ℕ → List Sector → ℕ → World → Bool × World
  ata_write port sector buffer count w = (false, w)
