-- ===== src/Ata/Exi.antt =====
-- The EXI transactions of the IDE-EXI driver, as cubeboot.dol is built: cubeboot/source/emu/ata.c,
-- lines 101 to 199 without IPL_CODE. EXI_Lock, EXI_Select, EXI_ImmEx, EXI_DmaEx, EXI_Deselect and
-- EXI_Unlock are the console library's.
use cubiboot.Base.{
  ℕ, ◌+◌, ◌*◌, ◌/◌, ◌%◌, ◌^◌, Bool, true, false, not, Option, none, some, List, [], ◌∷◌,
  if◌then◌else◌,
}
use cubiboot.Ata.{AtaRegister, seccount, lbalo, lbamid, lbahi, device, command}
use cubiboot.Disk.{ExiPort}

-- ATA_EXI_FREQ
abbrev pub ata_exi_freq : ℕ
ata_exi_freq = 5

-- EXI_READ and EXI_WRITE
pub data ExiMode : Type 0 where
  exi_read exi_write : ExiMode

-- The library, with the channel and the device. `exi_imm` has the word sent, the number of its bytes
-- and the mode, and gives the word as the call leaves it; `exi_dma` reads a sector.
pub record Exi (Sector : Type 0) : Type 1 where
  pub World : Type 0
  pub exi_lock : World → ℕ → ℕ → Bool × World
  pub exi_select : World → ℕ → ℕ → ℕ → Bool × World
  pub exi_unlock : World → ℕ → World
  pub exi_deselect : World → ℕ → World
  pub exi_imm : World → ℕ → ℕ → ℕ → ExiMode → ℕ × World
  pub exi_dma : World → ℕ → Sector × World

-- ATA_REG_SECCOUNT to ATA_REG_COMMAND, ATA_REG_STATUS and ATA_REG_DEVCTRL
abbrev pub register_number : AtaRegister → ℕ
register_number seccount = 0x12
register_number lbalo = 0x13
register_number lbamid = 0x14
register_number lbahi = 0x15
register_number device = 0x16
register_number command = 0x17

abbrev pub ata_reg_status : ℕ
ata_reg_status = 0x17

abbrev pub ata_reg_devctrl : ℕ
ata_reg_devctrl = 0x0E

-- The words sent to read a register, to write one, and to ask for 128 double words of data. Their
-- bytes have no bit in common, so that `|` is a sum.
abbrev pub read_word : ℕ → ℕ
read_word reg = reg * 2 ^ 24

abbrev pub write_word : ℕ → ℕ → ℕ
write_word reg val = 0x80000000 + reg * 2 ^ 24 + val * 2 ^ 16

abbrev pub buffer_word : ℕ
buffer_word = 0x70000000 + 128 % 256 * 2 ^ 16 + 128 / 2 ^ 8 % 256 * 2 ^ 8

module _ {Sector : Type 0} (exi : Exi Sector) where
  open exi use {World, exi_lock, exi_select, exi_unlock, exi_deselect, exi_imm, exi_dma}

  unfoldable pub ata_select : ExiPort → World → Bool × World
  ata_select port w =
      let (locked, w1) = exi_lock w port.chn port.dev in
      let (selected, w2) = exi_select w1 port.chn port.dev ata_exi_freq in
      if not locked
      then (false, w1)
      else if not selected
      then (false, exi_unlock w2 port.chn)
      else (true, w2)

  unfoldable pub ata_deselect : ExiPort → World → World
  ata_deselect port w = exi_unlock (exi_deselect w port.chn) port.chn

  -- `ata_rd8`
  unfoldable pub ata_rd8 : ExiPort → ℕ → World → ℕ × World
  ata_rd8 port reg w =
      let (selected, w1) = ata_select port w in
      let (sent, w2) = exi_imm w1 port.chn (read_word reg) 2 exi_write in
      let (r, w3) = exi_imm w2 port.chn 0 1 exi_read in
      if not selected then (0xFF, w1) else (r / 2 ^ 24 % 256, ata_deselect port w3)

  -- `ata_wr8`
  unfoldable pub ata_wr8 : ExiPort → ℕ → ℕ → World → World
  ata_wr8 port reg val w =
      let (selected, w1) = ata_select port w in
      let (sent, w2) = exi_imm w1 port.chn (write_word reg val) 3 exi_write in
      if not selected then w1 else ata_deselect port w2

  -- `ata_rd_buffer`: the sector that it copies out, if it does.
  unfoldable pub ata_rd_buffer : ExiPort → World → Option Sector × World
  ata_rd_buffer port w =
      let (selected, w1) = ata_select port w in
      let (sent, w2) = exi_imm w1 port.chn buffer_word 4 exi_write in
      let (buf, w3) = exi_dma w2 port.chn in
      if not selected then (none, w1) else (some buf, ata_deselect port w3)

  -- The writes to the registers of a list, in order.
  unfoldable pub write_registers : ExiPort → List (AtaRegister × ℕ) → World → World
  write_registers port [] w = w
  write_registers port ((reg, val) ∷ rest) w =
      write_registers port rest (ata_wr8 port (register_number reg) val w)
