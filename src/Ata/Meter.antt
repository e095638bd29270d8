-- ===== src/Ata/Meter.antt =====
-- What the operations of the IDE-EXI driver spend: the number of transactions that a clock of the world
-- counts.
use cubiboot.Base.{
  ℕ, zero, suc, ◌+◌, ◌≤◌, Bool, true, false, List, [], ◌∷◌, Bool-cases, inl, inr, arith, ◌==◌,
  length, bit_and,
}
use cubiboot.Ata.{AtaRegister, task_file}
use cubiboot.Ata.Driver.{
  poll_status, ata_wait, ata_soft_reset, data_block, ata_read_one, ata_polls, ata_sr_bsy,
  ata_sr_drq, ata_sr_err,
}
use cubiboot.Ata.Exi.{
  Exi, ExiMode, ata_select, ata_deselect, ata_rd8, ata_wr8, ata_rd_buffer, write_registers,
  register_number, ata_reg_status, ata_exi_freq,
}
use cubiboot.Disk.{ExiPort}

-- From one world to a later one at most `n` transactions are spent.
pub record Spent {World : Type 0} (clock : World → ℕ) (n : ℕ) (w v : World) : Type 0 where
  pub within : clock v ≤ clock w + n

-- A clock of the library's world: it counts the locks, and no other call moves it.
pub record Metered {Sector : Type 0} (exi : Exi Sector) : Type 0 where
  pub clock : exi.World → ℕ
  pub lock_spent : (w : exi.World) (c d : ℕ) → Spent clock 1 w (exi.exi_lock w c d).1
  pub select_spent : (w : exi.World) (c d f : ℕ) → Spent clock 0 w (exi.exi_select w c d f).1
  pub unlock_spent : (w : exi.World) (c : ℕ) → Spent clock 0 w (exi.exi_unlock w c)
  pub deselect_spent : (w : exi.World) (c : ℕ) → Spent clock 0 w (exi.exi_deselect w c)
  pub imm_spent :
      (w : exi.World) (c v n : ℕ) (m : ExiMode) → Spent clock 0 w (exi.exi_imm w c v n m).1
  pub dma_spent : (w : exi.World) (c : ℕ) → Spent clock 0 w (exi.exi_dma w c).1

module _ {Sector : Type 0} (exi : Exi Sector) (port : ExiPort) (ide : Metered exi) where
  open exi use {World, exi_lock, exi_select, exi_imm, exi_dma}
  open ide use {clock, lock_spent, select_spent, unlock_spent, deselect_spent, imm_spent, dma_spent}

  -- One stretch behind another, one that spends nothing behind another, and a weaker bound.
  pub behind :
      (a b : ℕ) {c : ℕ} {w v u : World}
      → Spent clock a w v
      → Spent clock b v u
      → a + b ≤ c
      → Spent clock c w u
  behind a b s s' h = record { within = omega (arith, s.within, s'.within) }

  pub free : (a : ℕ) {w v u : World} → Spent clock a w v → Spent clock 0 v u → Spent clock a w u
  free a s s' = record { within = omega (arith, s.within, s'.within) }

  pub more : (a : ℕ) {c : ℕ} {w v : World} → Spent clock a w v → a ≤ c → Spent clock c w v
  more a s h = record { within = omega (arith, s.within) }

  -- No stretch at all.
  pub here : (c : ℕ) (w : World) → Spent clock c w w
  here c w = record { within = omega arith }

  ata_select-Spent : (w : World) → Spent clock 1 w (ata_select exi port w).1
  unfolding ata_select
  ata_select-Spent w =
      let l = exi_lock w port.chn port.dev in
      let s = exi_select l.1 port.chn port.dev ata_exi_freq in
      let locked : Spent clock 1 w l.1 = lock_spent w port.chn port.dev in
      let selected : Spent clock 1 w s.1 =
        free 1 locked (select_spent l.1 port.chn port.dev ata_exi_freq) in
      elim (Bool-cases l.0) [
        | inl e ↦ elim (Bool-cases s.0) [
          | inl f ↦ rw (e, f) selected
          | inr f ↦ rw (e, f) (free 1 selected (unlock_spent s.1 port.chn))
        ]
        | inr e ↦ rw e locked
      ]

  deselected : (w : World) → Spent clock 0 w (ata_deselect exi port w)
  unfolding ata_deselect
  deselected w = free 0 (deselect_spent w port.chn) (unlock_spent _ port.chn)

  rd8-Spent : (reg : ℕ) (w : World) → Spent clock 1 w (ata_rd8 exi port reg w).1
  unfolding ata_rd8
  rd8-Spent reg w =
      let chosen = ata_select-Spent w in
      elim (Bool-cases (ata_select exi port w).0) [
        | inl e ↦ rw e (
            free 1 (free 1 (free 1 chosen (imm_spent _ _ _ _ _)) (imm_spent _ _ _ _ _))
              (deselected _))
        | inr e ↦ rw e chosen
      ]

  wr8-Spent : (reg val : ℕ) (w : World) → Spent clock 1 w (ata_wr8 exi port reg val w)
  unfolding ata_wr8
  wr8-Spent reg val w =
      let chosen = ata_select-Spent w in
      elim (Bool-cases (ata_select exi port w).0) [
        | inl e ↦ rw e (free 1 (free 1 chosen (imm_spent _ _ _ _ _)) (deselected _))
        | inr e ↦ rw e chosen
      ]

  rd_buffer-Spent : (w : World) → Spent clock 1 w (ata_rd_buffer exi port w).1
  unfolding ata_rd_buffer
  rd_buffer-Spent w =
      let chosen = ata_select-Spent w in
      elim (Bool-cases (ata_select exi port w).0) [
        | inl e ↦
            rw e
              (free 1 (free 1 (free 1 chosen (imm_spent _ _ _ _ _)) (dma_spent _ _)) (deselected _))
        | inr e ↦ rw e chosen
      ]

  pub registers-Spent :
      (ws : List (AtaRegister × ℕ)) (w : World)
      → Spent clock (length ws) w (write_registers exi port ws w)
  unfolding write_registers
  registers-Spent [] w = here 0 w
  registers-Spent ((reg, val) ∷ rest) w =
      behind 1 (length rest) (wr8-Spent (register_number reg) val w) (registers-Spent rest _)
        (omega arith)

  pub poll-Spent :
      (left mask want : ℕ) (w : World)
      → Spent clock left w (poll_status exi left port mask want w).1
  unfolding poll_status
  poll-Spent zero mask want w = here 0 w
  poll-Spent (suc left) mask want w =
      let read = rd8-Spent ata_reg_status w in
      let first : Spent clock (suc left) w (ata_rd8 exi port ata_reg_status w).1 =
        more 1 read (omega arith) in
      elim (Bool-cases ((ata_rd8 exi port ata_reg_status w).0 == 0xFF)) [
        | inl e ↦ rw e first
        | inr e ↦ elim (Bool-cases (bit_and (ata_rd8 exi port ata_reg_status w).0 mask == want)) [
          | inl f ↦ rw (e, f) first
          | inr f ↦ rw (e, f) (behind 1 left read (poll-Spent left mask want _) (omega arith))
        ]
      ]

  pub soft_reset-Spent : (w : World) → Spent clock 100002 w (ata_soft_reset exi port w)
  unfolding ata_soft_reset
  soft_reset-Spent w =
      behind 2 100000 (behind 1 1 (wr8-Spent _ _ w) (wr8-Spent _ _ _) (omega arith))
        (poll-Spent ata_polls _ _ _) (omega arith)

  pub data_block-Spent : (w : World) → Spent clock 100002 w (data_block exi port w).1
  unfolding data_block
  data_block-Spent w =
      let p = ata_wait exi port (ata_sr_bsy + ata_sr_drq) ata_sr_drq w in
      let r = ata_rd8 exi port ata_reg_status p.1 in
      let polled : Spent clock 100000 w p.1 = poll-Spent ata_polls _ _ w in
      let read : Spent clock 100001 w r.1 = behind 100000 1 polled (rd8-Spent _ _) (omega arith) in
      elim (Bool-cases p.0) [
        | inl e ↦ elim (Bool-cases (bit_and r.0 ata_sr_err == 0)) [
          | inl f ↦ rw (e, f) (behind 100001 1 read (rd_buffer-Spent _) (omega arith))
          | inr f ↦ rw (e, f) (more 100001 read (omega arith))
        ]
        | inr e ↦ rw e (more 100000 polled (omega arith))
      ]

  task_file_length : (wide : Bool) (lba : ℕ) → length (task_file wide lba) ≤ 10
  unfolding task_file
  task_file_length true lba = omega arith
  task_file_length false lba = omega arith

  pub read_one-Spent :
      (ata_lba48 : ℕ → Bool) (lba : ℕ) (w : World)
      → Spent clock 200012 w (ata_read_one exi port ata_lba48 lba w).1
  unfolding ata_read_one
  read_one-Spent ata_lba48 lba w =
      let p = ata_wait exi port ata_sr_bsy 0 w in
      let ws = task_file (ata_lba48 port.chn) lba in
      let polled : Spent clock 100000 w p.1 = poll-Spent ata_polls _ _ w in
      let asked : Spent clock 100010 w (write_registers exi port ws p.1) =
        behind 100000 10 polled
          (more (length ws) (registers-Spent ws p.1) (task_file_length (ata_lba48 port.chn) lba))
          (omega arith) in
      elim (Bool-cases p.0) [
        | inl e ↦ rw e (behind 100010 100002 asked (data_block-Spent _) (omega arith))
        | inr e ↦ rw e (more 100000 polled (omega arith))
      ]
