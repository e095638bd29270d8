-- ===== src/Ata/Reads.antt =====
-- A read of an IDE-EXI drive ends, in a bounded number of transactions:
-- ata_read of cubeboot/source/emu/ata.c, lines 267 to 320.
use cubiboot.Base.{
  ℕ, ◌<◌, Bool, true, false, Option, List, ◌≡◌, refl, Bool-cases, Option-cases, ◌⊎◌, inl, inr,
  arith, ltb, leb, ◌==◌, ==_iff, if◌then◌else◌, length,
}
use cubiboot.Ata.{device, command, ata_head_use_lba}
use cubiboot.Ata.Driver.{
  ata_wait, ata_soft_reset, data_block, ata_num_chn, ata_cmd_identify, ata_init, ata_sr_bsy,
}
use cubiboot.Ata.Exi.{Exi, ata_wr8, register_number}
use cubiboot.Ata.Meter.{Metered, Spent}
use cubiboot.Disk.{ExiPort}

module _ {Sector : Type 0} (exi : Exi Sector) (port : ExiPort) (ide : Metered exi) where
  open exi use {World}
  open ide use {clock}

  -- What a request for `count` sectors leaves: what it spent, and that many sectors if it succeeds.
  abbrev pub Delivers : ℕ → ℕ → World → Bool × List Sector × World → Type 0
  Delivers count n w o =
      Spent clock n w o.2 × ((o.0 ≡ false) ⊎ ((o.0 ≡ true) × (length o.1 ≡ count)))

  -- The world that an attempt starts from.
  abbrev ready : ℕ → World → World
  ready t w = if ltb 0 t then ata_soft_reset exi port w else w

-- What `ata_init` learns: a channel keeps what is known of its addresses, unless it is the channel
-- of the port, one of the first three, and the call has succeeded.
ata_init_keeps :
    {Sector : Type 0} (exi : Exi Sector) (id_word : Sector → ℕ → ℕ) (port : ExiPort)
    (ata_lba48 : ℕ → Bool) (w : exi.World) (chn : ℕ)
    → ((ata_init exi id_word port ata_lba48 w).1 chn ≡ ata_lba48 chn)
      ⊎ ((chn ≡ port.chn)
          × (chn < ata_num_chn)
          × ((ata_init exi id_word port ata_lba48 w).0 ≡ true))
unfolding ata_init
ata_init_keeps {Sector = Sector} exi id_word port ata_lba48 w chn =
    elim (Bool-cases (leb ata_num_chn port.chn)) [
      | inl e ↦ rw e (inl refl)
      | inr e ↦ elim (Bool-cases (ata_wait exi port ata_sr_bsy 0 w1).0) [
        | inl f ↦ elim (Option-cases id) [
          | inl g ↦ rw (e, f, g) (inl refl)
          | inr (block, g) ↦ elim (Bool-cases (chn == port.chn)) [
            | inl h ↦ rw (e, f, g) (inr ((==_iff chn port.chn).0 h, ground arith, refl))
            | inr h ↦ rw (e, f, g, h) (inl refl)
          ]
        ]
        | inr f ↦ rw (e, f) (inl refl)
      ]
    ]
  where
    w1 : exi.World
    w1 = ata_wr8 exi port (register_number device) ata_head_use_lba w

    id : Option Sector
    id =
        (data_block exi port (
          ata_wr8 exi port (register_number command) ata_cmd_identify
            (ata_wait exi port ata_sr_bsy 0 w1).1)).0
