-- ===== src/Disk/Media.antt =====
-- The drivers as the devices below the block cache: a driver that keeps its promises makes
-- `disk_read_raw` and `disk_write_raw` keep theirs.
use cubiboot.Base.{
  ℕ, zero, suc, ◌+◌, ◌%◌, ◌^◌, ◌≤◌, Bool, true, not, ◌&&◌, Option, some, List, [], ◌∷◌, ◌≡◌, refl,
  ◌∙◌, ap, inl, inr, Bool-cases, arith, if◌then◌else◌, length, span,
}
use cubiboot.Cache.Device.{BlockDevice, res_ok, res_parerr, overwrite}
use cubiboot.Cache.Access.{cache_read, cache_write}
use cubiboot.Cache.Round.{Reply}
use cubiboot.Cache.State.{Cache}
use cubiboot.Disk.{
  ExiPort, Drivers, disk_is_sd, disk_is_ata, disk_is_gcldr, exi_port_map, ata_port, disk_read_raw,
  disk_write_raw,
}

module _ {Sector : Type 0} (ds : Drivers Sector) where
  open ds use {World, tsd_sd_read, tsd_sd_write, ata_read, ata_write, gcode_sd_read, gcode_sd_write}

  -- What the drivers are relied on for, with `medium w pdrv` for the sectors of drive `pdrv`: a read
  -- that succeeds gives the sectors asked for, a read changes no medium, and a write that succeeds
  -- replaces the sectors of its range.
  pub record Faithful (medium : World → ℕ → ℕ → Sector) : Type 0 where
    pub sd_gives :
        (w : World) (pdrv s n : ℕ)
        → disk_is_sd pdrv ≡ true
        → s + n ≤ 2 ^ 32
        → (tsd_sd_read w (exi_port_map pdrv) s n).0 ≡ true
        → (tsd_sd_read w (exi_port_map pdrv) s n).1 ≡ span (medium w pdrv) s n
    pub sd_keeps : (w : World) (p : ExiPort) (s n : ℕ) → medium (tsd_sd_read w p s n).2 ≡ medium w
    pub sd_sets :
        (w : World) (pdrv s : ℕ) (buff : List Sector) (n : ℕ)
        → disk_is_sd pdrv ≡ true
        → s + n ≤ 2 ^ 32
        → length buff ≡ n
        → (tsd_sd_write w (exi_port_map pdrv) s buff n).0 ≡ true
        → medium (tsd_sd_write w (exi_port_map pdrv) s buff n).1 pdrv
          ≡ overwrite (medium w pdrv) s buff
    pub ata_gives :
        (w : World) (pdrv s n : ℕ)
        → disk_is_ata pdrv ≡ true
        → s + n ≤ 2 ^ 32
        → (ata_read w (ata_port pdrv) s n).0 ≡ true
        → (ata_read w (ata_port pdrv) s n).1 ≡ span (medium w pdrv) s n
    pub ata_keeps : (w : World) (p : ExiPort) (s n : ℕ) → medium (ata_read w p s n).2 ≡ medium w
    pub ata_sets :
        (w : World) (pdrv s : ℕ) (buff : List Sector) (n : ℕ)
        → disk_is_ata pdrv ≡ true
        → s + n ≤ 2 ^ 32
        → length buff ≡ n
        → (ata_write w (ata_port pdrv) s buff n).0 ≡ true
        → medium (ata_write w (ata_port pdrv) s buff n).1 pdrv ≡ overwrite (medium w pdrv) s buff
    pub gcldr_gives :
        (w : World) (pdrv s n : ℕ)
        → disk_is_gcldr pdrv ≡ true
        → s + n ≤ 2 ^ 32
        → (gcode_sd_read w s n).0 ≡ true
        → (gcode_sd_read w s n).1 ≡ span (medium w pdrv) s n
    pub gcldr_keeps : (w : World) (s n : ℕ) → medium (gcode_sd_read w s n).2 ≡ medium w
    pub gcldr_sets :
        (w : World) (pdrv s : ℕ) (buff : List Sector) (n : ℕ)
        → disk_is_gcldr pdrv ≡ true
        → s + n ≤ 2 ^ 32
        → length buff ≡ n
        → (gcode_sd_write w s buff n).0 ≡ true
        → medium (gcode_sd_write w s buff n).1 pdrv ≡ overwrite (medium w pdrv) s buff

  -- A transfer of sectors with 32-bit numbers is not changed by the drivers' width.
  span_wrap : (m : ℕ → Sector) (s n : ℕ) → s + n ≤ 2 ^ 32 → span m (s % 2 ^ 32) n ≡ span m s n
  span_wrap m s zero h = refl
  span_wrap m s (suc n) h = ap (λ t. span m t (suc n)) (omega arith)

  overwrite_wrap :
      (m : ℕ → Sector) (s : ℕ) (buff : List Sector)
      → s + length buff ≤ 2 ^ 32
      → overwrite m (s % 2 ^ 32) buff ≡ overwrite m s buff
  overwrite_wrap m s [] h = refl
  overwrite_wrap m s (x ∷ xs) h = ap (λ t. overwrite m t (x ∷ xs)) (omega arith)

  module _ (medium : World → ℕ → ℕ → Sector) (ok : Faithful medium) where
    pub raw_gives :
        (w : World) (pdrv s n : ℕ)
        → s + n ≤ 2 ^ 32
        → (disk_read_raw ds w pdrv s n).0 ≡ res_ok
        → (disk_read_raw ds w pdrv s n).1 ≡ span (medium w pdrv) s n
    unfolding disk_read_raw
    raw_gives w pdrv s n bound =
        elim (Bool-cases (disk_is_sd pdrv))
          as (λ _.
            (disk_read_raw ds w pdrv s n).0 ≡ res_ok
            → (disk_read_raw ds w pdrv s n).1 ≡ span (medium w pdrv) s n) [
              | inl a ↦ rw a (λ e.
                  ok.sd_gives w pdrv (s % 2 ^ 32) n a (omega arith) (ground arith)
                  ∙ span_wrap (medium w pdrv) s n bound)
              | inr a ↦
                  elim (Bool-cases (disk_is_ata pdrv))
                    as (λ _.
                      (disk_read_raw ds w pdrv s n).0 ≡ res_ok
                      → (disk_read_raw ds w pdrv s n).1 ≡ span (medium w pdrv) s n) [
                        | inl b ↦
                            rw (a, b)
                              (λ e.
                                ok.ata_gives w pdrv (s % 2 ^ 32) n b (omega arith) (ground arith)
                                ∙ span_wrap (medium w pdrv) s n bound)
                        | inr b ↦
                            elim (Bool-cases (disk_is_gcldr pdrv))
                              as (λ _.
                                (disk_read_raw ds w pdrv s n).0 ≡ res_ok
                                → (disk_read_raw ds w pdrv s n).1 ≡ span (medium w pdrv) s n) [
                                  | inl k ↦
                                      rw (a, b, k)
                                        (λ e.
                                          ok.gcldr_gives w pdrv (s % 2 ^ 32) n k (omega arith)
                                            (ground arith)
                                          ∙ span_wrap (medium w pdrv) s n bound)
                                  | inr k ↦ rw (a, b, k) (λ e. absurd (ground arith))
                                ]
                      ]
            ]

    pub raw_keeps : (w : World) (pdrv s n : ℕ) → medium (disk_read_raw ds w pdrv s n).2 ≡ medium w
    unfolding disk_read_raw
    raw_keeps w pdrv s n =
        elim (Bool-cases (disk_is_sd pdrv))
          as (λ _. medium (disk_read_raw ds w pdrv s n).2 ≡ medium w) [
            | inl a ↦ rw a (ok.sd_keeps w (exi_port_map pdrv) (s % 2 ^ 32) n)
            | inr a ↦
                elim (Bool-cases (disk_is_ata pdrv))
                  as (λ _. medium (disk_read_raw ds w pdrv s n).2 ≡ medium w) [
                    | inl b ↦ rw (a, b) (ok.ata_keeps w (ata_port pdrv) (s % 2 ^ 32) n)
                    | inr b ↦
                        elim (Bool-cases (disk_is_gcldr pdrv))
                          as (λ _. medium (disk_read_raw ds w pdrv s n).2 ≡ medium w) [
                            | inl k ↦ rw (a, b, k) (ok.gcldr_keeps w (s % 2 ^ 32) n)
                            | inr k ↦ rw (a, b, k) (refl)
                          ]
                  ]
          ]

    pub raw_sets :
        (w : World) (pdrv : ℕ) (buff : List Sector) (s n : ℕ)
        → s + n ≤ 2 ^ 32
        → length buff ≡ n
        → (disk_write_raw ds w pdrv buff s n).0 ≡ res_ok
        → medium (disk_write_raw ds w pdrv buff s n).1 pdrv ≡ overwrite (medium w pdrv) s buff
    unfolding disk_write_raw
    raw_sets w pdrv buff s n bound whole =
        elim (Bool-cases (disk_is_sd pdrv))
          as (λ _.
            (disk_write_raw ds w pdrv buff s n).0 ≡ res_ok
            → medium (disk_write_raw ds w pdrv buff s n).1 pdrv
              ≡ overwrite (medium w pdrv) s buff) [
                | inl a ↦ rw a (λ e.
                    ok.sd_sets w pdrv (s % 2 ^ 32) buff n a (omega arith) whole (ground arith)
                    ∙ overwrite_wrap (medium w pdrv) s buff (omega arith))
                | inr a ↦
                    elim (Bool-cases (disk_is_ata pdrv))
                      as (λ _.
                        (disk_write_raw ds w pdrv buff s n).0 ≡ res_ok
                        → medium (disk_write_raw ds w pdrv buff s n).1 pdrv
                          ≡ overwrite (medium w pdrv) s buff) [
                            | inl b ↦
                                rw (a, b)
                                  (λ e.
                                    ok.ata_sets w pdrv (s % 2 ^ 32) buff n b (omega arith) whole
                                      (ground arith)
                                    ∙ overwrite_wrap (medium w pdrv) s buff (omega arith))
                            | inr b ↦
                                elim (Bool-cases (disk_is_gcldr pdrv))
                                  as (λ _.
                                    (disk_write_raw ds w pdrv buff s n).0 ≡ res_ok
                                    → medium (disk_write_raw ds w pdrv buff s n).1 pdrv
                                      ≡ overwrite (medium w pdrv) s buff) [
                                        | inl k ↦
                                            rw (a, b, k)
                                              (λ e.
                                                ok.gcldr_sets w pdrv (s % 2 ^ 32) buff n k
                                                  (omega arith) whole (ground arith)
                                                ∙ overwrite_wrap (medium w pdrv) s buff
                                                    (omega arith))
                                        | inr k ↦ rw (a, b, k) (λ e. absurd (ground arith))
                                      ]
                          ]
              ]

    -- The devices below the block cache.
    abbrev pub disk_device : BlockDevice Sector
    disk_device = record {
      Drive = World;
      contents = medium;
      read_raw = disk_read_raw ds;
      write_raw = disk_write_raw ds;
      read_gives = raw_gives;
      read_keeps = raw_keeps;
      write_sets = raw_sets;
    }

    -- `disk_read`, with the block cache of `pages` pages.
    unfoldable pub disk_read :
        ℕ → ℕ → Bool → ℕ → ℕ → Cache Sector → World → Option (Reply disk_device)
    disk_read pages pdrv is_aligned sector count c w =
        let cached = cache_read disk_device pages pdrv is_aligned sector count c w in
        if not (disk_is_sd pdrv) && not (disk_is_ata pdrv) && not (disk_is_gcldr pdrv)
        then some (record { res = res_parerr; out = []; cache = c; drive = w })
        else cached

    -- `disk_write`
    unfoldable pub disk_write :
        ℕ → ℕ → Bool → List Sector → ℕ → ℕ → Cache Sector → World → Option (Reply disk_device)
    disk_write pages pdrv is_aligned buff sector count c w =
        let cached = cache_write disk_device pages pdrv is_aligned buff sector count c w in
        if not (disk_is_sd pdrv) && not (disk_is_ata pdrv) && not (disk_is_gcldr pdrv)
        then some (record { res = res_parerr; out = []; cache = c; drive = w })
        else cached
