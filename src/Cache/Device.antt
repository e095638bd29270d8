-- ===== src/Cache/Device.antt =====
-- What the block cache asks of the devices below it: `disk_read_raw` and `disk_write_raw`, as they
-- are declared in cubeboot/source/emu/ffs/dvm_cache.h. A sector is a value of some type.
use cubiboot.Base.{ℕ, ◌+◌, ◌≤◌, ◌^◌, List, [], ◌∷◌, ◌≡◌, ◌==◌, if◌then◌else◌, length, span}

-- `DRESULT` of cubeboot/source/emu/ffs/diskio.h.
pub data DResult : Type 0 where
  res_ok res_error res_wrprt res_notrdy res_parerr : DResult

-- A medium with the sectors of a buffer written from sector `s` on.
abbrev pub overwrite : {A : Type 0} → (ℕ → A) → ℕ → List A → ℕ → A
overwrite f s [] q = f q
overwrite f s (x ∷ xs) q = if s == q then x else overwrite f (s + 1) xs q

-- The devices. A read says whether it succeeded, and gives the sectors that reached the buffer.
pub record BlockDevice (Sector : Type 0) : Type 1 where
  pub Drive : Type 0
  pub contents : Drive → ℕ → ℕ → Sector
  pub read_raw : Drive → ℕ → ℕ → ℕ → DResult × List Sector × Drive
  pub write_raw : Drive → ℕ → List Sector → ℕ → ℕ → DResult × Drive
  -- A read that succeeds gives the sectors asked for, and no read changes the medium. Sectors are
  -- numbered below 2^32 in the drivers' commands.
  pub read_gives :
      (d : Drive) (pdrv s n : ℕ)
      → s + n ≤ 2 ^ 32
      → (read_raw d pdrv s n).0 ≡ res_ok
      → (read_raw d pdrv s n).1 ≡ span (contents d pdrv) s n
  pub read_keeps : (d : Drive) (pdrv s n : ℕ) → contents (read_raw d pdrv s n).2 ≡ contents d
  -- A write that succeeds replaces the sectors of its range, and no others.
  pub write_sets :
      (d : Drive) (pdrv : ℕ) (buff : List Sector) (s n : ℕ)
      → s + n ≤ 2 ^ 32
      → length buff ≡ n
      → (write_raw d pdrv buff s n).0 ≡ res_ok
      → contents (write_raw d pdrv buff s n).1 pdrv ≡ overwrite (contents d pdrv) s buff
