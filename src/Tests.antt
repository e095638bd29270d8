-- ===== src/Tests.antt =====
-- Devices and caches to run the development on, and the theorems at work on them.
pub mod CacheRuns
pub mod LinksRuns
pub mod OtherRuns
pub mod AtaRuns
pub mod FdrvRuns
pub mod FileRuns
pub mod TsdRuns
pub mod GameRuns
pub mod PathRuns
pub mod DiskRuns
pub mod MenuRuns
pub mod ListRuns
pub mod BootRuns
use cubiboot.Base.{
  ℕ, zero, suc, ◌+◌, ◌*◌, ◌≤◌, ◌^◌, Bool, true, false, Option, none, some, List, [], ◌∷◌, ◌≡◌, refl,
  leb, ◌==◌, if◌then◌else◌, span, length, arith, Bool-cases, ◌⊎◌, inl, inr,
}
use cubiboot.Cache.Device.{BlockDevice, DResult, res_ok, res_error, res_wrprt, overwrite}
use cubiboot.Cache.Links.{Links}
use cubiboot.Cache.State.{Cache}

-- Drives of 64 sectors, where a sector is a number.
abbrev pub ram_read : (ℕ → ℕ → ℕ) → ℕ → ℕ → ℕ → DResult × List ℕ × (ℕ → ℕ → ℕ)
ram_read d p s n = (if leb (s + n) 64 then res_ok else res_error, span (d p) s n, d)

abbrev pub ram_write : (ℕ → ℕ → ℕ) → ℕ → List ℕ → ℕ → ℕ → DResult × (ℕ → ℕ → ℕ)
ram_write d p buff s n =
    if leb (s + n) 64
    then (res_ok, λ q. if p == q then overwrite (d q) s buff else d q)
    else (res_wrprt, d)

pub ram_write_sets :
    (d : ℕ → ℕ → ℕ) (p : ℕ) (buff : List ℕ) (s n : ℕ)
    → s + n ≤ 2 ^ 32
    → length buff ≡ n
    → (ram_write d p buff s n).0 ≡ res_ok
    → (ram_write d p buff s n).1 p ≡ overwrite (d p) s buff
ram_write_sets d p buff s n bound whole =
    elim (Bool-cases (leb (s + n) 64))
      as (λ _.
        (ram_write d p buff s n).0 ≡ res_ok
        → (ram_write d p buff s n).1 p ≡ overwrite (d p) s buff) [
          | inl e ↦ rw e (λ h. let own : (p == p) ≡ true = ground arith in rw own)
          | inr e ↦ rw e (λ h. absurd (ground arith))
        ]

abbrev pub ram : BlockDevice ℕ
ram = record {
  Drive = ℕ → ℕ → ℕ;
  contents = λ d. d;
  read_raw = ram_read;
  write_raw = ram_write;
  read_gives = λ d p s n bound e. refl;
  read_keeps = λ d p s n. refl;
  write_sets = ram_write_sets;
}

abbrev pub ramp : ℕ → ℕ → ℕ
ramp p s = 100 * p + s

-- The cache as the program finds it at its start.
abbrev pub blank_links : Links
blank_links = record {
  entries = λ i. record { next = none; prev = none; base_sector = 0 };
  first = none;
  last = none;
}

abbrev pub blank : Cache ℕ
blank = record {
  links = blank_links;
  pages_data = λ i k. 0;
  magic = 0;
  owner_pdrv = 0;
  ready = false;
  disabled = false;
}
