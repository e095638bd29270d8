-- ===== src/Cache/Contract/Paths.antt =====
-- The three ways through `dvm_cache_read` and `dvm_cache_write`.
use cubiboot.Base.{ℕ, Bool, true, false, some, List, [], ◌≡◌, ◌==◌, arith}
use cubiboot.Cache.Device.{BlockDevice}
use cubiboot.Cache.State.{Cache, claim}
use cubiboot.Cache.Access.{access, cache_read, cache_write}
use cubiboot.Cache.Device.{res_ok}
use cubiboot.Cache.State.{Request}

module _ {Sector : Type 0} (dev : BlockDevice Sector) where
  open dev use {Drive, contents, read_raw, write_raw}

  abbrev pub request : ℕ → ℕ → Bool → Bool → ℕ → ℕ → Request
  request pages pdrv is_aligned is_write sector count = record {
    pages = pages;
    pdrv = pdrv;
    orig_first = sector;
    orig_count = count;
    is_aligned = is_aligned;
    is_write = is_write;
  }

  pub cache_read_none :
      (pages pdrv : ℕ) (is_aligned : Bool) (sector count : ℕ) (c : Cache Sector) (d : Drive)
      → (count == 0) ≡ true
      → cache_read dev pages pdrv is_aligned sector count c d
        ≡ some (record { res = res_ok; out = []; cache = c; drive = d })
  unfolding cache_read
  cache_read_none pages pdrv is_aligned sector count c d e = ground arith

  pub cache_read_off :
      (pages pdrv : ℕ) (is_aligned : Bool) (sector count : ℕ) (c : Cache Sector) (d : Drive)
      → (count == 0) ≡ false
      → c.disabled ≡ true
      → cache_read dev pages pdrv is_aligned sector count c d
        ≡ some (record {
          res = (read_raw d pdrv sector count).0;
          out = (read_raw d pdrv sector count).1;
          cache = c;
          drive = (read_raw d pdrv sector count).2;
        })
  unfolding cache_read
  cache_read_off pages pdrv is_aligned sector count c d e off = ground arith

  pub cache_read_on :
      (pages pdrv : ℕ) (is_aligned : Bool) (sector count : ℕ) (c : Cache Sector) (d : Drive)
      → (count == 0) ≡ false
      → c.disabled ≡ false
      → cache_read dev pages pdrv is_aligned sector count c d
        ≡ access dev (request pages pdrv is_aligned false sector count) [] (claim pages c pdrv) d
  unfolding cache_read
  cache_read_on pages pdrv is_aligned sector count c d e on = ground arith

  pub cache_write_none :
      (pages pdrv : ℕ) (is_aligned : Bool) (buff : List Sector) (sector count : ℕ)
      (c : Cache Sector) (d : Drive)
      → (count == 0) ≡ true
      → cache_write dev pages pdrv is_aligned buff sector count c d
        ≡ some (record { res = res_ok; out = []; cache = c; drive = d })
  unfolding cache_write
  cache_write_none pages pdrv is_aligned buff sector count c d e = ground arith

  pub cache_write_off :
      (pages pdrv : ℕ) (is_aligned : Bool) (buff : List Sector) (sector count : ℕ)
      (c : Cache Sector) (d : Drive)
      → (count == 0) ≡ false
      → c.disabled ≡ true
      → cache_write dev pages pdrv is_aligned buff sector count c d
        ≡ some (record {
          res = (write_raw d pdrv buff sector count).0;
          out = [];
          cache = c;
          drive = (write_raw d pdrv buff sector count).1;
        })
  unfolding cache_write
  cache_write_off pages pdrv is_aligned buff sector count c d e off = ground arith

  pub cache_write_on :
      (pages pdrv : ℕ) (is_aligned : Bool) (buff : List Sector) (sector count : ℕ)
      (c : Cache Sector) (d : Drive)
      → (count == 0) ≡ false
      → c.disabled ≡ false
      → cache_write dev pages pdrv is_aligned buff sector count c d
        ≡ access dev (request pages pdrv is_aligned true sector count) buff (claim pages c pdrv) d
  unfolding cache_write
  cache_write_on pages pdrv is_aligned buff sector count c d e on = ground arith
