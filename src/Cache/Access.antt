-- ===== src/Cache/Access.antt =====
-- `dvm_cache_access` and the entry points of the block cache: cubeboot/source/emu/ffs/dvm_cache.c,
-- lines 262 to 389. A read may use twice as many rounds as sectors, since a round that fills a page
-- is followed by the round that copies from it.
use cubiboot.Base.{
  ℕ, zero, suc, ◌+◌, ◌*◌, Bool, true, false, Option, none, some, List, [], ◌==◌, if◌then◌else◌,
}
use cubiboot.Cache.Device.{res_ok, BlockDevice}
use cubiboot.Cache.State.{Cache, Request, claim}
use cubiboot.Cache.Round.{Reply, Loop, again, return, round}

-- Two rounds for each sector, and one to leave.
abbrev pub fuel_for : ℕ → ℕ
fuel_for count = 2 * count + 2

module _ {Sector : Type 0} (dev : BlockDevice Sector) where
  -- `while (num_sectors)`, on fuel; `none` means that the fuel ran out.
  unfoldable pub loop : ℕ → Request → Loop dev → Option (Reply dev)
  loop zero r s = none
  loop (suc f) r s = elim (s.num_sectors == 0) [
    | true ↦ some (record { res = res_ok; out = s.out; cache = s.cache; drive = s.drive })
    | false ↦ elim (round dev r s) [ again s' ↦ loop f r s' | return reply ↦ some reply ]
  ]

  unfoldable pub access :
      Request → List Sector → Cache Sector → BlockDevice.Drive dev → Option (Reply dev)
  access r buffer c d = loop (fuel_for r.orig_count) r (record {
    buffer = buffer;
    out = [];
    first_sector = r.orig_first;
    num_sectors = r.orig_count;
    p = none;
    search_base = 0;
    cache = c;
    drive = d;
  })

  -- `dvm_cache_read`
  unfoldable pub cache_read :
      ℕ → ℕ → Bool → ℕ → ℕ → Cache Sector → BlockDevice.Drive dev → Option (Reply dev)
  cache_read pages pdrv is_aligned sector count c d =
      let (res, got, drive) = BlockDevice.read_raw dev d pdrv sector count in
      let cached =
        access
          (record {
            pages = pages;
            pdrv = pdrv;
            orig_first = sector;
            orig_count = count;
            is_aligned = is_aligned;
            is_write = false;
          })
          [] (claim pages c pdrv) d in
      if count == 0
      then some (record { res = res_ok; out = []; cache = c; drive = d })
      else if c.disabled
      then some (record { res = res; out = got; cache = c; drive = drive })
      else cached

  -- `dvm_cache_write`
  unfoldable pub cache_write :
      ℕ → ℕ → Bool → List Sector → ℕ → ℕ → Cache Sector → BlockDevice.Drive dev → Option (Reply dev)
  cache_write pages pdrv is_aligned buff sector count c d =
      let (res, drive) = BlockDevice.write_raw dev d pdrv buff sector count in
      let cached =
        access
          (record {
            pages = pages;
            pdrv = pdrv;
            orig_first = sector;
            orig_count = count;
            is_aligned = is_aligned;
            is_write = true;
          })
          buff (claim pages c pdrv) d in
      if count == 0
      then some (record { res = res_ok; out = []; cache = c; drive = d })
      else if c.disabled
      then some (record { res = res; out = []; cache = c; drive = drive })
      else cached
