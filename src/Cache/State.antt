-- ===== src/Cache/State.antt =====
-- The static state of the block cache and what happens to it as a whole:
-- cubeboot/source/emu/ffs/dvm_cache.c, lines 79 to 190.
use cubiboot.Base.{
  ◌≡◌, refl, ℕ, ◌*◌, ◌/◌, ◌^◌, Bool, true, false, not, ◌||◌, List, ◌==◌, if◌then◌else◌,
}
use cubiboot.Cache.Device.{DResult, res_ok, overwrite}
use cubiboot.Cache.Links.{Links, reset}

-- DVM_PAGE_SECTORS, `1U << DVM_PAGE_SHIFT`
abbrev pub page_sectors : ℕ
page_sectors = 4

-- DVM_MAGIC
abbrev pub dvm_magic_value : ℕ
dvm_magic_value = 0x44564D31

abbrev pub lba_mod : ℕ
lba_mod = 2 ^ 64

abbrev pub uint_mod : ℕ
uint_mod = 2 ^ 32

-- `first_sector & ~(LBA_t)(DVM_PAGE_SECTORS - 1)`
abbrev pub page_of : ℕ → ℕ
page_of s = s / page_sectors * page_sectors

-- `is_equal` to DRESULT RES_OK.
abbrev pub is_ok : DResult → Bool
is_ok res_ok = true
is_ok _ = false

-- The static state of dvm_cache.c. `pages_data` is `dvm_cache_data`, by entry and sector in its page.
pub record Cache (Sector : Type 0) : Type 0 where
  pub links : Links
  pub pages_data : ℕ → ℕ → Sector
  pub magic : ℕ
  pub owner_pdrv : ℕ
  pub ready : Bool
  pub disabled : Bool

module _ {Sector : Type 0} where
  -- `memcpy` of sectors into the page of entry `i`, from sector `off` of the page on.
  abbrev pub put_page : (ℕ → ℕ → Sector) → ℕ → ℕ → List Sector → ℕ → ℕ → Sector
  put_page pd i off xs j = if i == j then overwrite (pd i) off xs else pd j

  -- `dvm_cache_reset`
  unfoldable pub reset_cache : ℕ → Cache Sector → Cache Sector
  reset_cache pages c = record c {
    links = reset pages c.links;
    magic = dvm_magic_value;
    ready = true;
  }

  -- `dvm_cache_disable` and `dvm_cache_enable`
  unfoldable pub disable : Cache Sector → Cache Sector
  disable c = record c { disabled = true; ready = false }

  unfoldable pub enable : Cache Sector → Cache Sector
  enable c = record c { disabled = false; ready = false }

  -- `dvm_cache_claim`
  unfoldable pub claim : ℕ → Cache Sector → ℕ → Cache Sector
  claim pages c pdrv =
      if not (c.magic == dvm_magic_value) || not c.ready || not (pdrv == c.owner_pdrv)
      then record (reset_cache pages c) { owner_pdrv = pdrv }
      else c

-- A request: the constants of a call of `dvm_cache_access`.
pub record Request : Type 0 where
  pub pages : ℕ
  pub pdrv : ℕ
  pub orig_first : ℕ
  pub orig_count : ℕ
  pub is_aligned : Bool
  pub is_write : Bool

pub is_ok→eq : (r : DResult) → is_ok r ≡ true → r ≡ res_ok
is_ok→eq res_ok h = refl
is_ok→eq _ h = cc
