-- ===== src/Cache/Round.antt =====
-- One round of the loop of `dvm_cache_access`: cubeboot/source/emu/ffs/dvm_cache.c, lines 262 to
-- 361. A buffer is the list of its sectors: a read adds to the sectors that it has delivered, a
-- write takes from those that are left.
use Prim.Native.Nat.{min}
use cubiboot.Base.{
  ℕ, ◌+◌, ◌-◌, ◌%◌, Bool, true, false, not, ◌&&◌, ◌||◌, Option, none, some, List, ◌++◌, ltb, leb,
  ◌==◌, if◌then◌else◌, take, drop, span,
}
use cubiboot.Cache.Device.{DResult, res_error, BlockDevice}
use cubiboot.Cache.Links.{Links, empty_page, bases, set_base, search, promote, evict}
use cubiboot.Cache.State.{Request, page_sectors, lba_mod, uint_mod, page_of, is_ok, Cache, put_page}

module _ {Sector : Type 0} (dev : BlockDevice Sector) where
  -- What a request returns: the result, the sectors delivered, and the state that it leaves.
  pub record Reply : Type 0 where
    pub res : DResult
    pub out : List Sector
    pub cache : Cache Sector
    pub drive : BlockDevice.Drive dev

  -- The variables of the loop of `dvm_cache_access`, with `out` for what a read has copied so far.
  pub record Loop : Type 0 where
    pub buffer : List Sector
    pub out : List Sector
    pub first_sector : ℕ
    pub num_sectors : ℕ
    pub p : Option ℕ
    pub search_base : ℕ
    pub cache : Cache Sector
    pub drive : BlockDevice.Drive dev

  -- A round of the loop goes on to the next, or returns.
  pub data Round : Type 0 where
    again : Loop → Round
    return : Reply → Round

  abbrev pub stop : Loop → DResult → Round
  stop s r = return (record { res = r; out = s.out; cache = s.cache; drive = s.drive })

  -- `buffer += …; first_sector += …; num_sectors -= …;`
  abbrev pub advance : Loop → ℕ → Loop
  advance s cur = record s {
    buffer = drop cur s.buffer;
    first_sector = (s.first_sector + cur) % lba_mod;
    num_sectors = s.num_sectors - cur;
  }

  abbrev pub with_links : Loop → Links → Loop
  with_links s l = record s { cache = record (s.cache) { links = l } }

  abbrev pub with_data : Loop → (ℕ → ℕ → Sector) → Loop
  with_data s pd = record s { cache = record (s.cache) { pages_data = pd } }

  -- Whole pages do not promote.
  abbrev pub promote_unless : Bool → Loop → ℕ → Loop
  promote_unless true s i = s
  promote_unless false s i = with_links s (promote s.cache.links i)

  -- The hit of a read: copy from the page.
  unfoldable pub hit_read : Loop → ℕ → ℕ → ℕ → Bool → Round
  hit_read s i off cur is_whole =
      let copied = record s { out = s.out ++ span (s.cache.pages_data i) off cur } in
      again (advance (promote_unless is_whole copied i) cur)

  -- The hit of a write: update the page, then write through.
  unfoldable pub hit_write : ℕ → Loop → ℕ → ℕ → ℕ → Bool → Round
  hit_write pdrv s i off cur is_whole =
      let src = take cur s.buffer in
      let updated = with_data s (put_page s.cache.pages_data i off src) in
      let (res, drive) = BlockDevice.write_raw dev s.drive pdrv src s.first_sector cur in
      let written = record updated { drive = drive } in
      if not (is_ok res)
      then stop written res_error
      else again (advance (promote_unless is_whole written i) cur)

  -- The miss of a read worth caching: fill the page of entry `q`, and go round again; if the
  -- device refuses, serve the whole request directly.
  unfoldable pub fill_entry : ℕ → ℕ → ℕ → Loop → ℕ → ℕ → Round
  fill_entry pdrv orig_first orig_count s page q =
      let taken = set_base s.cache.links q page in
      let (res, got, drive) = BlockDevice.read_raw dev s.drive pdrv page page_sectors in
      let filled = with_data (record s { drive = drive }) (put_page s.cache.pages_data q 0 got) in
      let (res', got', drive') = BlockDevice.read_raw dev drive pdrv orig_first orig_count in
      let dropped = with_links filled (set_base taken q empty_page) in
      if not (is_ok res)
      then return (record { res = res'; out = got'; cache = dropped.cache; drive = drive' })
      else again (record (with_links filled (promote taken q)) {
        p = some q;
        search_base = (page + 1) % lba_mod;
      })

  unfoldable pub fill : ℕ → ℕ → ℕ → ℕ → Loop → ℕ → Round
  unfolding fill_entry
  fill pages pdrv orig_first orig_count s page = elim (evict pages s.cache.links) [
    -- No entry is there to take; a list that was ever reset has one.
    | none ↦ stop s res_error
    | some q ↦ fill_entry pdrv orig_first orig_count s page q
  ]

  -- How far a direct transfer may go: `max_cur_sectors` of the last branch.
  abbrev pub direct_limit : Loop → ℕ
  direct_limit s = elim s.p [
    | none ↦ s.num_sectors
    | some i ↦ (bases s.cache.links.entries i + lba_mod - s.first_sector) % lba_mod % uint_mod
  ]

  unfoldable pub direct_read : ℕ → Loop → ℕ → Round
  direct_read pdrv s cur =
      let (res, got, drive) = BlockDevice.read_raw dev s.drive pdrv s.first_sector cur in
      let moved = record s { out = s.out ++ got; drive = drive } in
      if is_ok res then again (advance moved cur) else stop moved res

  unfoldable pub direct_write : ℕ → Loop → ℕ → Round
  direct_write pdrv s cur =
      let (res, drive) =
        BlockDevice.write_raw dev s.drive pdrv (take cur s.buffer) s.first_sector cur in
      let moved = record s { drive = drive } in
      if is_ok res then again (advance moved cur) else stop moved res

  -- `if (cur_page_sector >= search_base)`: look for the page, and note how far the answer holds.
  unfoldable pub look : ℕ → Loop → ℕ → Loop
  look pages s page =
      let found = search pages s.cache.links page in
      if leb s.search_base page
      then record s {
        p = found;
        search_base = elim found [
          | none ↦ empty_page
          | some i ↦ (bases s.cache.links.entries i + 1) % lba_mod
        ];
      }
      else s

  -- `p && p->base_sector == cur_page_sector`
  abbrev pub hits : Loop → ℕ → Bool
  hits s page = elim s.p [ none ↦ false | some i ↦ bases s.cache.links.entries i == page ]

  -- The cache hit, on entry `i`.
  unfoldable pub hit : Request → Loop → ℕ → Round
  hit r s i =
      let off = s.first_sector % page_sectors in
      let cur = min s.num_sectors (page_sectors - off) in
      let is_whole = off == 0 && cur == page_sectors in
      if r.is_write then hit_write r.pdrv s i off cur is_whole else hit_read s i off cur is_whole

  -- No hit: a read worth caching fills a page, anything else goes straight to the device.
  unfoldable pub miss : Request → Loop → ℕ → Round
  miss r s page =
      let far = min s.num_sectors (direct_limit s) in
      if not r.is_write && (ltb r.orig_count page_sectors || not r.is_aligned)
      then fill r.pages r.pdrv r.orig_first r.orig_count s page
      else if r.is_write
      then direct_write r.pdrv s far
      else direct_read r.pdrv s far

  -- The branches after the search, which found `p`.
  unfoldable pub branch : Request → Loop → ℕ → Option ℕ → Round
  branch r s page none = miss r s page
  branch r s page (some i) =
      if bases s.cache.links.entries i == page then hit r s i else miss r s page

  -- One round of the loop.
  unfoldable pub round : Request → Loop → Round
  round r s =
      let page = page_of s.first_sector in
      let looked = look r.pages s page in branch r looked page looked.p
