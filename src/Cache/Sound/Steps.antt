-- ===== src/Cache/Sound/Steps.antt =====
-- The equations of the loop of `dvm_cache_access` and of its rounds, branch by branch.
use Prim.Native.Nat.{min}
use cubiboot.Base.{
  ℕ, suc, ◌-◌, ◌%◌, Bool, true, false, not, ◌&&◌, ◌||◌, none, some, ◌≡◌, refl, ◌⊎◌, inl, inr, ltb,
  ◌==◌, arith,
}
use cubiboot.Cache.Access.{loop}
use cubiboot.Cache.Device.{BlockDevice, res_ok}
use cubiboot.Cache.Links.{bases}
use cubiboot.Cache.Round.{
  Loop, Round, again, return, Reply, hit_read, hit_write, direct_read, direct_write, direct_limit,
  fill, hit, miss, branch, round,
}
use cubiboot.Cache.State.{Request, page_sectors}

module _ {Sector : Type 0} (dev : BlockDevice Sector) (r : Request) where
  pub Round-cases :
      (o : Round dev)
      → ((s' : Loop dev) × (o ≡ again s')) ⊎ ((reply : Reply dev) × (o ≡ return reply))
  Round-cases (again s') = inl (s', refl)
  Round-cases (return reply) = inr (reply, refl)

  pub loop_done :
      (f : ℕ) (s : Loop dev)
      → (s.num_sectors == 0) ≡ true
      → loop dev (suc f) r s
        ≡ some (record { res = res_ok; out = s.out; cache = s.cache; drive = s.drive })
  unfolding loop
  loop_done f s e = rw (e, loop)

  pub loop_again :
      (f : ℕ) (s s' : Loop dev)
      → (s.num_sectors == 0) ≡ false
      → round dev r s ≡ again s'
      → loop dev (suc f) r s ≡ loop dev f r s'
  unfolding loop
  loop_again f s s' e h = rw (e, h, loop)

  pub loop_return :
      (f : ℕ) (s : Loop dev) (reply : Reply dev)
      → (s.num_sectors == 0) ≡ false
      → round dev r s ≡ return reply
      → loop dev (suc f) r s ≡ some reply
  unfolding loop
  loop_return f s reply e h = rw (e, h, loop)

  pub worth : Bool
  worth = ltb r.orig_count page_sectors || not r.is_aligned

  pub miss-fill :
      (s : Loop dev) (page : ℕ)
      → r.is_write ≡ false
      → worth ≡ true
      → miss dev r s page ≡ fill dev r.pages r.pdrv r.orig_first r.orig_count s page
  unfolding miss worth
  miss-fill s page reads e = ground arith

  pub miss_read :
      (s : Loop dev) (page : ℕ)
      → r.is_write ≡ false
      → worth ≡ false
      → miss dev r s page ≡ direct_read dev r.pdrv s (min s.num_sectors (direct_limit dev s))
  unfolding miss worth
  miss_read s page reads e = ground arith

  pub miss_write :
      (s : Loop dev) (page : ℕ)
      → r.is_write ≡ true
      → miss dev r s page ≡ direct_write dev r.pdrv s (min s.num_sectors (direct_limit dev s))
  unfolding miss
  miss_write s page writes = ground arith

  abbrev pub hit_count : Loop dev → ℕ
  hit_count s = min s.num_sectors (page_sectors - s.first_sector % page_sectors)

  abbrev pub hit_whole : Loop dev → Bool
  hit_whole s = s.first_sector % page_sectors == 0 && hit_count s == page_sectors

  pub branch_read :
      (s : Loop dev) (page i : ℕ)
      → (bases s.cache.links.entries i == page) ≡ true
      → r.is_write ≡ false
      → branch dev r s page (some i)
        ≡ hit_read dev s i (s.first_sector % page_sectors) (hit_count s) (hit_whole s)
  unfolding branch hit
  branch_read s page i e reads = ground arith

  pub branch_write :
      (s : Loop dev) (page i : ℕ)
      → (bases s.cache.links.entries i == page) ≡ true
      → r.is_write ≡ true
      → branch dev r s page (some i)
        ≡ hit_write dev r.pdrv s i (s.first_sector % page_sectors) (hit_count s) (hit_whole s)
  unfolding branch hit
  branch_write s page i e writes = ground arith

  pub branch-miss :
      (s : Loop dev) (page i : ℕ)
      → (bases s.cache.links.entries i == page) ≡ false
      → branch dev r s page (some i) ≡ miss dev r s page
  unfolding branch
  branch-miss s page i e = ground arith

  pub branch-none : (s : Loop dev) (page : ℕ) → branch dev r s page none ≡ miss dev r s page
  unfolding branch
  branch-none s page = refl
