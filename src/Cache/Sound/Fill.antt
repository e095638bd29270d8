-- ===== src/Cache/Sound/Fill.antt =====
-- The branch of `dvm_cache_access` that fills a page.
use cubiboot.Base.{
  true, ◌⊎◌, ℕ, ◌+◌, ◌%◌, ◌^◌, ◌<◌, ◌≤◌, some, List, ◌≡◌, ◌≢◌, refl, ap, ◌∙◌, inl, inr, arith,
  Bool-cases, In, span,
}
use cubiboot.Cache.Device.{BlockDevice, res_ok}
use cubiboot.Cache.Links.Evict.{Victim}
use cubiboot.Cache.Links.{empty_page, bases, set_base, promote}
use cubiboot.Cache.Round.{Loop, Round, again, return, Reply, fill_entry, fill}
use cubiboot.Cache.Sound.{Coherent, bases-promote}
use cubiboot.Cache.State.{is_ok, is_ok→eq, page_sectors}
use cubiboot.Cache.Sound.Take.{evict-some, Coherent-take, Coherent-drop}
use cubiboot.Cache.Sound.{RefusedRead}

module _ {Sector : Type 0} (dev : BlockDevice Sector) (pages pdrv : ℕ) where
  open dev use {Drive, contents, read_raw, read_gives, read_keeps}

  -- What the branch leaves when it goes round again: the page is at hand, in entry `q`.
  pub record Filled (s : Loop dev) (page : ℕ) (s' : Loop dev) : Type 0 where
    pub buffer : s'.buffer ≡ s.buffer
    pub out : s'.out ≡ s.out
    pub first_sector : s'.first_sector ≡ s.first_sector
    pub num_sectors : s'.num_sectors ≡ s.num_sectors
    pub search_base : s'.search_base ≡ page + 1
    pub contents_kept : contents s'.drive ≡ contents s.drive
    pub q : ℕ
    pub p : s'.p ≡ some q
    pub at_page : bases s'.cache.links.entries q ≡ page
    pub order : List ℕ
    pub coherent : Coherent dev pages pdrv s'.cache s'.drive order
    pub member : In q order

  -- What it leaves when it returns: the answer is the device's own.
  pub record Direct (s : Loop dev) (first count : ℕ) (reply : Reply dev) : Type 0 where
    pub contents_kept : contents reply.drive ≡ contents s.drive
    pub order : List ℕ
    pub coherent : Coherent dev pages pdrv reply.cache reply.drive order
    pub delivered : reply.res ≡ res_ok → reply.out ≡ span (contents s.drive pdrv) first count
    pub blamed : (is_ok reply.res ≡ true) ⊎ RefusedRead dev pdrv reply

  abbrev pub FillPost : Loop dev → ℕ → ℕ → ℕ → Round dev → Type 0
  FillPost s page first count (again s') = Filled s page s'
  FillPost s page first count (return reply) = Direct s first count reply

  fill_entry-FillPost :
      (s : Loop dev) (page first count : ℕ) (xs : List ℕ) (q : ℕ)
      → first + count ≤ 2 ^ 32
      → Coherent dev pages pdrv s.cache s.drive xs
      → Victim s.cache.links.entries xs q
      → (page % 4 ≡ 0) × (page < 2 ^ 32)
      → ((j : ℕ)
          → In j xs
          → bases s.cache.links.entries j ≢ empty_page
          → bases s.cache.links.entries j ≢ page)
      → FillPost s page first count (fill_entry dev pdrv first count s page q)
  unfolding fill_entry
  fill_entry-FillPost s page first count xs q fitting h v fits new =
      elim (Bool-cases (is_ok (read_raw s.drive pdrv page page_sectors).0)) [
        | inl done ↦ rw done (
            let (xs', c', m) =
              Coherent-take dev pages pdrv s.cache s.drive after xs q page got h v kept fits new
                (read_gives s.drive pdrv page page_sectors (omega arith) (is_ok→eq _ done)) in
            record {
              buffer = refl;
              out = refl;
              first_sector = refl;
              num_sectors = refl;
              search_base = omega arith;
              contents_kept = kept;
              q = q;
              p = refl;
              at_page = at_q;
              order = xs';
              coherent = c';
              member = m;
            })
        | inr bad ↦ rw bad (record {
          contents_kept = read_keeps after pdrv first count ∙ kept;
          order = xs;
          coherent =
              Coherent-drop dev pages pdrv s.cache s.drive (read_raw after pdrv first count).2 xs q
                page got h v (read_keeps after pdrv first count ∙ kept);
          delivered = λ e.
              read_gives after pdrv first count fitting e
              ∙ ap (λ m. span (m pdrv) first count) kept;
          blamed = elim (Bool-cases (is_ok (read_raw after pdrv first count).0)) [
            | inl served ↦ inl served
            | inr worse ↦ inr (record {
              before = after;
              sector = first;
              count = count;
              refused = worse;
              answer = refl;
              left = refl;
            })
          ];
        })
      ]
    where
      after : Drive
      after = (read_raw s.drive pdrv page page_sectors).2

      got : List Sector
      got = (read_raw s.drive pdrv page page_sectors).1

      kept : contents after ≡ contents s.drive
      kept = read_keeps s.drive pdrv page page_sectors

      at_q : bases (promote (set_base s.cache.links q page) q).entries q ≡ page
      at_q = ap (λ b. b q) (bases-promote dev (set_base s.cache.links q page) q) ∙ ground arith

  -- The branch as a whole.
  pub fill-FillPost :
      (s : Loop dev) (page first count : ℕ) (xs : List ℕ)
      → first + count ≤ 2 ^ 32
      → Coherent dev pages pdrv s.cache s.drive xs
      → (page % 4 ≡ 0) × (page < 2 ^ 32)
      → ((j : ℕ)
          → In j xs
          → bases s.cache.links.entries j ≢ empty_page
          → bases s.cache.links.entries j ≢ page)
      → FillPost s page first count (fill dev pages pdrv first count s page)
  unfolding fill
  fill-FillPost s page first count xs fitting h fits new =
      let (q, e, v) = evict-some pages s.cache.links xs h.ordered h.inhabited in
      rw (e, fill) (fill_entry-FillPost s page first count xs q fitting h v fits new)
