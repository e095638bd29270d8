-- ===== src/Cache/Sound/ReadFill.antt =====
-- A round of a read that fills a page of the block cache.
use cubiboot.Base.{ℕ, ◌+◌, ◌*◌, ◌^◌, ◌≤◌, some, List, ◌≡◌, sym, ap, ◌∙◌, inr, arith, subst}
use cubiboot.Cache.Device.{BlockDevice}
use cubiboot.Cache.Links.Search.{Clear-at}
use cubiboot.Cache.Links.{bases}
use cubiboot.Cache.Round.{Loop, Round, again, return}
use cubiboot.Cache.Sound.Fill.{FillPost}
use cubiboot.Cache.Sound.{Valid}
use cubiboot.Cache.State.{Request, page_of}
use cubiboot.Cache.Sound.Read.{asked, Reading, ReadRound}

module _ {Sector : Type 0} (dev : BlockDevice Sector) (r : Request) where
  -- A filled page puts off the copy to the next round.
  pub fill-ReadRound :
      (m : ℕ → ℕ → Sector) (s : Loop dev) (xs : List ℕ) (n : ℕ) (o : Round dev)
      → Reading dev r m s
      → s.first_sector + s.num_sectors ≤ 2 ^ 32
      → 2 * s.num_sectors + 1 ≤ n
      → FillPost dev r.pages r.pdrv s (page_of s.first_sector) r.orig_first r.orig_count o
      → ReadRound dev r m n o
  fill-ReadRound m s xs n (again s') g bound fuel f = (
    f.order,
    record {
      coherent = f.coherent;
      bound = ground arith;
      known = λ h.
          (let at : bases s'.cache.links.entries f.q ≡ page_of s'.first_sector =
              f.at_page ∙ ap (λ t. page_of t) (sym f.first_sector) in
            let sb : s'.search_base ≡ bases s'.cache.links.entries f.q + 1 =
              f.search_base ∙ ap (λ t. t + 1) (sym f.at_page) in
            let same : s'.first_sector ≡ s.first_sector = f.first_sector in
            let num : s'.num_sectors ≡ s.num_sectors = f.num_sectors in
            inr (
              subst
                (λ p.
                  Valid (bases s'.cache.links.entries) f.order (page_of s'.first_sector) p
                    s'.search_base)
                (sym f.p)
                (
                  sb,
                  (
                    f.member,
                    omega arith,
                    omega arith,
                    rw at (Clear-at _ f.order (page_of s'.first_sector)),
                  ),
                )));
    },
    record {
      kept = f.contents_kept ∙ g.kept;
      aim = rw (f.out, f.first_sector, f.num_sectors) g.aim;
    },
    (let at : bases s'.cache.links.entries f.q ≡ page_of s'.first_sector =
          f.at_page ∙ ap (λ t. page_of t) (sym f.first_sector) in
        let sb : s'.search_base ≡ page_of s.first_sector + 1 = f.search_base in
        let same : s'.first_sector ≡ s.first_sector = f.first_sector in
        let num : s'.num_sectors ≡ s.num_sectors = f.num_sectors in
        let p : s'.p ≡ some f.q = f.p in ground arith),
  )
  fill-ReadRound m s xs n (return reply) g bound fuel f = record {
    kept = f.contents_kept ∙ g.kept;
    order = f.order;
    coherent = f.coherent;
    delivered = λ e. f.delivered e ∙ ap (asked dev r) g.kept;
    blamed = f.blamed;
  }
