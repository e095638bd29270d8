-- ===== src/Cache/Sound/Look.antt =====
-- After the search of a round, `p` is the answer for the round's page.
use cubiboot.Base.{
  ℕ, ◌+◌, ◌%◌, ◌<◌, false, Option, none, some, List, ◌≡◌, refl, inl, inr, leb, arith, Bool-cases,
}
use cubiboot.Cache.Device.{BlockDevice}
use cubiboot.Cache.Links.Search.{Nearest, search-Nearest}
use cubiboot.Cache.Links.{empty_page, bases, search}
use cubiboot.Cache.Round.{Loop, look}
use cubiboot.Cache.Sound.{Valid, Known, Coherent}
use cubiboot.Cache.State.{lba_mod}

Valid-of :
    (b : ℕ → ℕ) (xs : List ℕ) (page : ℕ) (found : Option ℕ)
    → Nearest b xs page found
    → Valid b xs page found
        (elim found as (λ _. ℕ) [ none ↦ empty_page | some i ↦ (b i + 1) % lba_mod ])
Valid-of b xs page none n = (refl, n)
Valid-of b xs page (some i) n = (omega arith, n)

module _ {Sector : Type 0} (dev : BlockDevice Sector) where
  -- The search touches `p` and `search_base` only, and these are then valid.
  pub look-Valid :
      (pages pdrv : ℕ) (s : Loop dev) (xs : List ℕ) (page : ℕ)
      → Coherent dev pages pdrv s.cache s.drive xs
      → page < empty_page
      → Known (bases s.cache.links.entries) xs page s.p s.search_base
      → (p : Option ℕ) × (sb : ℕ) × (look dev pages s page ≡ record s { p = p; search_base = sb })
        × Valid (bases s.cache.links.entries) xs page p sb
        × ((leb s.search_base page ≡ false) → (p ≡ s.p))
  unfolding look
  look-Valid pages pdrv s xs page c h k = elim (Bool-cases (leb s.search_base page)) [
    | inl e ↦ (
      search pages s.cache.links page,
      elim (search pages s.cache.links page) as (λ _. ℕ) [
        | none ↦ empty_page
        | some i ↦ (bases s.cache.links.entries i + 1) % lba_mod
      ],
      rw e,
      Valid-of _ xs page _
          (search-Nearest pages s.cache.links xs page c.ordered c.held.tail c.bounded h),
      (λ g. cc),
    )
    | inr e ↦ (
      s.p,
      s.search_base,
      rw e,
      elim k [ inl h ↦ absurd (ground arith) | inr v ↦ v ],
      (λ _. refl),
    )
  ]
