-- ===== src/Cache/Sound.antt =====
-- The invariant of the loop of `dvm_cache_access`, and the lemmas that its branches share.
pub mod Steps
pub mod Look
pub mod Limit
pub mod Take
pub mod Fill
pub mod ReadFill
pub mod Read
pub mod Write
pub mod ReadLoop
pub mod WriteLoop
use cubiboot.Base.{
  ℕ, ◌+◌, ◌*◌, ◌%◌, ◌/◌, ◌^◌, ◌<◌, ◌≤◌, Bool, true, false, ◌&&◌, Option, none, some, List, [], ◌∷◌,
  ◌++◌, ◌≡◌, ◌≢◌, refl, sym, ap, ◌∙◌, ◌⊎◌, inl, inr, ltb, ◌==◌, if◌then◌else◌, arith, In, In-split,
  length, length-append, subst, fun_ext,
}
use cubiboot.Cache.Device.{BlockDevice}
use cubiboot.Cache.Held.{Held, Held-move}
use cubiboot.Cache.Links.Chain.{Ordered}
use cubiboot.Cache.Links.Promote.{promote-Ordered, base_sector-promote}
use cubiboot.Cache.Links.Search.{Clear, Nearest}
use cubiboot.Cache.Links.{Links, empty_page, bases, promote}
use cubiboot.Cache.Round.{Loop, Reply, hits}
use cubiboot.Cache.State.{page_of, Cache, Request, is_ok}

-- What is known of `p` and `search_base` from page `page` on: they are the answer of a search.
abbrev pub Valid : (ℕ → ℕ) → List ℕ → ℕ → Option ℕ → ℕ → Type 0
Valid b xs page none sb = (sb ≡ empty_page) × Clear b xs page empty_page
Valid b xs page (some i) sb = (sb ≡ b i + 1) × Nearest b xs page (some i)

-- Or the next round searches again.
abbrev pub Known : (ℕ → ℕ) → List ℕ → ℕ → Option ℕ → ℕ → Type 0
Known b xs page p sb = (sb ≤ page) ⊎ Valid b xs page p sb

module _ {Sector : Type 0} (dev : BlockDevice Sector) where
  open dev use {Drive, contents, read_raw, write_raw}

  -- The block cache is in order, and holds what the drive's medium holds.
  pub record Coherent (pages pdrv : ℕ) (c : Cache Sector) (d : Drive) (xs : List ℕ) : Type 0 where
    pub ordered : Ordered c.links xs
    pub bounded : length xs ≤ pages
    pub inhabited : 0 < length xs
    pub owner : c.owner_pdrv ≡ pdrv
    pub enabled : c.disabled ≡ false
    pub held : Held (bases c.links.entries) c.pages_data (contents d pdrv) xs

  -- The last call of the device was a read of the drive, which it refused: the answer is that of the
  -- device, and the hardware is as that call left it.
  pub record RefusedRead (pdrv : ℕ) (reply : Reply dev) : Type 0 where
    pub before : Drive
    pub sector : ℕ
    pub count : ℕ
    pub refused : is_ok (read_raw before pdrv sector count).0 ≡ false
    pub answer : reply.res ≡ (read_raw before pdrv sector count).0
    pub left : reply.drive ≡ (read_raw before pdrv sector count).2

  -- The device refused a write.
  pub record RefusedWrite : Type 0 where
    pub before : Drive
    pub unit : ℕ
    pub buffer : List Sector
    pub sector : ℕ
    pub count : ℕ
    pub refused : is_ok (write_raw before unit buffer sector count).0 ≡ false

  -- Between two rounds.
  pub record At (r : Request) (s : Loop dev) (xs : List ℕ) : Type 0 where
    pub coherent : Coherent r.pages r.pdrv s.cache s.drive xs
    pub bound : s.first_sector + s.num_sectors ≤ 2 ^ 32
    pub known :
        0 < s.num_sectors
        → Known (bases s.cache.links.entries) xs (page_of s.first_sector) s.p s.search_base

  -- The page of the next sector is at hand.
  abbrev pub is_ready : Loop dev → Bool
  is_ready s = hits dev s (page_of s.first_sector) && ltb (page_of s.first_sector) s.search_base

  -- It falls in every round.
  abbrev pub measure : Loop dev → ℕ
  measure s = 2 * s.num_sectors + (if is_ready s then 0 else 1)

  pub bases-promote : (l : Links) (i : ℕ) → bases (promote l i).entries ≡ bases l.entries
  bases-promote l i = fun_ext (base_sector-promote l i)

  pub length_move :
      (ws : List ℕ) (i : ℕ) (zs : List ℕ) → length (i ∷ (ws ++ zs)) ≡ length (ws ++ i ∷ zs)
  length_move ws i zs = omega (arith, length-append ws zs, length-append ws (i ∷ zs))

  pub Coherent-promote :
      (pages pdrv : ℕ) (c : Cache Sector) (d : Drive) (xs : List ℕ) (i : ℕ)
      → Coherent pages pdrv c d xs
      → In i xs
      → bases c.links.entries i ≢ empty_page
      → (xs' : List ℕ) × Coherent pages pdrv (record c { links = promote c.links i }) d xs'
  Coherent-promote pages pdrv c d xs i h m live =
      let (ws, zs, e) = In-split i xs m in
      let o = subst (Ordered c.links) e h.ordered in
      let k = subst (Held (bases c.links.entries) c.pages_data (contents d pdrv)) e h.held in
      let n : length xs ≡ length (ws ++ i ∷ zs) = ap length e in
      (
        i ∷ (ws ++ zs),
        record {
          ordered = promote-Ordered c.links ws i zs o;
          bounded = omega (arith, length_move ws i zs, h.bounded);
          inhabited = omega arith;
          owner = h.owner;
          enabled = h.enabled;
          held =
              subst (λ b. Held b c.pages_data (contents d pdrv) (i ∷ (ws ++ zs)))
                (sym (bases-promote c.links i))
                (Held-move (bases c.links.entries) c.pages_data (contents d pdrv) ws i zs k live);
        },
      )

  -- A device whose media read the same.
  pub Coherent-drive :
      (pages pdrv : ℕ) (c : Cache Sector) (d d' : Drive) (xs : List ℕ)
      → Coherent pages pdrv c d xs
      → contents d' ≡ contents d
      → Coherent pages pdrv c d' xs
  Coherent-drive pages pdrv c d d' xs h e = record {
    ordered = h.ordered;
    bounded = h.bounded;
    inhabited = h.inhabited;
    owner = h.owner;
    enabled = h.enabled;
    held = subst (λ m. Held (bases c.links.entries) c.pages_data (m pdrv) xs) (sym e) h.held;
  }
