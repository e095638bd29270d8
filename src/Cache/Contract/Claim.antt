-- ===== src/Cache/Contract/Claim.antt =====
-- When a cache is usable, and what `dvm_cache_claim` makes of it.
use cubiboot.Base.{
  ℕ, zero, suc, ◌<◌, ◌≤◌, true, false, not, ◌||◌, List, [], ◌∷◌, ◌≡◌, refl, inl, inr, ◌==◌, arith,
  Bool-cases, All, In, All_at, length-span, length, subst,
}
use cubiboot.Cache.Device.{BlockDevice}
use cubiboot.Cache.Held.{Held}
use cubiboot.Cache.Links.Search.{EmptyTail}
use cubiboot.Cache.Links.Chain.{Ordered}
use cubiboot.Cache.Links.Reset.{slots, reset-Ordered, reset_unused}
use cubiboot.Cache.Links.{empty_page, bases}
use cubiboot.Cache.Sound.{Coherent, Coherent-drive}
use cubiboot.Cache.State.{Cache, claim, reset_cache, dvm_magic_value}

module _ {Sector : Type 0} (dev : BlockDevice Sector) where
  open dev use {Drive, contents}

  -- The cache is not ready, or was never reset, or holds nothing, or holds what its owner's medium
  -- holds.
  pub data Usable (pages : ℕ) (c : Cache Sector) (d : Drive) : Type 0 where
    idle : c.ready ≡ false → Usable pages c d
    stale : (c.magic == dvm_magic_value) ≡ false → Usable pages c d
    emptied :
        (xs : List ℕ)
        → Ordered c.links xs
        → length xs ≤ pages
        → 0 < length xs
        → All (λ j. bases c.links.entries j ≡ empty_page) xs
        → Usable pages c d
    live : (owner : ℕ) (xs : List ℕ) → Coherent dev pages owner c d xs → Usable pages c d

  pub Usable-drive :
      (pages : ℕ) (c : Cache Sector) (d d' : Drive)
      → Usable pages c d
      → contents d' ≡ contents d
      → Usable pages c d'
  Usable-drive pages c d d' (idle h) e = idle h
  Usable-drive pages c d d' (stale h) e = stale h
  Usable-drive pages c d d' (emptied xs o b i u) e = emptied xs o b i u
  Usable-drive pages c d d' (live o xs h) e = live o xs (Coherent-drive dev pages o c d d' xs h e)

  -- A disabled cache stays usable whatever becomes of the media.
  pub off_Usable :
      (pages : ℕ) (c : Cache Sector) (d d' : Drive)
      → c.disabled ≡ true
      → Usable pages c d
      → Usable pages c d'
  off_Usable pages c d d' off (idle h) = idle h
  off_Usable pages c d d' off (stale h) = stale h
  off_Usable pages c d d' off (emptied xs o b i u) = emptied xs o b i u
  off_Usable pages c d d' off (live o xs h) = let on = h.enabled in absurd (ground arith)

  EmptyTail-unused : (b : ℕ → ℕ) (xs : List ℕ) → All (λ j. b j ≡ empty_page) xs → EmptyTail b xs
  EmptyTail-unused b [] h = tt
  EmptyTail-unused b (x ∷ xs) h = ((λ e. h.1), EmptyTail-unused b xs h.1)

  Held-unused :
      (b : ℕ → ℕ) (pd : ℕ → ℕ → Sector) (m : ℕ → Sector) (xs : List ℕ)
      → All (λ j. b j ≡ empty_page) xs
      → Held b pd m xs
  Held-unused b pd m xs h = record {
    tail = EmptyTail-unused b xs h;
    placed = λ j k live. absurd (live (at j k));
    unique = λ i j k l live e. absurd (live (at i k));
    copies = λ j k live. absurd (live (at j k));
  }
    where
      at : (j : ℕ) → In j xs → b j ≡ empty_page
      at j k = All_at (λ t. b t ≡ empty_page) xs h k

  reset_cache-Coherent :
      (pages pdrv : ℕ) (c : Cache Sector) (d : Drive)
      → 0 < pages
      → c.disabled ≡ false
      → Coherent dev pages pdrv
          (record (reset_cache pages c) { owner_pdrv = pdrv })
          d
          (slots 0 pages)
  unfolding reset_cache
  reset_cache-Coherent zero pdrv c d pos on = absurd (omega arith)
  reset_cache-Coherent (suc pages) pdrv c d pos on = record {
    ordered = reset-Ordered pages c.links;
    bounded = omega (arith, length-span (λ (j : ℕ). j) 0 (suc pages));
    inhabited = omega (arith, length-span (λ (j : ℕ). j) 0 (suc pages));
    owner = refl;
    enabled = on;
    held = Held-unused _ _ _ _ (reset_unused (suc pages) c.links);
  }

  -- Whatever a cache was, once reset it is usable, whatever the media hold.
  pub reset_cache-Usable :
      (pages : ℕ) (c : Cache Sector) (d : Drive) → 0 < pages → Usable pages (reset_cache pages c) d
  unfolding reset_cache
  reset_cache-Usable zero c d pos = absurd (omega arith)
  reset_cache-Usable (suc pages) c d pos =
      emptied (slots 0 (suc pages)) (reset-Ordered pages c.links)
        (omega (arith, length-span (λ (j : ℕ). j) 0 (suc pages)))
        (omega (arith, length-span (λ (j : ℕ). j) 0 (suc pages))) (reset_unused (suc pages) c.links)

  -- Once claimed, the cache is coherent for the drive that claims it.
  pub claim-Coherent :
      (pages pdrv : ℕ) (c : Cache Sector) (d : Drive)
      → 0 < pages
      → c.disabled ≡ false
      → Usable pages c d
      → (xs : List ℕ) × Coherent dev pages pdrv (claim pages c pdrv) d xs
  unfolding claim
  claim-Coherent pages pdrv c d pos on u =
      elim (Bool-cases
        (not (c.magic == dvm_magic_value) || not c.ready || not (pdrv == c.owner_pdrv))) [
          | inl fresh ↦ (slots 0 pages, rw fresh (reset_cache-Coherent pages pdrv c d pos on))
          | inr same ↦ rw same (go u same)
        ]
    where
      go :
          Usable pages c d
          → (not (c.magic == dvm_magic_value) || not c.ready || not (pdrv == c.owner_pdrv)) ≡ false
          → (xs : List ℕ) × Coherent dev pages pdrv c d xs
      go (idle h) same = absurd (ground arith)
      go (stale h) same = absurd (ground arith)
      go (emptied xs o b i u) same =
          (let mine : c.owner_pdrv ≡ pdrv = ground arith in
            (
              xs,
              record {
                ordered = o;
                bounded = b;
                inhabited = i;
                owner = mine;
                enabled = on;
                held = Held-unused _ _ _ xs u;
              },
            ))
      go (live o xs h) same =
          let owner = h.owner in
          let mine : o ≡ pdrv = ground arith in
          (xs, subst (λ t. Coherent dev pages t c d xs) mine h)
