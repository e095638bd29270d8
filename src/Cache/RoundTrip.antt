-- ===== src/Cache/RoundTrip.antt =====
-- A read behind a write gives back what was written.
use cubiboot.Base.{
  ℕ, ◌+◌, ◌^◌, ◌≤◌, ◌<◌, Bool, false, some, List, ◌≡◌, refl, ◌∙◌, ap, sym, ◌⊎◌, inl, inr, arith,
  length, span, some_inj, subst,
}
use cubiboot.Cache.Access.{cache_read, cache_write}
use cubiboot.Cache.Contract.{ReadAnswer, WriteAnswer, cache_read_lem, cache_write_lem}
use cubiboot.Cache.Contract.Claim.{Usable, idle}
use cubiboot.Cache.Device.{BlockDevice, res_ok, overwrite}
use cubiboot.Cache.Held.Medium.{span-overwrite}
use cubiboot.Cache.Round.{Reply}
use cubiboot.Cache.Sound.{RefusedRead}
use cubiboot.Cache.State.{Cache, enable, is_ok}

module _ {Sector : Type 0} (dev : BlockDevice Sector) where
  open dev use {Drive, contents}

  -- After a write that succeeds, a read of the same sectors returns, and gives the buffer written
  -- or fails where the device refused a read of that drive. The write is of a buffer of `count`
  -- sectors, numbered below 2^32, to a usable cache of at least one page.
  pub cache_write-read :
      (pages pdrv : ℕ) (is_aligned is_aligned' : Bool) (buff : List Sector) (sector count : ℕ)
      (c : Cache Sector) (d : Drive) (w : Reply dev)
      → 0 < pages
      → sector + count ≤ 2 ^ 32
      → length buff ≡ count
      → Usable dev pages c d
      → cache_write dev pages pdrv is_aligned buff sector count c d ≡ some w
      → w.res ≡ res_ok
      → (reply : Reply dev) × (cache_read dev pages pdrv is_aligned' sector count w.cache w.drive
          ≡ some reply)
        × (((reply.res ≡ res_ok) × (reply.out ≡ buff))
            ⊎ ((is_ok reply.res ≡ false) × RefusedRead dev pdrv reply))
  cache_write-read pages pdrv is_aligned is_aligned' buff sector count c d w some_page bound whole u
        e good =
      let (w', e', a) =
        cache_write_lem dev pages pdrv is_aligned buff sector count c d some_page bound whole u in
      let same : w' ≡ w = some_inj.0 (sym e' ∙ e) in
      let a' = subst (WriteAnswer dev pages pdrv buff sector d) same a in
      elim a' [
        | inl (ok, made, u') ↦
            (let (reply, h, kept, u'', b) =
                cache_read_lem dev pages pdrv is_aligned' sector count w.cache w.drive some_page
                  bound u' in
              (
                reply,
                h,
                elim b [
                  | inl (done, out) ↦ inl (
                    done,
                    out
                        ∙ ap (λ f. span f sector count) made
                        ∙ ap (span (overwrite (contents d pdrv) sector buff) sector) (sym whole)
                        ∙ span-overwrite (contents d pdrv) sector buff,
                  )
                  | inr refused ↦ inr refused
                ],
              ))
        | inr (bad, refused) ↦ absurd (ground arith)
      ]

  -- Whatever has become of a cache, its links and its pages, a read after `dvm_cache_enable` returns,
  -- leaves the media as they are, and gives what the medium holds or fails where the device refused a
  -- read of that drive. The sectors are numbered below 2^32, and the cache has a page.
  pub enable-read :
      (pages pdrv : ℕ) (is_aligned : Bool) (sector count : ℕ) (c : Cache Sector) (d : Drive)
      → 0 < pages
      → sector + count ≤ 2 ^ 32
      → (reply : Reply dev) × (cache_read dev pages pdrv is_aligned sector count (enable c) d
          ≡ some reply)
        × (contents reply.drive ≡ contents d)
        × ReadAnswer dev pdrv sector count d reply
  unfolding enable
  enable-read pages pdrv is_aligned sector count c d some_page bound =
      let (reply, e, kept, u, a) =
        cache_read_lem dev pages pdrv is_aligned sector count (enable c) d some_page bound
          (idle refl) in
      (reply, e, kept, a)
