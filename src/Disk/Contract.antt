-- ===== src/Disk/Contract.antt =====
-- What the disk functions promise to FatFs, block cache and drivers together.
use cubiboot.Base.{
  ℕ, ◌+◌, ◌^◌, ◌≤◌, ◌<◌, Bool, false, not, ◌&&◌, ◌||◌, some, [], ◌≡◌, refl, sym, subst, ◌⊎◌, inl,
  inr, Bool-cases, arith,
}
use cubiboot.Cache.Contract.{cache_read_lem, ReadAnswer}
use cubiboot.Cache.Contract.Claim.{Usable, reset_cache-Usable}
use cubiboot.Cache.Device.{res_parerr}
use cubiboot.Cache.Round.{Reply}
use cubiboot.Cache.State.{Cache, reset_cache}
use cubiboot.Disk.{Drivers, disk_is_sd, disk_is_ata, disk_is_gcldr, disk_initialize}
use cubiboot.Disk.Media.{Faithful, disk_device, disk_read}

-- A drive of one of the three kinds.
abbrev pub is_drive : ℕ → Bool
is_drive pdrv = disk_is_sd pdrv || disk_is_ata pdrv || disk_is_gcldr pdrv

module _ {Sector : Type 0} (ds : Drivers Sector) where
  open ds use {World}

  module _ (medium : World → ℕ → ℕ → Sector) (ok : Faithful ds medium) where
    -- Over drivers that keep their promises, a read of sectors below 2^32, with a usable cache of at
    -- least one page, returns, leaves all media as they are and the cache usable, and delivers the
    -- sectors asked for, unless the drive is of no kind, or the last call of `disk_read_raw` was of that
    -- drive and was refused: then the answer is that of the refusal.
    pub disk_read_lem :
        (pages pdrv : ℕ) (is_aligned : Bool) (sector count : ℕ) (c : Cache Sector) (w : World)
        → 0 < pages
        → sector + count ≤ 2 ^ 32
        → Usable (disk_device ds medium ok) pages c w
        → (reply : Reply (disk_device ds medium ok)) × (disk_read ds medium ok pages pdrv is_aligned
              sector count c w
            ≡ some reply)
          × (medium reply.drive ≡ medium w)
          × Usable (disk_device ds medium ok) pages reply.cache reply.drive
          × (((is_drive pdrv ≡ false) × (reply.res ≡ res_parerr))
              ⊎ ReadAnswer (disk_device ds medium ok) pdrv sector count w reply)
    unfolding disk_read
    disk_read_lem pages pdrv is_aligned sector count c w some_page bound u =
        elim (Bool-cases
          (not (disk_is_sd pdrv) && not (disk_is_ata pdrv) && not (disk_is_gcldr pdrv))) [
            | inl out ↦ (
              record { res = res_parerr; out = []; cache = c; drive = w },
              rw out,
              refl,
              u,
              inl (ground arith, refl),
            )
            | inr known ↦
                (let (reply, e, kept, u', a) =
                    cache_read_lem (disk_device ds medium ok) pages pdrv is_aligned sector count c w
                      some_page bound u in
                  (reply, rw known e, kept, u', inr a))
          ]

    -- Over drivers that keep their promises, once `disk_initialize` has returned, whatever the cache
    -- of at least one page held before, a read of any drive below sector 2^32 delivers what the media
    -- hold then, unless the drive is of no kind, or the last call of `disk_read_raw` was of that drive
    -- and was refused: then the answer is that of the refusal.
    pub disk_initialize-read :
        (pages pdrv pdrv' : ℕ) (is_aligned : Bool) (sector count : ℕ) (c : Cache Sector) (w : World)
        → 0 < pages
        → sector + count ≤ 2 ^ 32
        → (reply : Reply (disk_device ds medium ok)) × (disk_read ds medium ok pages pdrv'
              is_aligned sector count
              (disk_initialize ds pages pdrv c w).1
              (disk_initialize ds pages pdrv c w).2
            ≡ some reply)
          × (((is_drive pdrv' ≡ false) × (reply.res ≡ res_parerr))
              ⊎ ReadAnswer
                  (disk_device ds medium ok)
                  pdrv'
                  sector
                  count
                  (disk_initialize ds pages pdrv c w).2
                  reply)
    unfolding disk_initialize
    disk_initialize-read pages pdrv pdrv' is_aligned sector count c w some_page bound =
        let (reply, e, kept, u, a) =
          disk_read_lem pages pdrv' is_aligned sector count (disk_initialize ds pages pdrv c w).1
            (disk_initialize ds pages pdrv c w).2 some_page bound
            (subst
              (λ t. Usable (disk_device ds medium ok) pages t (disk_initialize ds pages pdrv c w).2)
              (sym emptied) (reset_cache-Usable (disk_device ds medium ok) pages c _ some_page)) in
        (reply, e, a)
      where
        emptied : (disk_initialize ds pages pdrv c w).1 ≡ reset_cache pages c
        emptied = ground arith
