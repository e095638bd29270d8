-- ===== src/Cache/Contract.antt =====
-- What `dvm_cache_read` and `dvm_cache_write` promise to their callers: to answer as the device
-- would.
pub mod Claim
pub mod Paths
use cubiboot.Base.{
  ℕ, zero, suc, ◌+◌, ◌*◌, ◌^◌, ◌<◌, ◌≤◌, Bool, true, false, not, ◌&&◌, ◌||◌, Option, none, some,
  List, [], ◌∷◌, ◌++◌, ◌≡◌, ◌≢◌, refl, sym, ap, ◌∙◌, ◌⊎◌, inl, inr, ltb, ◌==◌, if◌then◌else◌, arith,
  Bool-cases, ==_iff, length, subst, span,
}
use cubiboot.Cache.Access.{loop, fuel_for, access, cache_read, cache_write}
use cubiboot.Cache.Device.{BlockDevice, DResult, res_ok, overwrite}
use cubiboot.Cache.Round.{Loop, Reply}
use cubiboot.Cache.Sound.Read.{Reading, ReadPost}
use cubiboot.Cache.Sound.ReadLoop.{loop-ReadPost}
use cubiboot.Cache.Sound.Write.{Writing, WritePost}
use cubiboot.Cache.Sound.WriteLoop.{loop-WritePost}
use cubiboot.Cache.Sound.{Coherent, RefusedRead, RefusedWrite}
use cubiboot.Cache.State.{Cache, Request, claim, enable, is_ok, is_ok→eq}
use cubiboot.Cache.Sound.WriteLoop.{length_zero}
use Paths.{
  request, cache_read_none, cache_read_off, cache_read_on, cache_write_none, cache_write_off,
  cache_write_on,
}
use Claim.{Usable, Usable-drive, off_Usable, idle, stale, live, claim-Coherent}

module _ {Sector : Type 0} (dev : BlockDevice Sector) where
  open dev use {Drive, contents, read_raw, write_raw, read_gives, read_keeps, write_sets}

  access_read :
      (r : Request) (c : Cache Sector) (d : Drive) (xs : List ℕ)
      → r.is_write ≡ false
      → Coherent dev r.pages r.pdrv c d xs
      → r.orig_first + r.orig_count ≤ 2 ^ 32
      → (reply : Reply dev) × (access dev r [] c d ≡ some reply) × ReadPost dev r (contents d) reply
  unfolding access
  access_read r c d xs reads h bound =
      loop-ReadPost dev r reads bound (contents d) (fuel_for r.orig_count) _ xs
        (record { coherent = h; bound = bound; known = λ pos. inl (omega arith) })
        (record { kept = refl; aim = refl }) (ground arith)

  access_write :
      (r : Request) (buff : List Sector) (c : Cache Sector) (d : Drive) (xs : List ℕ)
      → r.is_write ≡ true
      → Coherent dev r.pages r.pdrv c d xs
      → length buff ≡ r.orig_count
      → r.orig_first + r.orig_count ≤ 2 ^ 32
      → (reply : Reply dev) × (access dev r buff c d ≡ some reply)
        × WritePost dev r (overwrite (contents d r.pdrv) r.orig_first buff) reply
  unfolding access
  access_write r buff c d xs writes h whole bound =
      loop-WritePost dev r writes (overwrite (contents d r.pdrv) r.orig_first buff)
        (fuel_for r.orig_count) _ xs
        (record { coherent = h; bound = bound; known = λ pos. inl (omega arith) })
        (record { whole = whole; aim = refl }) (ground arith)

  -- A read delivered the sectors that the medium holds, or the device refused.
  abbrev pub ReadAnswer : ℕ → ℕ → ℕ → Drive → Reply dev → Type 0
  ReadAnswer pdrv sector count d reply =
      ((reply.res ≡ res_ok) × (reply.out ≡ span (contents d pdrv) sector count))
      ⊎ ((is_ok reply.res ≡ false) × RefusedRead dev pdrv reply)

  -- A write left the medium with the buffer written over it, and a usable cache, or the device
  -- refused.
  abbrev pub WriteAnswer : ℕ → ℕ → List Sector → ℕ → Drive → Reply dev → Type 0
  WriteAnswer pages pdrv buff sector d reply =
      ((reply.res ≡ res_ok)
        × (contents reply.drive pdrv ≡ overwrite (contents d pdrv) sector buff)
        × Usable dev pages reply.cache reply.drive)
      ⊎ ((is_ok reply.res ≡ false) × RefusedWrite dev)

  read_answer :
      (r : Request) (d : Drive) (reply : Reply dev)
      → ReadPost dev r (contents d) reply
      → ReadAnswer r.pdrv r.orig_first r.orig_count d reply
  read_answer r d reply post = elim (Bool-cases (is_ok reply.res)) [
    | inl e ↦ (let ok = is_ok→eq _ e in inl (ok, post.delivered ok))
    | inr e ↦ elim post.blamed [ inl k ↦ absurd (ground arith) | inr k ↦ inr (e, k) ]
  ]

  write_answer :
      (r : Request) (buff : List Sector) (d : Drive) (reply : Reply dev)
      → WritePost dev r (overwrite (contents d r.pdrv) r.orig_first buff) reply
      → WriteAnswer r.pages r.pdrv buff r.orig_first d reply
  write_answer r buff d reply post = elim (Bool-cases (is_ok reply.res)) [
    | inl e ↦
        (let ok = is_ok→eq _ e in
          let (xs, h) = post.coherent ok in inl (ok, post.written ok, live r.pdrv xs h))
    | inr e ↦ elim post.blamed [ inl k ↦ absurd (ground arith) | inr k ↦ inr (e, k) ]
  ]

  raw-ReadAnswer :
      (pdrv sector count : ℕ) (c : Cache Sector) (d : Drive)
      → sector + count ≤ 2 ^ 32
      → ReadAnswer pdrv sector count d (record {
        res = (read_raw d pdrv sector count).0;
        out = (read_raw d pdrv sector count).1;
        cache = c;
        drive = (read_raw d pdrv sector count).2;
      })
  raw-ReadAnswer pdrv sector count c d bound =
      elim (Bool-cases (is_ok (read_raw d pdrv sector count).0)) [
        | inl e ↦ (let ok = is_ok→eq _ e in inl (ok, read_gives d pdrv sector count bound ok))
        | inr e ↦ inr (
          e,
          record {
            before = d;
            sector = sector;
            count = count;
            refused = e;
            answer = refl;
            left = refl;
          },
        )
      ]

  -- Past a disabled cache a write does not touch it: it is not ready, or was never reset.
  raw-WriteAnswer :
      (pages pdrv : ℕ) (buff : List Sector) (sector count : ℕ) (c : Cache Sector) (d : Drive)
      → sector + count ≤ 2 ^ 32
      → length buff ≡ count
      → c.disabled ≡ true
      → Usable dev pages c d
      → WriteAnswer pages pdrv buff sector d (record {
        res = (write_raw d pdrv buff sector count).0;
        out = [];
        cache = c;
        drive = (write_raw d pdrv buff sector count).1;
      })
  raw-WriteAnswer pages pdrv buff sector count c d bound whole off u =
      elim (Bool-cases (is_ok (write_raw d pdrv buff sector count).0)) [
        | inl e ↦
            (let ok = is_ok→eq _ e in
              inl (
                ok,
                write_sets d pdrv buff sector count bound whole ok,
                off_Usable dev pages c d _ off u,
              ))
        | inr e ↦ inr (
          e,
          record {
            before = d;
            unit = pdrv;
            buffer = buff;
            sector = sector;
            count = count;
            refused = e;
          },
        )
      ]

  -- A read through a usable cache (one that is not ready, was never reset, holds nothing, or holds
  -- what its owner's medium holds) returns, leaves the media as they are and the cache usable, and
  -- either delivers the sectors asked for, or fails with the answer of the device, whose last call was
  -- a read of that drive, which it refused. The sectors are numbered below 2^32, and the cache has a
  -- page.
  pub cache_read_lem :
      (pages pdrv : ℕ) (is_aligned : Bool) (sector count : ℕ) (c : Cache Sector) (d : Drive)
      → 0 < pages
      → sector + count ≤ 2 ^ 32
      → Usable dev pages c d
      → (reply : Reply dev) × (cache_read dev pages pdrv is_aligned sector count c d ≡ some reply)
        × (contents reply.drive ≡ contents d)
        × Usable dev pages reply.cache reply.drive
        × ReadAnswer pdrv sector count d reply
  cache_read_lem pages pdrv is_aligned sector count c d some_page bound u =
      elim (Bool-cases (count == 0)) [
        | inl none_asked ↦
            (let z : count ≡ 0 = (==_iff _ _).0 none_asked in
              (
                record { res = res_ok; out = []; cache = c; drive = d },
                cache_read_none dev pages pdrv is_aligned sector count c d none_asked,
                refl,
                u,
                inl (refl, sym (ap (span (contents d pdrv) sector) z)),
              ))
        | inr asked ↦ elim (Bool-cases c.disabled) [
          | inl off ↦ (
            _,
            cache_read_off dev pages pdrv is_aligned sector count c d asked off,
            read_keeps d pdrv sector count,
            Usable-drive dev pages c d _ u (read_keeps d pdrv sector count),
            raw-ReadAnswer pdrv sector count c d bound,
          )
          | inr on ↦
              (let (xs, h) = claim-Coherent dev pages pdrv c d some_page on u in
                let (reply, e, post) =
                  access_read (request dev pages pdrv is_aligned false sector count)
                    (claim pages c pdrv) d xs refl h bound in
                (
                  reply,
                  cache_read_on dev pages pdrv is_aligned sector count c d asked on ∙ e,
                  post.kept,
                  live pdrv post.order post.coherent,
                  read_answer _ d reply post,
                ))
        ]
      ]

  -- A write through a usable cache (one that is not ready, was never reset, holds nothing, or holds
  -- what its owner's medium holds) returns, and either leaves the drive's medium with the buffer
  -- written over it and the cache usable, or fails where the device refused a write. The buffer has
  -- `count` sectors, numbered below 2^32, and the cache has a page.
  pub cache_write_lem :
      (pages pdrv : ℕ) (is_aligned : Bool) (buff : List Sector) (sector count : ℕ)
      (c : Cache Sector) (d : Drive)
      → 0 < pages
      → sector + count ≤ 2 ^ 32
      → length buff ≡ count
      → Usable dev pages c d
      → (reply : Reply dev) × (cache_write dev pages pdrv is_aligned buff sector count c d
          ≡ some reply)
        × WriteAnswer pages pdrv buff sector d reply
  cache_write_lem pages pdrv is_aligned buff sector count c d some_page bound whole u =
      elim (Bool-cases (count == 0)) [
        | inl none_asked ↦
            (let z : length buff ≡ 0 = whole ∙ (==_iff _ _).0 none_asked in
              (
                record { res = res_ok; out = []; cache = c; drive = d },
                cache_write_none dev pages pdrv is_aligned buff sector count c d none_asked,
                inl (refl, sym (ap (overwrite (contents d pdrv) sector) (length_zero buff z)), u),
              ))
        | inr asked ↦ elim (Bool-cases c.disabled) [
          | inl off ↦ (
            _,
            cache_write_off dev pages pdrv is_aligned buff sector count c d asked off,
            raw-WriteAnswer pages pdrv buff sector count c d bound whole off u,
          )
          | inr on ↦
              (let (xs, h) = claim-Coherent dev pages pdrv c d some_page on u in
                let (reply, e, post) =
                  access_write (request dev pages pdrv is_aligned true sector count) buff
                    (claim pages c pdrv) d xs refl h whole bound in
                (
                  reply,
                  cache_write_on dev pages pdrv is_aligned buff sector count c d asked on ∙ e,
                  write_answer _ buff d reply post,
                ))
        ]
      ]
