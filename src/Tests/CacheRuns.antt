-- ===== src/Tests/CacheRuns.antt =====
-- Reads and writes through the block cache.
use cubiboot.Base.{
  ℕ, true, false, none, some, List, [], ◌∷◌, ◌≡◌, refl, ◌⊎◌, arith, ◌==◌, if◌then◌else◌,
}
use cubiboot.Cache.Access.{loop, access, cache_read, cache_write}
use cubiboot.Cache.Contract.{ReadAnswer, WriteAnswer, cache_read_lem, cache_write_lem}
use cubiboot.Cache.Contract.Claim.{Usable, idle}
use cubiboot.Cache.Device.{res_ok, overwrite}
use cubiboot.Cache.Links.{
  reset_from, reset, search_from, search, relink, unlink, push_front, promote, evict_from, evict,
}
use cubiboot.Cache.Round.{
  Reply, hit_read, fill_entry, fill, direct_read, direct_write, look, hit, miss, branch, round,
}
use cubiboot.Cache.RoundTrip.{cache_write-read, enable-read}
use cubiboot.Cache.Sound.{RefusedRead}
use cubiboot.Cache.State.{claim, reset_cache, enable, is_ok}
use cubiboot.Tests.{ram, ramp, blank}

-- A read of sectors 2 to 5, across two pages.
read_runs :
    (elim (cache_read ram 2 1 true 2 3 blank ramp) as (λ _. List ℕ) [ none ↦ [] | some r ↦ r.out ])
    ≡ 102 ∷ 103 ∷ 104 ∷ []
unfolding cache_read claim reset_cache reset reset_from access loop round look search search_from
    branch hit miss fill fill_entry hit_read direct_read promote unlink relink push_front evict
    evict_from
read_runs = refl

cache_read_example :
    (reply : Reply ram) × (cache_read ram 2 1 true 2 3 blank ramp ≡ some reply)
    × (reply.drive ≡ ramp)
    × Usable ram 2 reply.cache reply.drive
    × ReadAnswer ram 1 2 3 ramp reply
cache_read_example =
    cache_read_lem ram 2 1 true 2 3 blank ramp (omega arith) (omega arith) (idle refl)

cache_write_example :
    (reply : Reply ram) × (cache_write ram 2 1 true (7 ∷ 8 ∷ 9 ∷ []) 2 3 blank ramp ≡ some reply)
    × WriteAnswer ram 2 1 (7 ∷ 8 ∷ 9 ∷ []) 2 ramp reply
cache_write_example =
    cache_write_lem ram 2 1 true (7 ∷ 8 ∷ 9 ∷ []) 2 3 blank ramp (omega arith) (omega arith) refl
      (idle refl)

enable-read_example :
    (reply : Reply ram) × (cache_read ram 2 1 false 6 2 (enable blank) ramp ≡ some reply)
    × (reply.drive ≡ ramp)
    × ReadAnswer ram 1 6 2 ramp reply
enable-read_example = enable-read ram 2 1 false 6 2 blank ramp (omega arith) (omega arith)

-- What the write of the next witness leaves.
abbrev written : Reply ram
written = record {
  res = res_ok;
  out = [];
  cache = claim 2 blank 1;
  drive = λ q. if 1 == q then overwrite (ramp q) 2 (7 ∷ 8 ∷ 9 ∷ []) else ramp q;
}

write_runs : cache_write ram 2 1 true (7 ∷ 8 ∷ 9 ∷ []) 2 3 blank ramp ≡ some written
unfolding cache_write claim reset_cache reset reset_from access loop round look search search_from
    branch hit miss direct_write
write_runs = refl

cache_write-read_example :
    (reply : Reply ram) × (cache_read ram 2 1 false 2 3 written.cache written.drive ≡ some reply)
    × (((reply.res ≡ res_ok) × (reply.out ≡ 7 ∷ 8 ∷ 9 ∷ []))
        ⊎ ((is_ok reply.res ≡ false) × RefusedRead ram 1 reply))
cache_write-read_example =
    cache_write-read ram 2 1 true false (7 ∷ 8 ∷ 9 ∷ []) 2 3 blank ramp written (omega arith)
      (omega arith) refl (idle refl) write_runs refl
