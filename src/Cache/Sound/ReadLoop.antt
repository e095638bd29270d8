-- ===== src/Cache/Sound/ReadLoop.antt =====
-- The loop of a read of the block cache: it ends, and what it delivers is what the medium holds.
use cubiboot.Base.{
  ℕ, zero, suc, ◌+◌, ◌*◌, ◌^◌, ◌<◌, ◌≤◌, false, Option, none, some, List, ◌++◌, ◌≡◌, refl, sym, ap,
  ◌∙◌, inl, inr, leb, ◌==◌, arith, Bool-cases, subst, span, append-nil, ==_iff, leb→le,
}
use cubiboot.Cache.Access.{loop}
use cubiboot.Cache.Device.{BlockDevice, res_ok}
use cubiboot.Cache.Links.{bases}
use cubiboot.Cache.Sound.Steps.{
  Round-cases, loop_done, loop_again, loop_return, worth, miss-fill, miss_read, branch_read,
  branch-miss, branch-none,
}
use cubiboot.Cache.Round.{Loop, Reply, hits, miss, branch, round}
use cubiboot.Cache.Sound.Take.{not_cached}
use cubiboot.Cache.Sound.Fill.{fill-FillPost}
use cubiboot.Cache.Sound.Limit.{limit_lem}
use cubiboot.Cache.Sound.Look.{look-Valid}
use cubiboot.Cache.Sound.ReadFill.{fill-ReadRound}
use cubiboot.Cache.Sound.Read.{
  Reading, ReadPost, ReadRound, hit_read-ReadRound, direct_read-ReadRound,
}
use cubiboot.Cache.Sound.{Valid, Coherent, At, measure}
use cubiboot.Cache.State.{Request, page_of}

module _ {Sector : Type 0} (dev : BlockDevice Sector) (r : Request) (reads : r.is_write ≡ false)
    (fitting : r.orig_first + r.orig_count ≤ 2 ^ 32) where
  miss-ReadRound :
      (m : ℕ → ℕ → Sector) (s : Loop dev) (xs : List ℕ) (n : ℕ)
      → Coherent dev r.pages r.pdrv s.cache s.drive xs
      → Reading dev r m s
      → s.first_sector + s.num_sectors ≤ 2 ^ 32
      → Valid (bases s.cache.links.entries) xs (page_of s.first_sector) s.p s.search_base
      → hits dev s (page_of s.first_sector) ≡ false
      → 0 < s.num_sectors
      → 2 * s.num_sectors + 1 ≤ n
      → ReadRound dev r m n (miss dev r s (page_of s.first_sector))
  miss-ReadRound m s xs n c g bound v h pos fuel = elim (Bool-cases (worth dev r)) [
    | inl e ↦ rw (miss-fill dev r s (page_of s.first_sector) reads e) (
        fill-ReadRound dev r m s xs n _ g bound fuel (
          fill-FillPost dev r.pages r.pdrv s (page_of s.first_sector) r.orig_first r.orig_count xs
            fitting c (omega arith, omega arith)
            (not_cached (bases s.cache.links.entries) xs (page_of s.first_sector) s.p s.search_base
              v h (omega arith))))
    | inr e ↦ rw (miss_read dev r s (page_of s.first_sector) reads e) (
        direct_read-ReadRound dev r m s xs _ n c g bound
          (limit_lem (bases s.cache.links.entries) xs s.first_sector s.num_sectors s.p s.search_base
            c.held.placed v h bound pos)
          (omega arith))
  ]

  branch-ReadRound :
      (m : ℕ → ℕ → Sector) (s : Loop dev) (xs : List ℕ) (n : ℕ) (p : Option ℕ)
      → Coherent dev r.pages r.pdrv s.cache s.drive xs
      → Reading dev r m s
      → s.first_sector + s.num_sectors ≤ 2 ^ 32
      → Valid (bases s.cache.links.entries) xs (page_of s.first_sector) s.p s.search_base
      → s.p ≡ p
      → 0 < s.num_sectors
      → 2 * s.num_sectors ≤ n
      → (hits dev s (page_of s.first_sector) ≡ false → 2 * s.num_sectors + 1 ≤ n)
      → ReadRound dev r m n (branch dev r s (page_of s.first_sector) p)
  branch-ReadRound m s xs n none c g bound v e pos fuel more =
      rw (branch-none dev r s (page_of s.first_sector))
        (miss-ReadRound m s xs n c g bound v (ground arith) pos (more (ground arith)))
  branch-ReadRound m s xs n (some i) c g bound v e pos fuel more =
      elim (Bool-cases (bases s.cache.links.entries i == page_of s.first_sector)) [
        | inl here ↦
            let v' : Valid (bases s.cache.links.entries) xs (page_of s.first_sector) (some i)
                s.search_base =
              subst
                (λ q.
                  Valid (bases s.cache.links.entries) xs (page_of s.first_sector) q s.search_base)
                e v in
            let at = (==_iff _ _).0 here in
            rw (branch_read dev r s (page_of s.first_sector) i here reads) (
              hit_read-ReadRound dev r m s xs i _ _ n _ c g bound v'.1.0 at
                (v'.0 ∙ ap (λ t. t + 1) at) refl refl pos fuel)
        | inr gone ↦
            let h : hits dev s (page_of s.first_sector) ≡ false = ground arith in
            rw (branch-miss dev r s (page_of s.first_sector) i gone)
              (miss-ReadRound m s xs n c g bound v h pos (more h))
      ]

  round-ReadRound :
      (m : ℕ → ℕ → Sector) (s : Loop dev) (xs : List ℕ)
      → At dev r s xs
      → Reading dev r m s
      → 0 < s.num_sectors
      → ReadRound dev r m (measure dev s) (round dev r s)
  unfolding round
  round-ReadRound m s xs a g pos =
      let bound = a.bound in
      let (p, sb, e, v, kept) =
        look-Valid dev r.pages r.pdrv s xs (page_of s.first_sector) a.coherent (omega arith)
          (a.known pos) in
      rw e (
        branch-ReadRound m (record s { p = p; search_base = sb }) xs (measure dev s) p a.coherent
          (record { kept = g.kept; aim = g.aim }) a.bound v refl pos (ground arith)
          (λ h. elim (Bool-cases (leb s.search_base (page_of s.first_sector))) [
            | inl t ↦ (let le = leb→le _ _ t in ground arith)
            | inr f ↦
                (let same = kept f in
                  (let h' : hits dev s (page_of s.first_sector) ≡ false =
                      subst
                        (λ q.
                          hits dev (record s { p = q; search_base = sb }) (page_of s.first_sector)
                          ≡ false)
                        same h in
                    ground arith))
          ]))

  -- With fuel above the measure the loop returns, and its answer is right.
  pub loop-ReadPost :
      (m : ℕ → ℕ → Sector) (f : ℕ) (s : Loop dev) (xs : List ℕ)
      → At dev r s xs
      → Reading dev r m s
      → measure dev s < f
      → (reply : Reply dev) × (loop dev f r s ≡ some reply) × ReadPost dev r m reply
  loop-ReadPost m zero s xs a g lt = absurd (omega arith)
  loop-ReadPost m (suc f) s xs a g lt = elim (Bool-cases (s.num_sectors == 0)) [
    | inl done ↦ (
      record { res = res_ok; out = s.out; cache = s.cache; drive = s.drive },
      loop_done dev r f s done,
      record {
        kept = g.kept;
        order = xs;
        coherent = a.coherent;
        delivered = λ e.
            sym (append-nil s.out)
            ∙ ap (λ k. s.out ++ span (m r.pdrv) s.first_sector k) (sym ((==_iff _ _).0 done))
            ∙ g.aim;
        blamed = inl refl;
      },
    )
    | inr more ↦
        let after = round-ReadRound m s xs a g (ground arith) in
        elim (Round-cases dev r (round dev r s)) [
          | inl (s', e) ↦
              let (xs', a', g', lt') = subst (ReadRound dev r m (measure dev s)) e after in
              let (reply, h, post) = loop-ReadPost m f s' xs' a' g' (omega arith) in
              (reply, loop_again dev r f s s' more e ∙ h, post)
          | inr (reply, e) ↦ (
            reply,
            loop_return dev r f s reply more e,
            subst (ReadRound dev r m (measure dev s)) e after,
          )
        ]
  ]
