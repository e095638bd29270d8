-- ===== src/Cache/Sound/WriteLoop.antt =====
-- A write that the block cache holds a page for, and the loop of a write.
use Prim.Native.Nat.{min}
use cubiboot.Base.{
  ℕ, zero, suc, ◌+◌, ◌-◌, ◌*◌, ◌%◌, ◌^◌, ◌<◌, ◌≤◌, Bool, true, false, Option, none, some, List, [],
  ◌∷◌, ◌≡◌, ◌≢◌, refl, sym, ap, ◌∙◌, inl, inr, ◌==◌, arith, Bool-cases, In, length, subst, take,
  length-take_of_le, ==_iff,
}
use cubiboot.Cache.Access.{loop}
use cubiboot.Cache.Device.{BlockDevice, res_ok, overwrite}
use cubiboot.Cache.Held.{Held, Held-write}
use cubiboot.Cache.Links.{empty_page, bases}
use cubiboot.Cache.Round.{
  Loop, again, Reply, hits, advance, promote_unless, hit_write, miss, branch, round,
}
use cubiboot.Cache.Sound.Limit.{limit_lem}
use cubiboot.Cache.Sound.Look.{look-Valid}
use cubiboot.Cache.Sound.Steps.{
  Round-cases, loop_done, loop_again, loop_return, miss_write, branch_write, branch-miss,
  branch-none,
}
use cubiboot.Cache.Sound.Write.{
  Writing, WritePost, WriteRound, step_on, forwarded, raw_written, direct_write-WriteRound,
}
use cubiboot.Cache.Sound.{Valid, Coherent, At, measure, Coherent-promote}
use cubiboot.Cache.State.{Request, is_ok, page_of, put_page}

pub length_zero : {A : Type 0} (xs : List A) → length xs ≡ 0 → xs ≡ []
length_zero [] h = refl
length_zero (x ∷ xs) h = absurd (omega arith)

module _ {Sector : Type 0} (dev : BlockDevice Sector) (r : Request) where
  open dev use {Drive, contents, write_raw, write_sets}

  -- The page is updated, and the sectors are written through.
  abbrev through : Loop dev → ℕ → ℕ → ℕ → Loop dev
  through s i off cur = record s {
    cache = record (s.cache) { pages_data = put_page s.cache.pages_data i off (take cur s.buffer) };
    drive = (write_raw s.drive r.pdrv (take cur s.buffer) s.first_sector cur).1;
  }

  through-Coherent :
      (goal : ℕ → Sector) (s : Loop dev) (xs : List ℕ) (i off cur : ℕ)
      → Coherent dev r.pages r.pdrv s.cache s.drive xs
      → Writing dev r goal s
      → s.first_sector + s.num_sectors ≤ 2 ^ 32
      → In i xs
      → bases s.cache.links.entries i ≢ empty_page
      → bases s.cache.links.entries i + off ≡ s.first_sector
      → (cur ≤ s.num_sectors) × (off + cur ≤ 4)
      → is_ok (write_raw s.drive r.pdrv (take cur s.buffer) s.first_sector cur).0 ≡ true
      → Coherent dev r.pages r.pdrv (through s i off cur).cache (through s i off cur).drive xs
  through-Coherent goal s xs i off cur c g bound k live at le done =
      let whole = g.whole in
      let long = length-take_of_le cur s.buffer (omega arith) in
      record {
        ordered = c.ordered;
        bounded = c.bounded;
        inhabited = c.inhabited;
        owner = c.owner;
        enabled = c.enabled;
        held =
            subst
              (λ m.
                Held (bases s.cache.links.entries)
                  (put_page s.cache.pages_data i off (take cur s.buffer)) m xs)
              (ap (λ t. overwrite (contents s.drive r.pdrv) t (take cur s.buffer)) at
                ∙ sym (raw_written dev r goal s cur g bound le.0 done))
              (Held-write _ _ _ xs i off (take cur s.buffer) c.held k live (omega arith));
      }

  hit_write-WriteRound :
      (goal : ℕ → Sector) (s : Loop dev) (xs : List ℕ) (i off cur n : ℕ) (is_whole : Bool)
      → Coherent dev r.pages r.pdrv s.cache s.drive xs
      → Writing dev r goal s
      → s.first_sector + s.num_sectors ≤ 2 ^ 32
      → In i xs
      → bases s.cache.links.entries i ≡ page_of s.first_sector
      → s.search_base ≡ page_of s.first_sector + 1
      → off ≡ s.first_sector % 4
      → cur ≡ min s.num_sectors (4 - off)
      → 0 < s.num_sectors
      → 2 * s.num_sectors ≤ n
      → WriteRound dev r goal n (hit_write dev r.pdrv s i off cur is_whole)
  unfolding hit_write
  hit_write-WriteRound goal s xs i off cur n is_whole c g bound k at sb eo ec pos fuel =
      let long = length-take_of_le cur s.buffer in
      elim (Bool-cases
        (is_ok (write_raw s.drive r.pdrv (take cur s.buffer) s.first_sector cur).0)) [
          | inl done ↦ rw done (go is_whole done)
          | inr bad ↦ rw bad (record {
            written = λ e. absurd (ground arith);
            coherent = λ e. absurd (ground arith);
            blamed = inr (record {
              before = s.drive;
              unit = r.pdrv;
              buffer = take cur s.buffer;
              sector = s.first_sector;
              count = cur;
              refused = bad;
            });
          })
        ]
    where
      go :
          (w : Bool)
          → is_ok (write_raw s.drive r.pdrv (take cur s.buffer) s.first_sector cur).0 ≡ true
          → WriteRound dev r goal n
              (again (advance dev (promote_unless dev w (through s i off cur) i) cur))
      go true done =
          step_on dev r goal (through s i off cur) xs cur n
            (through-Coherent goal s xs i off cur c g bound k (omega arith) (omega arith)
              (omega arith) done)
            bound (omega arith) (omega arith) g.whole
            (forwarded dev r goal s cur _ g (omega arith)
              (raw_written dev r goal s cur g bound (omega arith) done))
            (λ h. inl (omega arith)) fuel
      go false done =
          let c1 =
            through-Coherent goal s xs i off cur c g bound k (omega arith) (omega arith)
              (omega arith) done in
          let (xs', c') =
            Coherent-promote dev r.pages r.pdrv (through s i off cur).cache
              (through s i off cur).drive xs i c1 k (omega arith) in
          step_on dev r goal (promote_unless dev false (through s i off cur) i) xs' cur n c' bound
            (omega arith) (omega arith) g.whole
            (forwarded dev r goal s cur _ g (omega arith)
              (raw_written dev r goal s cur g bound (omega arith) done))
            (λ h. inl (omega arith)) fuel

module _ {Sector : Type 0} (dev : BlockDevice Sector) (r : Request)
    (writes : r.is_write ≡ true) where
  open dev use {contents}

  miss-WriteRound :
      (goal : ℕ → Sector) (s : Loop dev) (xs : List ℕ) (n : ℕ)
      → Coherent dev r.pages r.pdrv s.cache s.drive xs
      → Writing dev r goal s
      → s.first_sector + s.num_sectors ≤ 2 ^ 32
      → Valid (bases s.cache.links.entries) xs (page_of s.first_sector) s.p s.search_base
      → hits dev s (page_of s.first_sector) ≡ false
      → 0 < s.num_sectors
      → 2 * s.num_sectors ≤ n
      → WriteRound dev r goal n (miss dev r s (page_of s.first_sector))
  miss-WriteRound goal s xs n c g bound v h pos fuel =
      rw (miss_write dev r s (page_of s.first_sector) writes) (
        direct_write-WriteRound dev r goal s xs _ n c g bound
          (limit_lem (bases s.cache.links.entries) xs s.first_sector s.num_sectors s.p s.search_base
            c.held.placed v h bound pos)
          fuel)

  branch-WriteRound :
      (goal : ℕ → Sector) (s : Loop dev) (xs : List ℕ) (n : ℕ) (p : Option ℕ)
      → Coherent dev r.pages r.pdrv s.cache s.drive xs
      → Writing dev r goal s
      → s.first_sector + s.num_sectors ≤ 2 ^ 32
      → Valid (bases s.cache.links.entries) xs (page_of s.first_sector) s.p s.search_base
      → s.p ≡ p
      → 0 < s.num_sectors
      → 2 * s.num_sectors ≤ n
      → WriteRound dev r goal n (branch dev r s (page_of s.first_sector) p)
  branch-WriteRound goal s xs n none c g bound v e pos fuel =
      rw (branch-none dev r s (page_of s.first_sector))
        (miss-WriteRound goal s xs n c g bound v (ground arith) pos fuel)
  branch-WriteRound goal s xs n (some i) c g bound v e pos fuel =
      elim (Bool-cases (bases s.cache.links.entries i == page_of s.first_sector)) [
        | inl here ↦
            let v' : Valid (bases s.cache.links.entries) xs (page_of s.first_sector) (some i)
                s.search_base =
              subst
                (λ q.
                  Valid (bases s.cache.links.entries) xs (page_of s.first_sector) q s.search_base)
                e v in
            let at = (==_iff _ _).0 here in
            rw (branch_write dev r s (page_of s.first_sector) i here writes) (
              hit_write-WriteRound dev r goal s xs i _ _ n _ c g bound v'.1.0 at
                (v'.0 ∙ ap (λ t. t + 1) at) refl refl pos fuel)
        | inr gone ↦
            let h : hits dev s (page_of s.first_sector) ≡ false = ground arith in
            rw (branch-miss dev r s (page_of s.first_sector) i gone)
              (miss-WriteRound goal s xs n c g bound v h pos fuel)
      ]

  round-WriteRound :
      (goal : ℕ → Sector) (s : Loop dev) (xs : List ℕ)
      → At dev r s xs
      → Writing dev r goal s
      → 0 < s.num_sectors
      → WriteRound dev r goal (measure dev s) (round dev r s)
  unfolding round
  round-WriteRound goal s xs a g pos =
      let bound = a.bound in
      let (p, sb, e, v, kept) =
        look-Valid dev r.pages r.pdrv s xs (page_of s.first_sector) a.coherent (omega arith)
          (a.known pos) in
      rw e (
        branch-WriteRound goal (record s { p = p; search_base = sb }) xs (measure dev s) p
          a.coherent (record { whole = g.whole; aim = g.aim }) a.bound v refl pos (ground arith))

  -- With fuel above the measure the loop returns, and its answer is right.
  pub loop-WritePost :
      (goal : ℕ → Sector) (f : ℕ) (s : Loop dev) (xs : List ℕ)
      → At dev r s xs
      → Writing dev r goal s
      → measure dev s < f
      → (reply : Reply dev) × (loop dev f r s ≡ some reply) × WritePost dev r goal reply
  loop-WritePost goal zero s xs a g lt = absurd (omega arith)
  loop-WritePost goal (suc f) s xs a g lt = elim (Bool-cases (s.num_sectors == 0)) [
    | inl done ↦
        let made : overwrite (contents s.drive r.pdrv) s.first_sector [] ≡ goal =
          subst (λ l. overwrite (contents s.drive r.pdrv) s.first_sector l ≡ goal)
            (length_zero s.buffer (g.whole ∙ (==_iff _ _).0 done)) g.aim in
        (
          record { res = res_ok; out = s.out; cache = s.cache; drive = s.drive },
          loop_done dev r f s done,
          record { blamed = inl refl; written = λ q. made; coherent = λ q. (xs, a.coherent) },
        )
    | inr more ↦
        let after = round-WriteRound goal s xs a g (ground arith) in
        elim (Round-cases dev r (round dev r s)) [
          | inl (s', e) ↦
              let (xs', a', g', lt') = subst (WriteRound dev r goal (measure dev s)) e after in
              let (reply, h, post) = loop-WritePost goal f s' xs' a' g' (omega arith) in
              (reply, loop_again dev r f s s' more e ∙ h, post)
          | inr (reply, e) ↦ (
            reply,
            loop_return dev r f s reply more e,
            subst (WriteRound dev r goal (measure dev s)) e after,
          )
        ]
  ]
