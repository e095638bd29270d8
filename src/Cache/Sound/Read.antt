-- ===== src/Cache/Sound/Read.antt =====
-- A round of a read of the block cache.
use Prim.Native.Nat.{min}
use cubiboot.Base.{
  ℕ, ◌+◌, ◌-◌, ◌*◌, ◌%◌, ◌^◌, ◌<◌, ◌≤◌, Bool, true, false, List, ◌++◌, ◌≡◌, ◌≢◌, refl, sym, ap, ◌∙◌,
  ◌⊎◌, inl, inr, arith, Bool-cases, In, span, append_assoc,
}
use cubiboot.Cache.Device.{BlockDevice, res_ok}
use cubiboot.Cache.Held.Medium.{span_frame, span_add}
use cubiboot.Cache.Links.{empty_page, bases}
use cubiboot.Cache.Round.{
  Loop, Round, again, return, Reply, advance, promote_unless, hit_read, direct_read,
}
use cubiboot.Cache.Sound.Limit.{Reaches}
use cubiboot.Cache.Sound.{
  Known, Coherent, At, measure, Coherent-promote, Coherent-drive, RefusedRead,
}
use cubiboot.Cache.State.{Request, lba_mod, is_ok, is_ok→eq, page_of}

module _ {Sector : Type 0} (dev : BlockDevice Sector) (r : Request) where
  open dev use {Drive, contents, read_raw, read_gives, read_keeps}

  -- The sectors that the request asks for, of a medium.
  abbrev pub asked : (ℕ → ℕ → Sector) → List Sector
  asked m = span (m r.pdrv) r.orig_first r.orig_count

  -- What a read has delivered, with what it has still to deliver, is what it was asked for, and
  -- the medium is as it was.
  pub record Reading (m : ℕ → ℕ → Sector) (s : Loop dev) : Type 0 where
    pub kept : contents s.drive ≡ m
    pub aim : s.out ++ span (m r.pdrv) s.first_sector s.num_sectors ≡ asked m

  -- What a read leaves when it returns.
  pub record ReadPost (m : ℕ → ℕ → Sector) (reply : Reply dev) : Type 0 where
    pub kept : contents reply.drive ≡ m
    pub order : List ℕ
    pub coherent : Coherent dev r.pages r.pdrv reply.cache reply.drive order
    pub delivered : reply.res ≡ res_ok → reply.out ≡ asked m
    pub blamed : (is_ok reply.res ≡ true) ⊎ RefusedRead dev r.pdrv reply

  -- What one round from a loop state of measure `n` leaves.
  abbrev pub ReadRound : (ℕ → ℕ → Sector) → ℕ → Round dev → Type 0
  ReadRound m n (again s') = (xs' : List ℕ) × At dev r s' xs' × Reading m s' × (measure dev s' < n)
  ReadRound m n (return reply) = ReadPost m reply

  measure_le : (s : Loop dev) → measure dev s ≤ 2 * s.num_sectors + 1
  measure_le s = ground arith

  -- Going on by `cur` sectors.
  step_on :
      (m : ℕ → ℕ → Sector) (s : Loop dev) (xs : List ℕ) (cur n : ℕ)
      → Coherent dev r.pages r.pdrv s.cache s.drive xs
      → contents s.drive ≡ m
      → s.first_sector + s.num_sectors ≤ 2 ^ 32
      → 0 < cur
      → cur ≤ s.num_sectors
      → s.out ++ span (m r.pdrv) (s.first_sector + cur) (s.num_sectors - cur) ≡ asked m
      → (0 < s.num_sectors - cur
          → Known
              (bases s.cache.links.entries)
              xs
              (page_of (s.first_sector + cur))
              s.p
              s.search_base)
      → 2 * s.num_sectors ≤ n
      → ReadRound m n (again (advance dev s cur))
  step_on m s xs cur n c kept bound pos le aim known fuel = (
    xs,
    record { coherent = c; bound = omega arith; known = λ h. rw wrap (known h) },
    record { kept = kept; aim = rw wrap aim },
    omega (arith, measure_le (advance dev s cur)),
  )
    where
      wrap : (s.first_sector + cur) % lba_mod ≡ s.first_sector + cur
      wrap = omega arith

  -- Delivering the next `cur` sectors keeps the aim.
  deliver :
      (m : ℕ → ℕ → Sector) (s : Loop dev) (cur : ℕ) (got : List Sector)
      → Reading m s
      → cur ≤ s.num_sectors
      → got ≡ span (m r.pdrv) s.first_sector cur
      → (s.out ++ got) ++ span (m r.pdrv) (s.first_sector + cur) (s.num_sectors - cur) ≡ asked m
  deliver m s cur got g le e =
      append_assoc s.out got _
      ∙ ap (λ l. s.out ++ (l ++ span (m r.pdrv) (s.first_sector + cur) (s.num_sectors - cur))) e
      ∙ ap (λ l. s.out ++ l)
          (sym (
            span_add (m r.pdrv) s.first_sector cur (s.num_sectors - cur) (s.first_sector + cur)
              refl))
      ∙ ap (λ k. s.out ++ span (m r.pdrv) s.first_sector k) (omega arith)
      ∙ g.aim

  copied_aim :
      (m : ℕ → ℕ → Sector) (s : Loop dev) (xs : List ℕ) (i off cur : ℕ)
      → Coherent dev r.pages r.pdrv s.cache s.drive xs
      → Reading m s
      → In i xs
      → bases s.cache.links.entries i ≡ page_of s.first_sector
      → off ≡ s.first_sector % 4
      → cur ≤ 4 - off
      → (cur ≤ s.num_sectors) × (bases s.cache.links.entries i ≢ empty_page)
      → (s.out ++ span (s.cache.pages_data i) off cur)
          ++ span (m r.pdrv) (s.first_sector + cur) (s.num_sectors - cur)
        ≡ asked m
  copied_aim m s xs i off cur c g k at eo room le =
      deliver m s cur (span (s.cache.pages_data i) off cur) g le.0 (
        span_frame (s.cache.pages_data i) (m r.pdrv) off s.first_sector cur λ o lt.
          c.held.copies i k le.1 (off + o) (omega arith)
          ∙ ap (λ f. f r.pdrv (bases s.cache.links.entries i + (off + o))) g.kept
          ∙ ap (m r.pdrv) (omega arith))

  -- A copy from a page, for entry `i` that holds the page of the next sector.
  pub hit_read-ReadRound :
      (m : ℕ → ℕ → Sector) (s : Loop dev) (xs : List ℕ) (i off cur n : ℕ) (is_whole : Bool)
      → Coherent dev r.pages r.pdrv s.cache s.drive xs
      → Reading m s
      → s.first_sector + s.num_sectors ≤ 2 ^ 32
      → In i xs
      → bases s.cache.links.entries i ≡ page_of s.first_sector
      → s.search_base ≡ page_of s.first_sector + 1
      → off ≡ s.first_sector % 4
      → cur ≡ min s.num_sectors (4 - off)
      → 0 < s.num_sectors
      → 2 * s.num_sectors ≤ n
      → ReadRound m n (hit_read dev s i off cur is_whole)
  unfolding hit_read
  hit_read-ReadRound m s xs i off cur n true c g bound k at sb eo ec pos fuel =
      step_on m copied xs cur n c g.kept bound (omega arith) (omega arith)
        (copied_aim m s xs i off cur c g k at eo (omega arith) (omega arith))
        (λ h. inl (omega arith)) fuel
    where
      copied : Loop dev
      copied = record s { out = s.out ++ span (s.cache.pages_data i) off cur }
  hit_read-ReadRound m s xs i off cur n false c g bound k at sb eo ec pos fuel =
      let (xs', c') = Coherent-promote dev r.pages r.pdrv s.cache s.drive xs i c k (omega arith) in
      step_on m (promote_unless dev false copied i) xs' cur n c' g.kept bound (omega arith)
        (omega arith) (copied_aim m s xs i off cur c g k at eo (omega arith) (omega arith))
        (λ h. inl (omega arith)) fuel
    where
      copied : Loop dev
      copied = record s { out = s.out ++ span (s.cache.pages_data i) off cur }

  -- A transfer straight from the device.
  pub direct_read-ReadRound :
      (m : ℕ → ℕ → Sector) (s : Loop dev) (xs : List ℕ) (cur n : ℕ)
      → Coherent dev r.pages r.pdrv s.cache s.drive xs
      → Reading m s
      → s.first_sector + s.num_sectors ≤ 2 ^ 32
      → Reaches (bases s.cache.links.entries) xs s.first_sector s.num_sectors s.p s.search_base cur
      → 2 * s.num_sectors ≤ n
      → ReadRound m n (direct_read dev r.pdrv s cur)
  unfolding direct_read
  direct_read-ReadRound m s xs cur n c g bound reach fuel =
      elim (Bool-cases (is_ok (read_raw s.drive r.pdrv s.first_sector cur).0)) [
        | inl done ↦ rw done (
            step_on m moved xs cur n c' kept bound reach.forward reach.within
              (deliver m s cur (read_raw s.drive r.pdrv s.first_sector cur).1 g reach.within
                (gave done))
              reach.known fuel)
        | inr bad ↦ rw bad (record {
          kept = kept;
          order = xs;
          coherent = c';
          delivered = λ e. absurd (ground arith);
          blamed = inr (record {
            before = s.drive;
            sector = s.first_sector;
            count = cur;
            refused = bad;
            answer = refl;
            left = refl;
          });
        })
      ]
    where
      kept : contents (read_raw s.drive r.pdrv s.first_sector cur).2 ≡ m
      kept = read_keeps s.drive r.pdrv s.first_sector cur ∙ g.kept

      c' : Coherent dev r.pages r.pdrv s.cache (read_raw s.drive r.pdrv s.first_sector cur).2 xs
      c' =
          Coherent-drive dev r.pages r.pdrv s.cache s.drive
            (read_raw s.drive r.pdrv s.first_sector cur).2 xs c (kept ∙ sym g.kept)

      gave :
          is_ok (read_raw s.drive r.pdrv s.first_sector cur).0 ≡ true
          → (read_raw s.drive r.pdrv s.first_sector cur).1 ≡ span (m r.pdrv) s.first_sector cur
      gave e =
          read_gives s.drive r.pdrv s.first_sector cur (let w = reach.within in omega arith)
            (is_ok→eq _ e)
          ∙ ap (λ f. span (f r.pdrv) s.first_sector cur) g.kept

      moved : Loop dev
      moved = record s {
        out = s.out ++ (read_raw s.drive r.pdrv s.first_sector cur).1;
        drive = (read_raw s.drive r.pdrv s.first_sector cur).2;
      }
