-- ===== src/Cache/Sound/Write.antt =====
-- A round of a write of the block cache.
use cubiboot.Base.{
  ℕ, ◌+◌, ◌-◌, ◌*◌, ◌%◌, ◌^◌, ◌<◌, ◌≤◌, true, List, ◌≡◌, sym, ap, ◌∙◌, ◌⊎◌, inl, inr, arith,
  Bool-cases, length, subst, take, drop, take-append-drop, length-take_of_le, length-drop,
}
use cubiboot.Cache.Device.{BlockDevice, res_ok, overwrite}
use cubiboot.Cache.Held.{Held, Held-beside}
use cubiboot.Cache.Held.Medium.{overwrite-append}
use cubiboot.Cache.Links.{bases}
use cubiboot.Cache.Round.{Loop, Round, again, return, Reply, advance, direct_write}
use cubiboot.Cache.Sound.Limit.{Reaches}
use cubiboot.Cache.Sound.{Known, Coherent, At, measure, RefusedWrite}
use cubiboot.Cache.State.{Request, lba_mod, is_ok, is_ok→eq, page_of}

module _ {Sector : Type 0} (dev : BlockDevice Sector) (r : Request) where
  open dev use {Drive, contents, write_raw, write_sets}

  -- What is still to write over the medium makes it the medium `goal`.
  pub record Writing (goal : ℕ → Sector) (s : Loop dev) : Type 0 where
    pub whole : length s.buffer ≡ s.num_sectors
    pub aim : overwrite (contents s.drive r.pdrv) s.first_sector s.buffer ≡ goal

  -- What a write that succeeds leaves.
  pub record WritePost (goal : ℕ → Sector) (reply : Reply dev) : Type 0 where
    pub written : reply.res ≡ res_ok → contents reply.drive r.pdrv ≡ goal
    pub blamed : (is_ok reply.res ≡ true) ⊎ RefusedWrite dev
    pub coherent :
        reply.res ≡ res_ok → (xs : List ℕ) × Coherent dev r.pages r.pdrv reply.cache reply.drive xs

  -- What one round from a loop state of measure `n` leaves.
  abbrev pub WriteRound : (ℕ → Sector) → ℕ → Round dev → Type 0
  WriteRound goal n (again s') =
      (xs' : List ℕ) × At dev r s' xs' × Writing goal s' × (measure dev s' < n)
  WriteRound goal n (return reply) = WritePost goal reply

  measure_le : (s : Loop dev) → measure dev s ≤ 2 * s.num_sectors + 1
  measure_le s = ground arith

  -- Going on by `cur` sectors, from a loop state `s'` in which they are written.
  pub step_on :
      (goal : ℕ → Sector) (s : Loop dev) (xs : List ℕ) (cur n : ℕ)
      → Coherent dev r.pages r.pdrv s.cache s.drive xs
      → s.first_sector + s.num_sectors ≤ 2 ^ 32
      → 0 < cur
      → cur ≤ s.num_sectors
      → length s.buffer ≡ s.num_sectors
      → overwrite (contents s.drive r.pdrv) (s.first_sector + cur) (drop cur s.buffer) ≡ goal
      → (0 < s.num_sectors - cur
          → Known
              (bases s.cache.links.entries)
              xs
              (page_of (s.first_sector + cur))
              s.p
              s.search_base)
      → 2 * s.num_sectors ≤ n
      → WriteRound goal n (again (advance dev s cur))
  step_on goal s xs cur n c bound pos le whole aim known fuel = (
    xs,
    record { coherent = c; bound = omega arith; known = λ h. rw wrap (known h) },
    record { whole = omega (arith, length-drop cur s.buffer); aim = rw wrap aim },
    omega (arith, measure_le (advance dev s cur)),
  )
    where
      wrap : (s.first_sector + cur) % lba_mod ≡ s.first_sector + cur
      wrap = omega arith

  -- Once the next `cur` sectors are written, the rest makes the goal.
  pub forwarded :
      (goal : ℕ → Sector) (s : Loop dev) (cur : ℕ) (m : ℕ → Sector)
      → Writing goal s
      → cur ≤ s.num_sectors
      → m ≡ overwrite (contents s.drive r.pdrv) s.first_sector (take cur s.buffer)
      → overwrite m (s.first_sector + cur) (drop cur s.buffer) ≡ goal
  forwarded goal s cur m g le e =
      let whole = g.whole in
      ap (λ f. overwrite f (s.first_sector + cur) (drop cur s.buffer)) e
      ∙ overwrite-append (contents s.drive r.pdrv) s.first_sector (take cur s.buffer)
          (drop cur s.buffer) (s.first_sector + cur) (omega (arith, length-take_of_le cur s.buffer))
      ∙ ap (overwrite (contents s.drive r.pdrv) s.first_sector) (take-append-drop cur s.buffer)
      ∙ g.aim

  -- The medium after a raw write that succeeds.
  pub raw_written :
      (goal : ℕ → Sector) (s : Loop dev) (cur : ℕ)
      → Writing goal s
      → s.first_sector + s.num_sectors ≤ 2 ^ 32
      → cur ≤ s.num_sectors
      → is_ok (write_raw s.drive r.pdrv (take cur s.buffer) s.first_sector cur).0 ≡ true
      → contents (write_raw s.drive r.pdrv (take cur s.buffer) s.first_sector cur).1 r.pdrv
        ≡ overwrite (contents s.drive r.pdrv) s.first_sector (take cur s.buffer)
  raw_written goal s cur g bound le e =
      let whole = g.whole in
      write_sets s.drive r.pdrv (take cur s.buffer) s.first_sector cur (omega arith)
        (length-take_of_le cur s.buffer (omega arith)) (is_ok→eq _ e)

  abbrev wrote : Loop dev → ℕ → Loop dev
  wrote s cur = record s {
    drive = (write_raw s.drive r.pdrv (take cur s.buffer) s.first_sector cur).1;
  }

  -- A transfer straight to the device.
  pub direct_write-WriteRound :
      (goal : ℕ → Sector) (s : Loop dev) (xs : List ℕ) (cur n : ℕ)
      → Coherent dev r.pages r.pdrv s.cache s.drive xs
      → Writing goal s
      → s.first_sector + s.num_sectors ≤ 2 ^ 32
      → Reaches (bases s.cache.links.entries) xs s.first_sector s.num_sectors s.p s.search_base cur
      → 2 * s.num_sectors ≤ n
      → WriteRound goal n (direct_write dev r.pdrv s cur)
  unfolding direct_write
  direct_write-WriteRound goal s xs cur n c g bound reach fuel =
      elim (Bool-cases
        (is_ok (write_raw s.drive r.pdrv (take cur s.buffer) s.first_sector cur).0)) [
          | inl done ↦ rw done (
              step_on goal (wrote s cur) xs cur n (c' done) bound reach.forward reach.within g.whole
                (forwarded goal s cur _ g reach.within
                  (raw_written goal s cur g bound reach.within done))
                reach.known fuel)
          | inr bad ↦ rw bad (record {
            written = λ e. absurd (ground arith);
            coherent = λ e. absurd (ground arith);
            blamed = inr (record {
              before = s.drive;
              unit = r.pdrv;
              buffer = take cur s.buffer;
              sector = s.first_sector;
              count = cur;
              refused = bad;
            });
          })
        ]
    where
      c' :
          is_ok (write_raw s.drive r.pdrv (take cur s.buffer) s.first_sector cur).0 ≡ true
          → Coherent dev r.pages r.pdrv s.cache (wrote s cur).drive xs
      c' done = record {
        ordered = c.ordered;
        bounded = c.bounded;
        inhabited = c.inhabited;
        owner = c.owner;
        enabled = c.enabled;
        held =
            (let whole = g.whole in
              let before = reach.before in
              let within = reach.within in
              let long = length-take_of_le cur s.buffer (omega arith) in
              subst (λ m. Held (bases s.cache.links.entries) s.cache.pages_data m xs)
                (sym (raw_written goal s cur g bound reach.within done))
                (Held-beside _ _ _ xs (page_of s.first_sector) s.first_sector (take cur s.buffer)
                  reach.lim c.held reach.clear (omega arith) (omega arith) (omega arith)));
      }
