-- ===== src/Fdrv/Probe.antt =====
-- What the probe for a FlippyDrive finds out: fdrv_probe of cubeboot/source/emu/fdrv.c, lines 209 to 307.
use cubiboot.Base.{
  Bool, true, false, none, some, ◌≡◌, refl, sym, subst, ap, ℕ, zero, suc, Bool-cases, Option-cases,
  ◌⊎◌, inl, inr, ◌==◌, ==_iff,
}
use cubiboot.Fdrv.{
  FdBus, Fdrv, fdrv_probe, ask_drive, boot_and_identify, identify, fdrv_inquiry, await_firmware,
  boot_firmware, is_stock_rel_date, fdrv_present, fdrv_cmd_bounded, flippy_rel_date_firmware,
  flippy_rel_date_bootloader, fdrv_boot_attempts, dvd_flippy_bypass, fd_bypass_exit_magic0,
  fd_bypass_exit_magic1,
}
use cubiboot.Gcode.Bus.{gcode_rel_date}

module _ (di : FdBus) where
  open di use {Bus, rel_date, fw_ver, settle}

  -- An inquiry that the drive has answered, and what it leaves.
  abbrev pub Answered : Bus → Bus → Type 0
  Answered asked b = fdrv_inquiry di asked ≡ (0, b)

  -- The knocks that end the bypass mode, behind a first inquiry.
  abbrev pub bypass_left : Bus → Bus
  bypass_left start =
      (fdrv_cmd_bounded di dvd_flippy_bypass fd_bypass_exit_magic0 fd_bypass_exit_magic1
        (fdrv_inquiry di start).1).1

  -- What a probe that starts by asking the drive leaves. An inquiry has been answered with the date of
  -- the firmware, and the client has its version; or the first inquiry with the date of a GCLoader; or
  -- the inquiry behind the end of the bypass mode with that of a stock drive; or the question is left
  -- open.
  pub data Verdict : Bus → Fdrv → Bool × Fdrv × Bus → Type 0 where
    found :
        (start : Bus) (f : Fdrv) (asked b : Bus)
        → Answered asked b
        → rel_date b ≡ flippy_rel_date_firmware
        → Verdict start f (true, record { has_fdrv = some true; fdrv_fw_ver = fw_ver b }, b)
    loader :
        (start : Bus) (f : Fdrv) (b : Bus)
        → Answered start b
        → rel_date b ≡ gcode_rel_date
        → Verdict start f (false, record { has_fdrv = some false; fdrv_fw_ver = f.fdrv_fw_ver }, b)
    stock :
        (start : Bus) (f : Fdrv) (b : Bus)
        → Answered (bypass_left start) b
        → is_stock_rel_date (rel_date b) ≡ true
        → Verdict start f (false, record { has_fdrv = some false; fdrv_fw_ver = f.fdrv_fw_ver }, b)
    open_still : (start : Bus) (f : Fdrv) (b : Bus) → Verdict start f (false, f, b)

  answered_lem : (b : Bus) → ((fdrv_inquiry di b).0 == 0) ≡ true → Answered b (fdrv_inquiry di b).1
  answered_lem b r = ap (λ ret. (ret, (fdrv_inquiry di b).1)) ((==_iff _ _).0 r)

  -- The firmware has come up by an answer with its date.
  came_up :
      (left : ℕ) (b : Bus)
      → (await_firmware di left b).0 ≡ true
      → (asked : Bus) × Answered asked (await_firmware di left b).1
        × (rel_date (await_firmware di left b).1 ≡ flippy_rel_date_firmware)
  unfolding await_firmware
  came_up zero b up = cc up
  came_up (suc left) b up =
      let asked = fdrv_inquiry di b in
      elim (Bool-cases (asked.0 == 0)) [
        | inl r ↦ elim (Bool-cases (rel_date asked.1 == flippy_rel_date_firmware)) [
          | inl e ↦ rw (r, e) (b, answered_lem b r, (==_iff _ _).0 e)
          | inr e ↦ rw (r, e) (came_up left (settle asked.1) (rw (r, e) at up))
        ]
        | inr r ↦ rw r (came_up left (settle asked.1) (rw r at up))
      ]

  -- The last test, of an answer that is of the firmware, or not of a stock drive unless it stands
  -- behind the end of the bypass mode.
  identify-Verdict :
      (start : Bus) (f : Fdrv) (asked b : Bus)
      → Answered asked b
      → (is_stock_rel_date (rel_date b) ≡ true → Answered (bypass_left start) b)
      → Verdict start f (identify di f b)
  unfolding identify
  identify-Verdict start f asked b a late =
      elim (Bool-cases (rel_date b == flippy_rel_date_firmware)) [
        | inl e ↦ rw e (found start f asked b a ((==_iff _ _).0 e))
        | inr e ↦ elim (Bool-cases (is_stock_rel_date (rel_date b))) [
          | inl s ↦ rw (e, s) (stock start f b (late s) s)
          | inr s ↦ rw (e, s) (open_still start f b)
        ]
      ]

  boot-Verdict :
      (start : Bus) (f : Fdrv) (asked b : Bus)
      → Answered asked b
      → (is_stock_rel_date (rel_date b) ≡ true → Answered (bypass_left start) b)
      → Verdict start f (boot_and_identify di f b)
  unfolding boot_and_identify identify
  boot-Verdict start f asked b a late =
      let waited = await_firmware di fdrv_boot_attempts (boot_firmware di b) in
      elim (Bool-cases (rel_date b == flippy_rel_date_bootloader)) [
        | inl e ↦ elim (Bool-cases waited.0) [
          | inl up ↦
              (let (last, answered, date) = came_up fdrv_boot_attempts (boot_firmware di b) up in
                let same = (==_iff _ _).1 date in
                rw (e, up, same) (found start f last waited.1 answered date))
          | inr down ↦ rw (e, down) (open_still start f _)
        ]
        | inr e ↦ rw e (identify-Verdict start f asked b a late)
      ]

  ask_drive-Verdict : (f : Fdrv) (b : Bus) → Verdict b f (ask_drive di f b)
  unfolding ask_drive
  ask_drive-Verdict f b =
      let asked = fdrv_inquiry di b in
      let again = fdrv_inquiry di (bypass_left b) in
      elim (Bool-cases (asked.0 == 0)) [
        | inl r ↦ elim (Bool-cases (rel_date asked.1 == gcode_rel_date)) [
          | inl g ↦ rw (r, g) (loader b f asked.1 (answered_lem b r) ((==_iff _ _).0 g))
          | inr g ↦ elim (Bool-cases (is_stock_rel_date (rel_date asked.1))) [
            | inl s ↦ elim (Bool-cases (again.0 == 0)) [
              | inl a ↦
                  (let answer = answered_lem (bypass_left b) a in
                    rw (r, g, s, a) (boot-Verdict b f (bypass_left b) again.1 answer (λ e. answer)))
              | inr a ↦ rw (r, g, s, a) (open_still b f again.1)
            ]
            | inr s ↦
                rw (r, g, s) (boot-Verdict b f b asked.1 (answered_lem b r) (λ e. absurd (cc e)))
          ]
        ]
        | inr r ↦ rw r (open_still b f asked.1)
      ]

  firmware_at_once :
      (f : Fdrv) (b c : Bus)
      → Answered b c
      → rel_date c ≡ flippy_rel_date_firmware
      → ask_drive di f b ≡ (true, record { has_fdrv = some true; fdrv_fw_ver = fw_ver c }, c)
  unfolding ask_drive boot_and_identify identify is_stock_rel_date
  firmware_at_once f b c a date = rw (ask_drive, a, date) refl

  loader_at_once :
      (f : Fdrv) (b c : Bus)
      → Answered b c
      → rel_date c ≡ gcode_rel_date
      → ask_drive di f b ≡ (false, record { has_fdrv = some false; fdrv_fw_ver = f.fdrv_fw_ver }, c)
  unfolding ask_drive
  loader_at_once f b c a date = rw (ask_drive, a, date) refl

  -- A probe that asks the drive holds it for a FlippyDrive only if an inquiry was answered with the
  -- date of the firmware, and takes the version that goes with it. It rules a FlippyDrive out only if
  -- the first inquiry was answered with the date of a GCLoader, or an inquiry behind the end of the
  -- bypass mode with that of a stock drive. In all other cases, an inquiry without an answer among
  -- them, the client stays as it was, and a later probe asks again. When the first inquiry is answered
  -- with the date of the firmware, or of a GCLoader, the probe comes to that verdict at once.
  pub ask_drive_lem :
      (f : Fdrv) (b : Bus)
      → Verdict b f (ask_drive di f b)
        × ((c : Bus)
            → Answered b c
            → rel_date c ≡ flippy_rel_date_firmware
            → ask_drive di f b ≡ (true, record { has_fdrv = some true; fdrv_fw_ver = fw_ver c }, c))
        × ((c : Bus)
            → Answered b c
            → rel_date c ≡ gcode_rel_date
            → ask_drive di f b
              ≡ (false, record { has_fdrv = some false; fdrv_fw_ver = f.fdrv_fw_ver }, c))
  ask_drive_lem f b = (ask_drive-Verdict f b, firmware_at_once f b, loader_at_once f b)

  -- What holds of the answer of a probe, whatever was known.
  abbrev Settled : Bool × Fdrv × Bus → Type 0
  Settled o =
      (fdrv_present o.1 ≡ o.0)
      × (((o.0 ≡ false) × (o.1.has_fdrv ≡ none)) ⊎ (fdrv_probe di o.1 o.2 ≡ o))

  Verdict-Settled :
      (b : Bus) (f : Fdrv) (o : Bool × Fdrv × Bus) → f.has_fdrv ≡ none → Verdict b f o → Settled o
  unfolding fdrv_probe fdrv_present
  Verdict-Settled b f _ unknown (found _ _ _ _ a e) = (refl, inr refl)
  Verdict-Settled b f _ unknown (loader _ _ _ a e) = (refl, inr refl)
  Verdict-Settled b f _ unknown (stock _ _ _ a e) = (refl, inr refl)
  Verdict-Settled b f _ unknown (open_still _ _ _) = (rw unknown refl, inl (refl, unknown))

  -- Either nothing is known and the drive is asked, or the answer is there.
  pub probe_cases :
      (f : Fdrv) (b : Bus)
      → ((f.has_fdrv ≡ none) × (fdrv_probe di f b ≡ ask_drive di f b))
        ⊎ ((known : Bool) × (fdrv_present f ≡ known) × (fdrv_probe di f b ≡ (known, f, b)))
  unfolding fdrv_probe fdrv_present
  probe_cases f b = elim (Option-cases f.has_fdrv) [
    | inl e ↦ rw e (inl (refl, refl))
    | inr (known, e) ↦ rw e (inr (known, refl, refl))
  ]

  -- After a probe, `fdrv_present` says what the probe answered. Either the probe failed and the
  -- question is left open, or the answer stands: a second probe gives it without a command to the
  -- drive.
  pub fdrv_probe_again : (f : Fdrv) (b : Bus) → Settled (fdrv_probe di f b)
  fdrv_probe_again f b = elim (probe_cases f b) [
    | inl (unknown, e) ↦
        subst Settled (sym e)
          (Verdict-Settled b f (ask_drive di f b) unknown (ask_drive-Verdict f b))
    | inr (known, p, e) ↦ subst Settled (sym e) (p, inr e)
  ]
