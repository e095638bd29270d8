-- ===== src/Fdrv/Polls.antt =====
-- The probe for a FlippyDrive ends on any hardware: cubeboot/source/emu/fdrv.c, lines 107 to 299.
use cubiboot.Base.{ℕ, zero, suc, ◌+◌, ◌*◌, ◌≤◌, ◌&&◌, ◌≡◌, refl, Bool-cases, inl, inr, arith, ◌==◌}
use cubiboot.Fdrv.{
  FdBus, FdCommand, Fdrv, fdrv_probe, ask_drive, boot_and_identify, identify, fdrv_inquiry,
  await_firmware, boot_firmware, is_stock_rel_date, fdrv_cmd_bounded, fdrv_wait_bounded,
  flippy_rel_date_firmware, flippy_rel_date_bootloader, fdrv_boot_attempts, dvd_flippy_bypass,
  fd_bypass_exit_magic0, fd_bypass_exit_magic1,
}
use cubiboot.Fdrv.Probe.{probe_cases}
use cubiboot.Gcode.Bus.{wait, poll_limit, gcode_rel_date}

-- A clock that counts the reads of DI_CR.
pub record PollClock (di : FdBus) : Type 0 where
  pub polls : di.Bus → ℕ
  pub prepare_free : (b : di.Bus) → polls (di.prepare b) ≤ polls b
  pub start_free : (b : di.Bus) (c : FdCommand) → polls (di.start b c) ≤ polls b
  pub settle_free : (b : di.Bus) → polls (di.settle b) ≤ polls b
  pub clear_free : (b : di.Bus) → polls (di.clear b) ≤ polls b
  pub poll_one : (b : di.Bus) → polls (di.poll b).1 ≤ polls b + 1

module _ (di : FdBus) (meter : PollClock di) where
  open di use {Bus, prepare, start, poll, settle, clear, rel_date}
  open meter use {polls, prepare_free, start_free, settle_free, clear_free, poll_one}

  wait_polls : (timeout : ℕ) (b : Bus) → polls (wait poll timeout b).1 ≤ polls b + timeout
  unfolding wait
  wait_polls zero b = omega arith
  wait_polls (suc timeout) b = elim (Bool-cases (poll b).0) [
    | inl e ↦ rw e (omega (arith, wait_polls timeout (poll b).1, poll_one b))
    | inr e ↦ rw e (omega (arith, poll_one b))
  ]

  bounded_polls : (b : Bus) → polls (fdrv_wait_bounded di b).1 ≤ polls b + 1000000
  unfolding fdrv_wait_bounded
  bounded_polls b = elim (Bool-cases (wait poll poll_limit b).0) [
    | inl e ↦ rw e (wait_polls poll_limit b)
    | inr e ↦ rw e (wait_polls poll_limit b)
  ]

  cmd_polls :
      (cmd arg0 arg1 : ℕ) (b : Bus)
      → polls (fdrv_cmd_bounded di cmd arg0 arg1 b).1 ≤ polls b + 1000000
  unfolding fdrv_cmd_bounded
  cmd_polls cmd arg0 arg1 b =
      omega (arith, bounded_polls _, start_free (prepare b) _, prepare_free b)

  inquiry_polls : (b : Bus) → polls (fdrv_inquiry di b).1 ≤ polls b + 1000000
  unfolding fdrv_inquiry
  inquiry_polls b = omega (
    arith,
    bounded_polls _,
    start_free (prepare (clear b)) _,
    prepare_free (clear b),
    clear_free b,
  )

  await_polls : (left : ℕ) (b : Bus) → polls (await_firmware di left b).1 ≤ polls b + left * 1000000
  unfolding await_firmware
  await_polls zero b = omega arith
  await_polls (suc left) b =
      let asked = fdrv_inquiry di b in
      elim (Bool-cases (asked.0 == 0 && rel_date asked.1 == flippy_rel_date_firmware)) [
        | inl e ↦ rw e (omega (arith, inquiry_polls b))
        | inr e ↦
            rw e (
              omega
                (arith, inquiry_polls b, settle_free asked.1, await_polls left (settle asked.1)))
      ]

  identify_polls : (f : Fdrv) (b : Bus) → (identify di f b).2 ≡ b
  unfolding identify
  identify_polls f b = elim (Bool-cases (rel_date b == flippy_rel_date_firmware)) [
    | inl e ↦ rw e refl
    | inr e ↦ elim (Bool-cases (is_stock_rel_date (rel_date b))) [
      | inl s ↦ rw (e, s) refl
      | inr s ↦ rw (e, s) refl
    ]
  ]

  knock_polls : (b : Bus) → polls (boot_firmware di b) ≤ polls b + 2000000
  unfolding boot_firmware
  knock_polls b = omega (arith, cmd_polls _ _ _ (fdrv_cmd_bounded di _ _ _ b).1, cmd_polls _ _ _ b)

  boot_polls : (f : Fdrv) (b : Bus) → polls (boot_and_identify di f b).2 ≤ polls b + 62000000
  unfolding boot_and_identify
  boot_polls f b =
      let waited = await_firmware di fdrv_boot_attempts (boot_firmware di b) in
      let late : polls waited.1 ≤ polls b + 62000000 =
        omega (arith, await_polls fdrv_boot_attempts (boot_firmware di b), knock_polls b) in
      elim (Bool-cases (rel_date b == flippy_rel_date_bootloader)) [
        | inl e ↦ elim (Bool-cases waited.0) [
          | inl up ↦ rw (e, up, identify_polls f waited.1) late
          | inr down ↦ rw (e, down) late
        ]
        | inr e ↦ rw (e, identify_polls f b) (omega arith)
      ]

  ask_polls : (f : Fdrv) (b : Bus) → polls (ask_drive di f b).2 ≤ polls b + 65000000
  unfolding ask_drive
  ask_polls f b =
      let asked = fdrv_inquiry di b in
      let left =
        fdrv_cmd_bounded di dvd_flippy_bypass fd_bypass_exit_magic0 fd_bypass_exit_magic1 asked.1 in
      let again = fdrv_inquiry di left.1 in
      let once : polls asked.1 ≤ polls b + 1000000 = inquiry_polls b in
      let twice : polls again.1 ≤ polls b + 3000000 =
        omega (arith, once, cmd_polls _ _ _ asked.1, inquiry_polls left.1) in
      elim (Bool-cases (asked.0 == 0)) [
        | inl r ↦ elim (Bool-cases (rel_date asked.1 == gcode_rel_date)) [
          | inl g ↦ rw (r, g) (omega arith)
          | inr g ↦ elim (Bool-cases (is_stock_rel_date (rel_date asked.1))) [
            | inl s ↦ elim (Bool-cases (again.0 == 0)) [
              | inl a ↦ rw (r, g, s, a) (omega (arith, twice, boot_polls f again.1))
              | inr a ↦ rw (r, g, s, a) (omega arith)
            ]
            | inr s ↦ rw (r, g, s) (omega (arith, once, boot_polls f asked.1))
          ]
        ]
        | inr r ↦ rw r (omega arith)
      ]

  -- A probe for a FlippyDrive reads the control register at most 65 million times, whatever hardware
  -- answers, or none.
  pub fdrv_probe_polls : (f : Fdrv) (b : Bus) → polls (fdrv_probe di f b).2 ≤ polls b + 65000000
  fdrv_probe_polls f b = elim (probe_cases di f b) [
    | inl (unknown, e) ↦ rw e (ask_polls f b)
    | inr (known, p, e) ↦ rw e (omega arith)
  ]
