-- ===== src/Emu.antt =====
-- Which storage device the program reads from: cubeboot/source/emu/flippy_emu.c, lines 22 to 167.
-- Bringing a device up, by fdrv_probe or by FatFs's f_mount, is a parameter.
pub mod Mount
pub mod Services
pub mod Files
pub mod Runs
use cubiboot.Base.{
  ℕ, zero, suc, ◌+◌, ◌-◌, Bool, true, false, not, ◌&&◌, Option, none, some, List, [], ◌∷◌, ltb,
  ◌==◌, if◌then◌else◌, get_elem?,
}

-- `device_prio`
pub data Device : Type 0 where
  fldrv gcldr sdc sdb sda ataa atab atac : Device

abbrev pub device_prio : List Device
device_prio = fldrv ∷ gcldr ∷ sdc ∷ sdb ∷ sda ∷ ataa ∷ atab ∷ atac ∷ []

-- DEVICE_FLIPPY
abbrev pub device_flippy : ℕ
device_flippy = 0

-- `num_devices`
abbrev pub num_devices : ℕ
num_devices = 8

-- `emu_sd_device`, with `none` for a negative number, `mounted`, and the hardware; `udelays` counts
-- the waits between two attempts, and `boot_updates` the calls of `emu_update_boot`.
pub record Emu (World : Type 0) : Type 0 where
  pub sd_device : Option ℕ
  pub mounted : Bool
  pub world : World
  pub udelays : ℕ
  pub boot_updates : ℕ

-- `emu_get_device`
unfoldable pub emu_get_device : Option ℕ → Option Device
emu_get_device none = none
emu_get_device (some i) = get_elem? device_prio i

-- `emu_is_native`
unfoldable pub emu_is_native : Option ℕ → Bool
emu_is_native none = false
emu_is_native (some i) = i == device_flippy

module _ {World : Type 0} (bring_up : World → ℕ → Bool × World) where
  -- The probe of the devices in order, from device `i` on with `left` to try.
  unfoldable pub probe : ℕ → ℕ → World → Option ℕ × World
  probe zero i w = (none, w)
  probe (suc left) i w =
      let (up, tried) = bring_up w i in
      let rest = probe left (i + 1) tried in if up then (some i, tried) else rest

  -- The attempts at the device that cubeboot.dol found: whether one came up, how many waits there
  -- were, and the hardware.
  unfoldable pub retry : ℕ → ℕ → ℕ → World → Bool × ℕ × World
  retry zero i waits w = (false, waits, w)
  retry (suc left) i waits w =
      let (up, tried) = bring_up w i in
      let rest = retry left i (waits + 1) tried in if up then (true, waits, tried) else rest

  -- What the answer of the probe does to the state, in cubeboot.dol and in the IPL.
  abbrev pub adopt_dol : Emu World → Option ℕ × World → Bool × Emu World
  adopt_dol s (none, w) = (false, record s { world = w })
  adopt_dol s (some i, w) = (true, record s { sd_device = some i; world = w })

  abbrev pub adopt_ipl : Emu World → Option ℕ × World → Bool × Emu World
  adopt_ipl s (none, w) = (false, record s { world = w })
  adopt_ipl s (some i, w) = (
    true,
    record s { sd_device = some i; mounted = true; world = w; boot_updates = s.boot_updates + 1 },
  )

  -- `flippy_emu_mount` of cubeboot.dol
  unfoldable pub mount_dol : Emu World → Bool × Emu World
  mount_dol s =
      let probed = adopt_dol s (probe num_devices 0 s.world) in
      elim s.sd_device [ some i ↦ (true, s) | none ↦ probed ]

  -- The last resort of the IPL: the chain is probed.
  unfoldable pub mount_chain : Emu World → Bool × Emu World
  mount_chain s = adopt_ipl s (probe num_devices 0 s.world)

  -- The IPL's wait for device `i`, 30 attempts.
  unfoldable pub mount_found : ℕ → Emu World → Bool × Emu World
  mount_found i s =
      let (up, waits, w) = retry 30 i s.udelays s.world in
      if up
      then (
        true,
        record s { mounted = true; world = w; udelays = waits; boot_updates = s.boot_updates + 1 },
      )
      else (false, record s { world = w; udelays = waits })

  -- `flippy_emu_mount` of the IPL
  unfoldable pub mount_ipl : Emu World → Bool × Emu World
  mount_ipl s =
      let chain = mount_chain s in
      let chosen = elim s.sd_device as (λ _. Bool × Emu World) [
        | none ↦ chain
        | some i ↦ if ltb i num_devices then mount_found i s else chain
      ] in
      if s.mounted then (true, s) else chosen
