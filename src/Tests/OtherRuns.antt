-- ===== src/Tests/OtherRuns.antt =====
-- The disk functions, the GCLoader, the storage devices, the banners and DOLs.
use cubiboot.Base.{
  ℕ, zero, suc, ◌+◌, ◌*◌, ◌/◌, ◌<◌, Bool, true, false, Option, none, some, List, [], ◌≡◌, refl, ◌⊎◌,
  span, length-span, arith, ◌==◌, if◌then◌else◌, ap,
}
use cubiboot.Banners.{BnrCache, bnr_cache_get, bnr_cache_put, bnr_size, find, offset_of}
use cubiboot.Banners.Lookup.{WellFormed, bnr_cache_put-get, bnr_cache_put_other}
use cubiboot.Emu.{Emu, num_devices, mount_dol, mount_ipl}
use cubiboot.Emu.Mount.{Refused, mount_dol_lem, mount_ipl_only}
use cubiboot.Gcode.{gcode_sd_read}
use cubiboot.Gcode.Bus.{DiBus, DiCommand, wait, gcode_rel_date, gcode_sector_size, read_command}
use cubiboot.Gcode.Read.{gcode_sd_read_lem}

-- A GCLoader that answers at once.
pub record FastBus : Type 0 where
  pub disc : ℕ → ℕ
  pub memory : List ℕ

abbrev fast_start : FastBus → DiCommand → FastBus
fast_start b c = record b { memory = span b.disc c.cmdbuf1 (c.length / gcode_sector_size) }

fast_lands :
    (b : FastBus) (sector n timeout : ℕ)
    → (wait
        (λ (x : FastBus). (false, x))
        timeout
        (fast_start b (read_command sector (n * gcode_sector_size)))).1.memory
      ≡ span b.disc sector n
unfolding wait
fast_lands b sector n zero = ap (span b.disc sector) (omega arith)
fast_lands b sector n (suc timeout) = ap (span b.disc sector) (omega arith)

abbrev fast_bus : DiBus ℕ
fast_bus = record {
  Bus = FastBus;
  medium = λ b. b.disc;
  prepare = λ b. b;
  start = fast_start;
  poll = λ b. (false, b);
  settle = λ b. b;
  device_error = λ b. false;
  landed = λ b. b.memory;
  rel_date = λ b. gcode_rel_date;
  prepare_keeps = λ b. refl;
  start_keeps = λ b c. refl;
  poll_keeps = λ b. refl;
  settle_keeps = λ b. refl;
  read_lands = λ b sector n timeout e f. fast_lands b sector n timeout;
}

abbrev disc_in : FastBus
disc_in = record { disc = λ s. s + 1000; memory = [] }

gcode_sd_read_example :
    (ok : Bool) × (got : List ℕ) × (has_gcode' : Option Bool) × (b' : FastBus) × (gcode_sd_read
        fast_bus true 5 200 none disc_in
      ≡ some (ok, got, has_gcode', b'))
    × (b'.disc ≡ disc_in.disc)
    × ((ok ≡ false) ⊎ ((ok ≡ true) × (got ≡ span disc_in.disc 5 200)))
gcode_sd_read_example =
    gcode_sd_read_lem fast_bus true 5 200 none disc_in (omega arith) (omega arith)

-- Hardware on which device 2 comes up, and no other.
abbrev only_sdc : ℕ → ℕ → Bool × ℕ
only_sdc w i = (i == 2, w + 1)

-- Hardware on which every device but the second comes up.
abbrev most_up : ℕ → ℕ → Bool × ℕ
most_up w i = (if i == 1 then false else true, w + 1)

abbrev start_emu : Emu ℕ
start_emu = record { sd_device = none; mounted = false; world = 0; udelays = 0; boot_updates = 0 }

abbrev found_emu : Emu ℕ
found_emu = record { sd_device = some 2; mounted = false; world = 0; udelays = 0; boot_updates = 0 }

mount_dol_example :
    ((k : ℕ) × (w' : ℕ) × (k < num_devices)
      × Refused only_sdc 0 k 0 w'
      × ((only_sdc w' k).0 ≡ true)
      × (mount_dol only_sdc start_emu
          ≡ (true, record start_emu { sd_device = some k; world = (only_sdc w' k).1 })))
    ⊎ ((w' : ℕ) × Refused only_sdc 0 num_devices 0 w'
        × (mount_dol only_sdc start_emu ≡ (false, record start_emu { world = w' })))
mount_dol_example = mount_dol_lem only_sdc start_emu refl

mount_ipl_only_example : mount_ipl most_up found_emu ≡ mount_ipl only_sdc found_emu
mount_ipl_only_example = mount_ipl_only only_sdc most_up 2 found_emu (omega arith) refl (λ w. refl)

-- An empty cache of banners, and a banner.
abbrev empty_banners : BnrCache
empty_banners = record {
  entries = λ i. record { key = 0; aram_offset = 0; valid = false };
  next_index = 0;
  aram = λ a. 0;
}

empty-WellFormed : WellFormed empty_banners
empty-WellFormed = record { next = omega arith; placed = λ i lt v. absurd (ground arith) }

abbrev banner : List ℕ
banner = span (λ k. k) 0 bnr_size

bnr_cache_put-get_example : bnr_cache_get 77 (bnr_cache_put 77 banner empty_banners) ≡ some banner
bnr_cache_put-get_example =
    bnr_cache_put-get 77 banner empty_banners empty-WellFormed
      (length-span (λ (k : ℕ). k) 0 bnr_size) (λ i lt. refl)

-- A cache with a banner in entry 0, and the turn of entry 1.
abbrev one_banner : BnrCache
one_banner = record {
  entries = λ i.
      if i == 0
      then record { key = 5; aram_offset = offset_of 0; valid = true }
      else record { key = 0; aram_offset = 0; valid = false };
  next_index = 1;
  aram = λ a. a;
}

one-WellFormed : WellFormed one_banner
one-WellFormed = record { next = omega arith; placed = λ i lt v. ground arith }

bnr_cache_put_other_example :
    bnr_cache_get 5 (bnr_cache_put 77 banner one_banner) ≡ bnr_cache_get 5 one_banner
unfolding find
bnr_cache_put_other_example =
    bnr_cache_put_other 77 5 banner one_banner 0 one-WellFormed
      (length-span (λ (k : ℕ). k) 0 bnr_size) refl (λ e. absurd (omega arith))
      (λ e. absurd (omega arith))
