-- ===== src/Gcode.antt =====
-- The GCLoader driver: cubeboot/source/emu/gcode.c. Commands go to the disc interface of `Gcode.Bus`,
-- and a buffer is the list of the sectors that reached it.
pub mod Bus
pub mod Init
pub mod Read
use cubiboot.Base.{
  ℕ, zero, suc, ◌+◌, ◌-◌, ◌*◌, ◌/◌, ◌%◌, ◌^◌, Bool, true, false, not, ◌&&◌, ◌||◌, Option, none,
  some, List, [], ◌∷◌, ◌++◌, ltb, ◌==◌, if◌then◌else◌,
}
use Bus.{
  DiCommand, DiBus, read_command, inquiry_command, wait, dvd_oem_inquiry, dvd_gcode_read,
  gcode_rel_date, gcode_sector_size, gcode_max_xfer, drvinfo_size, poll_limit,
}

-- GCODE_INIT_ATTEMPTS
abbrev pub init_attempts : ℕ
init_attempts = 40

-- The chunk of a round: the bytes are a product of 32-bit numbers.
abbrev pub chunk_of : ℕ → ℕ
chunk_of count =
    if ltb gcode_max_xfer (count * gcode_sector_size % 2 ^ 32)
    then gcode_max_xfer / gcode_sector_size
    else count

module _ {Sector : Type 0} (di : DiBus Sector) where
  open di use {Bus, prepare, start, poll, settle, device_error, landed, rel_date}

  -- The inquiry of one attempt: whether it ended in time, and the bus behind it.
  unfoldable pub inquire : Bus → Bool × Bus
  inquire b = wait poll poll_limit (start (prepare b) inquiry_command)

  -- A valid answer: no device error, and the release date.
  abbrev pub is_gcloader : Bus → Bool
  is_gcloader b = not (device_error b) && rel_date b == gcode_rel_date

  -- The attempts of `gcode_sd_init`, with `has_gcode` as it leaves it, which is also its answer.
  unfoldable pub attempts : ℕ → Bus → Bool × Bus
  attempts zero b = (false, b)
  attempts (suc n) b =
      let (in_time, answered) = inquire b in
      let later = attempts n (settle answered) in
      if not in_time
      then (false, answered)
      else if is_gcloader answered
      then (true, answered)
      else later

  -- `gcode_sd_init`: its answer, `has_gcode` (`none` for -1), and the bus.
  unfoldable pub gcode_sd_init : Option Bool → Bus → Bool × Option Bool × Bus
  gcode_sd_init (some known) b = (known, some known, b)
  gcode_sd_init none b =
      let (present, tried) = attempts init_attempts b in (present, some present, tried)

  -- `gcode_read_aligned`, of `bytes` bytes.
  unfoldable pub gcode_read_aligned : ℕ → ℕ → Bus → Bool × List Sector × Bus
  gcode_read_aligned sector bytes b =
      let (in_time, done) = wait poll poll_limit (start (prepare b) (read_command sector bytes)) in
      if not in_time
      then (false, landed done, done)
      else (not (device_error done), landed done, done)

  -- `while (count > 0)` of the aligned path, on fuel.
  unfoldable pub read_chunks : ℕ → ℕ → ℕ → List Sector → Bus → Option (Bool × List Sector × Bus)
  read_chunks zero sector count out b = none
  read_chunks (suc f) sector count out b =
      let chunk = chunk_of count in
      let (ok, got, done) = gcode_read_aligned sector (chunk * gcode_sector_size % 2 ^ 32) b in
      let rest = read_chunks f ((sector + chunk) % 2 ^ 32) (count - chunk) (out ++ got) done in
      if count == 0
      then some (true, out, b)
      else if not ok
      then some (false, out ++ got, done)
      else rest

  -- The loop of the unaligned path, from `sector + i` on with `left` sectors to go.
  unfoldable pub read_bounced : ℕ → ℕ → List Sector → Bus → Bool × List Sector × Bus
  read_bounced zero sector out b = (true, out, b)
  read_bounced (suc left) sector out b =
      let (ok, got, done) = gcode_read_aligned sector gcode_sector_size b in
      let rest = read_bounced left ((sector + 1) % 2 ^ 32) (out ++ got) done in
      if not ok then (false, out, done) else rest

  -- `gcode_sd_read`, with `is_aligned` for the test of `data`.
  unfoldable pub gcode_sd_read :
      Bool → ℕ → ℕ → Option Bool → Bus → Option (Bool × List Sector × Option Bool × Bus)
  gcode_sd_read is_aligned sector count has_gcode b =
      let (present, has_gcode', ready) = gcode_sd_init has_gcode b in
      let chunks = read_chunks (count + 1) sector count [] ready in
      let (ok, got, done) = read_bounced count sector [] ready in
      if not present
      then some (false, [], has_gcode', ready)
      else if is_aligned
      then elim chunks [
        | none ↦ none
        | some (ok', got', done') ↦ some (ok', got', has_gcode', done')
      ]
      else some (ok, got, has_gcode', done)

  -- `gcode_sd_write`
  unfoldable pub gcode_sd_write : ℕ → List Sector → ℕ → Bus → Bool × Bus
  gcode_sd_write sector buffer count b = (false, b)
