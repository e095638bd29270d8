-- ===== src/Tsd.antt =====
-- The driver for SD cards: cubeboot/source/emu/tsd.c, lines 33 to 230, but for the raw register path of
-- the IPL. The EXI calls of the console are parameters; a sector is the list of its bytes.
pub mod Crc
use cubiboot.Base.{
  ℕ, zero, suc, ◌+◌, ◌-◌, ◌*◌, ◌/◌, ◌%◌, ◌^◌, Bool, true, false, not, ◌&&◌, ◌||◌, Option, none,
  some, List, [], ◌∷◌, ◌++◌, ltb, ◌==◌, if◌then◌else◌, bit_and,
}
use cubiboot.Disk.{ExiPort}

-- EXI_SPEED_16MHZ
abbrev pub exi_speed_16mhz : ℕ
exi_speed_16mhz = 4

-- The EXI calls, with the channel. `exi_receive` sends bytes 0xFF and gives those that come back, and
-- whether the call succeeds.
pub record ExiBytes : Type 1 where
  pub World : Type 0
  pub exi_lock : World → ℕ → ℕ → Bool × World
  pub exi_select : World → ℕ → ℕ → ℕ → Bool × World
  pub exi_unlock : World → ℕ → World
  pub exi_deselect : World → ℕ → World
  pub exi_receive : World → ℕ → ℕ → (Bool × List ℕ) × World
  pub exi_send : World → ℕ → List ℕ → Bool × World

-- The inner loop of `tsd_crc7`, with `8 - bcnt` rounds to go, on the byte and on `res`, of 32 bits. In
-- a round bit `7 - bcnt` of `val` is that bit of the byte, exclusive-or bit 7 of `res`. Behind the
-- shift `res` is even, so that `res |= 0x01` adds 1; bit 3 is turned over, or stays.
abbrev pub flip_bit3 : ℕ → ℕ
flip_bit3 res = if res / 8 % 2 == 0 then res + 8 else res - 8

abbrev pub crc7_round : ℕ → ℕ → ℕ
crc7_round bit res =
    let shifted = res * 2 % 2 ^ 32 in
    if (bit + shifted / 2 ^ 7) % 2 == 0 then shifted else flip_bit3 (shifted + 1)

unfoldable pub crc7_byte : ℕ → ℕ → ℕ → ℕ
crc7_byte zero byte res = res
crc7_byte (suc left) byte res = crc7_byte left byte (crc7_round (byte / 2 ^ left % 2) res)

-- The outer loop, and the answer.
unfoldable pub crc7_bytes : List ℕ → ℕ → ℕ
crc7_bytes [] res = res
crc7_bytes (byte ∷ bytes) res = crc7_bytes bytes (crc7_byte 8 byte res)

abbrev pub tsd_crc7 : List ℕ → ℕ
tsd_crc7 bytes = crc7_bytes bytes 0 * 2 % 256

-- The first five bytes of `cmd_buf`, for a command below 64, and the whole of it. The low bit of the
-- checksum is clear.
abbrev pub cmd_head : ℕ → ℕ → List ℕ
cmd_head cmd arg =
    (0x40 + cmd)
    ∷ (arg / 2 ^ 24 % 256)
    ∷ (arg / 2 ^ 16 % 256)
    ∷ (arg / 2 ^ 8 % 256)
    ∷ (arg % 256)
    ∷ []

unfoldable pub cmd_buf : ℕ → ℕ → List ℕ
cmd_buf cmd arg = cmd_head cmd arg ++ ((tsd_crc7 (cmd_head cmd arg) + 1) ∷ [])

-- The first byte of a buffer.
abbrev pub head_of : List ℕ → ℕ
head_of [] = 0xFF
head_of (b ∷ bytes) = b

module _ (exi : ExiBytes) where
  open exi use {World, exi_lock, exi_select, exi_unlock, exi_deselect, exi_receive, exi_send}

  unfoldable pub tsd_select : ExiPort → World → Bool × World
  tsd_select port w =
      let (locked, w1) = exi_lock w port.chn port.dev in
      let (selected, w2) = exi_select w1 port.chn port.dev exi_speed_16mhz in
      if not locked
      then (false, w1)
      else if not selected
      then (false, exi_unlock w2 port.chn)
      else (true, w2)

  unfoldable pub tsd_deselect : ExiPort → World → World
  tsd_deselect port w = exi_unlock (exi_deselect w port.chn) port.chn

  abbrev pub tsd_read : ExiPort → ℕ → World → (Bool × List ℕ) × World
  tsd_read port len w = exi_receive w port.chn len

  abbrev pub tsd_write : ExiPort → List ℕ → World → Bool × World
  tsd_write port bytes w = exi_send w port.chn bytes

  -- The wait for the token of `tsd_recv_data`, on fuel: whether every read succeeded.
  unfoldable pub await_token : ℕ → ExiPort → World → Option (Bool × World)
  await_token zero port w = none
  await_token (suc fuel) port w =
      let ((ok, got), w1) = tsd_read port 1 w in
      let rest = await_token fuel port w1 in
      if not ok then some (false, w1) else if head_of got == 0xFE then some (true, w1) else rest

  -- `tsd_recv_data`: the data and the two bytes of their checksum.
  unfoldable pub tsd_recv_data : ℕ → ExiPort → ℕ → World → Option (Bool × List ℕ × World)
  tsd_recv_data fuel port len w = elim (await_token fuel port w) [
    | none ↦ none
    | some (started, w1) ↦
        (let ((ok, got), w2) = tsd_read port len w1 in
          let ((ended, crc), w3) = tsd_read port 2 w2 in
          if not started
          then some (false, [], w1)
          else if not ok
          then some (false, got, w2)
          else some (ended, got, w3))
  ]

  -- The wait for a response of `tsd_send_cmd`, with `left` reads to go: its first byte.
  unfoldable pub await_response : ℕ → ExiPort → World → (Bool × ℕ) × World
  await_response zero port w = ((false, 0xFF), w)
  await_response (suc left) port w =
      let ((ok, got), w1) = tsd_read port 1 w in
      let rest = await_response left port w1 in
      if not ok
      then ((false, head_of got), w1)
      else if bit_and (head_of got) 0x80 == 0
      then ((true, head_of got), w1)
      else rest

  -- The reads that `timeout` allows.
  abbrev pub response_reads : ℕ
  response_reads = 17

  -- `tsd_send_cmd`, with the response.
  unfoldable pub tsd_send_cmd : ExiPort → ℕ → ℕ → ℕ → World → (Bool × List ℕ) × World
  tsd_send_cmd port cmd arg resp_len w =
      let (dummy, w1) = tsd_read port 100 w in
      let (sent, w2) = tsd_write port (cmd_buf cmd arg) w1 in
      let ((answered, r), w3) = await_response response_reads port w2 in
      let ((ok, more), w4) = tsd_read port (resp_len - 1) w3 in
      if not sent
      then ((false, []), w2)
      else if not answered
      then ((false, r ∷ []), w3)
      else if ltb 1 resp_len
      then ((ok, r ∷ more), w4)
      else ((true, r ∷ []), w3)

  -- `tsd_sd_init`, with `addressing_block` as it leaves it.
  unfoldable pub tsd_sd_init : ExiPort → Bool → World → Bool × Bool × World
  tsd_sd_init port addressing_block w =
      let (selected, w1) = tsd_select port w in
      let ((ok, resp), w2) = tsd_send_cmd port 58 0 3 w1 in
      let left = tsd_deselect port w2 in
      if not selected
      then (false, addressing_block, w1)
      else if not ok || not (head_of resp == 0)
      then (false, addressing_block, left)
      else (true, not (bit_and (second_of resp) 0x40 == 0), left)
    where
      second_of : List ℕ → ℕ
      second_of [] = 0
      second_of (b ∷ bytes) = head_of bytes

  -- One round of the loop of `tsd_sd_read`: a command for the address, and its data.
  unfoldable pub read_block : ℕ → ExiPort → ℕ → World → Option (Bool × List ℕ × World)
  read_block fuel port addr w =
      let ((ok, resp), w1) = tsd_send_cmd port 17 addr 1 w in
      let data_read = tsd_recv_data fuel port 512 w1 in
      if not ok || not (head_of resp == 0) then some (false, [], w1) else data_read

  -- The loop, with `left` sectors to go.
  unfoldable pub read_blocks :
      ℕ → ℕ → ExiPort → Bool → ℕ → List (List ℕ) → World → Option (Bool × List (List ℕ) × World)
  read_blocks zero fuel port addressing_block addr data_out w = some (true, data_out, w)
  read_blocks (suc left) fuel port addressing_block addr data_out w =
      elim (read_block fuel port addr w) [
        | none ↦ none
        | some (ok, got, w1) ↦
            (let next = (addr + (if addressing_block then 1 else 512)) % 2 ^ 32 in
              let rest =
                read_blocks left fuel port addressing_block next (data_out ++ (got ∷ [])) w1 in
              if not ok then some (false, data_out, w1) else rest)
      ]

  unfoldable pub tsd_sd_read :
      ℕ → ExiPort → Bool → ℕ → ℕ → World → Option (Bool × List (List ℕ) × World)
  tsd_sd_read fuel port addressing_block addr len w =
      let (selected, w1) = tsd_select port w in
      let start = if addressing_block then addr else addr * 512 % 2 ^ 32 in
      let blocks = read_blocks len fuel port addressing_block start [] w1 in
      if not selected
      then some (false, [], w1)
      else elim blocks [ none ↦ none | some (ok, got, w2) ↦ some (ok, got, tsd_deselect port w2) ]

  unfoldable pub tsd_sd_write : ExiPort → ℕ → List (List ℕ) → ℕ → World → Bool × World
  tsd_sd_write port addr buffer len w = (false, w)
