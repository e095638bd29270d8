-- ===== src/Tests/TsdRuns.antt =====
-- Checksums of SD commands.
use cubiboot.Base.{◌*◌, [], ◌∷◌, ◌≡◌, refl}
use cubiboot.Tsd.{
  ExiBytes, tsd_sd_read, tsd_send_cmd, tsd_recv_data, await_token, await_response, tsd_crc7,
}
use cubiboot.Tsd.Crc.{crc7, tsd_crc7_lem}

-- GO_IDLE_STATE, whose checksum is 0x95 with the end bit.
tsd_crc7_example : tsd_crc7 (0x40 ∷ 0 ∷ 0 ∷ 0 ∷ 0 ∷ []) ≡ crc7 (0x40 ∷ 0 ∷ 0 ∷ 0 ∷ 0 ∷ []) 0 * 2
tsd_crc7_example = tsd_crc7_lem (0x40 ∷ 0 ∷ 0 ∷ 0 ∷ 0 ∷ [])

go_idle : tsd_crc7 (0x40 ∷ 0 ∷ 0 ∷ 0 ∷ 0 ∷ []) ≡ 0x94
unfolding cubiboot.Tsd.crc7_bytes cubiboot.Tsd.crc7_byte
go_idle = refl
