-- ===== src/Fdrv/Files.antt =====
-- The file commands of the FlippyDrive: cubeboot/source/emu/fdrv.c, lines 313 to 463, as the IPL is
-- built, with the blobs of cubeboot/source/ipc.h.
use cubiboot.Base.{
  ℕ, zero, suc, ◌+◌, ◌-◌, ◌*◌, ◌/◌, ◌%◌, ◌^◌, Bool, Option, none, some, List, [], ◌∷◌, ◌++◌, ltb,
  ◌==◌, if◌then◌else◌, take, drop,
}
use cubiboot.Fdrv.{
  FdBus, fdrv_cmd, fdrv_dma_from, fdrv_dma_to, error_bit, dvd_oem_read, dvd_flippy_fileapi_base,
  dvd_flippy_bypass, fd_bypass_exit_magic0, fd_bypass_exit_magic1, di_dma_read,
}

-- `ipc_command_type_t`
abbrev pub ipc_read_status : ℕ
ipc_read_status = 0x00

abbrev pub ipc_set_default_fd : ℕ
ipc_set_default_fd = 0x01

abbrev pub ipc_fs_info : ℕ
ipc_fs_info = 0x06

abbrev pub ipc_file_mkdir : ℕ
ipc_file_mkdir = 0x07

abbrev pub ipc_file_write : ℕ
ipc_file_write = 0x09

abbrev pub ipc_file_open : ℕ
ipc_file_open = 0x0A

abbrev pub ipc_file_close : ℕ
ipc_file_close = 0x0B

abbrev pub ipc_file_unlink : ℕ
ipc_file_unlink = 0x0E

abbrev pub ipc_file_readdir : ℕ
ipc_file_readdir = 0x0F

abbrev pub ipc_file_open_flash : ℕ
ipc_file_open_flash = 0x11

abbrev pub ipc_file_unlink_flash : ℕ
ipc_file_unlink_flash = 0x12

abbrev pub ipc_net_presence : ℕ
ipc_net_presence = 0x14

-- MAX_FILE_NAME, and the sizes of `file_entry_t`, `file_status_t`, `fs_info_t` and of
-- `flippydrive_net_presence_t` and its strings.
abbrev pub max_file_name : ℕ
max_file_name = 256

abbrev pub file_entry_size : ℕ
file_entry_size = 288

abbrev pub blob_size : ℕ
blob_size = 32

abbrev pub presence_size : ℕ
presence_size = 256

abbrev pub presence_string : ℕ
presence_string = 40

-- `-1` of an `int`.
abbrev pub minus_one : ℕ
minus_one = 2 ^ 32 - 1

-- The words of the commands: the opcode, the number of the command, and a descriptor. Their bits do
-- not overlap, so that `|` is a sum.
unfoldable pub file_word : ℕ → ℕ → ℕ
file_word ipc fd = dvd_flippy_fileapi_base + ipc + fd % 256 * 2 ^ 16

unfoldable pub oem_read_word : ℕ → ℕ
oem_read_word fd = dvd_oem_read + fd % 256 * 2 ^ 16

unfoldable pub default_word : ℕ → ℕ → ℕ
default_word current_fd second_fd =
    file_word ipc_set_default_fd current_fd + second_fd % 256 * 2 ^ 8

-- `strncpy`, of a string that ends where the list does; of the empty string it gives zeros.
unfoldable pub strncpy : ℕ → List ℕ → List ℕ
strncpy zero s = []
strncpy (suc n) [] = 0 ∷ strncpy n []
strncpy (suc n) (c ∷ s) = c ∷ strncpy n s

-- A string in an array of `size` characters, of which the last is 0.
unfoldable pub string_field : ℕ → List ℕ → List ℕ
string_field size s = strncpy (size - 1) s ++ (0 ∷ [])

-- The `file_entry_t` of `fdrv_open_common` and of `fdrv_path_cmd`.
unfoldable pub file_entry : List ℕ → ℕ → ℕ → List ℕ
file_entry path type flags =
    string_field max_file_name path ++ (type ∷ flags ∷ strncpy (file_entry_size - 258) [])

-- The `flippydrive_net_presence_t` of `fdrv_presence`.
unfoldable pub presence_blob : Bool → List ℕ → List ℕ → List ℕ
presence_blob playing status sub_status =
    (if playing then 1 else 0)
    ∷ (string_field presence_string status
        ++ string_field presence_string sub_status
        ++ strncpy (presence_size - 81) [])

-- The number that bytes in big-endian order stand for.
unfoldable pub big_endian : ℕ → List ℕ → ℕ
big_endian high [] = high
big_endian high (b ∷ bytes) = big_endian (high * 256 + b) bytes

-- `file_status_t` and `fs_info_t`
pub record FileStatus : Type 0 where
  pub result : ℕ
  pub fsize : ℕ
  pub fd : ℕ

pub record FsInfo : Type 0 where
  pub fs_result : ℕ
  pub free : ℕ
  pub total : ℕ

unfoldable pub file_status_of : List ℕ → FileStatus
file_status_of bytes = record {
  result = big_endian 0 (take 4 bytes);
  fsize = big_endian 0 (take 8 (drop 4 bytes));
  fd = big_endian 0 (take 1 (drop 12 bytes));
}

unfoldable pub fs_info_of : List ℕ → FsInfo
fs_info_of bytes = record {
  fs_result = big_endian 0 (take 4 bytes);
  free = big_endian 0 (take 8 (drop 4 bytes));
  total = big_endian 0 (take 8 (drop 12 bytes));
}

-- `fuel` is that of `fdrv_wait`.
module _ (di : FdBus) (fuel : ℕ) where
  open di use {Bus, prepare, start, poll, yield_thread, landed}

  -- A command with a path in a `file_entry_t`: `fdrv_open_common` and `fdrv_path_cmd`.
  unfoldable pub fdrv_open_common : ℕ → List ℕ → ℕ → ℕ → Bus → Option (ℕ × Bus)
  fdrv_open_common ipc path type flags b =
      fdrv_dma_to di fuel (file_word ipc 0) 0 0 (file_entry path type flags) file_entry_size b

  unfoldable pub fdrv_path_cmd : ℕ → List ℕ → Bus → Option (ℕ × Bus)
  fdrv_path_cmd ipc path b =
      fdrv_dma_to di fuel (file_word ipc 0) 0 0 (file_entry path 0 0) file_entry_size b

  unfoldable pub fdrv_open : List ℕ → ℕ → ℕ → Bus → Option (ℕ × Bus)
  fdrv_open path type flags b = fdrv_open_common ipc_file_open path type flags b

  unfoldable pub fdrv_open_flash : List ℕ → ℕ → ℕ → Bus → Option (ℕ × Bus)
  fdrv_open_flash path type flags b = fdrv_open_common ipc_file_open_flash path type flags b

  -- `fdrv_status` and `fdrv_fs_info`, which mark a failed transfer in the blob.
  unfoldable pub fdrv_status : Bus → Option (ℕ × FileStatus × Bus)
  fdrv_status b = elim (fdrv_dma_from di fuel (file_word ipc_read_status 0) 0 0 blob_size b) [
    | none ↦ none
    | some (ret, done) ↦
        (let dst = file_status_of (landed done) in
          some (ret, if ret == 0 then dst else record dst { result = 1 }, done))
  ]

  unfoldable pub fdrv_fs_info : Bus → Option (ℕ × FsInfo × Bus)
  fdrv_fs_info b = elim (fdrv_dma_from di fuel (file_word ipc_fs_info 0) 0 0 blob_size b) [
    | none ↦ none
    | some (ret, done) ↦
        (let dst = fs_info_of (landed done) in
          some (ret, if ret == 0 then dst else record dst { fs_result = 1 }, done))
  ]

  unfoldable pub fdrv_close : ℕ → Bus → Option (ℕ × Bus)
  fdrv_close fd b = fdrv_cmd di fuel (file_word ipc_file_close fd) 0 0 b

  unfoldable pub fdrv_set_default_fd : ℕ → ℕ → Bus → Option (ℕ × Bus)
  fdrv_set_default_fd current_fd second_fd b =
      fdrv_cmd di fuel (default_word current_fd second_fd) 0 0 b

  -- `fdrv_read`, of a 64-bit offset in bytes, which the drive takes in words.
  unfoldable pub fdrv_read : ℕ → ℕ → ℕ → Bus → Option (ℕ × Bus)
  fdrv_read len offset fd b =
      if ltb 0xFFFFFFFF (offset / 4)
      then some (minus_one, b)
      else fdrv_dma_from di fuel (oem_read_word fd) (offset / 4 % 2 ^ 32) len len b

  -- The loop of `fdrv_threaded_read`.
  unfoldable pub wait_yielding : ℕ → Bus → Option (ℕ × Bus)
  wait_yielding zero b = none
  wait_yielding (suc left) b =
      let (busy, polled) = poll b in
      let rest = wait_yielding left (yield_thread polled) in
      if busy then rest else some (error_bit di polled, polled)

  unfoldable pub fdrv_threaded_read : ℕ → ℕ → ℕ → Bus → Option (ℕ × Bus)
  fdrv_threaded_read len offset fd b =
      if ltb 0xFFFFFFFF (offset / 4)
      then some (minus_one, b)
      else wait_yielding fuel (
          start (prepare b) (record {
            cmdbuf0 = oem_read_word fd;
            cmdbuf1 = offset / 4 % 2 ^ 32;
            cmdbuf2 = len;
            length = len;
            control = di_dma_read;
            payload = [];
          }))

  unfoldable pub fdrv_readdir : ℕ → Bus → Option (ℕ × Bus)
  fdrv_readdir fd b = fdrv_dma_from di fuel (file_word ipc_file_readdir fd) 0 0 file_entry_size b

  unfoldable pub fdrv_mkdir : List ℕ → Bus → Option (ℕ × Bus)
  fdrv_mkdir path b = fdrv_path_cmd ipc_file_mkdir path b

  unfoldable pub fdrv_unlink : List ℕ → Bus → Option (ℕ × Bus)
  fdrv_unlink path b = fdrv_path_cmd ipc_file_unlink path b

  unfoldable pub fdrv_unlink_flash : List ℕ → Bus → Option (ℕ × Bus)
  fdrv_unlink_flash path b = fdrv_path_cmd ipc_file_unlink_flash path b

  -- `fdrv_write`, of whole blocks of 32 bytes of the buffer.
  unfoldable pub fdrv_write : List ℕ → ℕ → ℕ → ℕ → Bus → Option (ℕ × Bus)
  fdrv_write buf offset length fd b =
      fdrv_dma_to di fuel (file_word ipc_file_write fd) offset length buf
        ((length + 31) % 2 ^ 32 / 32 * 32) b

  unfoldable pub fdrv_presence : Bool → List ℕ → List ℕ → Bus → Option (ℕ × Bus)
  fdrv_presence playing status sub_status b =
      fdrv_dma_to di fuel (file_word ipc_net_presence 0) 0 0
        (presence_blob playing status sub_status) presence_size b

  unfoldable pub fdrv_bypass_enter : Bus → Option (ℕ × Bus)
  fdrv_bypass_enter b = fdrv_cmd di fuel dvd_flippy_bypass 0 0 b

  unfoldable pub fdrv_bypass_exit : Bus → Option (ℕ × Bus)
  fdrv_bypass_exit b =
      fdrv_cmd di fuel dvd_flippy_bypass fd_bypass_exit_magic0 fd_bypass_exit_magic1 b
