-- ===== src/Ata/Address.antt =====
-- What a drive makes of the words that write its registers, by the ATA standard and the encoding of
-- IDE-EXI, cubeboot/source/emu/ata.c, lines 34 to 40 and 87 to 92: a register holds its last two
-- values, of which the 48-bit commands read both and the 28-bit ones the last, and the write of the
-- command register starts a command with what the other registers hold by then.
use cubiboot.Base.{
  ℕ, ◌+◌, ◌*◌, ◌/◌, ◌%◌, ◌^◌, ◌<◌, Bool, true, false, not, ◌&&◌, List, [], ◌∷◌, ◌≡◌, refl, ◌∙◌, ap,
  Option, none, some, arith, ltb, ◌==◌, if◌then◌else◌,
}
use cubiboot.Ata.{
  AtaRegister, seccount, lbalo, lbamid, lbahi, device, command, task_file, ata_head_use_lba,
}
use cubiboot.Ata.Exi.{register_number, write_word}

-- The registers by their numbers, and the sectors of the read command that was started last: the first
-- of them and how many. There is none when the last command was another one, or had its address not
-- as the number of a sector.
pub record Drive : Type 0 where
  pub last : ℕ → ℕ
  pub before : ℕ → ℕ
  pub started : Option (ℕ × ℕ)

-- A command that starts, of the registers of the EXI numbers 0x12 to 0x16: READ SECTORS EXT is 0x24,
-- and READ SECTORS, with and without retries, 0x20 and 0x21. Bit 6 of the device register says that
-- the address is a sector's.
abbrev pub command_of : ℕ → Drive → Option (ℕ × ℕ)
command_of val d =
    if not (d.last 0x16 / 64 % 2 == 1)
    then none
    else if val == 0x24
    then some (
      d.last 0x13
          + d.last 0x14 * 2 ^ 8
          + d.last 0x15 * 2 ^ 16
          + d.before 0x13 * 2 ^ 24
          + d.before 0x14 * 2 ^ 32
          + d.before 0x15 * 2 ^ 40,
      d.last 0x12 + d.before 0x12 * 2 ^ 8,
    )
    else if ltb val 0x22 && ltb 0x1F val
    then some (
      d.last 0x13 + d.last 0x14 * 2 ^ 8 + d.last 0x15 * 2 ^ 16 + d.last 0x16 % 16 * 2 ^ 24,
      d.last 0x12,
    )
    else none

-- A register takes a value.
abbrev pub taken : ℕ → ℕ → Drive → Drive
taken reg val d = record {
  last = λ q. if q == reg then val else d.last q;
  before = λ q. if q == reg then d.last reg else d.before q;
  started = if reg == 0x17 then command_of val d else d.started;
}

-- A word of three bytes: `{0x80|reg, val, 0}` writes a register, and other words do not.
unfoldable pub received : ℕ → Drive → Drive
received word d =
    if ltb word (2 ^ 31) then d else taken (word / 2 ^ 24 % 128) (word / 2 ^ 16 % 256) d

-- The drive behind the words of a list of writes.
unfoldable pub behind_writes : List (AtaRegister × ℕ) → Drive → Drive
behind_writes [] d = d
behind_writes ((reg, val) ∷ rest) d =
    behind_writes rest (received (write_word (register_number reg) val) d)

number_bound : (reg : AtaRegister) → register_number reg < 128
number_bound seccount = omega arith
number_bound lbalo = omega arith
number_bound lbamid = omega arith
number_bound lbahi = omega arith
number_bound device = omega arith
number_bound command = omega arith

received_write :
    (reg val : ℕ) (d : Drive)
    → reg < 128
    → val < 256
    → received (write_word reg val) d ≡ taken reg val d
unfolding received
received_write reg val d small byte =
    let write : ltb (write_word reg val) (2 ^ 31) ≡ false = ground arith in
    let number : write_word reg val / 2 ^ 24 % 128 ≡ reg = omega arith in
    let value : write_word reg val / 2 ^ 16 % 256 ≡ val = omega arith in
    rw (write, number, value) refl

-- The values of a list of writes fit the registers.
abbrev AreBytes : List (AtaRegister × ℕ) → Type 0
AreBytes [] = Unit
AreBytes ((reg, val) ∷ rest) = (val < 256) × AreBytes rest

-- The writes of a list, without their words.
abbrev all_taken : List (AtaRegister × ℕ) → Drive → Drive
all_taken [] d = d
all_taken ((reg, val) ∷ rest) d = all_taken rest (taken (register_number reg) val d)

behind_writes_lem :
    (ws : List (AtaRegister × ℕ)) (d : Drive) → AreBytes ws → behind_writes ws d ≡ all_taken ws d
unfolding behind_writes
behind_writes_lem [] d fit = refl
behind_writes_lem ((reg, val) ∷ rest) d (byte, fit) =
    ap (behind_writes rest) (received_write (register_number reg) val d (number_bound reg) byte)
    ∙ behind_writes_lem rest _ fit

task_file-AreBytes : (wide : Bool) (lba : ℕ) → AreBytes (task_file wide lba)
unfolding task_file
task_file-AreBytes true lba = (
  omega arith,
  (
    omega arith,
    (
      omega arith,
      (
        omega arith,
        (
          omega arith,
          (omega arith, (omega arith, (omega arith, (omega arith, (omega arith, tt))))),
        ),
      ),
    ),
  ),
)
task_file-AreBytes false lba =
    (omega arith, (omega arith, (omega arith, (omega arith, (omega arith, (omega arith, tt))))))

starts48 :
    (lba : ℕ) (d : Drive)
    → lba < 2 ^ 32
    → (behind_writes (task_file true lba) d).started ≡ some (lba, 1)
unfolding task_file
starts48 lba d bound =
    ap (λ (x : Drive). x.started)
      (behind_writes_lem (task_file true lba) d (task_file-AreBytes true lba))
    ∙ ap (λ t. some (t, 1)) (omega arith)

starts28 :
    (lba : ℕ) (d : Drive)
    → lba < 2 ^ 28
    → (behind_writes (task_file false lba) d).started ≡ some (lba, 1)
unfolding task_file
starts28 lba d bound =
    let number : (ata_head_use_lba + lba / 2 ^ 24 % 16) / 64 % 2 ≡ 1 = omega arith in
    ap (λ (x : Drive). x.started)
      (behind_writes_lem (task_file false lba) d (task_file-AreBytes false lba))
    ∙ rw number (ap (λ t. some (t, 1)) (omega arith))

-- The number of the sectors that the addresses of the drive reach.
abbrev pub reach : Bool → ℕ
reach wide = if wide then 2 ^ 32 else 2 ^ 28

-- The words that write the registers for a read make a drive start a read of the one sector `lba`,
-- whatever its registers held before and whatever command had been started: with 48-bit addresses for
-- every 32-bit number, and with 28-bit addresses for every 28-bit number.
pub task_file_lem :
    (wide : Bool) (lba : ℕ) (d : Drive)
    → lba < reach wide
    → (behind_writes (task_file wide lba) d).started ≡ some (lba, 1)
task_file_lem true lba d bound = starts48 lba d bound
task_file_lem false lba d bound = starts28 lba d bound
