-- ===== src/Rom.antt =====
-- The descrambler of the boot ROM: cubeboot/source/descrambler.c, on the bytes of the ROM as a list.
use cubiboot.Base.{
  ℕ, zero, suc, ◌+◌, ◌*◌, ◌/◌, ◌%◌, List, [], ◌∷◌, ◌==◌, if◌then◌else◌, bit_and, bit_or, bit_xor,
}

-- The registers `t`, `u` and `v`, with `x` and `acc`.
pub record Registers : Type 0 where
  pub reg_t : ℕ
  pub reg_u : ℕ
  pub reg_v : ℕ
  pub reg_x : ℕ
  pub acc : ℕ

abbrev pub first_registers : Registers
first_registers = record { reg_t = 0x2953; reg_u = 0xd9c2; reg_v = 0x3ff1; reg_x = 1; acc = 0 }

-- A register moves on by one bit, with a feedback where that bit is 1.
abbrev pub shift_register : ℕ → ℕ → ℕ → ℕ
shift_register r bit feedback = if bit == 0 then r / 2 else bit_xor (r / 2) feedback

-- One bit of the stream.
unfoldable pub next_bit : Registers → Registers
next_bit r =
    let t0 = r.reg_t % 2 in
    let t1 = r.reg_t / 2 % 2 in
    let u0 = r.reg_u % 2 in
    let u1 = r.reg_u / 2 % 2 in
    let v0 = r.reg_v % 2 in
    let x1 = bit_xor r.reg_x (bit_xor t1 v0) in
    let x2 = bit_xor x1 (bit_or u0 u1) in
    let x3 = bit_xor x2 (bit_and (bit_xor (bit_xor t0 u1) v0) (bit_xor t0 u0)) in
    record {
      reg_v = if t0 == u0 then shift_register r.reg_v v0 0xb3d0 else r.reg_v;
      reg_u = if t0 == 0 then shift_register r.reg_u u0 0xfb10 else r.reg_u;
      reg_t = shift_register r.reg_t t0 0xa740;
      reg_x = x3;
      acc = (2 * r.acc + x3) % 256;
    }

-- `nacc` counts to 8, and a byte of the stream is there.
unfoldable pub next_bits : ℕ → Registers → Registers
next_bits zero r = r
next_bits (suc left) r = next_bits left (next_bit r)

unfoldable pub descramble : Registers → List ℕ → List ℕ
descramble r [] = []
descramble r (b ∷ bytes) = let r' = next_bits 8 r in bit_xor b r'.acc ∷ descramble r' bytes

-- `Descrambler`
abbrev pub descrambler : List ℕ → List ℕ
descrambler bytes = descramble first_registers bytes
