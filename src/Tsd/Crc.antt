-- ===== src/Tsd/Crc.antt =====
-- The checksum of a command to an SD card: tsd_crc7 of cubeboot/source/emu/tsd.c, lines 114 to 142.
use cubiboot.Base.{
  ℕ, zero, suc, ◌+◌, ◌-◌, ◌*◌, ◌/◌, ◌%◌, ◌^◌, ◌<◌, Bool, true, false, List, [], ◌∷◌, ◌≡◌, refl, sym,
  ◌∙◌, ap, Bool-cases, inl, inr, arith, ◌==◌, ==_iff, if◌then◌else◌, bit_xor,
}
use cubiboot.Tsd.{tsd_crc7, crc7_bytes, crc7_byte, crc7_round, flip_bit3}

-- CRC-7 by its definition: the remainder of the message by x⁷ + x³ + 1, one bit at a time.
unfoldable pub divide_bit : ℕ → ℕ → ℕ
divide_bit bit rest =
    let shifted = rest * 2 % 128 in
    if (bit + rest / 64) % 2 == 0 then shifted else bit_xor shifted 0x09

unfoldable pub divide_bits : ℕ → ℕ → ℕ → ℕ
divide_bits zero byte rest = rest
divide_bits (suc left) byte rest = divide_bits left byte (divide_bit (byte / 2 ^ left % 2) rest)

unfoldable pub crc7 : List ℕ → ℕ → ℕ
crc7 [] rest = rest
crc7 (byte ∷ bytes) rest = crc7 bytes (divide_bits 8 byte rest)

-- To add the low bits of the polynomial to the even number `2 * k`: whether both ways agree, and
-- whether they do so for all numbers below a bound.
abbrev agrees : ℕ → Bool
agrees k = bit_xor (2 * k) 0x09 == flip_bit3 (2 * k + 1)

table_to : ℕ → Bool
table_to zero = true
table_to (suc bound) = let lower = table_to bound in if agrees bound then lower else false

table_64 : table_to 64 ≡ true
unfolding table_to
table_64 = refl

agrees_at : (k bound : ℕ) → table_to bound ≡ true → k < bound → agrees k ≡ true
unfolding table_to
agrees_at k zero h below = absurd (omega arith)
agrees_at k (suc bound) h below = elim (Bool-cases (k == bound)) [
  | inl e ↦ ap agrees ((==_iff k bound).0 e) ∙ ground (arith, h)
  | inr e ↦ agrees_at k bound (ground (arith, h)) (ground arith)
]

clear_lem :
    (n k : ℕ) → n % 128 ≡ 2 * k → k < 64 → (n + 1) / 8 % 2 ≡ 0 → (n + 1 + 8) % 128 ≡ 2 * k + 1 + 8
clear_lem n k e small h = omega arith

set_lem :
    (n k : ℕ) → n % 128 ≡ 2 * k → k < 64 → (n + 1) / 8 % 2 ≡ 1 → (n + 1 - 8) % 128 ≡ 2 * k + 1 - 8
set_lem n k e small h = omega arith

flip_lem : (n k : ℕ) → n % 128 ≡ 2 * k → k < 64 → flip_bit3 (n + 1) % 128 ≡ flip_bit3 (2 * k + 1)
flip_lem n k e small =
    let bit : (n + 1) / 8 % 2 ≡ (2 * k + 1) / 8 % 2 = omega arith in
    elim (Bool-cases ((n + 1) / 8 % 2 == 0)) [
      | inl f ↦
          (let g = ap (λ t. t == 0) (sym bit) ∙ f in
            let clear : (n + 1) / 8 % 2 ≡ 0 = (==_iff _ _).0 f in
            rw (f, g) (clear_lem n k e small clear))
      | inr f ↦
          (let g = ap (λ t. t == 0) (sym bit) ∙ f in
            let set : (n + 1) / 8 % 2 ≡ 1 = ground arith in rw (f, g) (set_lem n k e small set))
    ]

round_lem : (bit res : ℕ) → bit < 2 → crc7_round bit res % 128 ≡ divide_bit bit (res % 128)
unfolding divide_bit
round_lem bit res small =
    let flipped : bit_xor (res % 128 * 2 % 128) 0x09 ≡ flip_bit3 (2 * (res % 64) + 1) =
      ap (λ t. bit_xor t 0x09) (omega arith)
      ∙ (==_iff _ _).0 (agrees_at (res % 64) 64 table_64 (omega arith)) in
    let same : (bit + res * 2 % 2 ^ 32 / 2 ^ 7) % 2 ≡ (bit + res % 128 / 64) % 2 = omega arith in
    elim (Bool-cases ((bit + res * 2 % 2 ^ 32 / 2 ^ 7) % 2 == 0)) [
      | inl e ↦ (let f = ap (λ t. t == 0) (sym same) ∙ e in rw (e, f) (omega arith))
      | inr e ↦
          (let f = ap (λ t. t == 0) (sym same) ∙ e in
            rw (e, f, flipped) (flip_lem (res * 2 % 2 ^ 32) (res % 64) (omega arith) (omega arith)))
    ]

byte_lem : (left byte res : ℕ) → crc7_byte left byte res % 128 ≡ divide_bits left byte (res % 128)
unfolding crc7_byte divide_bits
byte_lem zero byte res = refl
byte_lem (suc left) byte res =
    byte_lem left byte (crc7_round (byte / 2 ^ left % 2) res)
    ∙ ap (divide_bits left byte) (round_lem (byte / 2 ^ left % 2) res (omega arith))

bytes_lem : (bytes : List ℕ) (res : ℕ) → crc7_bytes bytes res % 128 ≡ crc7 bytes (res % 128)
unfolding crc7_bytes crc7
bytes_lem [] res = refl
bytes_lem (byte ∷ bytes) res =
    bytes_lem bytes (crc7_byte 8 byte res) ∙ ap (crc7 bytes) (byte_lem 8 byte res)

-- The checksum of a command is the remainder of its bytes by x⁷ + x³ + 1, in the upper seven bits of a
-- byte, for any bytes.
pub tsd_crc7_lem : (bytes : List ℕ) → tsd_crc7 bytes ≡ crc7 bytes 0 * 2
tsd_crc7_lem bytes = omega (arith, bytes_lem bytes 0)
