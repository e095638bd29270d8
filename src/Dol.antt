-- ===== src/Dol.antt =====
-- The end of a DOL in memory: patches/source/dol.c and patches/source/dol.h.
pub mod Max
use cubiboot.Base.{
  ℕ, zero, suc, ◌+◌, ◌%◌, ◌^◌, Bool, true, false, not, ◌&&◌, ltb, ◌==◌, if◌then◌else◌,
}

-- MAXTEXTSECTION and MAXDATASECTION
abbrev pub max_text_section : ℕ
max_text_section = 7

abbrev pub max_data_section : ℕ
max_data_section = 11

-- The fields of `DOLHEADER` that `DOLMax` reads.
pub record DolHeader : Type 0 where
  pub text_address : ℕ → ℕ
  pub data_address : ℕ → ℕ
  pub text_length : ℕ → ℕ
  pub data_length : ℕ → ℕ
  pub bss_address : ℕ
  pub bss_length : ℕ

-- `address + length`, of 32 bits.
abbrev pub end_of : ℕ → ℕ → ℕ
end_of address length = (address + length) % 2 ^ 32

-- `if (end > maxaddress) maxaddress = end;`
abbrev pub raise : ℕ → ℕ → ℕ
raise maxaddress e = if ltb maxaddress e then e else maxaddress

-- The loop over the sections from `i` on, with `left` to go.
unfoldable pub sections : (ℕ → ℕ) → (ℕ → ℕ) → ℕ → ℕ → ℕ → ℕ
sections address length zero i maxaddress = maxaddress
sections address length (suc left) i maxaddress =
    let raised = raise maxaddress (end_of (address i) (length i)) in
    if not (address i == 0) && not (length i == 0)
    then sections address length left (i + 1) raised
    else sections address length left (i + 1) maxaddress

-- `DOLMax`
unfoldable pub dol_max : DolHeader → ℕ
dol_max dol =
    let text = sections dol.text_address dol.text_length max_text_section 0 0 in
    let all = sections dol.data_address dol.data_length max_data_section 0 text in
    if dol.bss_address == 0 then all else raise all (end_of dol.bss_address dol.bss_length)
