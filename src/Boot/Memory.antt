-- ===== src/Boot/Memory.antt =====
-- What load_dol of patches/source/boot.c leaves in memory.
use cubiboot.Base.{
  ℕ, ◌+◌, ◌-◌, ◌^◌, ◌≤◌, ◌<◌, Bool, true, false, not, ◌&&◌, ◌==◌, if◌then◌else◌, ◌≡◌, ◌≢◌, refl,
  arith, inl, inr, Bool-cases, span, ◌∙◌,
}
use cubiboot.Dol.{DolHeader, dol_max, max_text_section, max_data_section}
use cubiboot.Dol.Max.{SectionEnd, dol_max_bound}
use cubiboot.Boot.{Loader, DolFile, zero_memory, load_sections, load_image}
use cubiboot.Boot.Sections.{covers, load_sections_lem}

-- No section ends past the 32-bit address space.
abbrev pub Fits : DolHeader → Type 0
Fits h =
    ((j : ℕ) → j < max_text_section → h.text_address j + h.text_length j < 2 ^ 32)
    × ((j : ℕ) → j < max_data_section → h.data_address j + h.data_length j < 2 ^ 32)
    × (h.bss_address + h.bss_length < 2 ^ 32)

module _ (h : DolHeader) (fits : Fits h) (a : ℕ) (above : dol_max h ≤ a) where
  text_below : (j : ℕ) → j < max_text_section → covers h.text_address h.text_length j a ≡ false
  text_below j small =
      elim (Bool-cases (not (h.text_address j == 0) && not (h.text_length j == 0))) [
        | inr gone ↦ rw gone refl
        | inl there ↦
            (let bound =
                dol_max_bound h _
                  (SectionEnd.text j small (ground (arith, there)) (ground (arith, there)) refl) in
              let end : h.text_address j + h.text_length j ≤ a =
                omega (arith, bound, fits.0 j small, above) in
              ground (arith, end))
      ]

  data_below : (j : ℕ) → j < max_data_section → covers h.data_address h.data_length j a ≡ false
  data_below j small =
      elim (Bool-cases (not (h.data_address j == 0) && not (h.data_length j == 0))) [
        | inr gone ↦ rw gone refl
        | inl there ↦
            (let bound = dol_max_bound h _ (
                SectionEnd.data_section j small (ground (arith, there)) (ground (arith, there))
                  refl) in
              let end : h.data_address j + h.data_length j ≤ a =
                omega (arith, bound, fits.1 j small, above) in
              ground (arith, end))
      ]

  bss_below :
      (mem : ℕ → ℕ) → h.bss_address ≢ 0 → zero_memory mem h.bss_address h.bss_length a ≡ mem a
  bss_below mem there =
      let bound = dol_max_bound h _ (SectionEnd.bss there refl) in
      let end : h.bss_address + h.bss_length ≤ a = omega (arith, bound, fits.2, above) in
      ground (arith, end)

abbrev pub text_covers : DolFile → ℕ → ℕ → Bool
text_covers f j a = covers f.header.text_address f.header.text_length j a

abbrev pub data_covers : DolFile → ℕ → ℕ → Bool
data_covers f j a = covers f.header.data_address f.header.data_length j a

-- The byte that the memory has at an address once the BSS is cleared.
abbrev pub cleared_at : DolFile → (ℕ → ℕ) → ℕ → ℕ
cleared_at f mem a =
    if not (f.header.bss_address == 0) && not (f.header.bss_length == 0)
    then zero_memory mem f.header.bss_address f.header.bss_length a
    else mem a

-- What is to be at an address of the memory once a DOL is loaded.
pub record Image (f : DolFile) (offset : ℕ) (file mem result : ℕ → ℕ) (a : ℕ) : Type 0 where
  pub by_data :
      (k : ℕ)
      → k < max_data_section
      → data_covers f k a ≡ true
      → ((j : ℕ) → k < j → j < max_data_section → data_covers f j a ≡ false)
      → result a ≡ file (offset + f.data_offset k + (a - f.header.data_address k))
  pub by_text :
      (k : ℕ)
      → k < max_text_section
      → text_covers f k a ≡ true
      → ((j : ℕ) → k < j → j < max_text_section → text_covers f j a ≡ false)
      → ((j : ℕ) → j < max_data_section → data_covers f j a ≡ false)
      → result a ≡ file (offset + f.text_offset k + (a - f.header.text_address k))
  pub by_none :
      ((j : ℕ) → j < max_text_section → text_covers f j a ≡ false)
      → ((j : ℕ) → j < max_data_section → data_covers f j a ≡ false)
      → result a ≡ cleared_at f mem a
  pub beyond : Fits f.header → dol_max f.header ≤ a → result a ≡ mem a

cleared_above :
    (f : DolFile) (mem : ℕ → ℕ) (a : ℕ)
    → Fits f.header
    → dol_max f.header ≤ a
    → cleared_at f mem a ≡ mem a
cleared_above f mem a fits above =
    let h = f.header in
    elim (Bool-cases (not (h.bss_address == 0) && not (h.bss_length == 0))) [
      | inl e ↦ rw e (bss_below h fits a above mem (ground (arith, e)))
      | inr e ↦ rw e refl
    ]

-- Of a file that can be read: each byte of the memory is that of the last section that holds its
-- address, a data section before a text section; where no section does it is 0 in the BSS, and
-- otherwise what it was. Nothing at or above the address that `DOLMax` gives is changed, when no
-- section ends past the address space.
pub load_image-Image :
    {World : Type 0} (loader : Loader World) (offset fd : ℕ) (file : ℕ → ℕ)
    → ((n from : ℕ) (w : World) → (loader.read_at n from fd w).0 ≡ span file from n)
    → (f : DolFile) (mem : ℕ → ℕ) (w : World) (a : ℕ)
    → Image f offset file mem (load_image loader offset fd f mem w).0 a
unfolding load_image
load_image-Image loader offset fd file reads f mem w a =
    let h = f.header in
    let cleared : ℕ → ℕ =
      if not (h.bss_address == 0) && not (h.bss_length == 0)
      then zero_memory mem h.bss_address h.bss_length
      else mem in
    let text =
      load_sections loader offset fd h.text_address h.text_length f.text_offset max_text_section 0
        cleared w in
    let text_lem =
      load_sections_lem loader offset fd file reads h.text_address h.text_length f.text_offset a
        max_text_section 0 cleared w in
    let data_lem =
      load_sections_lem loader offset fd file reads h.data_address h.data_length f.data_offset a
        max_data_section 0 text.0 text.1 in
    let cleared_is : cleared a ≡ cleared_at f mem a =
      elim (Bool-cases (not (h.bss_address == 0) && not (h.bss_length == 0))) [
        | inl e ↦ rw e refl
        | inr e ↦ rw e refl
      ] in
    record {
      by_data = λ k small c later.
          data_lem.last k (omega arith) (omega (arith, small)) c
            (λ j l s. later j l (omega (arith, s)));
      by_text = λ k small c later no_data.
          data_lem.untouched (λ j l s. no_data j (omega (arith, s)))
          ∙ text_lem.last k (omega arith) (omega (arith, small)) c
              (λ j l s. later j l (omega (arith, s)));
      by_none = λ no_text no_data.
          data_lem.untouched (λ j l s. no_data j (omega (arith, s)))
          ∙ (text_lem.untouched (λ j l s. no_text j (omega (arith, s))) ∙ cleared_is);
      beyond = λ fits above.
          data_lem.untouched (λ j l s. data_below h fits a above j (omega (arith, s)))
          ∙ (text_lem.untouched (λ j l s. text_below h fits a above j (omega (arith, s)))
              ∙ (cleared_is ∙ cleared_above f mem a fits above));
    }
