-- ===== src/Boot.antt =====
-- Loading a DOL: patches/source/boot.c, lines 54 to 130. Memory is a function from addresses to bytes,
-- and the calls by which files are read are a record; a read gives what it leaves in its buffer.
use cubiboot.Base.{
  ℕ, zero, suc, ◌+◌, ◌-◌, ◌*◌, Bool, true, false, not, ◌&&◌, Option, none, some, List, [], ◌∷◌, ltb,
  leb, ◌==◌, if◌then◌else◌, word_at, length,
}
use cubiboot.Cache.Device.{overwrite}
use cubiboot.Dol.{DolHeader, dol_max, max_text_section, max_data_section}
use cubiboot.Fdrv.Files.{FileStatus}
pub mod Sections
pub mod Memory
pub mod Arguments
pub mod Handover
pub mod Structs
pub mod Chainload

-- The calls out of the loader. `open_at` opens a file of the card, or of the flash memory for true.
pub record Loader (World : Type 0) : Type 0 where
  pub cache_disable : World → World
  pub read_at : ℕ → ℕ → ℕ → World → List ℕ × World
  pub open_at : Bool → List ℕ → World → World
  pub status_of : World → Option FileStatus × World
  pub close_at : ℕ → World → World

-- `DOLHEADER`: the extents of the sections, where they stand in the file, and the entry point.
pub record DolFile : Type 0 where
  pub header : DolHeader
  pub text_offset : ℕ → ℕ
  pub data_offset : ℕ → ℕ
  pub entry_point : ℕ

abbrev pub dol_header_size : ℕ
dol_header_size = 0x100

unfoldable pub dol_file_of : List ℕ → DolFile
dol_file_of bytes = record {
  text_offset = λ i. word_at bytes (4 * i);
  data_offset = λ i. word_at bytes (28 + 4 * i);
  header = record {
    text_address = λ i. word_at bytes (72 + 4 * i);
    data_address = λ i. word_at bytes (100 + 4 * i);
    text_length = λ i. word_at bytes (144 + 4 * i);
    data_length = λ i. word_at bytes (172 + 4 * i);
    bss_address = word_at bytes 216;
    bss_length = word_at bytes 220;
  };
  entry_point = word_at bytes 224;
}

-- `dol_info_t`
pub record DolInfo : Type 0 where
  pub max_addr : ℕ
  pub entrypoint : ℕ

-- `memset(address, 0, length)`
abbrev pub zero_memory : (ℕ → ℕ) → ℕ → ℕ → ℕ → ℕ
zero_memory mem address n a = if leb address a && ltb a (address + n) then 0 else mem a

module _ {World : Type 0} (loader : Loader World) (offset fd : ℕ) where
  -- A loop over sections from `i` on, with `left` to go.
  unfoldable pub load_sections :
      (address size from : ℕ → ℕ) → ℕ → ℕ → (ℕ → ℕ) → World → (ℕ → ℕ) × World
  load_sections address size from zero i mem w = (mem, w)
  load_sections address size from (suc left) i mem w =
      let (bytes, w1) = loader.read_at (size i) (offset + from i) fd w in
      let loaded =
        load_sections address size from left (i + 1) (overwrite mem (address i) bytes) w1 in
      let skipped = load_sections address size from left (i + 1) mem w in
      if not (address i == 0) && not (size i == 0) then loaded else skipped

  -- Once the header is read: the BSS is cleared, and the sections are loaded.
  unfoldable pub load_image : DolFile → (ℕ → ℕ) → World → (ℕ → ℕ) × World
  load_image f mem w =
      let h = f.header in
      let cleared =
        if not (h.bss_address == 0) && not (h.bss_length == 0)
        then zero_memory mem h.bss_address h.bss_length
        else mem in
      let (with_text, w1) =
        load_sections h.text_address h.text_length f.text_offset max_text_section 0 cleared w in
      load_sections h.data_address h.data_length f.data_offset max_data_section 0 with_text w1

  unfoldable pub load_dol : (ℕ → ℕ) → World → DolInfo × (ℕ → ℕ) × World
  load_dol mem w =
      let (bytes, w1) = loader.read_at dol_header_size offset fd (loader.cache_disable w) in
      let f = dol_file_of bytes in
      let (loaded, w2) = load_image f mem w1 in
      (record { max_addr = dol_max f.header; entrypoint = f.entry_point }, loaded, w2)

-- `load_dol_file`, with a DOL at the start of its file.
unfoldable pub load_dol_file :
    {World : Type 0} → Loader World → List ℕ → Bool → (ℕ → ℕ) → World → DolInfo × (ℕ → ℕ) × World
load_dol_file loader path flash mem w =
    let (status, w1) = loader.status_of (loader.open_at flash path w) in
    let failed : DolInfo = record { max_addr = 0; entrypoint = 0 } in
    elim status [
      | none ↦ (failed, mem, w1)
      | some s ↦
          if not (s.result == 0)
          then (failed, mem, w1)
          else (let (info, loaded, w2) = load_dol loader 0 s.fd mem w1 in
              (info, loaded, loader.close_at s.fd w2))
    ]
