-- ===== src/Banners.antt =====
-- The cache of banners in ARAM: cubeboot/source/emu/tweaks.c, lines 103 to 198. ARAM is a function
-- from addresses to bytes, and takes no byte at or behind its end. A transfer is complete when `bnr_cache_store` or `bnr_cache_load` returns,
-- since each waits for its callback.
pub mod Find
pub mod Lookup
use cubiboot.Base.{
  ℕ, zero, suc, ◌+◌, ◌-◌, ◌*◌, ◌%◌, Bool, true, false, ◌&&◌, Option, none, some, List, [], ◌∷◌,
  ◌==◌, ltb, if◌then◌else◌, span,
}
use cubiboot.Cache.Device.{overwrite}

-- BNR_CACHE_SIZE
abbrev pub bnr_cache_size : ℕ
bnr_cache_size = 1024

-- `sizeof(BNR)`
abbrev pub bnr_size : ℕ
bnr_size = 0x20 + 96 * 32 * 2 + 6 * 0x140

-- The end of ARAM: `16 * 1024 * 1024`.
abbrev pub aram_end : ℕ
aram_end = 16 * 1024 * 1024

-- `bnr_cache_entry_t`
pub record BnrCacheEntry : Type 0 where
  pub key : ℕ
  pub aram_offset : ℕ
  pub valid : Bool

-- `bnr_cache`, `bnr_cache_next_index`, and ARAM.
pub record BnrCache : Type 0 where
  pub entries : ℕ → BnrCacheEntry
  pub next_index : ℕ
  pub aram : ℕ → ℕ

-- `bnr_cache_store` and `bnr_cache_load`
unfoldable pub bnr_cache_store : (ℕ → ℕ) → List ℕ → ℕ → ℕ → ℕ
bnr_cache_store aram bnr aram_offset a =
    if ltb a aram_end then overwrite aram aram_offset bnr a else aram a

unfoldable pub bnr_cache_load : (ℕ → ℕ) → ℕ → List ℕ
bnr_cache_load aram aram_offset = span aram aram_offset bnr_size

-- `bnr_cache[i].valid && bnr_cache[i].key == key`
abbrev pub holds : (ℕ → BnrCacheEntry) → ℕ → ℕ → Bool
holds e key i = (e i).valid && (e i).key == key

-- The loop over the entries from `i` on, with `left` to go.
unfoldable pub find : (ℕ → Bool) → ℕ → ℕ → Option ℕ
find test zero i = none
find test (suc left) i = let rest = find test left (i + 1) in if test i then some i else rest

-- `bnr_cache_get`: the banner, if there is one.
unfoldable pub bnr_cache_get : ℕ → BnrCache → Option (List ℕ)
bnr_cache_get key c = elim (find (holds c.entries key) bnr_cache_size 0) [
  | none ↦ none
  | some i ↦ some (bnr_cache_load c.aram (c.entries i).aram_offset)
]

-- The offset of entry `i`.
abbrev pub offset_of : ℕ → ℕ
offset_of i = aram_end - bnr_size * (i + 1)

-- The new entry of `bnr_cache_put`.
unfoldable pub bnr_cache_add : ℕ → List ℕ → BnrCache → BnrCache
bnr_cache_add key bnr c = record {
  entries = λ i.
      if c.next_index == i
      then record { key = key; aram_offset = offset_of c.next_index; valid = true }
      else c.entries i;
  next_index = (c.next_index + 1) % bnr_cache_size;
  aram = bnr_cache_store c.aram bnr (offset_of c.next_index);
}

-- `bnr_cache_put`
unfoldable pub bnr_cache_put : ℕ → List ℕ → BnrCache → BnrCache
bnr_cache_put key bnr c = elim (find (holds c.entries key) bnr_cache_size 0) [
  | some i ↦ c
  | none ↦ bnr_cache_add key bnr c
]
