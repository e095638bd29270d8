-- ===== src/Cache/Links.antt =====
-- The metadata of the block cache: `dvm_entries`, an array of entries that are linked both ways in
-- order of use, and `dvm_list`, its two ends. A pointer to an entry is the entry's index, and a
-- null pointer is `none`. cubeboot/source/emu/ffs/dvm_cache.c, lines 100 to 260.
pub mod Chain
pub mod Promote
pub mod Search
pub mod Evict
pub mod Reset
use cubiboot.Base.{
  ℕ, zero, suc, ◌+◌, ◌-◌, ◌^◌, Bool, true, false, ◌&&◌, Option, none, some, ltb, ◌==◌,
  if◌then◌else◌,
}

-- DVM_EMPTY_PAGE, `~(LBA_t)0` on 64-bit sector numbers.
abbrev pub empty_page : ℕ
empty_page = 2 ^ 64 - 1

-- `struct dvm_cache_entry`
pub record Entry : Type 0 where
  pub next : Option ℕ
  pub prev : Option ℕ
  pub base_sector : ℕ

-- `dvm_entries`, with `dvm_list.next` (most recently used) and `dvm_list.prev` (least).
pub record Links : Type 0 where
  pub entries : ℕ → Entry
  pub first : Option ℕ
  pub last : Option ℕ

abbrev pub bases : (ℕ → Entry) → ℕ → ℕ
bases e i = (e i).base_sector

-- One write to the array.
abbrev pub update : (ℕ → Entry) → ℕ → Entry → ℕ → Entry
update e i v j = if i == j then v else e j

-- `p->next = v`, `p->prev = v` and `p->base_sector = v`; a write through null is none.
abbrev pub set_next : (ℕ → Entry) → Option ℕ → Option ℕ → ℕ → Entry
set_next e none v = e
set_next e (some i) v =
    update e i (record { next = v; prev = (e i).prev; base_sector = (e i).base_sector })

abbrev pub set_prev : (ℕ → Entry) → Option ℕ → Option ℕ → ℕ → Entry
set_prev e none v = e
set_prev e (some i) v =
    update e i (record { next = (e i).next; prev = v; base_sector = (e i).base_sector })

abbrev pub set_base : Links → ℕ → ℕ → Links
set_base l i v = record l {
  entries =
      update l.entries i
        (record { next = (l.entries i).next; prev = (l.entries i).prev; base_sector = v });
}

-- The entry that the loop of `dvm_cache_reset` writes at index `i` of `pages`.
abbrev pub reset_entry : ℕ → ℕ → Entry
reset_entry pages i = record {
  next = if ltb (i + 1) pages then some (i + 1) else none;
  prev = if i == 0 then none else some (i - 1);
  base_sector = empty_page;
}

-- `dvm_cache_reset`, the list: `n` entries are left to write, the first of them at `i`.
unfoldable pub reset_from : ℕ → ℕ → ℕ → (ℕ → Entry) → ℕ → Entry
reset_from pages zero i e = e
reset_from pages (suc n) i e = reset_from pages n (i + 1) (update e i (reset_entry pages i))

unfoldable pub reset : ℕ → Links → Links
reset pages l = record {
  entries = reset_from pages pages 0 l.entries;
  first = some 0;
  last = some (pages - 1);
}

-- The loop of `dvm_cache_search` from entry `p`, with `min_sec` and `ret`; the fuel bounds the
-- entries that it visits.
unfoldable pub search_from : ℕ → (ℕ → Entry) → Option ℕ → ℕ → ℕ → Option ℕ → Option ℕ
search_from zero e p page min_sec ret = ret
search_from (suc f) e none page min_sec ret = ret
search_from (suc f) e (some i) page min_sec ret =
    let base = (e i).base_sector in
    let nearer = ltb page base && ltb base min_sec in
    let rest =
      search_from f e (e i).next page (if nearer then base else min_sec)
        (if nearer then some i else ret) in
    if base == empty_page then ret else if base == page then some i else rest

-- `dvm_cache_search`
unfoldable pub search : ℕ → Links → ℕ → Option ℕ
search pages l page = search_from pages l.entries l.first page empty_page none

-- `p == dvm_list.next`
abbrev pub points_to : Option ℕ → ℕ → Bool
points_to none i = false
points_to (some j) i = j == i

-- `dvm_cache_promote`, its `if (p->next)`: what stands behind `p`, or the end of the list, now
-- follows the entry in front of `p`.
unfoldable pub relink : Links → Entry → Option ℕ → Links
relink l p none = record l { last = p.prev }
relink l p (some n) = record l { entries = set_prev l.entries (some n) p.prev }

-- The first half: `p` leaves its place.
unfoldable pub unlink : Links → ℕ → Links
unlink l i =
    let p = l.entries i in relink (record l { entries = set_next l.entries p.prev p.next }) p p.next

-- The second half: `p` becomes the first entry.
unfoldable pub push_front : Links → ℕ → Links
push_front l i =
    let linked = set_prev (set_next l.entries (some i) l.first) l.first (some i) in
    record l { entries = set_prev linked (some i) none; first = some i }

unfoldable pub promote : Links → ℕ → Links
promote l i = if points_to l.first i then l else push_front (unlink l i) i

-- The loop of `dvm_cache_evict` from entry `p`, on fuel for the entries that it visits.
unfoldable pub evict_from : ℕ → (ℕ → Entry) → ℕ → ℕ
evict_from zero e p = p
evict_from (suc f) e p = elim (e p).prev [
  | none ↦ p
  | some q ↦
      let rest = evict_from f e q in
      if (e p).base_sector == empty_page && (e q).base_sector == empty_page then rest else p
]

-- `dvm_cache_evict`; the list is never empty, so its last entry is there.
unfoldable pub evict : ℕ → Links → Option ℕ
evict pages l = elim l.last [ none ↦ none | some p ↦ some (evict_from pages l.entries p) ]
