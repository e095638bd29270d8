-- ===== src/Banners/Lookup.antt =====
-- What `bnr_cache_put` stores, `bnr_cache_get` gives back.
use cubiboot.Base.{
  ℕ, ◌+◌, ◌<◌, Bool, true, false, ◌&&◌, none, some, List, ◌≡◌, ◌≢◌, refl, inl, inr, Bool-cases,
  arith, subst, sym, ◌∙◌, ap, ◌==◌, ==_iff, length, span, some_inj, ltb,
}
use cubiboot.Banners.{
  BnrCacheEntry, BnrCache, holds, find, bnr_cache_get, bnr_cache_add, bnr_cache_put,
  bnr_cache_store, bnr_cache_load, bnr_cache_size, bnr_size, offset_of, aram_end,
}
use cubiboot.Banners.Find.{First, find-First, find_lem}
use cubiboot.Cache.Device.{overwrite}
use cubiboot.Cache.Held.Medium.{overwrite_outside, span_frame, span-overwrite}

-- The entries in use stand at their own offsets, and the next to go is one of the 1024.
pub record WellFormed (c : BnrCache) : Type 0 where
  pub next : c.next_index < bnr_cache_size
  pub placed :
      (i : ℕ)
      → i < bnr_cache_size
      → (c.entries i).valid ≡ true
      → (c.entries i).aram_offset ≡ offset_of i

get_at :
    (key : ℕ) (c : BnrCache) (i : ℕ)
    → find (holds c.entries key) bnr_cache_size 0 ≡ some i
    → bnr_cache_get key c ≡ some (bnr_cache_load c.aram (c.entries i).aram_offset)
unfolding bnr_cache_get
get_at key c i e = rw (e, bnr_cache_get)

put_absent :
    (key : ℕ) (bnr : List ℕ) (c : BnrCache)
    → find (holds c.entries key) bnr_cache_size 0 ≡ none
    → bnr_cache_put key bnr c ≡ bnr_cache_add key bnr c
unfolding bnr_cache_put
put_absent key bnr c e = rw (e, bnr_cache_put)

put_present :
    (key : ℕ) (bnr : List ℕ) (c : BnrCache) (i : ℕ)
    → find (holds c.entries key) bnr_cache_size 0 ≡ some i
    → bnr_cache_put key bnr c ≡ c
unfolding bnr_cache_put
put_present key bnr c i e = rw (e, bnr_cache_put)

added_here :
    (key : ℕ) (bnr : List ℕ) (c : BnrCache)
    → (bnr_cache_add key bnr c).entries c.next_index
      ≡ record { key = key; aram_offset = offset_of c.next_index; valid = true }
unfolding bnr_cache_add
added_here key bnr c = let own : (c.next_index == c.next_index) ≡ true = ground arith in rw own

added_other :
    (key : ℕ) (bnr : List ℕ) (c : BnrCache) (j : ℕ)
    → j ≢ c.next_index
    → (bnr_cache_add key bnr c).entries j ≡ c.entries j
unfolding bnr_cache_add
added_other key bnr c j far = let apart : (c.next_index == j) ≡ false = ground arith in rw apart

-- The banner that `bnr_cache_add` stores, which ends before ARAM does, and those that it leaves.
load_here :
    (key : ℕ) (bnr : List ℕ) (c : BnrCache)
    → length bnr ≡ bnr_size
    → bnr_cache_load (bnr_cache_add key bnr c).aram (offset_of c.next_index) ≡ bnr
unfolding bnr_cache_add bnr_cache_load bnr_cache_store
load_here key bnr c whole =
    span_frame (bnr_cache_store c.aram bnr (offset_of c.next_index))
      (overwrite c.aram (offset_of c.next_index) bnr) (offset_of c.next_index)
      (offset_of c.next_index) bnr_size
      (λ k small.
        let within : ltb (offset_of c.next_index + k) aram_end ≡ true = ground arith in
        rw within refl)
    ∙ ap (span (overwrite c.aram (offset_of c.next_index) bnr) (offset_of c.next_index)) (sym whole)
    ∙ span-overwrite c.aram (offset_of c.next_index) bnr

load_other :
    (key : ℕ) (bnr : List ℕ) (c : BnrCache) (i : ℕ)
    → length bnr ≡ bnr_size
    → i < bnr_cache_size
    → c.next_index < bnr_cache_size
    → i ≢ c.next_index
    → bnr_cache_load (bnr_cache_add key bnr c).aram (offset_of i)
      ≡ bnr_cache_load c.aram (offset_of i)
unfolding bnr_cache_add bnr_cache_load bnr_cache_store
load_other key bnr c i whole lt next far =
    span_frame (bnr_cache_store c.aram bnr (offset_of c.next_index)) c.aram (offset_of i)
      (offset_of i) bnr_size
      (λ k small.
        let outside =
          overwrite_outside c.aram (offset_of c.next_index) bnr (offset_of i + k) (ground arith) in
        let within : ltb (offset_of i + k) aram_end ≡ true = ground arith in rw within outside)

-- What `holds` says of an entry.
holds_lem :
    (e : ℕ → BnrCacheEntry) (key i : ℕ)
    → holds e key i ≡ true
    → ((e i).valid ≡ true) × ((e i).key ≡ key)
holds_lem e key i h = (ground arith, ground arith)

none_found :
    (key : ℕ) (c : BnrCache)
    → ((i : ℕ) → i < bnr_cache_size → holds c.entries key i ≡ false)
    → find (holds c.entries key) bnr_cache_size 0 ≡ none
none_found key c absent = elim (find_lem (holds c.entries key) bnr_cache_size 0) [
  | inl (i, q, h) ↦
      (let here = h.passes in
        let lt = h.below in let gone = absent i (omega arith) in absurd (ground arith))
  | inr (q, h) ↦ q
]

First-of :
    (test : ℕ → Bool) (i : ℕ) → find test bnr_cache_size 0 ≡ some i → First test 0 bnr_cache_size i
First-of test i e = elim (find_lem test bnr_cache_size 0) [
  | inl (k, q, h) ↦ subst (First test 0 bnr_cache_size) (some_inj.0 (sym q ∙ e)) h
  | inr (q, h) ↦ absurd (ground arith)
]

kept_by_add :
    (key other : ℕ) (bnr : List ℕ) (c : BnrCache) (i : ℕ)
    → WellFormed c
    → length bnr ≡ bnr_size
    → find (holds c.entries other) bnr_cache_size 0 ≡ some i
    → i ≢ c.next_index
    → other ≢ key
    → bnr_cache_get other (bnr_cache_add key bnr c) ≡ bnr_cache_get other c
kept_by_add key other bnr c i w whole e far new =
    let h = First-of (holds c.entries other) i e in
    let lt = h.below in
    let at = find-First (holds (bnr_cache_add key bnr c).entries other) bnr_cache_size 0 i (record {
      from = h.from;
      below = h.below;
      passes =
          ap (λ (x : BnrCacheEntry). x.valid && x.key == other) (added_other key bnr c i far)
          ∙ h.passes;
      earlier = λ j lo hi. elim (Bool-cases (j == c.next_index)) [
        | inl here ↦ (let z = (==_iff _ _).0 here in rw (z, added_here key bnr c) (ground arith))
        | inr gone ↦
            ap (λ (x : BnrCacheEntry). x.valid && x.key == other)
              (added_other key bnr c j (λ z. ground arith))
            ∙ h.earlier j lo hi
      ];
    }) in
    let there = w.placed i h.below (holds_lem c.entries other i h.passes).0 in
    get_at other (bnr_cache_add key bnr c) i at
    ∙ ap (λ (x : BnrCacheEntry). some (bnr_cache_load (bnr_cache_add key bnr c).aram x.aram_offset))
        (added_other key bnr c i far)
    ∙ ap (λ o. some (bnr_cache_load (bnr_cache_add key bnr c).aram o)) there
    ∙ ap some (load_other key bnr c i whole lt w.next far)
    ∙ ap (λ o. some (bnr_cache_load c.aram o)) (sym there)
    ∙ sym (get_at other c i e)

next_add :
    (key : ℕ) (bnr : List ℕ) (c : BnrCache) → (bnr_cache_add key bnr c).next_index < bnr_cache_size
unfolding bnr_cache_add
next_add key bnr c = omega arith

add-WellFormed :
    (key : ℕ) (bnr : List ℕ) (c : BnrCache) → WellFormed c → WellFormed (bnr_cache_add key bnr c)
add-WellFormed key bnr c w = record {
  next = next_add key bnr c;
  placed = λ i lt. elim (Bool-cases (i == c.next_index)) [
    | inl here ↦ (λ v.
        (let z = (==_iff _ _).0 here in
          ap (λ j. ((bnr_cache_add key bnr c).entries j).aram_offset) z
          ∙ ap (λ (x : BnrCacheEntry). x.aram_offset) (added_here key bnr c)
          ∙ ap offset_of (sym z)))
    | inr gone ↦
        (let same = added_other key bnr c i (λ z. ground arith) in
          λ v.
            ap (λ (x : BnrCacheEntry). x.aram_offset) same
            ∙ w.placed i lt (sym (ap (λ (x : BnrCacheEntry). x.valid) same) ∙ v))
  ];
}

-- After a put of a banner of the right size under a key that no entry of a well-formed cache holds, a
-- get of the key gives that banner.
pub bnr_cache_put-get :
    (key : ℕ) (bnr : List ℕ) (c : BnrCache)
    → WellFormed c
    → length bnr ≡ bnr_size
    → ((i : ℕ) → i < bnr_cache_size → holds c.entries key i ≡ false)
    → bnr_cache_get key (bnr_cache_put key bnr c) ≡ some bnr
bnr_cache_put-get key bnr c w whole absent =
    let next = w.next in
    let at =
      find-First (holds (bnr_cache_add key bnr c).entries key) bnr_cache_size 0 c.next_index
        (record {
          from = omega arith;
          below = omega arith;
          passes = rw (added_here key bnr c) (ground arith);
          earlier = λ j lo hi.
              (let other = absent j (omega arith) in
                let same = added_other key bnr c j (omega arith) in
                ap (λ (x : BnrCacheEntry). x.valid && x.key == key) same ∙ other);
        }) in
    ap (bnr_cache_get key) (put_absent key bnr c (none_found key c absent))
    ∙ get_at key (bnr_cache_add key bnr c) c.next_index at
    ∙ ap (λ (x : BnrCacheEntry). some (bnr_cache_load (bnr_cache_add key bnr c).aram x.aram_offset))
        (added_here key bnr c)
    ∙ ap some (load_here key bnr c whole)

-- A put into a well-formed cache of a banner of the right size does not change what a get of another
-- key gives, when that key's entry is not the one whose turn it is to go.
pub bnr_cache_put_other :
    (key other : ℕ) (bnr : List ℕ) (c : BnrCache) (i : ℕ)
    → WellFormed c
    → length bnr ≡ bnr_size
    → find (holds c.entries other) bnr_cache_size 0 ≡ some i
    → i ≢ c.next_index
    → other ≢ key
    → bnr_cache_get other (bnr_cache_put key bnr c) ≡ bnr_cache_get other c
bnr_cache_put_other key other bnr c i w whole e far new =
    elim (find_lem (holds c.entries key) bnr_cache_size 0) [
      | inl (k, q, h) ↦ ap (bnr_cache_get other) (put_present key bnr c k q)
      | inr (q, absent) ↦
          ap (bnr_cache_get other) (put_absent key bnr c q)
          ∙ kept_by_add key other bnr c i w whole e far new
    ]

-- A put into a well-formed cache leaves it well-formed: each entry in use at its own offset, and the
-- next to go one of the 1024.
bnr_cache_put-WellFormed :
    (key : ℕ) (bnr : List ℕ) (c : BnrCache) → WellFormed c → WellFormed (bnr_cache_put key bnr c)
bnr_cache_put-WellFormed key bnr c w = elim (find_lem (holds c.entries key) bnr_cache_size 0) [
  | inl (k, q, h) ↦ subst WellFormed (sym (put_present key bnr c k q)) w
  | inr (q, absent) ↦ subst WellFormed (sym (put_absent key bnr c q)) (add-WellFormed key bnr c w)
]
