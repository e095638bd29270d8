-- ===== src/Cache/Links/Reset.antt =====
-- The list that `dvm_cache_reset` builds.
use cubiboot.Base.{
  ℕ, zero, suc, ◌+◌, ◌-◌, ◌≤◌, ◌<◌, ◌&&◌, Option, none, some, List, ◌≡◌, inl, inr, ltb, leb, ◌==◌,
  if◌then◌else◌, arith, In, All, Distinct, span, All-of, ◌∙◌, ap, subst, sym,
}
use cubiboot.Cache.Links.{Entry, Links, empty_page, bases, update, reset_entry, reset_from, reset}
use cubiboot.Cache.Links.Chain.{Chain, Ordered, last_of}

reset_from_lem :
    (pages n i : ℕ) (e : ℕ → Entry) (j : ℕ)
    → reset_from pages n i e j ≡ (if leb i j && ltb j (i + n) then reset_entry pages j else e j)
unfolding reset_from
reset_from_lem pages zero i e j = ground arith
reset_from_lem pages (suc n) i e j =
    ground (arith, reset_from_lem pages n (i + 1) (update e i (reset_entry pages i)) j)

-- The entries from `i` on.
abbrev pub slots : ℕ → ℕ → List ℕ
slots i n = span (λ j. j) i n

abbrev prev_slot : ℕ → Option ℕ
prev_slot i = if i == 0 then none else some (i - 1)

reset-Chain :
    (pages : ℕ) (e : ℕ → Entry) (n i : ℕ)
    → ((j : ℕ) → j < pages → e j ≡ reset_entry pages j)
    → i + n ≡ pages
    → Chain e (prev_slot i) (if ltb i pages then some i else none) (slots i n)
reset-Chain pages e zero i h s = ground arith
reset-Chain pages e (suc n) i h s =
    let rest = reset-Chain pages e n (i + 1) h (omega arith) in
    let ahead : (e i).next ≡ (if ltb (i + 1) pages then some (i + 1) else none) =
      ap (λ (x : Entry). x.next) (h i (omega arith)) in
    let behind : prev_slot (i + 1) ≡ some i = ground arith in
    (
      ground arith,
      ap (λ (x : Entry). x.prev) (h i (omega arith)),
      subst (λ q. Chain e q (e i).next (slots (i + 1) n)) behind
          (subst (λ q. Chain e (prev_slot (i + 1)) q (slots (i + 1) n)) (sym ahead) rest),
    )

pub In-slots : (a i n : ℕ) → In a (slots i n) → (i ≤ a) × (a < i + n)
In-slots a i zero m = absurd m
In-slots a i (suc n) (inl q) = omega arith
In-slots a i (suc n) (inr m) = omega (arith, In-slots a (i + 1) n m)

slots-Distinct : (i n : ℕ) → Distinct (slots i n)
slots-Distinct i zero = tt
slots-Distinct i (suc n) = ((λ m. omega (arith, In-slots i (i + 1) n m)), slots-Distinct (i + 1) n)

last_of-slots : (d : Option ℕ) (i n : ℕ) → last_of d (slots i (suc n)) ≡ some (i + n)
last_of-slots d i zero = ground arith
last_of-slots d i (suc n) = last_of-slots (some i) (i + 1) n ∙ ap some (omega arith)

reset_at :
    (pages : ℕ) (l : Links) (j : ℕ) → j < pages → (reset pages l).entries j ≡ reset_entry pages j
unfolding reset
reset_at pages l j h = ground (arith, reset_from_lem pages pages 0 l.entries j)

-- After a reset of a cache of at least one page all entries are linked in the order of the array.
pub reset-Ordered : (pages : ℕ) (l : Links) → Ordered (reset (suc pages) l) (slots 0 (suc pages))
unfolding reset
reset-Ordered pages l = record {
  chain =
      let here : (if ltb 0 (suc pages) then some 0 else none) ≡ some 0 = ground arith in
      subst
        (λ q. Chain (reset_from (suc pages) (suc pages) 0 l.entries) none q (slots 0 (suc pages)))
        here
        (reset-Chain (suc pages) (reset_from (suc pages) (suc pages) 0 l.entries) (suc pages) 0
          (reset_at (suc pages) l) (omega arith));
  ends = sym (last_of-slots none 0 pages ∙ ap some (omega arith));
  distinct = slots-Distinct 0 (suc pages);
}

-- After a reset no entry is in use.
pub reset_unused :
    (pages : ℕ) (l : Links)
    → All (λ j. bases (reset pages l).entries j ≡ empty_page) (slots 0 pages)
reset_unused pages l = All-of _ (slots 0 pages) λ a m.
    let bound = In-slots a 0 pages m in
    ap (λ (x : Entry). x.base_sector) (reset_at pages l a (omega arith))
