-- ===== src/Cache/Links/Search.antt =====
-- What `dvm_cache_search` finds.
use cubiboot.Base.{
  ℕ, zero, suc, ◌≤◌, ◌<◌, ◌&&◌, Option, none, some, List, [], ◌∷◌, ◌≡◌, refl, ◌⊎◌, inl, inr, ltb,
  ◌==◌, arith, In, All, length, Bool-cases, ==_iff,
}
use cubiboot.Cache.Links.{Entry, Links, empty_page, bases, search_from, search}
use cubiboot.Cache.Links.Chain.{Chain, Ordered}

-- The unused entries stand behind those in use.
abbrev pub EmptyTail : (ℕ → ℕ) → List ℕ → Type 0
EmptyTail b [] = Unit
EmptyTail b (x ∷ xs) = (b x ≡ empty_page → All (λ j. b j ≡ empty_page) xs) × EmptyTail b xs

-- No entry in use has a base sector from `page` up to `lim`.
abbrev pub Clear : (ℕ → ℕ) → List ℕ → ℕ → ℕ → Type 0
Clear b xs page lim = All (λ j. (b j ≡ empty_page) ⊎ ((b j < page) ⊎ (lim ≤ b j))) xs

-- The entry in use with the least base sector from `page` on, or none if there is none.
abbrev pub Nearest : (ℕ → ℕ) → List ℕ → ℕ → Option ℕ → Type 0
Nearest b xs page none = Clear b xs page empty_page
Nearest b xs page (some i) = In i xs × (page ≤ b i) × (b i < empty_page) × Clear b xs page (b i)

-- What the loop leaves in `r`, from `min_sec` and `ret`.
data Outcome (b : ℕ → ℕ) (xs : List ℕ) (page min_sec : ℕ) (ret r : Option ℕ) : Type 0 where
  hit : (i : ℕ) → r ≡ some i → In i xs → b i ≡ page → Outcome b xs page min_sec ret r
  kept : r ≡ ret → Clear b xs page min_sec → Outcome b xs page min_sec ret r
  nearer :
      (i : ℕ)
      → r ≡ some i
      → In i xs
      → page < b i
      → b i < min_sec
      → Clear b xs page (b i)
      → Outcome b xs page min_sec ret r

Clear-of_empty :
    (b : ℕ → ℕ) (xs : List ℕ) (page lim : ℕ) → All (λ j. b j ≡ empty_page) xs → Clear b xs page lim
Clear-of_empty b [] page lim h = tt
Clear-of_empty b (x ∷ xs) page lim h = (inl h.0, Clear-of_empty b xs page lim h.1)

-- One more entry in front, nearer than all found before.
Outcome_nearer :
    (b : ℕ → ℕ) (x : ℕ) (xs : List ℕ) (page min_sec : ℕ) (ret r : Option ℕ)
    → page < b x
    → b x < min_sec
    → Outcome b xs page (b x) (some x) r
    → Outcome b (x ∷ xs) page min_sec ret r
Outcome_nearer b x xs page m ret r lo hi (hit i q k h) = hit i q (inr k) h
Outcome_nearer b x xs page m ret r lo hi (kept q c) =
    nearer x q (inl refl) lo hi (inr (inr (omega arith)), c)
Outcome_nearer b x xs page m ret r lo hi (nearer i q k above below c) =
    nearer i q (inr k) above (omega arith) (inr (inr (omega arith)), c)

-- One more entry in front that is no nearer.
Outcome_other :
    (b : ℕ → ℕ) (x : ℕ) (xs : List ℕ) (page min_sec : ℕ) (ret r : Option ℕ)
    → ((b x < page) ⊎ (min_sec ≤ b x))
    → Outcome b xs page min_sec ret r
    → Outcome b (x ∷ xs) page min_sec ret r
Outcome_other b x xs page m ret r far (hit i q k h) = hit i q (inr k) h
Outcome_other b x xs page m ret r far (kept q c) = kept q (inr far, c)
Outcome_other b x xs page m ret r far (nearer i q k above below c) =
    nearer i q (inr k) above below (inr (elim far [ inl h ↦ inl h | inr h ↦ inr (omega arith) ]), c)

search_from-Outcome :
    (f : ℕ) (e : ℕ → Entry) (xs : List ℕ) (pv p : Option ℕ) (page m : ℕ) (ret : Option ℕ)
    → Chain e pv p xs
    → EmptyTail (bases e) xs
    → length xs ≤ f
    → Outcome (bases e) xs page m ret (search_from f e p page m ret)
unfolding search_from
search_from-Outcome zero e [] pv p page m ret c t h = kept refl tt
search_from-Outcome (suc f) e [] pv p page m ret c t h = rw c (kept refl tt)
search_from-Outcome zero e (x ∷ xs) pv p page m ret c t h = absurd (omega arith)
search_from-Outcome (suc f) e (x ∷ xs) pv p page m ret c t h =
    rw c.0 (elim (Bool-cases (bases e x == empty_page)) [
      | inl unused ↦ rw unused (
          kept refl
            (inl ((==_iff _ _).0 unused), Clear-of_empty b xs page m (t.0 ((==_iff _ _).0 unused))))
      | inr used ↦ rw used (elim (Bool-cases (bases e x == page)) [
        | inl same ↦ rw same (hit x refl (inl refl) ((==_iff _ _).0 same))
        | inr diff ↦ rw diff (elim (Bool-cases (ltb page (bases e x) && ltb (bases e x) m)) [
          | inl near ↦ rw near (
              Outcome_nearer b x xs page m ret _ (ground arith) (ground arith) (
                search_from-Outcome f e xs (some x) (e x).next page (bases e x) (some x) c.2 t.1
                  (omega arith)))
          | inr far ↦ rw far (
              Outcome_other b x xs page m ret _ (ground arith)
                (search_from-Outcome f e xs (some x) (e x).next page m ret c.2 t.1 (omega arith)))
        ])
      ])
    ])
  where
    b : ℕ → ℕ
    b = bases e

pub Clear-at : (b : ℕ → ℕ) (xs : List ℕ) (page : ℕ) → Clear b xs page page
Clear-at b [] page = tt
Clear-at b (x ∷ xs) page = (inr (ground arith), Clear-at b xs page)

Nearest-of :
    (b : ℕ → ℕ) (xs : List ℕ) (page : ℕ) (r : Option ℕ)
    → page < empty_page
    → Outcome b xs page empty_page none r
    → Nearest b xs page r
Nearest-of b xs page r h (hit i q k here) =
    rw q (k, omega arith, omega arith, rw here (Clear-at b xs page))
Nearest-of b xs page r h (kept q c) = rw q c
Nearest-of b xs page r h (nearer i q k above below c) = rw q (k, omega arith, below, c)

-- On a list whose unused entries stand last, a search for a page returns the entry in use with
-- the least base sector from that page on: the page's own entry, if it has one.
pub search-Nearest :
    (pages : ℕ) (l : Links) (xs : List ℕ) (page : ℕ)
    → Ordered l xs
    → EmptyTail (bases l.entries) xs
    → length xs ≤ pages
    → page < empty_page
    → Nearest (bases l.entries) xs page (search pages l page)
unfolding search
search-Nearest pages l xs page o t h lt =
    Nearest-of (bases l.entries) xs page _ lt
      (search_from-Outcome pages l.entries xs none l.first page empty_page none o.chain t h)
