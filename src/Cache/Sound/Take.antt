-- ===== src/Cache/Sound/Take.antt =====
-- The entry that a fill takes, and the one that it gives up when the device refuses.
use cubiboot.Base.{
  ℕ, ◌%◌, ◌^◌, ◌<◌, ◌≤◌, Bool, true, false, Option, none, some, List, [], ◌∷◌, ◌++◌, ◌≡◌, ◌≢◌, refl,
  sym, ap, ◌⊎◌, inl, inr, ◌==◌, arith, In, In-append_left, length, subst, Distinct, All_at, span,
}
use cubiboot.Cache.Device.{BlockDevice}
use cubiboot.Cache.Held.Medium.{overwrite-span}
use cubiboot.Cache.Held.{Held, Held-take, Held-drop}
use cubiboot.Cache.Links.Chain.{Ordered, set_base-Ordered}
use cubiboot.Cache.Links.Evict.{Victim, evict-Victim}
use cubiboot.Cache.Links.Promote.{promote-Ordered, Distinct-move}
use cubiboot.Cache.Links.{Links, empty_page, bases, set_base, promote, evict}
use cubiboot.Cache.Sound.{Valid, Coherent, bases-promote, length_move}
use cubiboot.Cache.State.{Cache, put_page}

-- If the answer of the search is not the page itself, no entry holds the page.
pub not_cached :
    (b : ℕ → ℕ) (xs : List ℕ) (page : ℕ) (p : Option ℕ) (sb : ℕ)
    → Valid b xs page p sb
    → (elim p as (λ _. Bool) [ none ↦ false | some i ↦ b i == page ]) ≡ false
    → page < empty_page
    → (j : ℕ) → In j xs
    → b j ≢ empty_page
    → b j ≢ page
not_cached b xs page none sb v h lt j m live e =
    elim (All_at (λ t. (b t ≡ empty_page) ⊎ ((b t < page) ⊎ (empty_page ≤ b t))) xs v.1 m) [
      | inl unused ↦ live unused
      | inr (inl below) ↦ omega arith
      | inr (inr above) ↦ omega arith
    ]
not_cached b xs page (some i) sb v h lt j m live e =
    elim (All_at (λ t. (b t ≡ empty_page) ⊎ ((b t < page) ⊎ (b i ≤ b t))) xs v.1.3 m) [
      | inl unused ↦ live unused
      | inr (inl below) ↦ omega arith
      | inr (inr above) ↦ let far : b i ≢ page = λ g. ground arith in let at = v.1.1 in omega arith
    ]

pub evict-some :
    (pages : ℕ) (l : Links) (xs : List ℕ)
    → Ordered l xs
    → 0 < length xs
    → (i : ℕ) × (evict pages l ≡ some i) × Victim l.entries xs i
evict-some pages l [] o h = absurd (omega arith)
evict-some pages l (x ∷ xs) o h = evict-Victim pages l x xs o

module _ {Sector : Type 0} (dev : BlockDevice Sector) (pages pdrv : ℕ) where
  open dev use {Drive, contents, read_raw, read_gives, read_keeps}

  -- The state when the device has filled the page of entry `q`.
  pub Coherent-take :
      (c : Cache Sector) (d d' : Drive) (xs : List ℕ) (q page : ℕ) (got : List Sector)
      → Coherent dev pages pdrv c d xs
      → Victim c.links.entries xs q
      → contents d' ≡ contents d
      → (page % 4 ≡ 0) × (page < 2 ^ 32)
      → ((j : ℕ) → In j xs → bases c.links.entries j ≢ empty_page → bases c.links.entries j ≢ page)
      → got ≡ span (contents d pdrv) page 4
      → (xs' : List ℕ) × Coherent dev pages pdrv
          (record c {
            links = promote (set_base c.links q page) q;
            pages_data = put_page c.pages_data q 0 got;
          })
          d'
          xs'
        × In q xs'
  Coherent-take c d d' xs q page got h v kept fits new filled = (
    q ∷ (ws ++ zs),
    record {
      ordered = promote-Ordered (set_base c.links q page) ws q zs (
          subst (Ordered (set_base c.links q page)) v.splits
            (set_base-Ordered c.links q page xs h.ordered));
      bounded = omega (arith, length_move dev ws q zs, h.bounded, same_length);
      inhabited = omega arith;
      owner = h.owner;
      enabled = h.enabled;
      held =
          subst (λ m. Held b'' pd' (m pdrv) (q ∷ (ws ++ zs))) (sym kept)
            (subst (λ b. Held b pd' (contents d pdrv) (q ∷ (ws ++ zs)))
              (sym (bases-promote dev (set_base c.links q page) q))
              (Held-take (bases c.links.entries) b' c.pages_data pd' (contents d pdrv) ws q zs page
                (subst (Held (bases c.links.entries) c.pages_data (contents d pdrv)) v.splits
                  h.held)
                (Distinct-move ws q zs (subst Distinct v.splits h.ordered.distinct)).0
                (λ j k. (ground arith, ground arith)) (ground arith) fits
                (λ j m. new j (subst (In j) (sym v.splits) m))
                (λ k lt.
                  let own : (q == q) ≡ true = ground arith in
                  rw (own, filled)
                    (overwrite-span (c.pages_data q) (contents d pdrv) 0 page 4 k k lt
                      (omega arith)))));
    },
    inl refl,
  )
    where
      ws : List ℕ
      ws = v.front

      zs : List ℕ
      zs = v.back

      b' : ℕ → ℕ
      b' = bases (set_base c.links q page).entries

      b'' : ℕ → ℕ
      b'' = bases (promote (set_base c.links q page) q).entries

      pd' : ℕ → ℕ → Sector
      pd' = put_page c.pages_data q 0 got

      same_length : length xs ≡ length (ws ++ q ∷ zs)
      same_length = ap length v.splits

  -- The state when the device refused, and the entry is given up.
  pub Coherent-drop :
      (c : Cache Sector) (d d' : Drive) (xs : List ℕ) (q page : ℕ) (got : List Sector)
      → Coherent dev pages pdrv c d xs
      → Victim c.links.entries xs q
      → contents d' ≡ contents d
      → Coherent dev pages pdrv
          (record c {
            links = set_base (set_base c.links q page) q empty_page;
            pages_data = put_page c.pages_data q 0 got;
          })
          d'
          xs
  Coherent-drop c d d' xs q page got h v kept = record {
    ordered =
        set_base-Ordered (set_base c.links q page) q empty_page xs
          (set_base-Ordered c.links q page xs h.ordered);
    bounded = h.bounded;
    inhabited = h.inhabited;
    owner = h.owner;
    enabled = h.enabled;
    held = subst (Held b' pd' (contents d' pdrv)) (sym v.splits) (
        subst (λ m. Held b' pd' (m pdrv) (v.front ++ q ∷ v.back)) (sym kept)
          (Held-drop (bases c.links.entries) b' c.pages_data pd' (contents d pdrv) v.front q v.back
            (subst (Held (bases c.links.entries) c.pages_data (contents d pdrv)) v.splits h.held)
            (λ m.
              (Distinct-move v.front q v.back (subst Distinct v.splits h.ordered.distinct)).0
                (In-append_left q v.front v.back m))
            v.unused (λ j k. (ground arith, ground arith)) (ground arith)));
  }
    where
      b' : ℕ → ℕ
      b' = bases (set_base (set_base c.links q page) q empty_page).entries

      pd' : ℕ → ℕ → Sector
      pd' = put_page c.pages_data q 0 got
