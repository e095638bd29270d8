-- ===== src/Cache/Links/Evict.antt =====
-- Which entry `dvm_cache_evict` takes.
use cubiboot.Base.{
  ℕ, zero, suc, ◌&&◌, Option, none, some, List, [], ◌∷◌, ◌++◌, ◌≡◌, refl, sym, ap, ◌∙◌, ◌⊎◌, inl,
  inr, ◌==◌, arith, All, Bool-cases, append_assoc, subst, some_inj, Option-cases,
}
use cubiboot.Cache.Links.{Entry, Links, empty_page, bases, evict_from, evict}
use cubiboot.Cache.Links.Chain.{Chain, Ordered, last_of}

-- Entry `i` stands in the list with only unused entries behind it, and is the last one unless it is
-- unused itself.
pub record Victim (e : ℕ → Entry) (xs : List ℕ) (i : ℕ) : Type 0 where
  pub front : List ℕ
  pub back : List ℕ
  pub splits : xs ≡ front ++ i ∷ back
  pub unused : All (λ j. bases e j ≡ empty_page) back
  pub least : (back ≡ []) ⊎ (bases e i ≡ empty_page)

prev_lem :
    (e : ℕ → Entry) (pv p : Option ℕ) (ws : List ℕ) (i : ℕ) (zs : List ℕ)
    → Chain e pv p (ws ++ i ∷ zs)
    → (e i).prev ≡ last_of pv ws
prev_lem e pv p [] i zs c = c.1
prev_lem e pv p (w ∷ ws) i zs c = prev_lem e (some w) (e w).next ws i zs c.2

snoc_split :
    (d : Option ℕ) (x : ℕ) (xs : List ℕ)
    → (ws : List ℕ) × (i : ℕ) × (x ∷ xs ≡ ws ++ i ∷ []) × (last_of d (x ∷ xs) ≡ some i)
snoc_split d x [] = ([], x, refl, refl)
snoc_split d x (y ∷ xs) =
    let (ws, i, e, h) = snoc_split (some x) y xs in (x ∷ ws, i, ap (◌∷◌ x) e, h)

-- The entry in front, where there is one.
front_split :
    (ws : List ℕ) (q : ℕ) → last_of none ws ≡ some q → (ws' : List ℕ) × (ws ≡ ws' ++ q ∷ [])
front_split [] q h = cc
front_split (w ∷ ws) q h =
    let (ws', i, e, g) = snoc_split none w ws in
    (ws', e ∙ ap (λ k. ws' ++ k ∷ []) (some_inj.0 (sym g ∙ h)))

Victim_step :
    (e : ℕ → Entry) (ws : List ℕ) (p : ℕ) (zs : List ℕ) (q : ℕ)
    → (first : Option ℕ) → Chain e none first (ws ++ p ∷ zs)
    → (e p).prev ≡ some q
    → (ws' : List ℕ) × (ws ++ p ∷ zs ≡ ws' ++ q ∷ p ∷ zs)
Victim_step e ws p zs q first c h =
    let (ws', g) = front_split ws q (sym (prev_lem e none first ws p zs c) ∙ h) in
    (ws', ap (λ k. k ++ p ∷ zs) g ∙ append_assoc ws' (q ∷ []) (p ∷ zs))

evict_from-Victim :
    (f : ℕ) (e : ℕ → Entry) (first : Option ℕ) (ws : List ℕ) (p : ℕ) (zs : List ℕ)
    → Chain e none first (ws ++ p ∷ zs)
    → All (λ j. bases e j ≡ empty_page) zs
    → ((zs ≡ []) ⊎ ((e p).base_sector ≡ empty_page))
    → Victim e (ws ++ p ∷ zs) (evict_from f e p)
unfolding evict_from
evict_from-Victim zero e first ws p zs c u h = record {
  front = ws;
  back = zs;
  splits = refl;
  unused = u;
  least = h;
}
evict_from-Victim (suc f) e first ws p zs c u h = elim (Option-cases (e p).prev) [
  | inl g ↦
      rw (g, evict_from) (record { front = ws; back = zs; splits = refl; unused = u; least = h })
  | inr (q, g) ↦
      rw (g, evict_from)
        (elim (Bool-cases ((e p).base_sector == empty_page && (e q).base_sector == empty_page)) [
          | inr stop ↦
              rw stop (record { front = ws; back = zs; splits = refl; unused = u; least = h })
          | inl both ↦ rw both (
              let (ws', split) = Victim_step e ws p zs q first c g in
              rw split (
                evict_from-Victim f e first ws' q (p ∷ zs) (subst (Chain e none first) split c)
                  (ground arith, u) (inr (ground arith))))
        ])
]

-- On a list with an entry, eviction returns an entry with only unused ones behind it, which is the
-- least recently used one unless it is itself unused.
pub evict-Victim :
    (pages : ℕ) (l : Links) (x : ℕ) (xs : List ℕ)
    → Ordered l (x ∷ xs)
    → (i : ℕ) × (evict pages l ≡ some i) × Victim l.entries (x ∷ xs) i
unfolding evict
evict-Victim pages l x xs o =
    let (ws, p, split, last) = snoc_split none x xs in
    (
      evict_from pages l.entries p,
      rw (o.ends ∙ last),
      rw split (
          evict_from-Victim pages l.entries l.first ws p []
            (subst (Chain l.entries none l.first) split o.chain) tt (inl refl)),
    )
