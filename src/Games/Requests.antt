-- ===== src/Games/Requests.antt =====
-- The requests of a bank that have no answer yet, and the assets that wait for them:
-- patches/source/games.c, lines 132 to 345.
use cubiboot.Base.{
  ℕ, some, some_inj, List, [], ◌∷◌, ◌++◌, ◌≡◌, refl, ◌∙◌, sym, ap, subst, Bool-cases, inl, inr, ◌⊎◌,
  arith, ◌==◌, ==_iff, In, Distinct, In-append_cases,
}
use cubiboot.Games.{
  Asset, Bank, LoadState, setup, unloading, loading, Callback, callback_setup, callback_unload,
  callback_load, put, get_buf,
}
use cubiboot.Games.Owned.{slot, Owned, take_slot}
use cubiboot.Games.Pool.{get_buf_lem}

-- The state of an asset whose request waits for its callback.
abbrev pub waiting : Callback → LoadState
waiting callback_setup = setup
waiting callback_unload = unloading
waiting callback_load = loading

abbrev pub entries_of : List (ℕ × Callback) → List ℕ
entries_of [] = []
entries_of ((e, c) ∷ rest) = e ∷ entries_of rest

-- The buffers are owned, each request is of an asset that waits for it, and no asset has two.
abbrev pub Sound : Bank → Type 0
Sound b =
    Owned b.used b.assets
    × ((e : ℕ) (c : Callback) → In (e, c) b.requests → (b.assets e).state ≡ waiting c)
    × Distinct (entries_of b.requests)

-- No request is of an asset that waits for none.
pub not_asked :
    (b : Bank) (e : ℕ)
    → Sound b
    → ((c : Callback) → ¬ ((b.assets e).state ≡ waiting c))
    → ¬ In e (entries_of b.requests)
not_asked b e (own, asked, once) idle = go b.requests asked
  where
    go :
        (rs : List (ℕ × Callback))
        → ((x : ℕ) (c : Callback) → In (x, c) rs → (b.assets x).state ≡ waiting c)
        → ¬ In e (entries_of rs)
    go [] h m = absurd m
    go ((x, c) ∷ rs) h (inl p) = idle c (ap (λ i. (b.assets i).state) p ∙ h x c (inl refl))
    go ((x, c) ∷ rs) h (inr m) = go rs (λ y d n. h y d (inr n)) m

pub entries-In :
    (x : ℕ) (c : Callback) (rs : List (ℕ × Callback)) → In (x, c) rs → In x (entries_of rs)
entries-In x c [] m = absurd m
entries-In x c ((y, d) ∷ rs) (inl p) = inl (ap (λ r. r.0) p)
entries-In x c ((y, d) ∷ rs) (inr m) = inr (entries-In x c rs m)

In-entries_append :
    (x e : ℕ) (c : Callback) (rs : List (ℕ × Callback))
    → In x (entries_of (rs ++ ((e, c) ∷ [])))
    → In x (entries_of rs) ⊎ (x ≡ e)
In-entries_append x e c [] (inl p) = inr p
In-entries_append x e c [] (inr m) = absurd m
In-entries_append x e c ((y, d) ∷ rs) (inl p) = inl (inl p)
In-entries_append x e c ((y, d) ∷ rs) (inr m) = elim (In-entries_append x e c rs m) [
  | inl n ↦ inl (inr n)
  | inr p ↦ inr p
]

append-Distinct :
    (e : ℕ) (c : Callback) (rs : List (ℕ × Callback))
    → Distinct (entries_of rs)
    → ¬ In e (entries_of rs)
    → Distinct (entries_of (rs ++ ((e, c) ∷ [])))
append-Distinct e c [] h no_e = (λ m. m, h)
append-Distinct e c ((y, d) ∷ rs) (fresh, h) no_e = (
  λ m. elim (In-entries_append y e c rs m) [ inl n ↦ fresh n | inr p ↦ no_e (inl (sym p)) ],
  append-Distinct e c rs h (λ m. no_e (inr m)),
)

-- An idle asset takes a buffer and posts a request.
pub posted :
    (b : Bank) (e k : ℕ) (c : Callback) (a : Asset)
    → Sound b
    → ((d : Callback) → ¬ ((b.assets e).state ≡ waiting d))
    → a.state ≡ waiting c
    → slot a ≡ some k
    → (get_buf b.used).0 ≡ some k
    → Sound (record {
      used = (get_buf b.used).1;
      assets = put b.assets e a;
      requests = b.requests ++ ((e, c) ∷ []);
    })
posted b e k c a (own, asked, once) idle waits has got = elim (get_buf_lem b.used) [
  | inl (no_one, all) ↦ absurd (cc (no_one, got))
  | inr (j, found, lt, free, used', count) ↦
      (let same : j ≡ k = some_inj.0 (sym found ∙ got) in
        (
          subst (λ u. Owned u (put b.assets e a)) (sym used')
              (take_slot b.used b.assets e j a own (has ∙ ap some (sym same)) lt free),
          asked',
          append-Distinct e c b.requests once fresh,
        ))
]
  where
    fresh : ¬ In e (entries_of b.requests)
    fresh = not_asked b e (own, asked, once) idle

    asked' :
        (x : ℕ) (d : Callback)
        → In (x, d) (b.requests ++ ((e, c) ∷ []))
        → (put b.assets e a x).state ≡ waiting d
    asked' x d m = elim (In-append_cases (x, d) b.requests ((e, c) ∷ []) m) [
      | inl n ↦ elim (Bool-cases (x == e)) [
        | inl p ↦ absurd (
            fresh (
              subst (λ i. In i (entries_of b.requests)) ((==_iff x e).0 p)
                (entries-In x d b.requests n)))
        | inr p ↦ rw p (asked x d n)
      ]
      | inr n ↦ elim n [
        | inl q ↦ elim (Bool-cases (x == e)) [
          | inl p ↦ rw p (waits ∙ ap (λ r. waiting r.1) (sym q))
          | inr p ↦ absurd (ground (arith, p, ap (λ r. r.0) q))
        ]
        | inr none_left ↦ absurd none_left
      ]
    ]
