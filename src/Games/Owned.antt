-- ===== src/Games/Owned.antt =====
-- Who owns the buffers of a bank: the loads, frees and callbacks of patches/source/games.c, lines 132 to
-- 345 and 664 to 678, in the order in which the program means to make them.
use cubiboot.Base.{
  ℕ, ◌<◌, Bool, true, false, Option, none, some, some_inj, ◌≡◌, refl, ◌∙◌, sym, ap, Bool-cases, inl,
  inr, ◌⊎◌, arith, ◌==◌, ==_iff, if◌then◌else◌,
}
use cubiboot.Games.{
  Asset, LoadState, state_none, setup, unloaded, unloading, loading, loaded, put,
  asset_buffer_count,
}

-- The states in which an asset has a buffer of its own.
abbrev pub holding : LoadState → Bool
holding state_none = false
holding setup = true
holding unloaded = false
holding unloading = true
holding loading = true
holding loaded = true

abbrev pub slot : Asset → Option ℕ
slot a = if holding a.state then a.buf else none

-- A buffer that an asset has is one of the pool and in use, no two assets have the same, and an asset
-- in one of those states has one.
abbrev pub Filled : Asset → Type 0
Filled a = (holding a.state ≡ false) ⊎ ((k : ℕ) × (slot a ≡ some k))

abbrev pub Owned : (ℕ → Bool) → (ℕ → Asset) → Type 0
Owned used assets =
    ((e k : ℕ) → slot (assets e) ≡ some k → (k < asset_buffer_count) × (used k ≡ true))
    × ((e f k : ℕ) → slot (assets e) ≡ some k → slot (assets f) ≡ some k → e ≡ f)
    × ((e : ℕ) → Filled (assets e))

put-Filled :
    (assets : ℕ → Asset) (e : ℕ) (a : Asset)
    → ((x : ℕ) → Filled (assets x))
    → Filled a
    → (x : ℕ) → Filled (put assets e a x)
put-Filled assets e a filled h x = elim (Bool-cases (x == e)) [
  | inl p ↦ rw p h
  | inr p ↦ rw p (filled x)
]

-- An asset takes a buffer that was free, gives its buffer back, or keeps what it has.
pub take_slot :
    (used : ℕ → Bool) (assets : ℕ → Asset) (e k : ℕ) (a : Asset)
    → Owned used assets
    → slot a ≡ some k
    → k < asset_buffer_count
    → used k ≡ false
    → Owned (put used k true) (put assets e a)
take_slot used assets e k a (own, apart, filled) h lt free =
    (own', apart', put-Filled assets e a filled (inr (k, h)))
  where
    own' :
        (x j : ℕ)
        → slot (put assets e a x) ≡ some j
        → (j < asset_buffer_count) × (put used k true j ≡ true)
    own' x j = elim (Bool-cases (x == e)) [
      | inl p ↦ rw p (λ q.
          let same : k ≡ j = some_inj.0 (sym h ∙ q) in (omega (arith, same), ground (arith, same)))
      | inr p ↦ rw p (λ q. let (l, u) = own x j q in (l, ground (arith, u)))
    ]

    apart' :
        (x y j : ℕ) → slot (put assets e a x) ≡ some j → slot (put assets e a y) ≡ some j → x ≡ y
    apart' x y j = elim (Bool-cases (x == e)) [
      | inl p ↦ elim (Bool-cases (y == e)) [
        | inl q ↦ λ m n. (==_iff x e).0 p ∙ sym ((==_iff y e).0 q)
        | inr q ↦
            rw (p, q)
              (λ m n.
                let same : k ≡ j = some_inj.0 (sym h ∙ m) in
                let taken = (own y j n).1 in absurd (cc (free, same, taken)))
      ]
      | inr p ↦ elim (Bool-cases (y == e)) [
        | inl q ↦
            rw (p, q)
              (λ m n.
                let same : k ≡ j = some_inj.0 (sym h ∙ n) in
                let taken = (own x j m).1 in absurd (cc (free, same, taken)))
        | inr q ↦ rw (p, q) (λ m n. apart x y j m n)
      ]
    ]

pub keep_slot :
    (used : ℕ → Bool) (assets : ℕ → Asset) (e : ℕ) (a : Asset)
    → Owned used assets
    → slot a ≡ slot (assets e)
    → Filled a
    → Owned used (put assets e a)
keep_slot used assets e a (own, apart, filled) h full = (
  λ x k m. own x k (sym (slots x) ∙ m),
  λ x y k m n. apart x y k (sym (slots x) ∙ m) (sym (slots y) ∙ n),
  put-Filled assets e a filled full,
)
  where
    slots : (x : ℕ) → slot (put assets e a x) ≡ slot (assets x)
    slots x = elim (Bool-cases (x == e)) [
      | inl p ↦ rw p (h ∙ ap (λ i. slot (assets i)) (sym ((==_iff x e).0 p)))
      | inr p ↦ rw p refl
    ]

pub give_slot :
    (used : ℕ → Bool) (assets : ℕ → Asset) (e k : ℕ) (a : Asset)
    → Owned used assets
    → slot (assets e) ≡ some k
    → slot a ≡ none
    → holding a.state ≡ false
    → Owned (put used k false) (put assets e a)
give_slot used assets e k a (own, apart, filled) had h let_go =
    (own', apart', put-Filled assets e a filled (inl let_go))
  where
    other :
        (x j : ℕ)
        → slot (put assets e a x) ≡ some j
        → (slot (assets x) ≡ some j) × ((x == e) ≡ false)
    other x j = elim (Bool-cases (x == e)) [
      | inl p ↦ rw p (λ m. absurd (cc (h, m)))
      | inr p ↦ rw p (λ m. (m, refl))
    ]

    own' :
        (x j : ℕ)
        → slot (put assets e a x) ≡ some j
        → (j < asset_buffer_count) × (put used k false j ≡ true)
    own' x j m =
        let (was, away) = other x j m in
        let (l, u) = own x j was in
        elim (Bool-cases (j == k)) [
          | inl p ↦
              (let same = apart x e k (was ∙ ap some ((==_iff j k).0 p)) had in
                absurd (ground (arith, same, away)))
          | inr p ↦ (l, rw p u)
        ]

    apart' :
        (x y j : ℕ) → slot (put assets e a x) ≡ some j → slot (put assets e a y) ≡ some j → x ≡ y
    apart' x y j m n = apart x y j (other x j m).0 (other y j n).0
