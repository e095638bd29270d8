-- ===== src/Banners/Find.antt =====
-- The first entry that passes a test.
use cubiboot.Base.{
  ℕ, zero, suc, ◌+◌, ◌≤◌, ◌<◌, Bool, true, false, none, some, ◌≡◌, refl, ◌⊎◌, inl, inr, Bool-cases,
  arith, sym, ◌∙◌, ◌==◌, ==_iff, ◌≢◌, ap,
}
use cubiboot.Banners.{find}

-- `i` is the first from `s` on, below `e`.
pub record First (test : ℕ → Bool) (s e i : ℕ) : Type 0 where
  pub from : s ≤ i
  pub below : i < e
  pub passes : test i ≡ true
  pub earlier : (j : ℕ) → s ≤ j → j < i → test j ≡ false

find_skip :
    (test : ℕ → Bool) (left s : ℕ)
    → test s ≡ false
    → find test (suc left) s ≡ find test left (s + 1)
unfolding find
find_skip test left s e = rw e

find_here : (test : ℕ → Bool) (left s : ℕ) → test s ≡ true → find test (suc left) s ≡ some s
unfolding find
find_here test left s e = rw e

-- The loop finds the first, when there is one.
pub find-First :
    (test : ℕ → Bool) (left s i : ℕ) → First test s (s + left) i → find test left s ≡ some i
find-First test zero s i h = let a = h.from in let b = h.below in absurd (omega arith)
find-First test (suc left) s i h = elim (Bool-cases (s == i)) [
  | inl here ↦ (let at = (==_iff s i).0 here in rw at (find_here test left i h.passes))
  | inr gone ↦
      (let a = h.from in
        let b = h.below in
        let far : s ≢ i = λ g. ground arith in
        find_skip test left s (h.earlier s (omega arith) (omega arith))
        ∙ find-First test left (s + 1) i (record {
          from = omega arith;
          below = omega arith;
          passes = h.passes;
          earlier = λ j lo hi. h.earlier j (omega arith) hi;
        }))
]

-- Whatever the loop finds is the first, and when it finds nothing all entries fail.
pub find_lem :
    (test : ℕ → Bool) (left s : ℕ)
    → ((i : ℕ) × (find test left s ≡ some i) × First test s (s + left) i)
      ⊎ ((find test left s ≡ none) × ((j : ℕ) → s ≤ j → j < s + left → test j ≡ false))
unfolding find
find_lem test zero s = inr (refl, λ j lo hi. absurd (omega arith))
find_lem test (suc left) s = elim (Bool-cases (test s)) [
  | inl e ↦ inl (
    s,
    find_here test left s e,
    record {
      from = omega arith;
      below = omega arith;
      passes = e;
      earlier = λ j lo hi. absurd (omega arith);
    },
  )
  | inr e ↦ elim (find_lem test left (s + 1)) [
    | inl (i, q, h) ↦
        (let a = h.from in
          let b = h.below in
          inl (
            i,
            find_skip test left s e ∙ q,
            record {
              from = omega arith;
              below = omega arith;
              passes = h.passes;
              earlier = λ j lo hi. elim (Bool-cases (s == j)) [
                | inl here ↦ ap test (sym ((==_iff s j).0 here)) ∙ e
                | inr gone ↦ (let far : s ≢ j = λ g. ground arith in h.earlier j (omega arith) hi)
              ];
            },
          ))
    | inr (q, h) ↦ inr (
      find_skip test left s e ∙ q,
      λ j lo hi. elim (Bool-cases (s == j)) [
        | inl here ↦ ap test (sym ((==_iff s j).0 here)) ∙ e
        | inr gone ↦ (let far : s ≢ j = λ g. ground arith in h j (omega arith) (omega arith))
      ],
    )
  ]
]
