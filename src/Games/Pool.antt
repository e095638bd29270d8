-- ===== src/Games/Pool.antt =====
-- The pools of buffers of the game list: patches/source/games.c, lines 67 to 119.
use cubiboot.Base.{
  ℕ, zero, suc, ◌+◌, ◌≤◌, ◌<◌, Bool, true, false, none, some, ◌≡◌, refl, ◌∙◌, ap, Bool-cases, inl,
  inr, ◌⊎◌, arith, ◌==◌, ==_iff,
}
use cubiboot.Games.{first_free, get_buf, count_from, count_buf, put, asset_buffer_count}

first_free_lem :
    (left i : ℕ) (used : ℕ → Bool)
    → ((first_free left i used ≡ none) × (count_from left i used ≡ left))
      ⊎ ((k : ℕ) × (first_free left i used ≡ some k) × (i ≤ k) × (k < i + left) × (used k ≡ false))
unfolding first_free count_from
first_free_lem zero i used = inl (refl, refl)
first_free_lem (suc left) i used = elim (Bool-cases (used i)) [
  | inl e ↦ elim (first_free_lem left (i + 1) used) [
    | inl (no_one, all) ↦ inl (rw (e, first_free) no_one, rw (e, count_from) (omega (arith, all)))
    | inr (k, found, lo, hi, free) ↦
        inr (k, rw (e, first_free) found, omega arith, omega arith, free)
  ]
  | inr e ↦ inr (i, rw (e, first_free) refl, omega arith, omega arith, e)
]

count_skip :
    (left i k : ℕ) (used : ℕ → Bool)
    → k < i
    → count_from left i (put used k true) ≡ count_from left i used
unfolding count_from
count_skip zero i k used h = refl
count_skip (suc left) i k used h =
    let e : (i == k) ≡ false = ground arith in
    rw (e, count_skip left (i + 1) k used (omega arith)) refl

-- A buffer of the range that is marked counts once more.
count_put :
    (left i k : ℕ) (used : ℕ → Bool)
    → i ≤ k
    → k < i + left
    → used k ≡ false
    → count_from left i (put used k true) ≡ count_from left i used + 1
unfolding count_from
count_put zero i k used lo hi free = absurd (omega arith)
count_put (suc left) i k used lo hi free = elim (Bool-cases (i == k)) [
  | inl e ↦
      (let same : i ≡ k = (==_iff i k).0 e in
        let clear : used i ≡ false = ap used same ∙ free in
        rw (e, clear) (omega (arith, count_skip left (i + 1) k used (omega arith))))
  | inr e ↦
      (let rest = count_put left (i + 1) k used (ground arith) (omega arith) free in
        elim (Bool-cases (used i)) [
          | inl u ↦ rw (e, u) (omega (arith, rest))
          | inr u ↦ rw (e, u) rest
        ])
]

-- The allocation of a buffer: it fails, and only when all 128 are in use, or it gives a buffer of the
-- pool that was free and is now in use, one more than before; the others stay as they were.
pub get_buf_lem :
    (used : ℕ → Bool)
    → (((get_buf used).0 ≡ none) × (count_buf used ≡ asset_buffer_count))
      ⊎ ((k : ℕ) × ((get_buf used).0 ≡ some k)
          × (k < asset_buffer_count)
          × (used k ≡ false)
          × ((get_buf used).1 ≡ put used k true)
          × (count_buf (get_buf used).1 ≡ count_buf used + 1))
unfolding get_buf
get_buf_lem used = elim (first_free_lem asset_buffer_count 0 used) [
  | inl (no_one, all) ↦ inl (rw (no_one, get_buf) refl, all)
  | inr (k, found, lo, hi, free) ↦ inr (
    k,
    rw (found, get_buf) refl,
    omega arith,
    free,
    rw (found, get_buf) refl,
    rw (found, get_buf) (count_put asset_buffer_count 0 k used lo hi free),
  )
]
