-- ===== src/Paths/Suffix.antt =====
-- `FileSuffix` finds the suffix of the last component of a path.
use cubiboot.Base.{
  ℕ, zero, suc, ◌-◌, ◌≤◌, ◌<◌, Bool, true, false, not, ◌&&◌, ◌||◌, List, ◌≡◌, ◌≢◌, refl, ◌⊎◌, inl,
  inr, Bool-cases, arith, ltb, ◌==◌, if◌then◌else◌, length, sym, ◌∙◌, ap, subst, ==_iff,
}
use cubiboot.Paths.{dot, char_at, is_separator, scan, file_suffix}

-- A dot or a separator stops the loop.
abbrev stops : ℕ → Bool
stops c = c == dot || is_separator c

-- The suffix of `path` starts at index `r`: a dot that is neither first nor last in the path, with no
-- separator in front of it, and neither a dot nor a separator behind it.
pub record SuffixAt (path : List ℕ) (r : ℕ) : Type 0 where
  pub inside : 0 < r
  pub more : r < length path - 1
  pub is_dot : char_at path r ≡ dot
  pub named : is_separator (char_at path (r - 1)) ≡ false
  pub last :
      (j : ℕ)
      → r < j
      → j < length path
      → (char_at path j == dot || is_separator (char_at path j)) ≡ false

-- Above the index that the loop stops at, nothing stops it, and the index itself does, or is 0.
scan_lem :
    (p : ℕ → ℕ) (i : ℕ)
    → (scan p i ≤ i)
      × ((j : ℕ) → scan p i < j → j ≤ i → stops (p j) ≡ false)
      × ((scan p i ≡ 0) ⊎ (stops (p (scan p i)) ≡ true))
unfolding scan
scan_lem p zero = (omega arith, (λ j lo hi. absurd (omega arith)), inl refl)
scan_lem p (suc i) = elim (Bool-cases (stops (p (suc i)))) [
  | inl e ↦ rw e (omega arith, (λ j lo hi. absurd (omega arith)), inr e)
  | inr e ↦
      (let (le, above, end) = scan_lem p i in
        rw e (
          omega arith,
          (λ j lo hi. elim (Bool-cases (j == suc i)) [
            | inl z ↦ ap (λ k. stops (p k)) ((==_iff j (suc i)).0 z) ∙ e
            | inr far ↦ (let apart : j ≢ suc i = λ q. ground arith in above j lo (omega arith))
          ]),
          end,
        ))
]

-- The loop stops at the last index that stops it.
scan_last :
    (p : ℕ → ℕ) (i r : ℕ)
    → r ≤ i
    → stops (p r) ≡ true
    → ((j : ℕ) → r < j → j ≤ i → stops (p j) ≡ false)
    → scan p i ≡ r
unfolding scan
scan_last p zero r le e above = omega arith
scan_last p (suc i) r le e above = elim (Bool-cases (r == suc i)) [
  | inl z ↦ (let at = (==_iff r (suc i)).0 z in rw (sym at, e) refl)
  | inr far ↦
      (let apart : r ≢ suc i = λ q. ground arith in
        let skip = above (suc i) (omega arith) (omega arith) in
        rw skip (scan_last p i r (omega arith) e (λ j lo hi. above j lo (omega arith))))
]

file_suffix_of : (path : List ℕ) (r : ℕ) → SuffixAt path r → file_suffix path ≡ r
unfolding file_suffix
file_suffix_of path r h =
    let inside = h.inside in
    let more = h.more in
    let at =
      scan_last (char_at path) (length path - 1) r (omega arith) (let d = h.is_dot in ground arith)
        (λ j lo hi. h.last j lo (omega arith)) in
    let d = h.is_dot in let named = h.named in rw at (ground arith)

-- Where the loop stops, and the test behind it.
abbrev stopped : List ℕ → ℕ
stopped path = scan (char_at path) (length path - 1)

abbrev is_suffix : List ℕ → ℕ → Bool
is_suffix path i =
    ltb 0 i
    && ltb i (length path - 1)
    && char_at path i == dot
    && not (is_separator (char_at path (i - 1)))

file_suffix_lem :
    (path : List ℕ)
    → file_suffix path ≡ (if is_suffix path (stopped path) then stopped path else length path)
unfolding file_suffix
file_suffix_lem path = refl

stopped-SuffixAt :
    (path : List ℕ) (i : ℕ)
    → is_suffix path i ≡ true
    → ((j : ℕ) → i < j → j ≤ length path - 1 → stops (char_at path j) ≡ false)
    → SuffixAt path i
stopped-SuffixAt path i e above = record {
  inside = ground arith;
  more = ground arith;
  is_dot = ground arith;
  named = ground arith;
  last = λ j lo hi. above j lo (omega arith);
}

-- `FileSuffix` points to the suffix of the path when it has one, and else to its end: the suffix is the
-- part from the last dot of the last component on, where something stands in front of the dot in that
-- component, and something behind it.
pub file_suffix_cases :
    (path : List ℕ)
    → SuffixAt path (file_suffix path)
      ⊎ ((file_suffix path ≡ length path) × ((r : ℕ) → ¬ SuffixAt path r))
file_suffix_cases path = elim (Bool-cases (is_suffix path (stopped path))) [
  | inl e ↦
      (let at : file_suffix path ≡ stopped path =
          file_suffix_lem path ∙ ap (λ b. if b then stopped path else length path) e in
        inl (
          subst (SuffixAt path) (sym at)
            (stopped-SuffixAt path (stopped path) e (scan_lem (char_at path) (length path - 1)).1)))
  | inr e ↦
      (let at : file_suffix path ≡ length path =
          file_suffix_lem path ∙ ap (λ b. if b then stopped path else length path) e in
        inr (
          at,
          λ r h.
              (let same = sym (file_suffix_of path r h) ∙ at in let more = h.more in omega arith),
        ))
]
