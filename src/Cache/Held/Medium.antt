-- ===== src/Cache/Held/Medium.antt =====
-- Writing a buffer over a medium, and over a page that is a copy of it.
use cubiboot.Base.{
  ℕ, zero, suc, ap, ◌++◌, ◌+◌, ◌≤◌, ◌<◌, List, [], ◌∷◌, ◌≡◌, refl, ◌⊎◌, inl, inr, ◌==◌, arith,
  length, span, Bool-cases, ==_iff, ◌∙◌, fun_ext,
}
use cubiboot.Cache.Device.{overwrite}

module _ {A : Type 0} where
  -- Outside its range a write changes nothing.
  pub overwrite_outside :
      (m : ℕ → A) (s : ℕ) (xs : List A) (q : ℕ)
      → ((q < s) ⊎ (s + length xs ≤ q))
      → overwrite m s xs q ≡ m q
  overwrite_outside m s [] q h = refl
  overwrite_outside m s (x ∷ xs) q h = ground (arith, overwrite_outside m (s + 1) xs q)

  -- A write to a copy is the write to the original, where the two agreed.
  pub overwrite_shift :
      (f m : ℕ → A) (p off s : ℕ) (xs : List A) (k : ℕ)
      → s ≡ p + off
      → f k ≡ m (p + k)
      → overwrite f off xs k ≡ overwrite m s xs (p + k)
  overwrite_shift f m p off s [] k e h = h
  overwrite_shift f m p off s (x ∷ xs) k e h =
      ground (arith, overwrite_shift f m p (off + 1) (s + 1) xs k)

  -- A span written over a page replaces what stood there.
  pub overwrite-span :
      (f m : ℕ → A) (off p n j q : ℕ)
      → j < n
      → q ≡ off + j
      → overwrite f off (span m p n) q ≡ m (p + j)
  overwrite-span f m off p zero j q h e = absurd (omega arith)
  overwrite-span f m off p (suc n) zero q h e = ground arith
  overwrite-span f m off p (suc n) (suc j) q h e =
      let step : p + 1 + j ≡ p + suc j = omega arith in
      ground (arith, overwrite-span f m (off + 1) (p + 1) n j q, ap m step)

  -- A span is read from where it agrees with the medium.
  pub span_frame :
      (f m : ℕ → A) (s p n : ℕ)
      → ((k : ℕ) → k < n → f (s + k) ≡ m (p + k))
      → span f s n ≡ span m p n
  span_frame f m s p zero h = refl
  span_frame f m s p (suc n) h =
      let first : f s ≡ m p = ap f (omega arith) ∙ h 0 (omega arith) ∙ ap m (omega arith) in
      let rest =
        span_frame f m (s + 1) (p + 1) n
          (λ k lt. ap f (omega arith) ∙ h (k + 1) (omega arith) ∙ ap m (omega arith)) in
      cc

  pub span_add : (m : ℕ → A) (s n k t : ℕ) → t ≡ s + n → span m s (n + k) ≡ span m s n ++ span m t k
  span_add m s zero k t e =
      let e' : t ≡ s = omega arith in let z : 0 + k ≡ k = omega arith in rw (z, e')
  span_add m s (suc n) k t e =
      let z : suc n + k ≡ suc (n + k) = omega arith in
      rw z (ap (◌∷◌ (m s)) (span_add m (s + 1) n k t (omega arith)))

  -- A write sees of the medium only what it leaves.
  overwrite_at :
      (f g : ℕ → A) (s : ℕ) (xs : List A) (q : ℕ)
      → f q ≡ g q
      → overwrite f s xs q ≡ overwrite g s xs q
  overwrite_at f g s [] q e = e
  overwrite_at f g s (x ∷ xs) q e = ground (arith, overwrite_at f g (s + 1) xs q e)

  overwrite-append_at :
      (f : ℕ → A) (s : ℕ) (xs ys : List A) (t q : ℕ)
      → t ≡ s + length xs
      → overwrite (overwrite f s xs) t ys q ≡ overwrite f s (xs ++ ys) q
  overwrite-append_at f s [] ys t q e = ap (λ k. overwrite f k ys q) (omega arith)
  overwrite-append_at f s (x ∷ xs) ys t q e = elim (Bool-cases (s == q)) [
    | inl here ↦
        (let at = (==_iff s q).0 here in
          overwrite_outside (overwrite f s (x ∷ xs)) t ys q (inl (omega arith)) ∙ rw here)
    | inr gone ↦
        overwrite_at (overwrite f s (x ∷ xs)) (overwrite f (s + 1) xs) t ys q (rw gone)
        ∙ overwrite-append_at f (s + 1) xs ys t q (omega arith)
        ∙ rw gone
  ]

  -- Two writes that follow on are one.
  pub overwrite-append :
      (f : ℕ → A) (s : ℕ) (xs ys : List A) (t : ℕ)
      → t ≡ s + length xs
      → overwrite (overwrite f s xs) t ys ≡ overwrite f s (xs ++ ys)
  overwrite-append f s xs ys t e = fun_ext λ q. overwrite-append_at f s xs ys t q e

  -- What was just written is read back.
  pub span-overwrite :
      (f : ℕ → A) (s : ℕ) (xs : List A) → span (overwrite f s xs) s (length xs) ≡ xs
  span-overwrite f s [] = refl
  span-overwrite f s (x ∷ xs) =
      let here : overwrite f s (x ∷ xs) s ≡ x = ground arith in
      let rest : span (overwrite f s (x ∷ xs)) (s + 1) (length xs) ≡ xs =
        span_frame (overwrite f s (x ∷ xs)) (overwrite f (s + 1) xs) (s + 1) (s + 1) (length xs)
          (λ k lt. ground arith)
        ∙ span-overwrite f (s + 1) xs in
      cc
