-- ===== src/Cache/Held/Tail.antt =====
-- Keeping the unused entries behind those in use, and membership in a list with an entry moved.
use cubiboot.Base.{
  ℕ, List, [], ◌∷◌, ◌++◌, ◌≡◌, ◌≢◌, refl, sym, ap, ◌∙◌, inl, inr, arith, In, In-append_left,
  In-append_right, In-append_cases, All, All_at, All-of, Bool-cases, ==_iff, ◌==◌,
}
use cubiboot.Cache.Links.{empty_page}
use cubiboot.Cache.Links.Search.{EmptyTail}

-- An entry moved from behind `ws` to the front: the same members.
pub In-unmove :
    (j : ℕ) (ws : List ℕ) (i : ℕ) (zs : List ℕ) → In j (i ∷ (ws ++ zs)) → In j (ws ++ i ∷ zs)
In-unmove j ws i zs (inl q) = In-append_right j ws (i ∷ zs) (inl q)
In-unmove j ws i zs (inr m) = elim (In-append_cases j ws zs m) [
  | inl k ↦ In-append_left j ws (i ∷ zs) k
  | inr k ↦ In-append_right j ws (i ∷ zs) (inr k)
]

-- The lists of the entries that hold no page.
abbrev pub Unused : (ℕ → ℕ) → List ℕ → Type 0
Unused b xs = All (λ j. b j ≡ empty_page) xs

Unused-remove :
    (b : ℕ → ℕ) (ws : List ℕ) (i : ℕ) (zs : List ℕ) → Unused b (ws ++ i ∷ zs) → Unused b (ws ++ zs)
Unused-remove b [] i zs u = u.1
Unused-remove b (w ∷ ws) i zs u = (u.0, Unused-remove b ws i zs u.1)

pub EmptyTail-remove :
    (b : ℕ → ℕ) (ws : List ℕ) (i : ℕ) (zs : List ℕ)
    → EmptyTail b (ws ++ i ∷ zs)
    → EmptyTail b (ws ++ zs)
EmptyTail-remove b [] i zs t = t.1
EmptyTail-remove b (w ∷ ws) i zs t =
    ((λ q. Unused-remove b ws i zs (t.0 q)), EmptyTail-remove b ws i zs t.1)

-- Only the base sectors of the members matter.
pub EmptyTail-frame :
    (b b' : ℕ → ℕ) (xs : List ℕ)
    → ((j : ℕ) → In j xs → b' j ≡ b j)
    → EmptyTail b xs
    → EmptyTail b' xs
EmptyTail-frame b b' [] same t = tt
EmptyTail-frame b b' (x ∷ xs) same t = (
  (λ q. All-of _ xs λ j m. same j (inr m) ∙ All_at _ xs (t.0 (sym (same x (inl refl)) ∙ q)) m),
  EmptyTail-frame b b' xs (λ j m. same j (inr m)) t.1,
)

EmptyTail-of_Unused : (b : ℕ → ℕ) (xs : List ℕ) → Unused b xs → EmptyTail b xs
EmptyTail-of_Unused b [] u = tt
EmptyTail-of_Unused b (x ∷ xs) u = ((λ _. u.1), EmptyTail-of_Unused b xs u.1)

pub Unused-mono :
    (b b' : ℕ → ℕ) (xs : List ℕ)
    → ((j : ℕ) → b j ≡ empty_page → b' j ≡ empty_page)
    → Unused b xs
    → Unused b' xs
Unused-mono b b' [] h u = tt
Unused-mono b b' (x ∷ xs) h u = (h x u.0, Unused-mono b b' xs h u.1)

-- An entry with only unused ones behind it may be given up.
pub EmptyTail-drop :
    (b b' : ℕ → ℕ) (ws : List ℕ) (i : ℕ) (zs : List ℕ)
    → ((j : ℕ) → j ≢ i → b' j ≡ b j)
    → b' i ≡ empty_page
    → ¬ In i ws
    → Unused b' zs
    → EmptyTail b (ws ++ i ∷ zs)
    → EmptyTail b' (ws ++ i ∷ zs)
EmptyTail-drop b b' [] i zs same q n u t = ((λ _. u), EmptyTail-of_Unused b' zs u)
EmptyTail-drop b b' (w ∷ ws) i zs same q n u t = (
  (λ g. Unused-mono b b' (ws ++ i ∷ zs) gone (t.0 (sym (same w (λ e. n (inl (sym e)))) ∙ g))),
  EmptyTail-drop b b' ws i zs same q (λ m. n (inr m)) u t.1,
)
  where
    gone : (j : ℕ) → b j ≡ empty_page → b' j ≡ empty_page
    gone j h = elim (Bool-cases (j == i)) [
      | inl e ↦ ap b' ((==_iff j i).0 e) ∙ q
      | inr e ↦ same j (λ k. ground arith) ∙ h
    ]
