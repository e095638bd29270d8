-- ===== src/Cache/Held.antt =====
-- When the pages that the block cache holds are a true copy of the medium, and what keeps them so.
-- The entries are seen through their base sectors `b`, in their order of use, and their pages `pd`.
pub mod Tail
pub mod Medium
use cubiboot.Base.{
  ℕ, ◌+◌, ◌%◌, ◌^◌, ◌<◌, ◌≤◌, List, [], ◌∷◌, ◌++◌, ◌≡◌, ◌≢◌, refl, sym, ap, ◌∙◌, ◌⊎◌, inl, inr,
  ◌==◌, if◌then◌else◌, arith, In, In-append_left, In-append_right, In-append_cases, span, All,
  All_at, Distinct, subst, Bool-cases, ==_iff, length, fun_ext,
}
use cubiboot.Cache.Device.{overwrite}
use cubiboot.Cache.Links.{empty_page}
use cubiboot.Cache.Links.Search.{EmptyTail, Clear}
use cubiboot.Cache.State.{put_page}
use Tail.{In-unmove, Unused, Unused-mono, EmptyTail-remove, EmptyTail-frame, EmptyTail-drop}
use Medium.{overwrite_outside, overwrite_shift, overwrite-span}

module _ {A : Type 0} where
  -- Each entry in use is the only one for its page, the page is whole, and it holds what the medium
  -- holds there.
  pub record Held (b : ℕ → ℕ) (pd : ℕ → ℕ → A) (m : ℕ → A) (xs : List ℕ) : Type 0 where
    pub tail : EmptyTail b xs
    pub placed : (j : ℕ) → In j xs → b j ≢ empty_page → (b j % 4 ≡ 0) × (b j < 2 ^ 32)
    pub unique : (i j : ℕ) → In i xs → In j xs → b i ≢ empty_page → b i ≡ b j → i ≡ j
    pub copies : (j : ℕ) → In j xs → b j ≢ empty_page → (k : ℕ) → k < 4 → pd j k ≡ m (b j + k)

  -- Moving an entry in use to the front.
  pub Held-move :
      (b : ℕ → ℕ) (pd : ℕ → ℕ → A) (m : ℕ → A) (ws : List ℕ) (i : ℕ) (zs : List ℕ)
      → Held b pd m (ws ++ i ∷ zs)
      → b i ≢ empty_page
      → Held b pd m (i ∷ (ws ++ zs))
  Held-move b pd m ws i zs h live = record {
    tail = ((λ q. absurd (live q)), EmptyTail-remove b ws i zs h.tail);
    placed = λ j k. h.placed j (In-unmove j ws i zs k);
    unique = λ x y k l. h.unique x y (In-unmove x ws i zs k) (In-unmove y ws i zs l);
    copies = λ j k. h.copies j (In-unmove j ws i zs k);
  }

  -- Only what the entries in use hold matters.
  pub Held-pages :
      (b : ℕ → ℕ) (pd pd' : ℕ → ℕ → A) (m m' : ℕ → A) (xs : List ℕ)
      → Held b pd m xs
      → ((j : ℕ) → In j xs → b j ≢ empty_page → (k : ℕ) → k < 4 → pd' j k ≡ m' (b j + k))
      → Held b pd' m' xs
  Held-pages b pd pd' m m' xs h c = record {
    tail = h.tail;
    placed = h.placed;
    unique = h.unique;
    copies = c;
  }

  -- Giving up an entry with only unused ones behind it.
  pub Held-drop :
      (b b' : ℕ → ℕ) (pd pd' : ℕ → ℕ → A) (m : ℕ → A) (ws : List ℕ) (i : ℕ) (zs : List ℕ)
      → Held b pd m (ws ++ i ∷ zs)
      → ¬ In i ws
      → Unused b zs
      → ((j : ℕ) → j ≢ i → (b' j ≡ b j) × (pd' j ≡ pd j))
      → b' i ≡ empty_page
      → Held b' pd' m (ws ++ i ∷ zs)
  Held-drop b b' pd pd' m ws i zs h n u same q = record {
    tail =
        EmptyTail-drop b b' ws i zs (λ j k. (same j k).0) q n (Unused-mono b b' zs gone u) h.tail;
    placed = λ j k live. rw (old j live).0 (h.placed j k (λ g. live ((old j live).0 ∙ g)));
    unique = λ x y k l live e.
        let ex = old x live in
        let ey = old y (λ g. live (e ∙ g)) in
        h.unique x y k l (λ g. live (ex.0 ∙ g)) (sym ex.0 ∙ e ∙ ey.0);
    copies = λ j k live o lt.
        let ej = old j live in
        ap (λ f. f o) ej.1
        ∙ h.copies j k (λ g. live (ej.0 ∙ g)) o lt
        ∙ ap (λ t. m (t + o)) (sym ej.0);
  }
    where
      old : (j : ℕ) → b' j ≢ empty_page → (b' j ≡ b j) × (pd' j ≡ pd j)
      old j live = same j (λ e. live (ap b' e ∙ q))

      gone : (j : ℕ) → b j ≡ empty_page → b' j ≡ empty_page
      gone j e = elim (Bool-cases (j == i)) [
        | inl g ↦ ap b' ((==_iff j i).0 g) ∙ q
        | inr g ↦ (same j (λ k. ground arith)).0 ∙ e
      ]

  Held-remove :
      (b : ℕ → ℕ) (pd : ℕ → ℕ → A) (m : ℕ → A) (ws : List ℕ) (i : ℕ) (zs : List ℕ)
      → Held b pd m (ws ++ i ∷ zs)
      → Held b pd m (ws ++ zs)
  Held-remove b pd m ws i zs h = record {
    tail = EmptyTail-remove b ws i zs h.tail;
    placed = λ j k. h.placed j (In-unmove j ws i zs (inr k));
    unique = λ x y k l. h.unique x y (In-unmove x ws i zs (inr k)) (In-unmove y ws i zs (inr l));
    copies = λ j k. h.copies j (In-unmove j ws i zs (inr k));
  }

  Held-agree :
      (b b' : ℕ → ℕ) (pd pd' : ℕ → ℕ → A) (m : ℕ → A) (xs : List ℕ)
      → ((j : ℕ) → In j xs → (b' j ≡ b j) × (pd' j ≡ pd j))
      → Held b pd m xs
      → Held b' pd' m xs
  Held-agree b b' pd pd' m xs same h = record {
    tail = EmptyTail-frame b b' xs (λ j k. (same j k).0) h.tail;
    placed = λ j k live. rw (same j k).0 (h.placed j k (λ g. live ((same j k).0 ∙ g)));
    unique = λ x y k l live e.
        h.unique x y k l (λ g. live ((same x k).0 ∙ g)) (sym (same x k).0 ∙ e ∙ (same y l).0);
    copies = λ j k live o lt.
        ap (λ f. f o) (same j k).1
        ∙ h.copies j k (λ g. live ((same j k).0 ∙ g)) o lt
        ∙ ap (λ t. m (t + o)) (sym (same j k).0);
  }

  -- An entry in front for a page that no entry holds.
  Held-cons :
      (b : ℕ → ℕ) (pd : ℕ → ℕ → A) (m : ℕ → A) (i : ℕ) (xs : List ℕ)
      → Held b pd m xs
      → (b i % 4 ≡ 0) × (b i < 2 ^ 32)
      → ((j : ℕ) → In j xs → b j ≢ empty_page → b j ≢ b i)
      → ((k : ℕ) → k < 4 → pd i k ≡ m (b i + k))
      → Held b pd m (i ∷ xs)
  Held-cons b pd m i xs h fits new filled = record {
    tail = ((λ q. absurd (omega arith)), h.tail);
    placed = λ j k live. elim k [ inl e ↦ rw e fits | inr l ↦ h.placed j l live ];
    unique = λ x y k l live e. elim k [
      | inl ex ↦ elim l [
        | inl ey ↦ ex ∙ sym ey
        | inr ly ↦ absurd (new y ly (λ g. live (e ∙ g)) (sym e ∙ ap b ex))
      ]
      | inr lx ↦ elim l [
        | inl ey ↦ absurd (new x lx live (e ∙ ap b ey))
        | inr ly ↦ h.unique x y lx ly live e
      ]
    ];
    copies =
        λ j k live o lt. elim k [ inl e ↦ rw e (filled o lt) | inr l ↦ h.copies j l live o lt ];
  }

  -- Taking an entry for a page that no entry holds, and moving it to the front.
  pub Held-take :
      (b b' : ℕ → ℕ) (pd pd' : ℕ → ℕ → A) (m : ℕ → A) (ws : List ℕ) (i : ℕ) (zs : List ℕ) (page : ℕ)
      → Held b pd m (ws ++ i ∷ zs)
      → ¬ In i (ws ++ zs)
      → ((j : ℕ) → j ≢ i → (b' j ≡ b j) × (pd' j ≡ pd j))
      → b' i ≡ page
      → (page % 4 ≡ 0) × (page < 2 ^ 32)
      → ((j : ℕ) → In j (ws ++ i ∷ zs) → b j ≢ empty_page → b j ≢ page)
      → ((k : ℕ) → k < 4 → pd' i k ≡ m (page + k))
      → Held b' pd' m (i ∷ (ws ++ zs))
  Held-take b b' pd pd' m ws i zs page h n same q fits new filled =
      Held-cons b' pd' m i (ws ++ zs)
        (Held-agree b b' pd pd' m (ws ++ zs) (λ j k. same j (other j k))
          (Held-remove b pd m ws i zs h))
        (rw q fits)
        (λ j k live e.
          let ej = (same j (other j k)).0 in
          new j (In-unmove j ws i zs (inr k)) (λ g. live (ej ∙ g)) (sym ej ∙ e ∙ q))
        (λ k lt. filled k lt ∙ ap (λ t. m (t + k)) (sym q))
    where
      other : (j : ℕ) → In j (ws ++ zs) → j ≢ i
      other j k e = n (subst (λ t. In t (ws ++ zs)) e k)

  -- A write to the medium that was also made to the page of the entry that holds it.
  pub Held-write :
      (b : ℕ → ℕ) (pd : ℕ → ℕ → A) (m : ℕ → A) (xs : List ℕ) (i off : ℕ) (src : List A)
      → Held b pd m xs
      → In i xs
      → b i ≢ empty_page
      → off + length src ≤ 4
      → Held b (put_page pd i off src) (overwrite m (b i + off) src) xs
  Held-write b pd m xs i off src h k live fits =
      Held-pages b pd (put_page pd i off src) m (overwrite m (b i + off) src) xs h λ j l alive o lt.
        elim (Bool-cases (i == j)) [
          | inl e ↦ rw e (
              overwrite_shift (pd i) m (b i) off (b i + off) src o refl (h.copies i k live o lt)
              ∙ ap (λ t. overwrite m (b i + off) src (b t + o)) ((==_iff i j).0 e))
          | inr e ↦
              let apart : b i ≢ b j = λ g. let ij = h.unique i j k l live g in ground arith in
              let mine = (h.placed i k live).0 in
              let its = (h.placed j l alive).0 in
              rw e (
                h.copies j l alive o lt
                ∙ sym (overwrite_outside m (b i + off) src (b j + o) (ground arith)))
        ]

  -- A write to the medium where no entry holds a page.
  pub Held-beside :
      (b : ℕ → ℕ) (pd : ℕ → ℕ → A) (m : ℕ → A) (xs : List ℕ) (page s : ℕ) (src : List A) (lim : ℕ)
      → Held b pd m xs
      → Clear b xs page lim
      → page % 4 ≡ 0
      → page ≤ s
      → s + length src ≤ lim
      → Held b pd (overwrite m s src) xs
  Held-beside b pd m xs page s src lim h clear whole from to =
      Held-pages b pd pd m (overwrite m s src) xs h λ j l alive o lt.
        let (placed, small) = h.placed j l alive in
        h.copies j l alive o lt
        ∙ sym (
            overwrite_outside m s src (b j + o)
              (elim (All_at (λ t. (b t ≡ empty_page) ⊎ ((b t < page) ⊎ (lim ≤ b t))) xs clear l) [
                | inl unused ↦ absurd (alive unused)
                | inr (inl below) ↦ inl (omega arith)
                | inr (inr above) ↦ inr (omega arith)
              ]))
