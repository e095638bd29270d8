-- ===== src/Games/Mates.antt =====
-- Which entries the search of patches/source/games.c, lines 862 to 884, links.
use cubiboot.Base.{
  ℕ, zero, suc, ◌+◌, ◌≤◌, ◌<◌, true, false, not, ◌||◌, Option, none, some, List, [], ◌∷◌, ◌==◌, ◌≡◌,
  refl, arith, inl, inr, Bool-cases, some_inj, ap, ◌∙◌,
}
use cubiboot.Games.Discs.{GameDisc, same_id, is_pair, link, link_all, find_discs}

same_id_sym : (s t : List ℕ) → same_id s t ≡ true → same_id t s ≡ true
unfolding same_id
same_id_sym [] [] h = refl
same_id_sym [] (d ∷ t) h = cc h
same_id_sym (c ∷ s) [] h = cc h
same_id_sym (c ∷ s) (d ∷ t) h = ground (arith, h, same_id_sym s t)

-- What is linked.
abbrev Linked : (ℕ → Option ℕ) → ℕ → Type 0
Linked second e = (f : ℕ) × (second e ≡ some f)

module _ (discs : ℕ → GameDisc) where
  -- Two entries of the list that are discs of one game.
  abbrev pub Mates : ℕ → ℕ → ℕ → Type 0
  Mates count e f =
      (e < count) × (f < count) × ((discs e).is_game ≡ true) × (is_pair discs e f ≡ true)

  Mates-sym : (count e f : ℕ) → Mates count e f → Mates count f e
  Mates-sym count e f (below, small, game, pair) = (
    small,
    below,
    ground (arith, pair),
    ground (arith, pair, game, same_id_sym (discs e).game_id (discs f).game_id),
  )

  -- Every link goes to another disc of the same game.
  abbrev Sound : ℕ → (ℕ → Option ℕ) → Type 0
  Sound count second = (e f : ℕ) → second e ≡ some f → Mates count e f

  link-Sound :
      (count i j : ℕ) (second : ℕ → Option ℕ)
      → i < count
      → j < count
      → (discs i).is_game ≡ true
      → Sound count second
      → Sound count (link discs i j second)
  link-Sound count i j second hi hj game sound e f h = elim (Bool-cases (is_pair discs i j)) [
    | inr no_pair ↦ sound e f (rw no_pair at h)
    | inl pair ↦
        (let linked = rw pair at h in
          let mates : Mates count i j = (hi, hj, game, pair) in
          elim (Bool-cases (e == j)) [
            | inl at_j ↦
                (let same : e ≡ j = ground (arith, at_j) in
                  let to : i ≡ f = some_inj.0 (rw at_j at linked) in
                  rw (same, ← to) (Mates-sym count i j mates))
            | inr not_j ↦ elim (Bool-cases (e == i)) [
              | inl at_i ↦
                  (let same : e ≡ i = ground (arith, at_i) in
                    let to : j ≡ f = some_inj.0 (rw (not_j, at_i) at linked) in
                    rw (same, ← to) mates)
              | inr not_i ↦ sound e f (rw (not_j, not_i) at linked)
            ]
          ])
  ]

  link-Linked :
      (i j e : ℕ) (second : ℕ → Option ℕ) → Linked second e → Linked (link discs i j second) e
  link-Linked i j e second (f, h) = elim (Bool-cases (is_pair discs i j)) [
    | inr no_pair ↦ (f, rw no_pair h)
    | inl pair ↦ elim (Bool-cases (e == j)) [
      | inl at_j ↦ (i, rw (pair, at_j) refl)
      | inr not_j ↦ elim (Bool-cases (e == i)) [
        | inl at_i ↦ (j, rw (pair, not_j, at_i) refl)
        | inr not_i ↦ (f, rw (pair, not_j, not_i) h)
      ]
    ]
  ]

  link_both :
      (i j : ℕ) (second : ℕ → Option ℕ)
      → is_pair discs i j ≡ true
      → Linked (link discs i j second) i × Linked (link discs i j second) j
  link_both i j second pair =
      let other : (i == j) ≡ false = ground (arith, pair) in
      let own : (i == i) ≡ true = ground arith in
      let own' : (j == j) ≡ true = ground arith in
      ((j, rw (pair, other, own) refl), (i, rw (pair, own') refl))

  disc_skipped :
      (i : ℕ)
      → (not (discs i).is_game || (discs i).disc_num == 0) ≡ true
      → (discs i).is_game ≡ true
      → ((discs i).disc_num == 0) ≡ false
      → false ≡ true
  disc_skipped i skip game disc = ground (arith, skip, game, disc)

  -- What the inner loop does from `j` on.
  record Inner (count i j left : ℕ) (second result : ℕ → Option ℕ) : Type 0 where
    sound : Sound count second → Sound count result
    keeps : (e : ℕ) → Linked second e → Linked result e
    finds :
        (k : ℕ)
        → j ≤ k
        → k < j + left
        → is_pair discs i k ≡ true
        → Linked result i × Linked result k

  link_all_lem :
      (count i left j : ℕ) (second : ℕ → Option ℕ)
      → i < count
      → j + left ≤ count
      → (discs i).is_game ≡ true
      → Inner count i j left second (link_all discs i left j second)
  unfolding link_all
  link_all_lem count i zero j second hi hj game = record {
    sound = λ s. s;
    keeps = λ e l. l;
    finds = λ k from to pair. absurd (omega (arith, from, to));
  }
  link_all_lem count i (suc left) j second hi hj game =
      let rest =
        link_all_lem count i left (j + 1) (link discs i j second) hi (omega (arith, hj)) game in
      record {
        sound = λ s. rest.sound (link-Sound count i j second hi (omega (arith, hj)) game s);
        keeps = λ e l. rest.keeps e (link-Linked i j e second l);
        finds = λ k from to pair. elim (Bool-cases (k == j)) [
          | inl here ↦
              (let same : k ≡ j = ground (arith, here) in
                let both = link_both i j second (rw same at pair) in
                (rest.keeps i both.0, rw same (rest.keeps j both.1)))
          | inr later ↦ rest.finds k (ground (arith, later, from)) (omega (arith, to)) pair
        ];
      }

  record Outer (count i left : ℕ) (second result : ℕ → Option ℕ) : Type 0 where
    sound : Sound count second → Sound count result
    keeps : (e : ℕ) → Linked second e → Linked result e
    finds :
        (e f : ℕ)
        → i ≤ e
        → e < i + left
        → Mates count e f
        → ((discs e).disc_num == 0) ≡ false
        → Linked result e × Linked result f

  find_discs_lem :
      (count left i : ℕ) (second : ℕ → Option ℕ)
      → i + left ≤ count
      → Outer count i left second (find_discs discs count left i second)
  unfolding find_discs
  find_discs_lem count zero i second hi = record {
    sound = λ s. s;
    keeps = λ e l. l;
    finds = λ e f from to mates disc. absurd (omega (arith, from, to));
  }
  find_discs_lem count (suc left) i second hi =
      elim (Bool-cases (not (discs i).is_game || (discs i).disc_num == 0)) [
        | inl skip ↦
            (let rest = find_discs_lem count left (i + 1) second (omega (arith, hi)) in
              rw skip (record {
                sound = rest.sound;
                keeps = rest.keeps;
                finds = λ e f from to mates disc. elim (Bool-cases (e == i)) [
                  | inl here ↦
                      (let same : e ≡ i = ground (arith, here) in
                        cc (disc_skipped i skip (rw same at mates.2) (rw same at disc)))
                  | inr later ↦
                      rest.finds e f (ground (arith, later, from)) (omega (arith, to)) mates disc
                ];
              }))
        | inr seen ↦
            (let game : (discs i).is_game ≡ true = ground (arith, seen) in
              let inner =
                link_all_lem count i count 0 second (omega (arith, hi)) (omega arith) game in
              let middle = link_all discs i count 0 second in
              let rest = find_discs_lem count left (i + 1) middle (omega (arith, hi)) in
              rw seen (record {
                sound = λ s. rest.sound (inner.sound s);
                keeps = λ e l. rest.keeps e (inner.keeps e l);
                finds = λ e f from to mates disc. elim (Bool-cases (e == i)) [
                  | inl here ↦
                      (let same : e ≡ i = ground (arith, here) in
                        let both =
                          inner.finds f (omega arith) (omega (arith, mates.1))
                            (rw same at mates.3) in
                        (rw same (rest.keeps i both.0), rest.keeps f both.1))
                  | inr later ↦
                      rest.finds e f (ground (arith, later, from)) (omega (arith, to)) mates disc
                ];
              }))
      ]

  -- A game on two discs: the search links each of the two entries to the other, when the list has no
  -- third disc of the game. And whatever the list has, a link never goes to another game, to a copy of
  -- the same disc, or to what is no game.
  pub find_discs-Mates :
      (count e f : ℕ)
      → Mates count e f
      → ((g : ℕ) → Mates count e g → g ≡ f)
      → ((g : ℕ) → Mates count f g → g ≡ e)
      → (find_discs discs count count 0 (λ k. none) e ≡ some f)
        × (find_discs discs count count 0 (λ k. none) f ≡ some e)
        × ((a b : ℕ) → find_discs discs count count 0 (λ k. none) a ≡ some b → Mates count a b)
  find_discs-Mates count e f mates only_f only_e =
      let all = find_discs_lem count count 0 (λ k. none) (omega arith) in
      let sound = all.sound (λ a b h. cc h) in
      let back = Mates-sym count e f mates in
      let both : Linked (find_discs discs count count 0 (λ k. none)) e
          × Linked (find_discs discs count count 0 (λ k. none)) f =
        elim (Bool-cases ((discs e).disc_num == 0)) [
          | inr one ↦ all.finds e f (omega arith) (omega (arith, mates.0)) mates one
          | inl zeroth ↦
              (let other : ((discs f).disc_num == 0) ≡ false = ground (arith, zeroth, mates.3) in
                let linked = all.finds f e (omega arith) (omega (arith, mates.1)) back other in
                (linked.1, linked.0))
        ] in
      let ((g, at_e), (h, at_f)) = both in
      (
        at_e ∙ ap some (only_f g (sound e g at_e)),
        at_f ∙ ap some (only_e h (sound f h at_f)),
        sound,
      )
