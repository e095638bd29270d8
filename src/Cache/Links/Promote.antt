-- ===== src/Cache/Links/Promote.antt =====
-- `dvm_cache_promote` moves its entry to the front of the order of use.
use cubiboot.Base.{
  ℕ, Option, none, some, List, [], ◌∷◌, ◌++◌, ◌≡◌, ◌≢◌, refl, sym, ap, ◌∙◌, inl, inr, arith, In,
  Distinct, In-append_right, In-append_left, subst, In-append_cases, append-nil, Bool-cases,
}
use cubiboot.Cache.Links.{
  Entry, Links, set_next, set_prev, unlink, push_front, promote, relink, points_to,
}
use cubiboot.Cache.Links.Chain.{
  Chain, Chain-frame, last_of, Ordered, unlinked, unlinked_base, unlink-Chain,
}

last_of-append :
    (d : Option ℕ) (ws : List ℕ) (x : ℕ) (zs : List ℕ)
    → last_of d (ws ++ x ∷ zs) ≡ last_of (some x) zs
last_of-append d [] x zs = refl
last_of-append d (w ∷ ws) x zs = last_of-append (some w) ws x zs

prev_of :
    (e : ℕ → Entry) (pv p : Option ℕ) (w : ℕ) (ws : List ℕ) (i : ℕ) (zs : List ℕ)
    → Chain e pv p (w ∷ (ws ++ i ∷ zs))
    → (e i).prev ≡ last_of (some w) ws
prev_of e pv p w [] i zs c = c.2.1
prev_of e pv p w (w' ∷ ws) i zs c = prev_of e (some w) (e w).next w' ws i zs c.2

next_of :
    (e : ℕ → Entry) (pv p : Option ℕ) (ws : List ℕ) (i : ℕ) (zs : List ℕ)
    → Chain e pv p (ws ++ i ∷ zs)
    → Chain e (some i) (e i).next zs
next_of e pv p [] i zs c = c.2
next_of e pv p (w ∷ ws) i zs c = next_of e (some w) (e w).next ws i zs c.2

In-back : (a : ℕ) (ws : List ℕ) (i : ℕ) (zs : List ℕ) → In a (ws ++ zs) → In a (ws ++ i ∷ zs)
In-back a ws i zs m = elim (In-append_cases a ws zs m) [
  | inl k ↦ In-append_left a ws (i ∷ zs) k
  | inr k ↦ In-append_right a ws (i ∷ zs) (inr k)
]

pub Distinct-move :
    (ws : List ℕ) (i : ℕ) (zs : List ℕ) → Distinct (ws ++ i ∷ zs) → Distinct (i ∷ (ws ++ zs))
Distinct-move [] i zs d = d
Distinct-move (w ∷ ws) i zs d =
    let rest = Distinct-move ws i zs d.1 in
    (
      (λ m. elim m [
        | inl q ↦ d.0 (In-append_right w ws (i ∷ zs) (inl (sym q)))
        | inr k ↦ rest.0 k
      ]),
      ((λ m. d.0 (In-back w ws i zs m)), rest.1),
    )

-- The entries when `i` is put in front of entry `y`.
fronted : (ℕ → Entry) → ℕ → ℕ → ℕ → Entry
fronted e y i = set_prev (set_prev (set_next e (some i) (some y)) (some y) (some i)) (some i) none

fronted_links :
    (e : ℕ → Entry) (y i : ℕ)
    → y ≢ i
    → ((fronted e y i i).prev ≡ none)
      × ((fronted e y i i).next ≡ some y)
      × ((fronted e y i y).prev ≡ some i)
      × ((fronted e y i y).next ≡ (e y).next)
unfolding fronted
fronted_links e y i h = ground arith

fronted_same :
    (e : ℕ → Entry) (y i j : ℕ)
    → j ≢ y
    → j ≢ i
    → ((fronted e y i j).next ≡ (e j).next) × ((fronted e y i j).prev ≡ (e j).prev)
unfolding fronted
fronted_same e y i j hy hi = ground arith

fronted_base : (e : ℕ → Entry) (y i j : ℕ) → (fronted e y i j).base_sector ≡ (e j).base_sector
unfolding fronted
fronted_base e y i j = ground arith

front-Chain :
    (e : ℕ → Entry) (y i : ℕ) (xs : List ℕ)
    → Chain e none (some y) (y ∷ xs)
    → Distinct (i ∷ y ∷ xs)
    → Chain (fronted e y i) none (some i) (i ∷ y ∷ xs)
front-Chain e y i xs c d =
    let f = fronted_links e y i (λ q. d.0 (inl (sym q))) in
    (
      refl,
      f.0,
      (
        f.1,
        f.2,
        rw f.3 (
            Chain-frame e (fronted e y i) (some y) (e y).next xs
              (λ j m.
                fronted_same e y i j (λ q. d.1.0 (subst (λ k. In k xs) q m))
                  (λ q. d.0 (inr (subst (λ k. In k xs) q m))))
              c.2),
      ),
    )

relink_lem :
    (l : Links) (p : Entry) (n : Option ℕ)
    → ((relink l p n).entries ≡ set_prev l.entries n p.prev) × ((relink l p n).first ≡ l.first)
unfolding relink
relink_lem l p none = (refl, refl)
relink_lem l p (some n) = (refl, refl)

unlink_entries : (l : Links) (i : ℕ) → (unlink l i).entries ≡ unlinked l.entries i
unfolding unlink unlinked
unlink_entries l i = (relink_lem _ _ _).0

unlink_first : (l : Links) (i : ℕ) → (unlink l i).first ≡ l.first
unfolding unlink
unlink_first l i = (relink_lem _ _ _).1

relink_last :
    (l : Links) (p : Entry) (n : Option ℕ)
    → (n ≡ none → (relink l p n).last ≡ p.prev)
      × ((z : ℕ) → n ≡ some z → (relink l p n).last ≡ l.last)
unfolding relink
relink_last l p none = ((λ _. refl), (λ z h. cc))
relink_last l p (some n) = ((λ h. cc), (λ z h. refl))

unlink_last :
    (l : Links) (pv : Option ℕ) (y : ℕ) (ys : List ℕ) (i : ℕ) (zs : List ℕ)
    → Chain l.entries pv (some y) (y ∷ (ys ++ i ∷ zs))
    → l.last ≡ last_of (some y) (ys ++ i ∷ zs)
    → (unlink l i).last ≡ last_of (some y) (ys ++ zs)
unfolding unlink
unlink_last l pv y ys i [] c h =
    (relink_last _ (l.entries i) (l.entries i).next).0
      (next_of l.entries pv (some y) (y ∷ ys) i [] c)
    ∙ prev_of l.entries pv (some y) y ys i [] c
    ∙ rw append-nil
unlink_last l pv y ys i (z ∷ zs) c h =
    (relink_last _ (l.entries i) (l.entries i).next).1 z
      (next_of l.entries pv (some y) (y ∷ ys) i (z ∷ zs) c).0
    ∙ h
    ∙ rw (last_of-append (some y) ys i (z ∷ zs), last_of-append (some y) ys z zs)

-- What `promote` writes when its entry is not the first.
promote_lem :
    (l : Links) (y i : ℕ) → l.first ≡ some y → y ≢ i → promote l i ≡ push_front (unlink l i) i
unfolding promote
promote_lem l y i h n = ground arith

push_front_entries :
    (l : Links) (y i : ℕ) → l.first ≡ some y → (push_front l i).entries ≡ fronted l.entries y i
unfolding push_front fronted
push_front_entries l y i h = rw h

push_front_same :
    (l : Links) (i : ℕ) → ((push_front l i).first ≡ some i) × ((push_front l i).last ≡ l.last)
unfolding push_front
push_front_same l i = (refl, refl)

Chain-of_eq :
    (e e' : ℕ → Entry) (pv p p' : Option ℕ) (xs : List ℕ)
    → e ≡ e'
    → p ≡ p'
    → Chain e' pv p' xs
    → Chain e pv p xs
Chain-of_eq e e' pv p p' xs he hp c =
    subst (λ f. Chain f pv p xs) (sym he) (subst (λ q. Chain e' pv q xs) (sym hp) c)

-- Behind the first entry: the moved entry stands first, and the others keep their order.
promote_behind :
    (l : Links) (y : ℕ) (ys : List ℕ) (i : ℕ) (zs : List ℕ)
    → Ordered l (y ∷ (ys ++ i ∷ zs))
    → Ordered (promote l i) (i ∷ y ∷ (ys ++ zs))
promote_behind l y ys i zs o = rw (promote_lem l y i o.chain.0 other) (record {
  chain =
      Chain-of_eq (push_front (unlink l i) i).entries (fronted (unlinked l.entries i) y i) none
        (push_front (unlink l i) i).first (some i) (i ∷ y ∷ (ys ++ zs))
        (push_front_entries (unlink l i) y i first ∙ ap (λ f. fronted f y i) (unlink_entries l i))
        same.0
        (front-Chain (unlinked l.entries i) y i (ys ++ zs)
          (unlink-Chain l.entries none y ys i zs (refl, o.chain.1, o.chain.2) o.distinct) apart);
  ends = same.1 ∙ unlink_last l none y ys i zs (refl, o.chain.1, o.chain.2) o.ends;
  distinct = apart;
})
  where
    other : y ≢ i
    other q = o.distinct.0 (In-append_right y ys (i ∷ zs) (inl q))

    first : (unlink l i).first ≡ some y
    first = unlink_first l i ∙ o.chain.0

    apart : Distinct (i ∷ y ∷ (ys ++ zs))
    apart = Distinct-move (y ∷ ys) i zs o.distinct

    same :
        ((push_front (unlink l i) i).first ≡ some i)
        × ((push_front (unlink l i) i).last ≡ (unlink l i).last)
    same = push_front_same (unlink l i) i

promote_first : (l : Links) (i : ℕ) → l.first ≡ some i → promote l i ≡ l
unfolding promote
promote_first l i h = ground arith

-- Promoting the entry behind `ws` puts it in front of them, and keeps the order of the others.
pub promote-Ordered :
    (l : Links) (ws : List ℕ) (i : ℕ) (zs : List ℕ)
    → Ordered l (ws ++ i ∷ zs)
    → Ordered (promote l i) (i ∷ (ws ++ zs))
promote-Ordered l [] i zs o = rw (promote_first l i o.chain.0) o
promote-Ordered l (y ∷ ys) i zs o = promote_behind l y ys i zs o

set_next_base :
    (e : ℕ → Entry) (o v : Option ℕ) (j : ℕ) → (set_next e o v j).base_sector ≡ (e j).base_sector
set_next_base e none v j = refl
set_next_base e (some i) v j = ground arith

set_prev_base :
    (e : ℕ → Entry) (o v : Option ℕ) (j : ℕ) → (set_prev e o v j).base_sector ≡ (e j).base_sector
set_prev_base e none v j = refl
set_prev_base e (some i) v j = ground arith

unlink_base :
    (l : Links) (i j : ℕ) → ((unlink l i).entries j).base_sector ≡ (l.entries j).base_sector
unlink_base l i j = ap (λ f. (f j).base_sector) (unlink_entries l i) ∙ unlinked_base l.entries i j

push_front_base :
    (l : Links) (i j : ℕ) → ((push_front l i).entries j).base_sector ≡ (l.entries j).base_sector
unfolding push_front
push_front_base l i j =
    set_prev_base (set_prev (set_next l.entries (some i) l.first) l.first (some i)) (some i) none j
    ∙ set_prev_base (set_next l.entries (some i) l.first) l.first (some i) j
    ∙ set_next_base l.entries (some i) l.first j

-- No base sector changes.
pub base_sector-promote :
    (l : Links) (i j : ℕ) → ((promote l i).entries j).base_sector ≡ (l.entries j).base_sector
unfolding promote
base_sector-promote l i j = elim (Bool-cases (points_to l.first i)) [
  | inl e ↦ rw e
  | inr e ↦ rw e (push_front_base (unlink l i) i j ∙ unlink_base l i j)
]
