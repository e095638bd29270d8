-- ===== src/Cache/Links/Chain.antt =====
-- What it means that the linked entries of the block cache stand in the order of a list.
use cubiboot.Base.{
  ℕ, Option, none, some, List, [], ◌∷◌, ◌++◌, ◌≡◌, ◌≢◌, refl, sym, ◌∙◌, inl, inr, if◌then◌else◌,
  arith, In, Distinct, In-append_right, In-append_left, subst, some_inj,
}
use cubiboot.Cache.Links.{Entry, Links, set_base, set_next, set_prev, points_to}

-- From entry `p`, behind entry `pv`, the links lead through the entries of the list.
abbrev pub Chain : (ℕ → Entry) → Option ℕ → Option ℕ → List ℕ → Type 0
Chain e pv p [] = p ≡ none
Chain e pv p (i ∷ xs) = (p ≡ some i) × ((e i).prev ≡ pv) × Chain e (some i) (e i).next xs

-- The last entry, or `d` if there is none.
abbrev pub last_of : Option ℕ → List ℕ → Option ℕ
last_of d [] = d
last_of d (x ∷ xs) = last_of (some x) xs

-- The list's order, most recently used first, no entry twice.
pub record Ordered (l : Links) (xs : List ℕ) : Type 0 where
  pub chain : Chain l.entries none l.first xs
  pub ends : l.last ≡ last_of none xs
  pub distinct : Distinct xs

-- Writes to other entries, and to other fields, keep a chain.
pub Chain-frame :
    (e e' : ℕ → Entry) (pv p : Option ℕ) (xs : List ℕ)
    → ((j : ℕ) → In j xs → ((e' j).next ≡ (e j).next) × ((e' j).prev ≡ (e j).prev))
    → Chain e pv p xs
    → Chain e' pv p xs
Chain-frame e e' pv p [] same c = c
Chain-frame e e' pv p (x ∷ xs) same c =
    let here = same x (inl refl) in
    (
      c.0,
      here.1 ∙ c.1,
      rw here.0 (Chain-frame e e' (some x) (e x).next xs (λ j m. same j (inr m)) c.2),
    )

pub prev-In :
    (e : ℕ → Entry) (pv p : Option ℕ) (w : ℕ) (ws : List ℕ) (i : ℕ) (zs : List ℕ)
    → Chain e pv p (w ∷ (ws ++ i ∷ zs))
    → (v : ℕ) × ((e i).prev ≡ some v) × In v (w ∷ ws)
prev-In e pv p w [] i zs c = (w, c.2.1, inl refl)
prev-In e pv p w (w' ∷ ws) i zs c =
    let (v, h, m) = prev-In e (some w) (e w).next w' ws i zs c.2 in (v, h, inr m)

pub next-In :
    (e : ℕ → Entry) (pv p : Option ℕ) (ws : List ℕ) (i : ℕ) (zs : List ℕ) (v : ℕ)
    → Chain e pv p (ws ++ i ∷ zs)
    → (e i).next ≡ some v
    → In v zs
next-In e pv p [] i [] v c h = cc
next-In e pv p [] i (z ∷ zs) v c h = inl (ground (arith, c.2.0))
next-In e pv p (w ∷ ws) i zs v c h = next-In e (some w) (e w).next ws i zs v c.2 h

-- The entries when `i` is taken out of its chain.
unfoldable pub unlinked : (ℕ → Entry) → ℕ → ℕ → Entry
unlinked e i = set_prev (set_next e (e i).prev (e i).next) (e i).next (e i).prev

pub unlinked_next :
    (e : ℕ → Entry) (i j : ℕ)
    → (unlinked e i j).next ≡ (if points_to (e i).prev j then (e i).next else (e j).next)
unfolding unlinked
unlinked_next e i j = ground arith

pub unlinked_prev :
    (e : ℕ → Entry) (i j : ℕ)
    → (unlinked e i j).prev ≡ (if points_to (e i).next j then (e i).prev else (e j).prev)
unfolding unlinked
unlinked_prev e i j = ground arith

pub unlinked_base : (e : ℕ → Entry) (i j : ℕ) → (unlinked e i j).base_sector ≡ (e j).base_sector
unfolding unlinked
unlinked_base e i j = ground arith

-- An entry that is no neighbour of `i` keeps its links.
unlinked_same :
    (e : ℕ → Entry) (i j : ℕ)
    → (e i).prev ≢ some j
    → (e i).next ≢ some j
    → ((unlinked e i j).next ≡ (e j).next) × ((unlinked e i j).prev ≡ (e j).prev)
unlinked_same e i j hp hn = ground (arith, unlinked_next e i j, unlinked_prev e i j)

-- Behind the entry `y` in front of `i`, the rest of the chain moves up.
unlink_next :
    (e : ℕ → Entry) (y i : ℕ) (zs : List ℕ)
    → (e i).prev ≡ some y
    → ¬ In y zs
    → Distinct zs
    → Chain e (some i) (e i).next zs
    → Chain (unlinked e i) (some y) (unlinked e i y).next zs
unlink_next e y i [] hp n d c = ground (arith, unlinked_next e i y)
unlink_next e y i (z ∷ zs) hp n d c = (
  ground (arith, unlinked_next e i y),
  ground (arith, unlinked_prev e i z),
  rw z_next (Chain-frame e (unlinked e i) (some z) (e z).next zs same c.2),
)
  where
    z_next : (unlinked e i z).next ≡ (e z).next
    z_next = let other : y ≢ z = λ q. n (inl q) in ground (arith, unlinked_next e i z)

    same :
        (j : ℕ)
        → In j zs
        → ((unlinked e i j).next ≡ (e j).next) × ((unlinked e i j).prev ≡ (e j).prev)
    same j m =
        unlinked_same e i j (λ h. n (inr (subst (λ k. In k zs) (some_inj.0 (sym h ∙ hp)) m)))
          (λ h. d.0 (subst (λ k. In k zs) (some_inj.0 (sym h ∙ c.0)) m))

-- Taking an entry that is not the first out of the chain.
pub unlink-Chain :
    (e : ℕ → Entry) (pv : Option ℕ) (y : ℕ) (ys : List ℕ) (i : ℕ) (zs : List ℕ)
    → Chain e pv (some y) (y ∷ (ys ++ i ∷ zs))
    → Distinct (y ∷ (ys ++ i ∷ zs))
    → Chain (unlinked e i) pv (some y) (y ∷ (ys ++ zs))
unlink-Chain e pv y [] i zs c d =
    let hn : (e i).next ≢ some y = λ h. d.0 (inr (next-In e (some y) (e y).next [] i zs y c.2 h)) in
    (
      refl,
      ground (arith, unlinked_prev e i y),
      unlink_next e y i zs c.2.1 (λ m. d.0 (inr m)) d.1.1 c.2.2,
    )
unlink-Chain e pv y (w ∷ ys) i zs c d =
    let rest = unlink-Chain e (some y) w ys i zs (refl, c.2.1, c.2.2) d.1 in
    let same = unlinked_same e i y not_behind not_ahead in
    (refl, same.1 ∙ c.1, (same.0 ∙ c.2.0, rest.1, rest.2))
  where
    not_behind : (e i).prev ≢ some y
    not_behind h =
        let (v, g, m) = prev-In e (some y) (e y).next w ys i zs c.2 in
        d.0 (
          subst (λ k. In k (w ∷ (ys ++ i ∷ zs))) (some_inj.0 (sym g ∙ h))
            (In-append_left v (w ∷ ys) (i ∷ zs) m))

    not_ahead : (e i).next ≢ some y
    not_ahead h = d.0 (
        In-append_right y (w ∷ ys) (i ∷ zs)
          (inr (next-In e (some y) (e y).next (w ∷ ys) i zs y c.2 h)))

-- A base sector is no link.
pub set_base-Ordered :
    (l : Links) (i v : ℕ) (xs : List ℕ) → Ordered l xs → Ordered (set_base l i v) xs
set_base-Ordered l i v xs o = record {
  chain =
      Chain-frame l.entries (set_base l i v).entries none l.first xs (λ j m. ground arith) o.chain;
  ends = o.ends;
  distinct = o.distinct;
}
