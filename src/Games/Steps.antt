-- ===== src/Games/Steps.antt =====
-- The loads, frees and callbacks of a bank, in the order in which the program means to make them:
-- patches/source/games.c, lines 132 to 345 and 664 to 678.
use cubiboot.Base.{
  ℕ, Bool, true, false, none, some, List, [], ◌∷◌, ◌≡◌, refl, ◌∙◌, sym, ap, subst, Bool-cases, inl,
  inr, ◌⊎◌, ◌==◌, ==_iff, In, Distinct,
}
use cubiboot.Games.{
  Asset, Bank, LoadState, state_none, setup, unloaded, loading, loaded, Callback, callback_setup,
  callback_unload, callback_load, put, get_buf, free_buf, asset_load, install, gm_icon_free,
  gm_banner_free, release, delay_free, arq_callback, complete,
}
use cubiboot.Games.Owned.{holding, slot, Owned, keep_slot, give_slot}
use cubiboot.Games.Shapes.{
  start_load_eq, install_setup_eq, install_unload_eq, asset_load_start, icon_free_loaded,
  banner_free_loaded,
}
use cubiboot.Games.Requests.{waiting, entries_of, Sound, posted, not_asked, entries-In}

-- A first load of an asset that is absent, a load of one that is unloaded, each with a buffer left; a
-- free of one that is loaded, as an icon or as a banner; a free of one that waits; and the answer to
-- the first request.
pub data Step : Bank → Bank → Type 0 where
  installs :
      (b : Bank) (e aram_offset k : ℕ) (force_unload : Bool)
      → (b.assets e).state ≡ state_none
      → (get_buf b.used).0 ≡ some k
      → Step b (install e aram_offset force_unload b).1
  loads :
      (b : Bank) (e k : ℕ)
      → (b.assets e).state ≡ unloaded
      → (get_buf b.used).0 ≡ some k
      → Step b (asset_load e b)
  frees_icon : (b : Bank) (e : ℕ) → (b.assets e).state ≡ loaded → Step b (gm_icon_free e b)
  frees_banner : (b : Bank) (e : ℕ) → (b.assets e).state ≡ loaded → Step b (gm_banner_free e b)
  delays :
      (b : Bank) (e : ℕ)
      → ((b.assets e).state ≡ setup) ⊎ ((b.assets e).state ≡ loading)
      → Step b (gm_icon_free e b)
  answers : (b : Bank) → Step b (complete b)

pub data Steps : Bank → Bank → Type 0 where
  stop : (b : Bank) → Steps b b
  then_step : (b c d : Bank) → Steps b c → Step c d → Steps b d

-- The states that no request waits in.
idle_none : (s : LoadState) → s ≡ state_none → (d : Callback) → ¬ (s ≡ waiting d)
idle_none s h callback_setup q = absurd (cc (h, q))
idle_none s h callback_unload q = absurd (cc (h, q))
idle_none s h callback_load q = absurd (cc (h, q))

idle_unloaded : (s : LoadState) → s ≡ unloaded → (d : Callback) → ¬ (s ≡ waiting d)
idle_unloaded s h callback_setup q = absurd (cc (h, q))
idle_unloaded s h callback_unload q = absurd (cc (h, q))
idle_unloaded s h callback_load q = absurd (cc (h, q))

idle_loaded : (s : LoadState) → s ≡ loaded → (d : Callback) → ¬ (s ≡ waiting d)
idle_loaded s h callback_setup q = absurd (cc (h, q))
idle_loaded s h callback_unload q = absurd (cc (h, q))
idle_loaded s h callback_load q = absurd (cc (h, q))

-- An asset that no request is of changes: the requests stay sound.
asked_other :
    (b : Bank) (e : ℕ) (a : Asset) (rs : List (ℕ × Callback))
    → ((x : ℕ) (c : Callback) → In (x, c) rs → (b.assets x).state ≡ waiting c)
    → ¬ In e (entries_of rs)
    → (x : ℕ) (c : Callback) → In (x, c) rs
    → (put b.assets e a x).state ≡ waiting c
asked_other b e a rs asked no_e x c m = elim (Bool-cases (x == e)) [
  | inl p ↦
      absurd (no_e (subst (λ i. In i (entries_of rs)) ((==_iff x e).0 p) (entries-In x c rs m)))
  | inr p ↦ rw p (asked x c m)
]

slot_buf : (a : Asset) → holding a.state ≡ true → slot a ≡ a.buf
slot_buf a h = rw h refl

-- An asset that holds a buffer has it in its field.
has_buf :
    (b : Bank) (e : ℕ)
    → Owned b.used b.assets
    → holding (b.assets e).state ≡ true
    → (k : ℕ) × (slot (b.assets e) ≡ some k) × ((b.assets e).buf ≡ some k)
has_buf b e own held = elim (own.2 e) [
  | inl empty ↦ absurd (cc (held, empty))
  | inr (k, has) ↦ (k, has, sym (slot_buf (b.assets e) held) ∙ has)
]

-- An asset lets go of its buffer: a free, or the answer to an unload.
dropped :
    (b : Bank) (e : ℕ) (a : Asset)
    → Owned b.used b.assets
    → holding (b.assets e).state ≡ true
    → slot a ≡ none
    → holding a.state ≡ false
    → Owned (free_buf (b.assets e).buf b.used) (put b.assets e a)
unfolding free_buf
dropped b e a own held empty idle =
    let (k, has, buf) = has_buf b e own held in
    subst (λ u. Owned (free_buf u b.used) (put b.assets e a)) (sym buf)
      (give_slot b.used b.assets e k a own has empty idle)

release-Sound : (b : Bank) (e : ℕ) → (b.assets e).state ≡ loaded → Sound b → Sound (release e b)
unfolding release
release-Sound b e h (own, asked, once) = (
  dropped b e (record (b.assets e) { state = unloaded; buf = none }) own (ap holding h) refl refl,
  asked_other b e _ b.requests asked
      (not_asked b e (own, asked, once) (idle_loaded (b.assets e).state h)),
  once,
)

-- The answer to a request of a load or of a first load.
loaded-Owned :
    (b : Bank) (e : ℕ)
    → Owned b.used b.assets
    → holding (b.assets e).state ≡ true
    → Owned b.used (put b.assets e (record (b.assets e) { state = loaded }))
loaded-Owned b e own held =
    let (k, has, buf) = has_buf b e own held in
    keep_slot b.used b.assets e (record (b.assets e) { state = loaded }) own
      (sym (slot_buf (b.assets e) held)) (inr (k, buf))

answer-Sound :
    (b : Bank) (e : ℕ) (c : Callback) (rest : List (ℕ × Callback))
    → b.requests ≡ (e, c) ∷ rest
    → Sound b
    → Sound (arq_callback e c (record b { requests = rest }))
unfolding arq_callback
answer-Sound b e c rest h (own, asked, once) = go c head
  where
    asked_rest : (x : ℕ) (d : Callback) → In (x, d) rest → (b.assets x).state ≡ waiting d
    asked_rest x d m = asked x d (subst (λ l. In (x, d) l) (sym h) (inr m))

    distinct : Distinct (e ∷ entries_of rest)
    distinct = subst (λ l. Distinct (entries_of l)) h once

    head : (b.assets e).state ≡ waiting c
    head = asked e c (subst (λ l. In (e, c) l) (sym h) (inl refl))

    go :
        (d : Callback)
        → (b.assets e).state ≡ waiting d
        → Sound (arq_callback e d (record b { requests = rest }))
    go callback_setup w = (
      loaded-Owned b e own (ap holding w),
      asked_other b e _ rest asked_rest distinct.0,
      distinct.1,
    )
    go callback_unload w = (
      dropped b e (record (b.assets e) { state = unloaded }) own (ap holding w) refl refl,
      asked_other b e _ rest asked_rest distinct.0,
      distinct.1,
    )
    go callback_load w = (
      loaded-Owned b e own (ap holding w),
      asked_other b e _ rest asked_rest distinct.0,
      distinct.1,
    )

List-cases :
    (l : List (ℕ × Callback))
    → (l ≡ []) ⊎ ((r : ℕ × Callback) × (rest : List (ℕ × Callback)) × (l ≡ r ∷ rest))
List-cases [] = inl refl
List-cases (r ∷ rest) = inr (r, rest, refl)

complete_none : (b : Bank) → b.requests ≡ [] → complete b ≡ b
unfolding complete
complete_none b h = rw (h, complete) (ap (λ r. record b { requests = r }) h)

complete_some :
    (b : Bank) (r : ℕ × Callback) (rest : List (ℕ × Callback))
    → b.requests ≡ r ∷ rest
    → complete b ≡ arq_callback r.0 r.1 (record b { requests = rest })
unfolding complete
complete_some b r rest h = rw (h, complete) refl

carry : (b c : Bank) → b ≡ c → Sound c → Sound b
carry b c e s = subst (λ t. Sound t) (sym e) s

complete-Sound : (b : Bank) → Sound b → Sound (complete b)
complete-Sound b ok = elim (List-cases b.requests) [
  | inl h ↦ carry (complete b) b (complete_none b h) ok
  | inr (r, rest, h) ↦
      carry (complete b) (arq_callback r.0 r.1 (record b { requests = rest }))
        (complete_some b r rest h) (answer-Sound b r.0 r.1 rest h ok)
]

install-Sound :
    (b : Bank) (e aram_offset k : ℕ) (force_unload : Bool)
    → (b.assets e).state ≡ state_none
    → (get_buf b.used).0 ≡ some k
    → Sound b
    → Sound (install e aram_offset force_unload b).1
install-Sound b e aram_offset k true h got ok =
    carry _ _ (install_unload_eq b e aram_offset k got)
      (posted b e k callback_unload _ ok (idle_none (b.assets e).state h) refl refl got)
install-Sound b e aram_offset k false h got ok =
    carry _ _ (install_setup_eq b e aram_offset k got)
      (posted b e k callback_setup _ ok (idle_none (b.assets e).state h) refl refl got)

delay-Sound : (b : Bank) (e : ℕ) → Sound b → Sound (delay_free e b)
unfolding delay_free
delay-Sound b e (own, asked, once) =
    let a = record (b.assets e) { schedule_free = true } in
    (
      keep_slot b.used b.assets e a own refl (own.2 e),
      λ x c m. elim (Bool-cases (x == e)) [
        | inl p ↦ rw p (ap (λ i. (b.assets i).state) (sym ((==_iff x e).0 p)) ∙ asked x c m)
        | inr p ↦ rw p (asked x c m)
      ],
      once,
    )

delayed :
    (b : Bank) (e : ℕ)
    → ((b.assets e).state ≡ setup) ⊎ ((b.assets e).state ≡ loading)
    → gm_icon_free e b ≡ delay_free e b
unfolding gm_icon_free
delayed b e (inl h) = rw (h, gm_icon_free) refl
delayed b e (inr h) = rw (h, gm_icon_free) refl

Step-Sound : (b c : Bank) → Step b c → Sound b → Sound c
Step-Sound _ _ (installs b e aram_offset k force_unload h got) ok =
    install-Sound b e aram_offset k force_unload h got ok
Step-Sound _ _ (loads b e k h got) ok =
    carry (asset_load e b) _ ((asset_load_start b e h ∙ start_load_eq b e k got))
      (posted b e k callback_load _ ok (idle_unloaded (b.assets e).state h) refl refl got)
Step-Sound _ _ (frees_icon b e h) ok =
    carry (gm_icon_free e b) _ ((icon_free_loaded b e h)) (release-Sound b e h ok)
Step-Sound _ _ (frees_banner b e h) ok =
    carry (gm_banner_free e b) _ ((banner_free_loaded b e h)) (release-Sound b e h ok)
Step-Sound _ _ (delays b e h) ok = carry (gm_icon_free e b) _ ((delayed b e h)) (delay-Sound b e ok)
Step-Sound _ _ (answers b) ok = complete-Sound b ok

-- In every run of first loads of absent assets and loads of unloaded ones while a buffer is left, of
-- frees of assets that are loaded or wait, and of answers to the requests, in any order, what holds at
-- the start holds at the end: an asset that is loaded or on its way has a buffer of the pool that is
-- in use and that no other asset has, and each request is of one asset that waits for it.
pub steps-Sound : (b c : Bank) → Steps b c → Sound b → Sound c
steps-Sound _ _ (stop b) ok = ok
steps-Sound _ _ (then_step b c d before last) ok = Step-Sound c d last (steps-Sound b c before ok)
