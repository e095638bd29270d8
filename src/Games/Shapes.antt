-- ===== src/Games/Shapes.antt =====
-- What the operations of a bank make of it in the states in which they are meant: patches/source/games.c,
-- lines 190 to 345 and 664 to 678.
use cubiboot.Base.{
  ℕ, true, false, some, [], ◌∷◌, ◌++◌, ◌≡◌, refl, Bool-cases, inl, inr, arith, ◌==◌, fun_ext,
}
use cubiboot.Games.{
  Asset, Bank, setup, unloaded, unloading, loading, loaded, callback_setup, callback_unload,
  callback_load, put, get_buf, asset_load, start_load, install, asset_setup, asset_setup_unload,
  gm_icon_free, gm_banner_free, release,
}

pub put_twice : (f : ℕ → Asset) (e : ℕ) (a a' : Asset) → put (put f e a) e a' ≡ put f e a'
put_twice f e a a' =
    fun_ext (λ i. elim (Bool-cases (i == e)) [ inl p ↦ rw p refl | inr p ↦ rw p refl ])

pub put_self : (f : ℕ → Asset) (e : ℕ) (a : Asset) → put f e a e ≡ a
put_self f e a = let own : (e == e) ≡ true = ground arith in rw own refl

pub start_load_eq :
    (b : Bank) (e k : ℕ)
    → (get_buf b.used).0 ≡ some k
    → start_load e b ≡ record {
      used = (get_buf b.used).1;
      assets = put b.assets e (record (b.assets e) { state = loading; buf = some k });
      requests = b.requests ++ ((e, callback_load) ∷ []);
    }
unfolding start_load
start_load_eq b e k got = rw (got, start_load) refl

pub install_setup_eq :
    (b : Bank) (e aram_offset k : ℕ)
    → (get_buf b.used).0 ≡ some k
    → (install e aram_offset false b).1 ≡ record {
      used = (get_buf b.used).1;
      assets =
          put b.assets e
            (record (b.assets e) { aram_offset = aram_offset; state = setup; buf = some k });
      requests = b.requests ++ ((e, callback_setup) ∷ []);
    }
unfolding install asset_setup asset_setup_unload
install_setup_eq b e aram_offset k got =
    rw (got, install, put_self b.assets e _, put_twice b.assets e _ _) refl

pub install_unload_eq :
    (b : Bank) (e aram_offset k : ℕ)
    → (get_buf b.used).0 ≡ some k
    → (install e aram_offset true b).1 ≡ record {
      used = (get_buf b.used).1;
      assets =
          put b.assets e
            (record (b.assets e) { aram_offset = aram_offset; state = unloading; buf = some k });
      requests = b.requests ++ ((e, callback_unload) ∷ []);
    }
unfolding install asset_setup asset_setup_unload
install_unload_eq b e aram_offset k got =
    rw (got, install, put_self b.assets e _, put_twice b.assets e _ _) refl

pub asset_load_start :
    (b : Bank) (e : ℕ) → (b.assets e).state ≡ unloaded → asset_load e b ≡ start_load e b
unfolding asset_load
asset_load_start b e h = rw (h, asset_load) refl

pub icon_free_loaded :
    (b : Bank) (e : ℕ) → (b.assets e).state ≡ loaded → gm_icon_free e b ≡ release e b
unfolding gm_icon_free
icon_free_loaded b e h = rw (h, gm_icon_free) refl

pub banner_free_loaded :
    (b : Bank) (e : ℕ) → (b.assets e).state ≡ loaded → gm_banner_free e b ≡ release e b
unfolding gm_banner_free
banner_free_loaded b e h = rw (h, gm_banner_free) refl
