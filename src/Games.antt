-- ===== src/Games.antt =====
-- The icons and banners of the game list: patches/source/games.c, lines
-- 67 to 345 and 664 to 678. Icons and banners have the same code on pools of their own,
-- and stand here once as a bank, of a pool, the assets by their entries, and the requests to the
-- transfer queue of the auxiliary memory that have not been answered.
pub mod Pool
pub mod Owned
pub mod Requests
pub mod Shapes
pub mod Steps
pub mod Lines
pub mod Files
pub mod Shown
pub mod Listing
pub mod Info
pub mod Warm
pub mod Opened
pub mod Descriptors
pub mod Discs
pub mod Mates
pub mod Target
pub mod Places
pub mod Window
use cubiboot.Base.{
  ℕ, zero, suc, ◌+◌, ◌-◌, ◌*◌, ◌/◌, Bool, true, false, not, ◌&&◌, ◌||◌, Option, none, some, List,
  [], ◌∷◌, ◌++◌, ltb, leb, ◌==◌, if◌then◌else◌,
}

-- ASSET_BUFFER_COUNT
abbrev pub asset_buffer_count : ℕ
asset_buffer_count = 128

-- `gm_load_state_t`
pub data LoadState : Type 0 where
  state_none setup unloaded unloading loading loaded : LoadState

-- `gm_icon_t` and `gm_banner_t`, with the index of the buffer for its address.
pub record Asset : Type 0 where
  pub aram_offset : ℕ
  pub schedule_free : Bool
  pub state : LoadState
  pub buf : Option ℕ

-- The callback of a request.
pub data Callback : Type 0 where
  callback_setup callback_unload callback_load : Callback

pub record Bank : Type 0 where
  pub used : ℕ → Bool
  pub assets : ℕ → Asset
  pub requests : List (ℕ × Callback)

-- The function that is `f` but at one place.
abbrev pub put : {A : Type 0} → (ℕ → A) → ℕ → A → ℕ → A
put f k v i = if i == k then v else f i

-- The loop of `gm_get_icon_buf` and `gm_get_banner_buf`, from buffer `i` on with `left` to look at.
unfoldable pub first_free : ℕ → ℕ → (ℕ → Bool) → Option ℕ
first_free zero i used = none
first_free (suc left) i used =
    let rest = first_free left (i + 1) used in if used i then rest else some i

unfoldable pub get_buf : (ℕ → Bool) → Option ℕ × (ℕ → Bool)
get_buf used = elim (first_free asset_buffer_count 0 used) [
  | none ↦ (none, used)
  | some k ↦ (some k, put used k true)
]

unfoldable pub free_buf : Option ℕ → (ℕ → Bool) → ℕ → Bool
free_buf none used = used
free_buf (some k) used = put used k false

-- The loop of `gm_count_icon_buf` and `gm_count_banner_buf`.
unfoldable pub count_from : ℕ → ℕ → (ℕ → Bool) → ℕ
count_from zero i used = 0
count_from (suc left) i used =
    let rest = count_from left (i + 1) used in if used i then rest + 1 else rest

abbrev pub count_buf : (ℕ → Bool) → ℕ
count_buf used = count_from asset_buffer_count 0 used

abbrev pub with_asset : ℕ → Asset → Bank → Bank
with_asset e a b = record b { assets = put b.assets e a }

-- `dolphin_ARQPostRequest`
abbrev pub post : ℕ → Callback → Bank → Bank
post e c b = record b { requests = b.requests ++ ((e, c) ∷ []) }

-- `gm_icon_setup` and `gm_banner_setup`, and the two functions for `setup_unload`.
unfoldable pub asset_setup : ℕ → ℕ → Bank → Bank
asset_setup e aram_offset b =
    post e callback_setup
      (with_asset e (record (b.assets e) { aram_offset = aram_offset; state = setup }) b)

unfoldable pub asset_setup_unload : ℕ → ℕ → Bank → Bank
asset_setup_unload e aram_offset b =
    post e callback_unload
      (with_asset e (record (b.assets e) { aram_offset = aram_offset; state = unloading }) b)

-- The load of an icon or a banner, for an asset that is neither absent nor loaded.
unfoldable pub start_load : ℕ → Bank → Bank
start_load e b =
    let a = record (b.assets e) { state = loading } in
    let (got, used') = get_buf b.used in
    elim got [
      | none ↦ with_asset e a b
      | some k ↦
          post e callback_load
            (with_asset e (record a { buf = some k }) (record b { used = used' }))
    ]

unfoldable pub asset_load : ℕ → Bank → Bank
asset_load e b = elim (b.assets e).state [
  | state_none ↦ b
  | loaded ↦ b
  | setup ↦ start_load e b
  | unloaded ↦ start_load e b
  | unloading ↦ start_load e b
  | loading ↦ start_load e b
]

abbrev pub gm_icon_load : ℕ → Bank → Bank
gm_icon_load e b = asset_load e b

abbrev pub gm_banner_load : ℕ → Bank → Bank
gm_banner_load e b = asset_load e b

-- The end of `gm_icon_free` and `gm_banner_free`, and the delay of a free.
unfoldable pub release : ℕ → Bank → Bank
release e b =
    with_asset e (record (b.assets e) { state = unloaded; buf = none })
      (record b { used = free_buf (b.assets e).buf b.used })

unfoldable pub delay_free : ℕ → Bank → Bank
delay_free e b = with_asset e (record (b.assets e) { schedule_free = true }) b

unfoldable pub gm_icon_free : ℕ → Bank → Bank
gm_icon_free e b = elim (b.assets e).state [
  | state_none ↦ b
  | loading ↦ delay_free e b
  | setup ↦ delay_free e b
  | unloaded ↦ release e b
  | unloading ↦ release e b
  | loaded ↦ release e b
]

unfoldable pub gm_banner_free : ℕ → Bank → Bank
gm_banner_free e b = elim (b.assets e).state [
  | state_none ↦ b
  | unloading ↦ b
  | loading ↦ delay_free e b
  | setup ↦ delay_free e b
  | unloaded ↦ release e b
  | loaded ↦ release e b
]

-- The callbacks of the queue, of its first request.
unfoldable pub arq_callback : ℕ → Callback → Bank → Bank
arq_callback e callback_setup b = with_asset e (record (b.assets e) { state = loaded }) b
arq_callback e callback_unload b =
    with_asset e (record (b.assets e) { state = unloaded })
      (record b { used = free_buf (b.assets e).buf b.used })
arq_callback e callback_load b = with_asset e (record (b.assets e) { state = loaded }) b

unfoldable pub complete : Bank → Bank
complete b = elim b.requests [
  | [] ↦ b
  | r ∷ rest ↦ arq_callback r.0 r.1 (record b { requests = rest })
]

-- The end of `gm_load_banner`: a buffer for the pixels that were read, and whether there was one.
unfoldable pub install : ℕ → ℕ → Bool → Bank → Bool × Bank
install e aram_offset force_unload b =
    let a = record (b.assets e) { state = loading } in
    let (got, used') = get_buf b.used in
    elim got [
      | none ↦ (false, with_asset e a b)
      | some k ↦
          (let filled = with_asset e (record a { buf = some k }) (record b { used = used' }) in
            (
              true,
              if force_unload
                  then asset_setup_unload e aram_offset filled
                  else asset_setup e aram_offset filled,
            ))
    ]
