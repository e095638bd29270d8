-- ===== src/Games/Lines.antt =====
-- The lines of the game list: patches/source/games.c, lines 891 to 958 and 1002 to 1012.
use cubiboot.Base.{
  ℕ, zero, suc, ◌+◌, ◌-◌, ◌*◌, ◌/◌, Bool, Option, none, some, ltb, leb, if◌then◌else◌,
}
use cubiboot.Games.{Bank, gm_icon_load, gm_banner_load, gm_icon_free, gm_banner_free}

-- ASSETS_PER_LINE, PRELOAD_LINE_COUNT and DRAW_TOTAL_ROWS
abbrev pub assets_per_line : ℕ
assets_per_line = 8

abbrev pub preload_line_count : ℕ
preload_line_count = 2

abbrev pub draw_total_rows : ℕ
draw_total_rows = 4

-- The list: the number of its entries, which of them are games, and the two banks.
pub record Games : Type 0 where
  pub entry_count : ℕ
  pub is_game : ℕ → Bool
  pub icons : Bank
  pub banners : Bank

abbrev pub load_entry : ℕ → Games → Games
load_entry e g =
    let g' = record g { icons = gm_icon_load e g.icons } in
    if g.is_game e then record g' { banners = gm_banner_load e g'.banners } else g'

abbrev pub free_entry : ℕ → Games → Games
free_entry e g =
    let g' = record g { icons = gm_icon_free e g.icons } in
    if g.is_game e then record g' { banners = gm_banner_free e g'.banners } else g'

-- The loops of `gm_line_load` and `gm_line_free`, with `left` entries to go from `e` on.
unfoldable pub load_entries : ℕ → ℕ → Games → Games
load_entries zero e g = g
load_entries (suc left) e g =
    let rest = load_entries left (e + 1) (load_entry e g) in if leb g.entry_count e then g else rest

unfoldable pub free_entries : ℕ → ℕ → Games → Games
free_entries zero e g = g
free_entries (suc left) e g =
    let rest = free_entries left (e + 1) (free_entry e g) in if leb g.entry_count e then g else rest

abbrev pub gm_line_load : ℕ → Games → Games
gm_line_load line_num g = load_entries assets_per_line (line_num * assets_per_line) g

abbrev pub gm_line_free : ℕ → Games → Games
gm_line_free line_num g = free_entries assets_per_line (line_num * assets_per_line) g

-- The lines that `gm_line_changed` loads and frees, for a list that moves down by one line from
-- `top_line_num`, and for one that moves up.
unfoldable pub line_down : ℕ → ℕ → Option ℕ × Option ℕ
line_down number_of_lines top_line_num =
    let new_line_num = top_line_num + 1 in
    let load_line = new_line_num + draw_total_rows + preload_line_count - 1 in
    (
      if ltb load_line number_of_lines then some load_line else none,
      if leb preload_line_count new_line_num
          then some (new_line_num - preload_line_count)
          else none,
    )

unfoldable pub line_up : ℕ → ℕ → Option ℕ × Option ℕ
line_up number_of_lines top_line_num =
    let new_line_num = top_line_num - 1 in
    let unload_line = new_line_num + draw_total_rows + preload_line_count in
    (
      if leb preload_line_count (new_line_num + 1)
          then some (new_line_num + 1 - preload_line_count)
          else none,
      if ltb unload_line number_of_lines then some unload_line else none,
    )

-- What `gm_line_changed` does with them, to a list, or to any other state that has the two calls.
abbrev pub change_lines : {S : Type 0} → (ℕ → S → S) → (ℕ → S → S) → Option ℕ × Option ℕ → S → S
change_lines load free (none, none) s = s
change_lines load free (some l, none) s = load l s
change_lines load free (none, some u) s = free u s
change_lines load free (some l, some u) s = free u (load l s)

abbrev pub gm_line_changed : Bool → ℕ → ℕ → Games → Games
gm_line_changed down number_of_lines top_line_num g =
    change_lines gm_line_load gm_line_free
      (if down
        then line_down number_of_lines top_line_num
        else line_up number_of_lines top_line_num)
      g

-- The number of lines of `gm_setup_grid`.
unfoldable pub lines_of : ℕ → ℕ
lines_of line_count = let lines = (line_count + 7) / 8 in if ltb lines 4 then 4 else lines
