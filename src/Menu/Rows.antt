-- ===== src/Menu/Rows.antt =====
-- The rows of the menu of games: what is meant by a selection on the screen, and the tests of
-- patches/source/menu.c, lines 892 to 927, on the position of its line.
use cubiboot.Base.{
  ℕ, ◌+◌, ◌*◌, ◌≤◌, ◌<◌, Bool, true, false, ltb, leb, ◌≡◌, refl, arith, at_least, ℤ, Option, none,
  some, ◌-◌,
}
use cubiboot.Games.{put}
use cubiboot.Games.Lines.{change_lines, line_down, line_up}
use cubiboot.Games.Window.{View, Move, load_line, free_line, AsWindow, Move-AsWindow}
use cubiboot.Grid.{px, draw_bound_top, draw_bound_bottom, offset_y}
use cubiboot.Grid.Places.{AtPlace}
use cubiboot.Grid.Dispatch.{InPlace}
use cubiboot.Menu.{Menu}

-- The assets of the list, seen from outside: which lines are loaded.
abbrev pub Loaded : Type 0
Loaded = ℕ → Bool

abbrev pub load : ℕ → Loaded → Loaded
load l loaded = put loaded l true

abbrev pub free : ℕ → Loaded → Loaded
free l loaded = put loaded l false

abbrev pub view_of : Menu Loaded → View
view_of m = record { top = m.top_line_num; is_loaded = m.assets }

-- The selected slot is in one of the four rows from the top line on, and these are lines of the list,
-- each in its place on the screen; the lines around them are loaded.
pub record Shown (m : Menu Loaded) : Type 0 where
  pub not_above : m.top_line_num * 8 ≤ m.selected_slot
  pub not_below : m.selected_slot < (m.top_line_num + 4) * 8
  pub room : m.top_line_num + 4 ≤ m.number_of_lines
  pub few : m.number_of_lines ≤ 240
  pub in_place : InPlace m.number_of_lines m.top_line_num m.lines
  pub window : AsWindow m.number_of_lines (view_of m)

-- The row of the screen that a line is in, by its position.
pub last_row :
    (top l : ℕ) (p : ℤ)
    → AtPlace top l p
    → at_least p (draw_bound_bottom - offset_y - px 10) ≡ leb (top + 3) l
last_row top l p h = ground arith

pub first_row :
    (top l : ℕ) (p : ℤ)
    → AtPlace top l p
    → at_least p (draw_bound_top + offset_y - px 10 + 1) ≡ ltb top l
first_row top l p h = ground arith

loads_as_view :
    (lines : Option ℕ × Option ℕ) (v : View)
    → (change_lines load_line free_line lines v).is_loaded
      ≡ change_lines load free lines v.is_loaded
loads_as_view (none, none) v = refl
loads_as_view (some l, none) v = refl
loads_as_view (none, some u) v = refl
loads_as_view (some l, some u) v = refl

pub window_down :
    (n : ℕ) (v : View)
    → v.top + 4 < n
    → AsWindow n v
    → AsWindow n (record {
      top = v.top + 1;
      is_loaded = change_lines load free (line_down n v.top) v.is_loaded;
    })
window_down n v more h l small =
    rw (← loads_as_view (line_down n v.top) v)
      (Move-AsWindow n v _ (Move.move_down v more) h l small)

pub window_up :
    (n : ℕ) (v : View)
    → 0 < v.top
    → AsWindow n v
    → AsWindow n (record {
      top = v.top - 1;
      is_loaded = change_lines load free (line_up n v.top) v.is_loaded;
    })
window_up n v more h l small =
    rw (← loads_as_view (line_up n v.top) v) (Move-AsWindow n v _ (Move.move_up v more) h l small)
