-- ===== src/Games/Window.antt =====
-- Which lines of the game list are loaded while it scrolls: gm_line_changed of patches/source/games.c,
-- lines 926 to 959, with its callers in patches/source/menu.c, lines 892 to 927.
use cubiboot.Base.{ℕ, ◌+◌, ◌-◌, ◌<◌, Bool, true, false, ◌&&◌, ◌≡◌, ◌⊎◌, arith, ltb, leb}
use cubiboot.Games.{put}
use cubiboot.Games.Lines.{line_down, line_up, change_lines, lines_of}

-- The top line and the lines that are loaded, seen from outside.
pub record View : Type 0 where
  pub top : ℕ
  pub is_loaded : ℕ → Bool

abbrev pub load_line : ℕ → View → View
load_line l v = record v { is_loaded = put v.is_loaded l true }

abbrev pub free_line : ℕ → View → View
free_line l v = record v { is_loaded = put v.is_loaded l false }

-- The moves that the menu makes, down while the last line is not on the screen and up while the top
-- line is not the first.
pub data Move (n : ℕ) : View → View → Type 0 where
  move_down :
      (v : View)
      → v.top + 4 < n
      → Move n v
          (record (change_lines load_line free_line (line_down n v.top) v) { top = v.top + 1 })
  move_up :
      (v : View)
      → 0 < v.top
      → Move n v (record (change_lines load_line free_line (line_up n v.top) v) { top = v.top - 1 })

data Moves (n : ℕ) : View → View → Type 0 where
  stay : (v : View) → Moves n v v
  then_move : (v w u : View) → Moves n v w → Move n w u → Moves n v u

-- The lines of the list from the one above the top to the second below the screen.
abbrev pub in_window : ℕ → ℕ → ℕ → Bool
in_window n top l = ltb l n && (leb top (l + 1) && ltb l (top + 6))

abbrev pub AsWindow : ℕ → View → Type 0
AsWindow n v = (l : ℕ) → l < n → v.is_loaded l ≡ in_window n v.top l

pub Move-AsWindow : (n : ℕ) (v w : View) → Move n v w → AsWindow n v → AsWindow n w
unfolding line_down line_up
Move-AsWindow n _ _ (move_down v room) inv l small = ground (arith, inv l small)
Move-AsWindow n _ _ (move_up v room) inv l small = ground (arith, inv l small)

Moves-AsWindow : (n : ℕ) (v w : View) → Moves n v w → AsWindow n v → AsWindow n w
Moves-AsWindow n _ _ (stay v) inv = inv
Moves-AsWindow n _ _ (then_move v w u ms m) inv =
    Move-AsWindow n w u m (Moves-AsWindow n v w ms inv)

-- However the list of `n` lines scrolls, from the first line with the six lines that the start
-- loads, the lines that are loaded are those on the screen, one above it and two below: each move
-- loads and frees no other lines. So all lines on the screen are loaded.
moves_lem :
    (count : ℕ) (v w : View)
    → Moves (lines_of count) v w
    → v.top ≡ 0
    → ((l : ℕ) → l < lines_of count → v.is_loaded l ≡ ltb l 6)
    → (l : ℕ) → l < lines_of count
    → (w.is_loaded l ≡ in_window (lines_of count) w.top l)
      × ((ltb l w.top ≡ true) ⊎ ((leb (w.top + 4) l ≡ true) ⊎ (w.is_loaded l ≡ true)))
moves_lem count v w ms first start l small =
    let inv : AsWindow (lines_of count) v = λ k h. ground (arith, start k h) in
    let now = Moves-AsWindow (lines_of count) v w ms inv l small in (now, ground (arith, now))
