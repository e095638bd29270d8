-- ===== src/Grid/Places.antt =====
-- Where a line of the game list is to be, and the tests of patches/source/grid.c on its position.
use cubiboot.Base.{
  ℕ, ◌+◌, ◌*◌, ◌%◌, ◌≤◌, ◌<◌, true, false, ◌&&◌, ltb, leb, ℤ, pos_part, neg_part, +ℤ_parts,
  -ℤ_parts, ◌≡◌, arith, inl, inr, ◌⊎◌,
}
use cubiboot.Grid.{
  Line, is_up, dir_up, dir_down, get_position_after, enters_above, enters_below, near_screen,
  grid_add_anim, draw_bound_top, offset_y, px,
}

-- The position of the line `l` while `top` is the top line.
abbrev pub AtPlace : ℕ → ℕ → ℤ → Type 0
AtPlace top l p = pos_part p + offset_y * top ≡ neg_part p + draw_bound_top + offset_y * l

-- A line that is in its place, or on its way there; `n` is the number of lines.
pub record Placed (n top l : ℕ) (line : Line) : Type 0 where
  pub place : AtPlace top l (get_position_after line)
  pub rests : (0 < line.pending_count) ⊎ (line.remaining ≡ 0)
  pub whole : line.remaining % 28 ≡ 0
  pub meant :
      (line.pending_count ≡ 0)
      ⊎ (((is_up line.direction ≡ true) × (l < top + 4) × (line.pending_count ≤ top))
          ⊎ ((is_up line.direction ≡ false) × (top ≤ l) × (line.pending_count + top ≤ n)))

module _ (top l : ℕ) (p : ℤ) (h : AtPlace top l p) where
  pub enters_below_lem : enters_below p ≡ (leb (top + 4) l && ltb l (top + 6))
  enters_below_lem = ground (arith, +ℤ_parts p (px 10), -ℤ_parts p (offset_y + px 10))

  pub enters_above_lem : enters_above p ≡ (leb l top && leb top (l + 1))
  enters_above_lem = ground (arith, +ℤ_parts p (offset_y + px 10), -ℤ_parts p (px 10))

  pub near_screen_lem : near_screen p ≡ (leb top l && ltb l (top + 5))
  near_screen_lem = ground arith

-- A position in terms of the raw position.
pub position_up :
    (line : Line)
    → is_up line.direction ≡ true
    → pos_part (get_position_after line) + neg_part line.raw_position_y + line.remaining
      ≡ neg_part (get_position_after line) + pos_part line.raw_position_y
unfolding get_position_after
position_up line e = ground (arith, -ℤ_parts line.raw_position_y line.remaining)

pub position_down :
    (line : Line)
    → is_up line.direction ≡ false
    → pos_part (get_position_after line) + neg_part line.raw_position_y
      ≡ neg_part (get_position_after line) + pos_part line.raw_position_y + line.remaining
unfolding get_position_after
position_down line e = ground (arith, +ℤ_parts line.raw_position_y line.remaining)

-- A line that is still, or moves on in the direction that it has, is given `distance` more to go.
pub add_anim_up :
    (line : Line) (distance : ℕ)
    → (line.pending_count ≡ 0) ⊎ (is_up line.direction ≡ true)
    → line.pending_count < 100000
    → grid_add_anim dir_up distance line ≡ record line {
      pending_count = line.pending_count + 1;
      remaining = line.remaining + distance;
      direction = dir_up;
    }
unfolding grid_add_anim
add_anim_up line distance (inl still) few = ground arith
add_anim_up line distance (inr up) few = ground arith

pub add_anim_down :
    (line : Line) (distance : ℕ)
    → (line.pending_count ≡ 0) ⊎ (is_up line.direction ≡ false)
    → line.pending_count < 100000
    → grid_add_anim dir_down distance line ≡ record line {
      pending_count = line.pending_count + 1;
      remaining = line.remaining + distance;
      direction = dir_down;
    }
unfolding grid_add_anim
add_anim_down line distance (inl still) few = ground arith
add_anim_down line distance (inr up) few = ground arith
