-- ===== src/Grid.antt =====
-- The lines of the game list on the screen: patches/source/grid.c. Positions are in 75ths of a pixel,
-- in which each of its steps is a whole number. What only the drawing reads, the transparency of a
-- line and the marks by which it fades, is left out.
use cubiboot.Base.{
  ℕ, zero, suc, ◌+◌, ◌-◌, ◌*◌, ◌≤◌, ◌<◌, Bool, true, false, not, ◌&&◌, ◌||◌, ltb, leb, ◌==◌,
  if◌then◌else◌, ℤ, pos, negsuc, pos_part, neg_part, ◌+ℤ◌, ◌-ℤ◌, at_least,
}
use cubiboot.Games.{put}
pub mod Places
pub mod Motion
pub mod Dispatch

-- ANIM_DIRECTION_UP and ANIM_DIRECTION_DOWN
pub data Direction : Type 0 where
  dir_up dir_down : Direction

abbrev pub is_up : Direction → Bool
is_up dir_up = true
is_up dir_down = false

-- `anim_list_t` with the position of `line_backing_t`
pub record Line : Type 0 where
  pub pending_count : ℕ
  pub direction : Direction
  pub remaining : ℕ
  pub raw_position_y : ℤ

-- A pixel, and DRAW_BOUND_TOP, DRAW_BOUND_BOTTOM and DRAW_OFFSET_Y, with half of the last.
abbrev pub px : ℕ → ℕ
px n = 75 * n

abbrev pub max_anims : ℕ
max_anims = 100000

abbrev pub draw_bound_top : ℕ
draw_bound_top = px 104

abbrev pub draw_bound_bottom : ℕ
draw_bound_bottom = px 328

abbrev pub offset_y : ℕ
offset_y = px 56

abbrev pub half_offset : ℕ
half_offset = px 28

unfoldable pub get_position_after : Line → ℤ
get_position_after l =
    if is_up l.direction then l.raw_position_y -ℤ l.remaining else l.raw_position_y +ℤ l.remaining

-- `grid_setup_func`, of the line `line_num`
unfoldable pub grid_setup_func : ℕ → Line
grid_setup_func line_num = record {
  pending_count = 0;
  direction = dir_up;
  remaining = 0;
  raw_position_y = pos (draw_bound_top + line_num * offset_y);
}

unfoldable pub grid_add_anim : Direction → ℕ → Line → Line
grid_add_anim direction distance l =
    let turned = if is_up l.direction then not (is_up direction) else is_up direction in
    let count = if ltb 0 l.pending_count && turned then 0 else l.pending_count in
    if ltb count max_anims
    then record l {
      pending_count = count + 1;
      remaining = l.remaining + distance;
      direction = direction;
    }
    else record l { pending_count = count }

-- Whether a line on its way ends in the rows that the screen shows, one more on each side included.
abbrev pub near_screen : ℤ → Bool
near_screen p =
    not (at_least p (draw_bound_bottom + offset_y - px 10))
    && at_least p (draw_bound_top - offset_y + px 10)

-- A line on its way in from above, and from below.
abbrev pub enters_above : ℤ → Bool
enters_above p =
    at_least (p +ℤ (offset_y + px 10)) draw_bound_top && not (at_least (p -ℤ px 10) draw_bound_top)

abbrev pub enters_below : ℤ → Bool
enters_below p =
    at_least (p +ℤ px 10) draw_bound_bottom
    && not (at_least (p -ℤ (offset_y + px 10)) draw_bound_bottom)

-- One line in the loops of `grid_dispatch_navigate_down` and `grid_dispatch_navigate_up`; `found` is
-- `found_move_in`.
unfoldable pub line_goes_up : Bool → Line → Line
line_goes_up found l =
    let p = get_position_after l in
    if not found && enters_below p
    then grid_add_anim dir_up half_offset
        (record l { raw_position_y = pos (draw_bound_bottom - half_offset) })
    else if near_screen p
    then grid_add_anim dir_up offset_y l
    else record l { raw_position_y = l.raw_position_y -ℤ offset_y }

unfoldable pub line_goes_down : Bool → Line → Line
line_goes_down found l =
    let p = get_position_after l in
    if not found && enters_above p
    then grid_add_anim dir_down half_offset
        (record l { raw_position_y = pos (draw_bound_top - half_offset) })
    else if near_screen p
    then grid_add_anim dir_down offset_y l
    else record l { raw_position_y = l.raw_position_y +ℤ offset_y }

-- The loop over the lines, with `left` to go from `line_num` on.
unfoldable pub move_lines : (Bool → Line → Line) → (ℤ → Bool) → ℕ → ℕ → Bool → (ℕ → Line) → ℕ → Line
move_lines go enters zero line_num found lines = lines
move_lines go enters (suc left) line_num found lines =
    move_lines go enters left (line_num + 1) (found || enters (get_position_after (lines line_num)))
      (put lines line_num (go found (lines line_num)))

-- Whether a line has a pending animation in a direction.
unfoldable pub any_pending : Bool → ℕ → (ℕ → Line) → Bool
any_pending up zero lines = false
any_pending up (suc n) lines =
    (ltb 0 (lines n).pending_count && (if is_up (lines n).direction then up else not up))
    || any_pending up n lines

-- GRID_MOVE_SUCCESS is true, beside the lines.
unfoldable pub grid_dispatch_navigate_up : ℕ → (ℕ → Line) → Bool × (ℕ → Line)
grid_dispatch_navigate_up number_of_lines lines =
    if any_pending true number_of_lines lines
    then (false, lines)
    else (true, move_lines line_goes_down enters_above number_of_lines 0 false lines)

unfoldable pub grid_dispatch_navigate_down : ℕ → (ℕ → Line) → Bool × (ℕ → Line)
grid_dispatch_navigate_down number_of_lines lines =
    if any_pending false number_of_lines lines
    then (false, lines)
    else (true, move_lines line_goes_up enters_below number_of_lines 0 false lines)

-- `grid_update_icon_positions`: the way that a line with an animation goes in this frame, and the line
-- after it. An animation is over with less than a tenth of a pixel to go.
unfoldable pub frame_delta : Line → ℕ
frame_delta l =
    let multiplier = if ltb 8 (6 + l.pending_count) then 8 else 6 + l.pending_count in
    if ltb l.remaining (28 * multiplier) then l.remaining else 28 * multiplier

unfoldable pub update_line : Line → Line
update_line l =
    let delta = frame_delta l in
    let left = l.remaining - delta in
    let done = ltb left 8 in
    if ltb 0 l.pending_count
    then record l {
      remaining = if done then 0 else left;
      raw_position_y =
          if is_up l.direction then l.raw_position_y -ℤ delta else l.raw_position_y +ℤ delta;
      pending_count = if done then l.pending_count - 1 else l.pending_count;
    }
    else l

unfoldable pub grid_update_icon_positions : ℕ → (ℕ → Line) → ℕ → Line
grid_update_icon_positions number_of_lines lines j =
    if ltb j number_of_lines then update_line (lines j) else lines j
