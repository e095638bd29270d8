-- ===== src/Tests/MenuRuns.antt =====
-- The menu of games.
use cubiboot.Base.{
  ℕ, ◌+◌, ◌<◌, ◌%◌, Bool, true, false, List, [], ◌∷◌, ◌++◌, ◌≡◌, refl, inl, arith, length, take,
  ◌+ℤ◌, ◌-ℤ◌,
}
use cubiboot.Games.Files.{FileType, type_game}
use cubiboot.Games.Lines.{lines_of}
use cubiboot.Grid.{
  grid_setup_func, grid_update_icon_positions, update_line, frame_delta, get_position_after,
  grid_dispatch_navigate_down, any_pending, move_lines, line_goes_up, grid_add_anim,
}
use cubiboot.Menu.{Pad, Screen, loader, move_selection, move_down, move_right}
use cubiboot.Menu.Rows.{Shown}
use cubiboot.Menu.Selection.{browse_all, first_menu, browse_all_lem}
use cubiboot.Menu.Fades.{AtRest, frames, fade_frame, frames_settle, coming, going}

abbrev idle : Pad
idle = record {
  trigger_z = false;
  button_a = false;
  button_b = false;
  button_start = false;
  analog_right = false;
  analog_left = false;
  analog_down = false;
  analog_up = false;
}

abbrev down : Pad
down = record idle { analog_down = true }

abbrev right : Pad
right = record idle { analog_right = true }

abbrev five_down : List Pad
five_down = right ∷ down ∷ down ∷ down ∷ down ∷ down ∷ []

-- Of a list of 80 games, in ten lines, the list scrolls by two.
scrolled :
    ((browse_all five_down (first_menu 80)).selected_slot ≡ 41)
    × ((browse_all five_down (first_menu 80)).top_line_num ≡ 2)
unfolding browse_all move_selection move_down move_right lines_of grid_setup_func
    grid_update_icon_positions update_line frame_delta get_position_after
    grid_dispatch_navigate_down any_pending move_lines line_goes_up grid_add_anim ◌+ℤ◌ ◌-ℤ◌
scrolled = (refl, refl)

browse_all_example : Shown (browse_all five_down (first_menu 80))
browse_all_example = browse_all_lem 80 five_down (omega arith)

abbrev five_idle : List Pad
five_idle = idle ∷ idle ∷ idle ∷ idle ∷ idle ∷ []

abbrev twenty_idle : List Pad
twenty_idle = five_idle ++ (five_idle ++ (five_idle ++ five_idle))

abbrev a_pressed : List Pad
a_pressed = record idle { button_a = true } ∷ []

abbrev all_games : ℕ → FileType
all_games slot = type_game

abbrev load : ℕ → ℕ → ℕ
load l s = s + 1

abbrev bootable : FileType → Bool
bootable t = true

abbrev list_screen : Screen ℕ
list_screen = record {
  menu = record {
    selected_slot = 3;
    top_line_num = 0;
    number_of_lines = 4;
    lines = grid_setup_func;
    assets = 0;
  };
  fade = record { state = loader; in_transition = false; custom_alpha = 255; original_alpha = 0 };
  game_backing_count = 9;
  at_root = true;
}

abbrev after : List Pad → Screen ℕ → Screen ℕ
after pads s = frames all_games load load 14 false bootable pads s

frames_settle_example :
    (coming (after a_pressed list_screen).fade + going (after a_pressed list_screen).fade ≡ 255)
    × (((after a_pressed list_screen).fade.in_transition ≡ true)
        → coming (after a_pressed list_screen).fade % 14 ≡ 0)
    × ((k : ℕ) × (k < length twenty_idle)
        × AtRest (fade_frame 14 (after (take k twenty_idle) (after a_pressed list_screen)).fade))
frames_settle_example =
    frames_settle all_games load load 14 false bootable a_pressed twenty_idle list_screen (inl refl)
      (record { still = refl; shown = refl; hidden = refl }) (omega arith)
