-- ===== src/Menu.antt =====
-- The menu of games: handle_gameselect_inputs of patches/source/menu.c, lines 750 to 935, without its
-- sounds and the animations that it starts; gm_can_move is always true. The assets of the list are any state with the two calls of gm_line_changed.
use cubiboot.Base.{
  ℕ, zero, suc, ◌+◌, ◌-◌, ◌*◌, ◌/◌, ◌%◌, ◌<◌, Bool, true, false, not, ◌&&◌, ◌||◌, List, [], ◌∷◌,
  ◌++◌, ltb, leb, ◌==◌, if◌then◌else◌, at_least,
}
use cubiboot.Grid.{
  Line, px, draw_bound_top, draw_bound_bottom, offset_y, get_position_after,
  grid_dispatch_navigate_up, grid_dispatch_navigate_down, grid_update_icon_positions,
}
use cubiboot.Games.Files.{FileType, type_unknown, type_directory, type_program, type_game}
use cubiboot.Games.Lines.{line_down, line_up, change_lines}
pub mod Rows
pub mod Selection
pub mod Fades

-- SUBMENU_GAMESELECT_LOADER and SUBMENU_GAMESELECT_START
pub data Submenu : Type 0 where
  loader start : Submenu

abbrev pub is_start : Submenu → Bool
is_start loader = false
is_start start = true

-- The change between the two submenus: `current_gameselect_state`, `in_submenu_transition`,
-- `custom_menu_transition_alpha` and `original_menu_transition_alpha`.
pub record Fade : Type 0 where
  pub state : Submenu
  pub in_transition : Bool
  pub custom_alpha : ℕ
  pub original_alpha : ℕ

-- `buttons_down` and `analog_down`
pub record Pad : Type 0 where
  pub trigger_z : Bool
  pub button_a : Bool
  pub button_b : Bool
  pub button_start : Bool
  pub analog_right : Bool
  pub analog_left : Bool
  pub analog_down : Bool
  pub analog_up : Bool

-- What a frame asks of the rest of the program.
pub data MenuRequest : Type 0 where
  boot_disc go_back leave_menu : MenuRequest
  open_folder boot_entry : ℕ → MenuRequest

pub record Menu (S : Type 0) : Type 0 where
  pub selected_slot : ℕ
  pub top_line_num : ℕ
  pub number_of_lines : ℕ
  pub lines : ℕ → Line
  pub assets : S

-- The first part of a frame: a change that is nearly through is over.
unfoldable pub finish_transition : ℕ → Fade → Fade
finish_transition step f =
    if f.in_transition
      && ((not (f.custom_alpha == 0) && not (f.original_alpha == 0))
          && (ltb (255 - f.custom_alpha) step || ltb (255 - f.original_alpha) step))
    then record f {
      in_transition = false;
      custom_alpha = if ltb f.custom_alpha 127 then 0 else 255;
      original_alpha = if ltb f.original_alpha 127 then 0 else 255;
    }
    else f

-- The second: both alphas move on by a step, modulo 256.
unfoldable pub advance_transition : ℕ → Fade → Fade
advance_transition step f =
    let down = λ (a : ℕ). (a + 256 - step) % 256 in
    let up = λ (a : ℕ). (a + step) % 256 in
    if f.in_transition
    then (if is_start f.state
        then record f { custom_alpha = down f.custom_alpha; original_alpha = up f.original_alpha }
        else record f { custom_alpha = up f.custom_alpha; original_alpha = down f.original_alpha })
    else f

module _ {S : Type 0} (load free : ℕ → S → S) where
  unfoldable pub move_right : Menu S → Menu S
  move_right m =
      if m.selected_slot % 8 == 7 then m else record m { selected_slot = m.selected_slot + 1 }

  unfoldable pub move_left : Menu S → Menu S
  move_left m =
      if m.selected_slot % 8 == 0 then m else record m { selected_slot = m.selected_slot - 1 }

  unfoldable pub move_down : Menu S → Menu S
  move_down m =
      let (moved, lines) = grid_dispatch_navigate_down m.number_of_lines m.lines in
      let p = get_position_after (m.lines (m.selected_slot / 8)) in
      if (m.number_of_lines == m.top_line_num + 4)
        && ltb (m.number_of_lines * 8) (m.selected_slot + 9)
      then m
      else if at_least p (draw_bound_bottom - offset_y - px 10)
      then (if moved
          then record m {
            assets = change_lines load free (line_down m.number_of_lines m.top_line_num) m.assets;
            selected_slot = m.selected_slot + 8;
            top_line_num = m.top_line_num + 1;
            lines = lines;
          }
          else record m { lines = lines })
      else record m { selected_slot = m.selected_slot + 8 }

  unfoldable pub move_up : Menu S → Menu S
  move_up m =
      let (moved, lines) = grid_dispatch_navigate_up m.number_of_lines m.lines in
      let p = get_position_after (m.lines (m.selected_slot / 8)) in
      if (m.top_line_num == 0) && ltb m.selected_slot 8
      then m
      else if not (m.top_line_num == 0) && not (at_least p (draw_bound_top + offset_y - px 10 + 1))
      then (if moved
          then record m {
            assets = change_lines load free (line_up m.number_of_lines m.top_line_num) m.assets;
            selected_slot = m.selected_slot - 8;
            top_line_num = m.top_line_num - 1;
            lines = lines;
          }
          else record m { lines = lines })
      else record m { selected_slot = m.selected_slot - 8 }

  -- The last part of a frame: the selection moves.
  unfoldable pub move_selection : Pad → Menu S → Menu S
  move_selection pad m =
      let m1 = if pad.analog_right then move_right m else m in
      let m2 = if pad.analog_left then move_left m1 else m1 in
      let m3 = if pad.analog_down then move_down m2 else m2 in
      if pad.analog_up then move_up m3 else m3

-- The menu with what it reads of the list: `game_backing_count`, and whether `game_enum_path` is "/".
pub record Screen (S : Type 0) : Type 0 where
  pub menu : Menu S
  pub fade : Fade
  pub game_backing_count : ℕ
  pub at_root : Bool

-- What gm_start_thread does to them: the list is empty until it is read again.
abbrev pub empty_list : {S : Type 0} → Screen S → Screen S
empty_list s = record s { game_backing_count = 0; menu = record s.menu { number_of_lines = 0 } }

abbrev pub is_directory : FileType → Bool
is_directory type_directory = true
is_directory type_unknown = false
is_directory type_program = false
is_directory type_game = false

module _ {S : Type 0} (type_of_entry : ℕ → FileType) where
  -- B: back from the start screen, or to the directory above, or out of the menu; true is for the last.
  unfoldable pub press_b : Screen S → Screen S × List MenuRequest × Bool
  press_b s =
      if s.fade.in_transition
      then (s, [], false)
      else if is_start s.fade.state
      then (record s { fade = record s.fade { in_transition = true; state = loader } }, [], false)
      else if s.at_root
      then (s, leave_menu ∷ [], true)
      else (empty_list s, go_back ∷ [], false)

  -- A: into a directory, or to the start screen of a game or a program.
  unfoldable pub press_a : Screen S → Screen S × List MenuRequest
  press_a s =
      let slot = s.menu.selected_slot in
      if is_start s.fade.state || not (ltb slot s.game_backing_count && not s.fade.in_transition)
      then (s, [])
      else if is_directory (type_of_entry slot)
      then (empty_list s, open_folder slot ∷ [])
      else (record s { fade = record s.fade { in_transition = true; state = start } }, [])

  -- START: the selected entry boots, if it can.
  unfoldable pub press_start : (FileType → Bool) → Screen S → List MenuRequest
  press_start emu_can_boot s =
      if is_start s.fade.state && emu_can_boot (type_of_entry s.menu.selected_slot)
      then boot_entry s.menu.selected_slot ∷ []
      else []

  -- A frame; false is for MENU_GAMESELECT_ID, with which the menu is left.
  unfoldable pub handle_gameselect_inputs :
      (load free : ℕ → S → S) (step : ℕ) (emu_has_dvd : Bool) (emu_can_boot : FileType → Bool)
      → Pad
      → Screen S
      → Screen S × List MenuRequest × Bool
  handle_gameselect_inputs load free step emu_has_dvd emu_can_boot pad s =
      let s1 = record s {
        menu = record s.menu {
          lines = grid_update_icon_positions s.menu.number_of_lines s.menu.lines;
        };
        fade = advance_transition step (finish_transition step s.fade);
      } in
      let disc = if pad.trigger_z && emu_has_dvd then boot_disc ∷ [] else [] in
      let (s2, back, leaves) = if pad.button_b then press_b s1 else (s1, [], false) in
      let (s3, opened) = if pad.button_a then press_a s2 else (s2, []) in
      let booted = if pad.button_start then press_start emu_can_boot s3 else [] in
      let s4 =
        if is_start s3.fade.state
        then s3
        else record s3 { menu = move_selection load free pad s3.menu } in
      if leaves then (s2, disc ++ back, false) else (s4, disc ++ (back ++ (opened ++ booted)), true)
