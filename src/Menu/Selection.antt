-- ===== src/Menu/Selection.antt =====
-- The selection of the menu of games stays on the screen, and the lines that are loaded follow it.
use cubiboot.Base.{
  ℕ, ◌+◌, ◌*◌, ◌/◌, ◌%◌, ◌≤◌, ◌<◌, Bool, true, false, not, ◌&&◌, ltb, ◌==◌, List, [], ◌∷◌,
  if◌then◌else◌, ◌≡◌, arith, inl, inr, Bool-cases, subst, at_least, ◌-◌,
}
use cubiboot.Games.Lines.{lines_of}
use cubiboot.Grid.{
  px, draw_bound_top, draw_bound_bottom, offset_y, get_position_after, grid_setup_func,
  grid_dispatch_navigate_up, grid_dispatch_navigate_down, grid_update_icon_positions,
}
use cubiboot.Grid.Dispatch.{
  InPlace, navigate_down-InPlace, navigate_up-InPlace, navigate_down_fails, navigate_up_fails,
  setup-InPlace, update-InPlace,
}
use cubiboot.Menu.{Menu, Pad, move_right, move_left, move_down, move_up, move_selection}
use cubiboot.Menu.Rows.{
  Loaded, load, free, view_of, Shown, last_row, first_row, window_down, window_up,
}

move_right-Shown : (m : Menu Loaded) → Shown m → Shown (move_right load free m)
unfolding move_right
move_right-Shown m h = elim (Bool-cases (m.selected_slot % 8 == 7)) [
  | inl e ↦ rw e h
  | inr e ↦ rw e (record {
    not_above = omega (arith, h.not_above);
    not_below = ground (arith, h.not_below, e);
    room = h.room;
    few = h.few;
    in_place = h.in_place;
    window = h.window;
  })
]

move_left-Shown : (m : Menu Loaded) → Shown m → Shown (move_left load free m)
unfolding move_left
move_left-Shown m h = elim (Bool-cases (m.selected_slot % 8 == 0)) [
  | inl e ↦ rw e h
  | inr e ↦ rw e (record {
    not_above = ground (arith, h.not_above, e);
    not_below = omega (arith, h.not_below);
    room = h.room;
    few = h.few;
    in_place = h.in_place;
    window = h.window;
  })
]

when-Shown :
    (b : Bool) (go : Menu Loaded → Menu Loaded)
    → ((m : Menu Loaded) → Shown m → Shown (go m))
    → (m : Menu Loaded) → Shown m
    → Shown (if b then go m else m)
when-Shown true go keeps m h = keeps m h
when-Shown false go keeps m h = h

move_down-Shown : (m : Menu Loaded) → Shown m → Shown (move_down load free m)
unfolding move_down
move_down-Shown m h =
    let n = m.number_of_lines in
    let top = m.top_line_num in
    let row = m.selected_slot / 8 in
    let p = get_position_after (m.lines row) in
    let inside : row < n = omega (arith, h.not_below, h.room) in
    let last = last_row top row p (h.in_place row inside).place in
    elim (Bool-cases ((n == top + 4) && ltb (n * 8) (m.selected_slot + 9))) [
      | inl e ↦ rw e h
      | inr e ↦ elim (Bool-cases (at_least p (draw_bound_bottom - offset_y - px 10))) [
        | inl s ↦
            (let more : top + 4 < n = ground (arith, last, s, e, h.room, h.not_below) in
              elim (Bool-cases (grid_dispatch_navigate_down n m.lines).0) [
                | inl went ↦
                    rw (e, s, went)
                      (record {
                        not_above = omega (arith, h.not_above);
                        not_below = omega (arith, h.not_below);
                        room = omega (arith, more);
                        few = h.few;
                        in_place = navigate_down-InPlace n top m.lines more h.few h.in_place went;
                        window = window_down n (view_of m) more h.window;
                      })
                | inr failed ↦ rw (e, s, failed, navigate_down_fails n m.lines failed) h
              ])
        | inr s ↦
            rw (e, s)
              (record {
                not_above = omega (arith, h.not_above);
                not_below = ground (arith, last, s, h.not_below);
                room = h.room;
                few = h.few;
                in_place = h.in_place;
                window = h.window;
              })
      ]
    ]

move_up-Shown : (m : Menu Loaded) → Shown m → Shown (move_up load free m)
unfolding move_up
move_up-Shown m h =
    let n = m.number_of_lines in
    let top = m.top_line_num in
    let row = m.selected_slot / 8 in
    let p = get_position_after (m.lines row) in
    let inside : row < n = omega (arith, h.not_below, h.room) in
    let first = first_row top row p (h.in_place row inside).place in
    elim (Bool-cases ((top == 0) && ltb m.selected_slot 8)) [
      | inl e ↦ rw e h
      | inr e ↦
          elim (Bool-cases
            (not (top == 0) && not (at_least p (draw_bound_top + offset_y - px 10 + 1)))) [
              | inl s ↦
                  (let more : 0 < top = ground (arith, s) in
                    let before : top ≡ (top - 1) + 1 = omega (arith, more) in
                    let row_is : row ≤ top = ground (arith, first, s) in
                    elim (Bool-cases (grid_dispatch_navigate_up n m.lines).0) [
                      | inl went ↦
                          rw (e, s, went)
                            (record {
                              not_above = omega (arith, h.not_above, more);
                              not_below = omega (arith, h.not_below, row_is, more);
                              room = omega (arith, h.room);
                              few = h.few;
                              in_place =
                                  navigate_up-InPlace n (top - 1) m.lines
                                    (omega (arith, more, h.room)) h.few
                                    (subst (λ t. InPlace n t m.lines) before h.in_place) went;
                              window = window_up n (view_of m) more h.window;
                            })
                      | inr failed ↦ rw (e, s, failed, navigate_up_fails n m.lines failed) h
                    ])
              | inr s ↦
                  rw (e, s)
                    (record {
                      not_above = ground (arith, first, s, e, h.not_above);
                      not_below = omega (arith, h.not_below);
                      room = h.room;
                      few = h.few;
                      in_place = h.in_place;
                      window = h.window;
                    })
            ]
    ]

-- A frame in which the submenu of the list is shown: the lines move on, and the selection.
abbrev pub browse : Pad → Menu Loaded → Menu Loaded
browse pad m =
    move_selection load free pad
      (record m { lines = grid_update_icon_positions m.number_of_lines m.lines })

browse-Shown : (pad : Pad) (m : Menu Loaded) → Shown m → Shown (browse pad m)
unfolding move_selection
browse-Shown pad m h =
    let m0 : Menu Loaded = record m {
      lines = grid_update_icon_positions m.number_of_lines m.lines;
    } in
    let h0 : Shown m0 = record {
      not_above = h.not_above;
      not_below = h.not_below;
      room = h.room;
      few = h.few;
      in_place = update-InPlace m.number_of_lines m.top_line_num m.lines h.in_place;
      window = h.window;
    } in
    let h1 = when-Shown pad.analog_right (move_right load free) move_right-Shown m0 h0 in
    let h2 = when-Shown pad.analog_left (move_left load free) move_left-Shown _ h1 in
    let h3 = when-Shown pad.analog_down (move_down load free) move_down-Shown _ h2 in
    when-Shown pad.analog_up (move_up load free) move_up-Shown _ h3

unfoldable pub browse_all : List Pad → Menu Loaded → Menu Loaded
browse_all [] m = m
browse_all (pad ∷ pads) m = browse_all pads (browse pad m)

browse_all-Shown : (pads : List Pad) (m : Menu Loaded) → Shown m → Shown (browse_all pads m)
unfolding browse_all
browse_all-Shown [] m h = h
browse_all-Shown (pad ∷ pads) m h = browse_all-Shown pads (browse pad m) (browse-Shown pad m h)

-- The menu as the start of a list of `count` entries leaves it.
abbrev pub first_menu : ℕ → Menu Loaded
first_menu count = record {
  selected_slot = 0;
  top_line_num = 0;
  number_of_lines = lines_of count;
  lines = grid_setup_func;
  assets = λ l. ltb l 6;
}

lines_of_bounds : (count : ℕ) → count ≤ 1920 → (4 ≤ lines_of count) × (lines_of count ≤ 240)
unfolding lines_of
lines_of_bounds count h = ground arith

-- However the selection of a list of at most 1920 entries is moved, in any frames and with any number
-- of animations still on their way: the selected slot is in one of the four rows of the screen, and
-- in the list's lines; each line is on its way to its place below or above the top line; and of the
-- lines on the screen, those are loaded, with one above and two below.
pub browse_all_lem :
    (count : ℕ) (pads : List Pad) → count ≤ 1920 → Shown (browse_all pads (first_menu count))
browse_all_lem count pads h =
    let (least, most) = lines_of_bounds count h in
    browse_all-Shown pads (first_menu count) (record {
      not_above = omega arith;
      not_below = omega arith;
      room = omega (arith, least);
      few = most;
      in_place = setup-InPlace (lines_of count);
      window = λ l small. ground arith;
    })
