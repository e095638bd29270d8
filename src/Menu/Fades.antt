-- ===== src/Menu/Fades.antt =====
-- The change between the submenus of the game list: patches/source/menu.c, lines 754 to 781.
use cubiboot.Base.{
  ℕ, suc, ◌+◌, ◌*◌, ◌%◌, ◌≤◌, ◌<◌, Bool, true, false, not, ltb, List, [], ◌∷◌, ◌≢◌, if◌then◌else◌,
  ◌≡◌, refl, arith, inl, inr, ◌⊎◌, Bool-cases, length, take,
}
use cubiboot.Grid.{grid_update_icon_positions}
use cubiboot.Games.Files.{FileType}
use cubiboot.Menu.{
  Fade, Submenu, is_start, loader, start, Screen, Pad, finish_transition, advance_transition,
  press_a, press_b, handle_gameselect_inputs,
}

-- The alpha of the menu that is coming, and of the one that is going.
abbrev pub coming : Fade → ℕ
coming f = if is_start f.state then f.original_alpha else f.custom_alpha

abbrev pub going : Fade → ℕ
going f = if is_start f.state then f.custom_alpha else f.original_alpha

-- One menu is shown and the other is not.
pub record AtRest (f : Fade) : Type 0 where
  pub still : f.in_transition ≡ false
  pub shown : coming f ≡ 255
  pub hidden : going f ≡ 0

-- A change of which a whole number of steps is done.
pub record Changing (step : ℕ) (f : Fade) : Type 0 where
  pub changes : f.in_transition ≡ true
  pub together : coming f + going f ≡ 255
  pub steps : coming f % step ≡ 0

abbrev pub Good : ℕ → Fade → Type 0
Good step f = AtRest f ⊎ Changing step f

-- The two steps of the source, for NTSC and for the other video modes.
abbrev pub IsStep : ℕ → Type 0
IsStep step = (step ≡ 14) ⊎ (step ≡ 16)

-- The change in one frame.
abbrev pub fade_frame : ℕ → Fade → Fade
fade_frame step f = advance_transition step (finish_transition step f)

rest_frame : (step : ℕ) (f : Fade) → f.in_transition ≡ false → fade_frame step f ≡ f
unfolding advance_transition finish_transition
rest_frame step f e = ground (arith, e)

-- What the steps give: 255 is no whole number of them.
steps_lem :
    (step c : ℕ)
    → IsStep step
    → c % step ≡ 0
    → ((c + step) % step ≡ 0)
      × (c + step ≢ 255)
      × ((c ≡ 0) ⊎ (step ≤ c))
      × (step ≤ 16)
      × (13 < step)
steps_lem step c (inl e) h = rw e (ground (arith, rw e at h))
steps_lem step c (inr e) h = rw e (ground (arith, rw e at h))

module _ (step : ℕ) (f : Fade) (is : IsStep step) (h : Changing step f) where
  last_frame : going f < step → AtRest (fade_frame step f)
  unfolding advance_transition finish_transition
  last_frame e =
      let facts = steps_lem step (coming f) is h.steps in
      ground (arith, h.changes, h.together, facts, e)

  next_frame :
      step ≤ going f
      → Changing step (fade_frame step f) × (going (fade_frame step f) + step ≡ going f)
  unfolding advance_transition finish_transition
  next_frame e =
      let facts = steps_lem step (coming f) is h.steps in
      ground (arith, h.changes, h.together, facts, e)

fade_frame-Good : (step : ℕ) (f : Fade) → IsStep step → Good step f → Good step (fade_frame step f)
fade_frame-Good step f is (inl r) = rw (rest_frame step f r.still) (inl r)
fade_frame-Good step f is (inr c) = elim (Bool-cases (ltb (going f) step)) [
  | inl e ↦ inl (last_frame step f is c (ground (arith, e)))
  | inr e ↦ inr (next_frame step f is c (ground (arith, e))).0
]

-- From rest either submenu can be asked for.
turn-Good :
    (step : ℕ) (f : Fade) (s : Submenu)
    → IsStep step
    → AtRest f
    → (is_start s ≡ not (is_start f.state))
    → Good step (record f { in_transition = true; state = s })
turn-Good step f s is r e = inr (record {
  changes = refl;
  together = ground (arith, r.shown, r.hidden, e);
  steps = elim is [
    | inl k ↦ rw k (ground (arith, r.hidden, e))
    | inr k ↦ rw k (ground (arith, r.hidden, e))
  ];
})

at_rest : (step : ℕ) (f : Fade) → Good step f → f.in_transition ≡ false → AtRest f
at_rest step f (inl r) e = r
at_rest step f (inr c) e = cc (c.changes, e)

Good-sum : (step : ℕ) (f : Fade) → Good step f → coming f + going f ≡ 255
Good-sum step f (inl r) = omega (arith, r.shown, r.hidden)
Good-sum step f (inr c) = c.together

Good-steps : (step : ℕ) (f : Fade) → Good step f → f.in_transition ≡ true → coming f % step ≡ 0
Good-steps step f (inl r) e = cc (r.still, e)
Good-steps step f (inr c) e = c.steps

module _ {S : Type 0} (type_of_entry : ℕ → FileType) (load free : ℕ → S → S) (step : ℕ)
    (emu_has_dvd : Bool) (emu_can_boot : FileType → Bool) where
  abbrev pub frame : Pad → Screen S → Screen S
  frame pad s =
      (handle_gameselect_inputs type_of_entry load free step emu_has_dvd emu_can_boot pad s).0

  unfoldable pub frames : List Pad → Screen S → Screen S
  frames [] s = s
  frames (pad ∷ pads) s = frames pads (frame pad s)

  press_b_fade :
      (s : Screen S)
      → ((press_b type_of_entry s).0.fade ≡ s.fade)
        ⊎ ((s.fade.in_transition ≡ false)
            × (is_start s.fade.state ≡ true)
            × ((press_b type_of_entry s).0.fade
                ≡ record s.fade { in_transition = true; state = loader }))
  unfolding press_b
  press_b_fade s = ground arith

  press_a_fade :
      (s : Screen S)
      → ((press_a type_of_entry s).0.fade ≡ s.fade)
        ⊎ ((s.fade.in_transition ≡ false)
            × (is_start s.fade.state ≡ false)
            × ((press_a type_of_entry s).0.fade
                ≡ record s.fade { in_transition = true; state = start }))
  unfolding press_a
  press_a_fade s = ground arith

  press_b-Good :
      (s : Screen S) → IsStep step → Good step s.fade → Good step (press_b type_of_entry s).0.fade
  press_b-Good s is g = elim (press_b_fade s) [
    | inl e ↦ rw e g
    | inr e ↦
        rw (e.2) (turn-Good step s.fade loader is (at_rest step s.fade g e.0) (ground (arith, e.1)))
  ]

  press_a-Good :
      (s : Screen S) → IsStep step → Good step s.fade → Good step (press_a type_of_entry s).0.fade
  press_a-Good s is g = elim (press_a_fade s) [
    | inl e ↦ rw e g
    | inr e ↦
        rw (e.2) (turn-Good step s.fade start is (at_rest step s.fade g e.0) (ground (arith, e.1)))
  ]

  -- While a change goes on, no button touches it.
  frame_changing :
      (pad : Pad) (s : Screen S)
      → (fade_frame step s.fade).in_transition ≡ true
      → (frame pad s).fade ≡ fade_frame step s.fade
  unfolding press_a press_b handle_gameselect_inputs
  frame_changing pad s e = ground (arith, e)

  -- The fade of a frame is that after B, or that after A.
  frame_fade :
      (pad : Pad) (s : Screen S)
      → let s1 = record s {
        menu = record s.menu {
          lines = grid_update_icon_positions s.menu.number_of_lines s.menu.lines;
        };
        fade = fade_frame step s.fade;
      } in
        let s2 = if pad.button_b then (press_b type_of_entry s1).0 else s1 in
        let s3 = if pad.button_a then (press_a type_of_entry s2).0 else s2 in
        ((frame pad s).fade ≡ s2.fade) ⊎ ((frame pad s).fade ≡ s3.fade)
  unfolding handle_gameselect_inputs
  frame_fade pad s = ground arith

  frame-Good :
      (pad : Pad) (s : Screen S) → IsStep step → Good step s.fade → Good step (frame pad s).fade
  frame-Good pad s is g =
      let s1 : Screen S = record s {
        menu = record s.menu {
          lines = grid_update_icon_positions s.menu.number_of_lines s.menu.lines;
        };
        fade = fade_frame step s.fade;
      } in
      let s2 : Screen S = if pad.button_b then (press_b type_of_entry s1).0 else s1 in
      let good1 : Good step s1.fade = fade_frame-Good step s.fade is g in
      let good2 : Good step s2.fade = elim (Bool-cases pad.button_b) [
        | inl e ↦ rw e (press_b-Good s1 is good1)
        | inr e ↦ rw e good1
      ] in
      elim (frame_fade pad s) [
        | inl e ↦ rw e good2
        | inr e ↦ elim (Bool-cases pad.button_a) [
          | inl a ↦ rw (e, a) (press_a-Good s2 is good2)
          | inr a ↦ rw (e, a) good2
        ]
      ]

  settles :
      (pads : List Pad) (s : Screen S)
      → IsStep step
      → Good step s.fade
      → going s.fade < 14 * length pads
      → (k : ℕ) × (k < length pads) × AtRest (fade_frame step (frames (take k pads) s).fade)
  unfolding frames
  settles [] s is g e = absurd (omega arith)
  settles (pad ∷ pads) s is (inl r) e = (0, omega arith, rw (rest_frame step s.fade r.still) r)
  settles (pad ∷ pads) s is (inr c) e = elim (Bool-cases (ltb (going s.fade) step)) [
    | inl last ↦ (0, omega arith, last_frame step s.fade is c (ground (arith, last)))
    | inr more ↦
        (let next = next_frame step s.fade is c (ground (arith, more)) in
          let same = frame_changing pad s next.0.changes in
          let facts = steps_lem step 0 is (ground (arith, is)) in
          let (k, small, rest) =
            settles pads (frame pad s) is (rw same (inr next.0))
              (rw same (omega (arith, next.1, e, facts.4))) in
          (suc k, omega (arith, small), rest))
  ]

  frames-Good :
      (pads : List Pad) (s : Screen S)
      → IsStep step
      → Good step s.fade
      → Good step (frames pads s).fade
  unfolding frames
  frames-Good [] s is g = g
  frames-Good (pad ∷ pads) s is g = frames-Good pads (frame pad s) is (frame-Good pad s is g)

  -- Whatever is pressed, from a menu at rest: the alphas of the two submenus never wrap round, as they
  -- always have the sum 255, a whole number of steps of 14, or of 16, being done; and among any 19
  -- frames that follow there is one in which the change is over, with one submenu shown in full and
  -- the other not at all.
  pub frames_settle :
      (first pads : List Pad) (s : Screen S)
      → (step ≡ 14) ⊎ (step ≡ 16)
      → AtRest s.fade
      → 19 ≤ length pads
      → (coming (frames first s).fade + going (frames first s).fade ≡ 255)
        × (((frames first s).fade.in_transition ≡ true) → coming (frames first s).fade % step ≡ 0)
        × ((k : ℕ) × (k < length pads)
            × AtRest (fade_frame step (frames (take k pads) (frames first s)).fade))
  frames_settle first pads s is r enough =
      let good = frames-Good first s is (inl r) in
      (
        Good-sum step _ good,
        Good-steps step _ good,
        settles pads _ is good (omega (arith, Good-sum step _ good)),
      )
