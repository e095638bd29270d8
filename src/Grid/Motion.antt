-- ===== src/Grid/Motion.antt =====
-- The lines keep their places: the two loops of patches/source/grid.c that move them, and the update
-- of each frame.
use cubiboot.Base.{
  ℕ, ◌+◌, ◌-◌, ◌*◌, ◌%◌, ◌≤◌, ◌<◌, Bool, true, false, not, ◌&&◌, ltb, ℤ, pos, pos_part, neg_part,
  ◌+ℤ◌, ◌-ℤ◌, +ℤ_parts, -ℤ_parts, ◌≡◌, refl, arith, inl, inr, ◌⊎◌, Bool-cases,
}
use cubiboot.Grid.{
  Line, is_up, dir_up, dir_down, get_position_after, enters_above, enters_below, near_screen,
  draw_bound_top, offset_y, line_goes_up, line_goes_down, draw_bound_bottom, half_offset,
  grid_add_anim,
}
use cubiboot.Grid.Places.{
  Placed, enters_below_lem, enters_above_lem, near_screen_lem, position_up, position_down,
  add_anim_up, add_anim_down,
}

-- Whether a line may be moved up: it is still, or on its way up; and down.
abbrev pub NotDown : Line → Type 0
NotDown line = (line.pending_count ≡ 0) ⊎ (is_up line.direction ≡ true)

abbrev pub NotUp : Line → Type 0
NotUp line = (line.pending_count ≡ 0) ⊎ (is_up line.direction ≡ false)

pub few_pending :
    (n top l : ℕ) (line : Line)
    → Placed n top l line
    → top ≤ n
    → n ≤ 240
    → line.pending_count < 100000
few_pending n top l line h small few = elim h.meant [
  | inl z ↦ omega arith
  | inr m ↦ elim m [ inl u ↦ omega (arith, u.2) | inr d ↦ omega (arith, d.2) ]
]

-- A position that is known of a line that goes up, and of one that goes down.
raw_up :
    (n top l : ℕ) (line : Line)
    → Placed n top l line
    → NotDown line
    → pos_part line.raw_position_y + offset_y * top
      ≡ neg_part line.raw_position_y + line.remaining + draw_bound_top + offset_y * l
raw_up n top l line h free = elim (Bool-cases (is_up line.direction)) [
  | inl u ↦ omega (arith, h.place, position_up line u)
  | inr d ↦
      (let still : line.remaining ≡ 0 = ground (arith, h.rests, free, d) in
        omega (arith, h.place, position_down line d, still))
]

raw_down :
    (n top l : ℕ) (line : Line)
    → Placed n top l line
    → NotUp line
    → pos_part line.raw_position_y + line.remaining + offset_y * top
      ≡ neg_part line.raw_position_y + draw_bound_top + offset_y * l
raw_down n top l line h free = elim (Bool-cases (is_up line.direction)) [
  | inl u ↦
      (let still : line.remaining ≡ 0 = ground (arith, h.rests, free, u) in
        omega (arith, h.place, position_up line u, still))
  | inr d ↦ omega (arith, h.place, position_down line d)
]

moved_up :
    (n top l d : ℕ) (line : Line) (r : ℤ)
    → Placed n top l line
    → NotDown line
    → l < top + 5
    → top ≤ n
    → n ≤ 240
    → d % 28 ≡ 0
    → pos_part r + offset_y * (top + 1)
      ≡ neg_part r + (line.remaining + d) + draw_bound_top + offset_y * l
    → Placed n (top + 1) l (grid_add_anim dir_up d (record line { raw_position_y = r }))
moved_up n top l d line r h free near small few whole e =
    let line' = record line {
      raw_position_y = r;
      pending_count = line.pending_count + 1;
      remaining = line.remaining + d;
      direction = dir_up;
    } in
    rw
      (add_anim_up (record line { raw_position_y = r }) d free
        (few_pending n top l line h small few))
      (record {
        place = omega (arith, position_up line' refl, e);
        rests = inl (omega arith);
        whole = omega (arith, h.whole, whole);
        meant = inr (inl (refl, omega arith, ground (arith, h.meant, free)));
      })

moved_down :
    (n top l d : ℕ) (line : Line) (r : ℤ)
    → Placed n (top + 1) l line
    → NotUp line
    → top ≤ l
    → top + 1 ≤ n
    → n ≤ 240
    → d % 28 ≡ 0
    → pos_part r + (line.remaining + d) + offset_y * top
      ≡ neg_part r + draw_bound_top + offset_y * l
    → Placed n top l (grid_add_anim dir_down d (record line { raw_position_y = r }))
moved_down n top l d line r h free near small few whole e =
    let line' = record line {
      raw_position_y = r;
      pending_count = line.pending_count + 1;
      remaining = line.remaining + d;
      direction = dir_down;
    } in
    rw
      (add_anim_down (record line { raw_position_y = r }) d free
        (few_pending n (top + 1) l line h small few))
      (record {
        place = omega (arith, position_down line' refl, e);
        rests = inl (omega arith);
        whole = omega (arith, h.whole, whole);
        meant = inr (inr (refl, near, ground (arith, h.meant, free)));
      })

-- Placed one row on, without an animation.
shifted_up :
    (n top l : ℕ) (line : Line)
    → Placed n top l line
    → NotDown line
    → (l < top) ⊎ (top + 5 ≤ l)
    → Placed n (top + 1) l (record line { raw_position_y = line.raw_position_y -ℤ offset_y })
shifted_up n top l line h free away =
    let line' = record line { raw_position_y = line.raw_position_y -ℤ offset_y } in
    let parts = -ℤ_parts line.raw_position_y offset_y in
    let raw = raw_up n top l line h free in
    record {
      place = elim (Bool-cases (is_up line.direction)) [
        | inl u ↦ omega (arith, position_up line' u, parts, raw)
        | inr d ↦
            (let still : line.remaining ≡ 0 = ground (arith, h.rests, free, d) in
              omega (arith, position_down line' d, parts, raw, still))
      ];
      rests = h.rests;
      whole = h.whole;
      meant = ground (arith, h.meant, free, away);
    }

shifted_down :
    (n top l : ℕ) (line : Line)
    → Placed n (top + 1) l line
    → NotUp line
    → (l < top) ⊎ (top + 5 < l)
    → Placed n top l (record line { raw_position_y = line.raw_position_y +ℤ offset_y })
shifted_down n top l line h free away =
    let line' = record line { raw_position_y = line.raw_position_y +ℤ offset_y } in
    let parts = +ℤ_parts line.raw_position_y offset_y in
    let raw = raw_down n (top + 1) l line h free in
    record {
      place = elim (Bool-cases (is_up line.direction)) [
        | inl u ↦
            (let still : line.remaining ≡ 0 = ground (arith, h.rests, free, u) in
              omega (arith, position_up line' u, parts, raw, still))
        | inr d ↦ omega (arith, position_down line' d, parts, raw)
      ];
      rests = h.rests;
      whole = h.whole;
      meant = ground (arith, h.meant, free, away);
    }

pub line_goes_up-Placed :
    (n top l : ℕ) (found : Bool) (line : Line)
    → Placed n top l line
    → NotDown line
    → top + 4 < n
    → n ≤ 240
    → found ≡ ltb (top + 4) l
    → Placed n (top + 1) l (line_goes_up found line)
unfolding line_goes_up
line_goes_up-Placed n top l found line h free room few at =
    let p = get_position_after line in
    let enters = enters_below_lem top l p h.place in
    let near = near_screen_lem top l p h.place in
    let raw = raw_up n top l line h free in
    elim (Bool-cases (not found && enters_below p)) [
      | inl e ↦
          (let here : l ≡ top + 4 = ground (arith, enters, at, e) in
            let still : line.remaining ≡ 0 = ground (arith, h.rests, h.meant, free, here) in
            rw e (
              moved_up n top l half_offset line (pos (draw_bound_bottom - half_offset)) h free
                (omega (arith, here)) (omega (arith, room)) few refl (omega (arith, here, still))))
      | inr e ↦ elim (Bool-cases (near_screen p)) [
        | inl s ↦
            rw (e, s)
              (moved_up n top l offset_y line line.raw_position_y h free (ground (arith, near, s))
                (omega (arith, room)) few refl (omega (arith, raw)))
        | inr s ↦ rw (e, s) (shifted_up n top l line h free (ground (arith, near, s)))
      ]
    ]

pub line_goes_down-Placed :
    (n top l : ℕ) (found : Bool) (line : Line)
    → Placed n (top + 1) l line
    → NotUp line
    → top + 5 ≤ n
    → n ≤ 240
    → found ≡ ltb top l
    → Placed n top l (line_goes_down found line)
unfolding line_goes_down
line_goes_down-Placed n top l found line h free room few at =
    let p = get_position_after line in
    let enters = enters_above_lem (top + 1) l p h.place in
    let near = near_screen_lem (top + 1) l p h.place in
    let raw = raw_down n (top + 1) l line h free in
    elim (Bool-cases (not found && enters_above p)) [
      | inl e ↦
          (let here : l ≡ top = ground (arith, enters, at, e) in
            let still : line.remaining ≡ 0 = ground (arith, h.rests, h.meant, free, here) in
            rw e (
              moved_down n top l half_offset line (pos (draw_bound_top - half_offset)) h free
                (omega (arith, here)) (omega (arith, room)) few refl (omega (arith, here, still))))
      | inr e ↦ elim (Bool-cases (near_screen p)) [
        | inl s ↦
            rw (e, s)
              (moved_down n top l offset_y line line.raw_position_y h free (ground (arith, near, s))
                (omega (arith, room)) few refl (omega (arith, raw)))
        | inr s ↦
            rw (e, s) (shifted_down n top l line h free (ground (arith, near, s, enters, at, e)))
      ]
    ]
