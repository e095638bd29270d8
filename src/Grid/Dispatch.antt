-- ===== src/Grid/Dispatch.antt =====
-- All lines keep their places: grid_dispatch_navigate_up, grid_dispatch_navigate_down,
-- grid_setup_func and grid_update_icon_positions of patches/source/grid.c.
use cubiboot.Base.{
  ℕ, zero, suc, ◌+◌, ◌-◌, ◌%◌, ◌≤◌, ◌<◌, Bool, true, false, ◌||◌, ltb, ◌==◌, if◌then◌else◌, ℤ,
  pos_part, neg_part, ◌+ℤ◌, ◌-ℤ◌, +ℤ_parts, -ℤ_parts, ◌≡◌, refl, arith, inl, inr, Bool-cases, subst,
  ap,
}
use cubiboot.Grid.{
  Line, is_up, get_position_after, enters_above, enters_below, line_goes_up, line_goes_down,
  update_line, frame_delta, move_lines, any_pending, grid_dispatch_navigate_up,
  grid_dispatch_navigate_down, grid_setup_func, grid_update_icon_positions,
}
use cubiboot.Grid.Places.{Placed, enters_below_lem, enters_above_lem, position_up, position_down}
use cubiboot.Grid.Motion.{NotDown, NotUp, line_goes_up-Placed, line_goes_down-Placed}

-- All `n` lines are in their places while `top` is the top line.
abbrev pub InPlace : ℕ → ℕ → (ℕ → Line) → Type 0
InPlace n top lines = (l : ℕ) → l < n → Placed n top l (lines l)

pending_down :
    (n : ℕ) (lines : ℕ → Line)
    → any_pending false n lines ≡ false
    → (l : ℕ) → l < n
    → NotDown (lines l)
unfolding any_pending
pending_down zero lines h l small = absurd (omega arith)
pending_down (suc n) lines h l small = elim (Bool-cases (l == n)) [
  | inl e ↦
      (let same : n ≡ l = ground (arith, e) in
        subst (λ k. NotDown (lines k)) same (ground (arith, h)))
  | inr e ↦ pending_down n lines (ground (arith, h)) l (ground (arith, e, small))
]

pending_up :
    (n : ℕ) (lines : ℕ → Line)
    → any_pending true n lines ≡ false
    → (l : ℕ) → l < n
    → NotUp (lines l)
unfolding any_pending
pending_up zero lines h l small = absurd (omega arith)
pending_up (suc n) lines h l small = elim (Bool-cases (l == n)) [
  | inl e ↦
      (let same : n ≡ l = ground (arith, e) in
        subst (λ k. NotUp (lines k)) same (ground (arith, h)))
  | inr e ↦ pending_up n lines (ground (arith, h)) l (ground (arith, e, small))
]

-- One round of a loop over the lines: the lines below `l` are done, the others are to do.
module _ (go : Bool → Line → Line) (enters : ℤ → Bool) (n old new : ℕ) (Free : Line → Type 0)
    (found_at : ℕ → Bool)
    (finds : (l : ℕ) (line : Line)
      → Placed n old l line
      → (found_at l || enters (get_position_after line)) ≡ found_at (l + 1))
    (goes : (l : ℕ) (line : Line)
      → Placed n old l line
      → Free line
      → Placed n new l (go (found_at l) line)) where
  pub move_lines-InPlace :
      (left l : ℕ) (found : Bool) (lines : ℕ → Line)
      → l + left ≡ n
      → found ≡ found_at l
      → ((j : ℕ) → j < l → Placed n new j (lines j))
      → ((j : ℕ) → l ≤ j → j < n → Placed n old j (lines j) × Free (lines j))
      → InPlace n new (move_lines go enters left l found lines)
  unfolding move_lines
  move_lines-InPlace zero l found lines e f done todo = λ j small. done j (omega (arith, e, small))
  move_lines-InPlace (suc left) l found lines e f done todo =
      let mine = todo l (omega arith) (omega (arith, e)) in
      let moved : Placed n new l (go found (lines l)) = rw f (goes l (lines l) mine.0 mine.1) in
      move_lines-InPlace left (l + 1) _ _ (omega (arith, e)) (rw f (finds l (lines l) mine.0))
        (λ j h. elim (Bool-cases (j == l)) [
          | inl s ↦
              (let same : l ≡ j = ground (arith, s) in
                rw s (subst (λ k. Placed n new k (go found (lines l))) same moved))
          | inr s ↦ rw s (done j (ground (arith, s, h)))
        ])
        (λ j h small.
          (let other : (j == l) ≡ false = ground (arith, h) in
            rw other (todo j (omega (arith, h)) small)))

pub navigate_down-InPlace :
    (n top : ℕ) (lines : ℕ → Line)
    → top + 4 < n
    → n ≤ 240
    → InPlace n top lines
    → (grid_dispatch_navigate_down n lines).0 ≡ true
    → InPlace n (top + 1) (grid_dispatch_navigate_down n lines).1
unfolding grid_dispatch_navigate_down
navigate_down-InPlace n top lines room few h went = elim (Bool-cases (any_pending false n lines)) [
  | inl p ↦ cc (rw p at went)
  | inr p ↦ rw p (
      move_lines-InPlace line_goes_up enters_below n top (top + 1) NotDown (λ l. ltb (top + 4) l)
        (λ l line at. ground (arith, enters_below_lem top l (get_position_after line) at.place))
        (λ l line at free. line_goes_up-Placed n top l _ line at free room few refl) n 0 false lines
        (omega arith) (ground arith) (λ j s. absurd (omega arith))
        (λ j s small. (h j small, pending_down n lines p j small)))
]

pub navigate_up-InPlace :
    (n top : ℕ) (lines : ℕ → Line)
    → top + 5 ≤ n
    → n ≤ 240
    → InPlace n (top + 1) lines
    → (grid_dispatch_navigate_up n lines).0 ≡ true
    → InPlace n top (grid_dispatch_navigate_up n lines).1
unfolding grid_dispatch_navigate_up
navigate_up-InPlace n top lines room few h went = elim (Bool-cases (any_pending true n lines)) [
  | inl p ↦ cc (rw p at went)
  | inr p ↦ rw p (
      move_lines-InPlace line_goes_down enters_above n (top + 1) top NotUp (λ l. ltb top l)
        (λ l line at.
          ground (arith, enters_above_lem (top + 1) l (get_position_after line) at.place))
        (λ l line at free. line_goes_down-Placed n top l _ line at free room few refl) n 0 false
        lines (omega arith) (ground arith) (λ j s. absurd (omega arith))
        (λ j s small. (h j small, pending_up n lines p j small)))
]

-- What fails changes nothing.
pub navigate_down_fails :
    (n : ℕ) (lines : ℕ → Line)
    → (grid_dispatch_navigate_down n lines).0 ≡ false
    → (grid_dispatch_navigate_down n lines).1 ≡ lines
unfolding grid_dispatch_navigate_down
navigate_down_fails n lines h = elim (Bool-cases (any_pending false n lines)) [
  | inl p ↦ rw p refl
  | inr p ↦ cc (rw p at h)
]

pub navigate_up_fails :
    (n : ℕ) (lines : ℕ → Line)
    → (grid_dispatch_navigate_up n lines).0 ≡ false
    → (grid_dispatch_navigate_up n lines).1 ≡ lines
unfolding grid_dispatch_navigate_up
navigate_up_fails n lines h = elim (Bool-cases (any_pending true n lines)) [
  | inl p ↦ rw p refl
  | inr p ↦ cc (rw p at h)
]

pub setup-InPlace : (n : ℕ) → InPlace n 0 grid_setup_func
unfolding grid_setup_func
setup-InPlace n l small = record {
  place = omega (arith, position_up (grid_setup_func l) refl);
  rests = inr refl;
  whole = refl;
  meant = inl refl;
}

raw_if_up :
    (line : Line) (d : ℕ)
    → is_up line.direction ≡ true
    → (if is_up line.direction then line.raw_position_y -ℤ d else line.raw_position_y +ℤ d)
      ≡ line.raw_position_y -ℤ d
raw_if_up line d u = rw u refl

raw_if_down :
    (line : Line) (d : ℕ)
    → is_up line.direction ≡ false
    → (if is_up line.direction then line.raw_position_y -ℤ d else line.raw_position_y +ℤ d)
      ≡ line.raw_position_y +ℤ d
raw_if_down line d u = rw u refl

frame_delta_lem :
    (line : Line)
    → line.remaining % 28 ≡ 0
    → (frame_delta line ≤ line.remaining) × (frame_delta line % 28 ≡ 0)
unfolding frame_delta
frame_delta_lem line h = ground arith

-- What is left after a frame is nothing, or more than the tenth of a pixel that ends an animation.
left_lem :
    (line : Line)
    → line.remaining % 28 ≡ 0
    → let left = line.remaining - frame_delta line in (if ltb left 8 then 0 else left) ≡ left
left_lem line h = ground (arith, frame_delta_lem line h)

update_line-Placed :
    (n top l : ℕ) (line : Line) → Placed n top l line → Placed n top l (update_line line)
unfolding update_line
update_line-Placed n top l line h = elim (Bool-cases (ltb 0 line.pending_count)) [
  | inr still ↦ rw still h
  | inl moves ↦
      (let delta = frame_delta line in
        let left = line.remaining - delta in
        let small = frame_delta_lem line h.whole in
        let rest = left_lem line h.whole in
        let line' = record line {
          remaining = if ltb left 8 then 0 else left;
          raw_position_y =
              if is_up line.direction
              then line.raw_position_y -ℤ delta
              else line.raw_position_y +ℤ delta;
          pending_count = if ltb left 8 then line.pending_count - 1 else line.pending_count;
        } in
        rw moves (record {
          place = elim (Bool-cases (is_up line.direction)) [
            | inl u ↦ omega (
              arith,
              h.place,
              position_up line u,
              position_up line' u,
              small.0,
              rest,
              -ℤ_parts line.raw_position_y delta,
              ap pos_part (raw_if_up line delta u),
              ap neg_part (raw_if_up line delta u),
            )
            | inr d ↦ omega (
              arith,
              h.place,
              position_down line d,
              position_down line' d,
              small.0,
              rest,
              +ℤ_parts line.raw_position_y delta,
              ap pos_part (raw_if_down line delta d),
              ap neg_part (raw_if_down line delta d),
            )
          ];
          rests = ground (arith, moves, rest, h.whole, small);
          whole = omega (arith, rest, h.whole, small.0, small.1);
          meant = ground (arith, h.meant);
        }))
]

pub update-InPlace :
    (n top : ℕ) (lines : ℕ → Line)
    → InPlace n top lines
    → InPlace n top (grid_update_icon_positions n lines)
unfolding grid_update_icon_positions
update-InPlace n top lines h l small =
    let inside : ltb l n ≡ true = ground arith in
    rw inside (update_line-Placed n top l (lines l) (h l small))
