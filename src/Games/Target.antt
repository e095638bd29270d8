-- ===== src/Games/Target.antt =====
-- The directory that the game list shows: gm_start_thread of patches/source/games.c, lines 1165 to
-- 1238, short of the thread itself, and the target that patches/source/menu.c, lines 825 to 833, gives
-- it. Paths are lists of characters, and are copied to
-- buffers of 128 characters with their end.
use cubiboot.Base.{
  ℕ, Bool, true, false, not, ◌&&◌, Option, none, some, List, [], ◌∷◌, ◌++◌, ◌==◌, if◌then◌else◌,
  ◌≡◌, refl, arith, ap, append_assoc, ltb, length, length-append, some_inj, Bool-cases, inl, inr,
}
use cubiboot.Cache.State.{Cache, enable}
use cubiboot.Games.Files.{ends_with, is_empty, in_buffer, path_size}
use cubiboot.Games.Lines.{Games, free_entries}

abbrev pub slash : ℕ
slash = 0x2F

-- The path without its last character.
unfoldable pub without_last : List ℕ → List ℕ
without_last [] = []
without_last (c ∷ []) = []
without_last (c ∷ d ∷ s) = c ∷ without_last (d ∷ s)

-- What stands before the last slash.
unfoldable pub before_slash : List ℕ → Option (List ℕ)
before_slash [] = none
before_slash (c ∷ s) = elim (before_slash s) [
  | some p ↦ some (c ∷ p)
  | none ↦ if c == slash then some [] else none
]

abbrev pub cut_at_slash : List ℕ → List ℕ
cut_at_slash p = elim (before_slash p) [ none ↦ p | some q ↦ q ]

-- One element is taken off the path.
unfoldable pub pop_element : List ℕ → List ℕ
pop_element path =
    let cut = cut_at_slash (without_last path) in if is_empty cut then slash ∷ [] else cut

abbrev pub end_with_slash : List ℕ → List ℕ
end_with_slash path = if ends_with slash path then path else path ++ (slash ∷ [])

unfoldable pub is_up : List ℕ → Bool
is_up [] = false
is_up (a ∷ []) = false
is_up (a ∷ b ∷ []) = a == 0x2E && b == 0x2E
is_up (a ∷ b ∷ c ∷ s) = false

-- The path of the target: the target, or what is left of the old path, with a slash.
unfoldable pub target_path : List ℕ → List ℕ → List ℕ
target_path game_enum_path target =
    end_with_slash (if is_up target then pop_element game_enum_path else target)

-- The new `game_enum_path`, if it fits `path` and `game_enum_path`.
unfoldable pub new_enum_path : List ℕ → List ℕ → Option (List ℕ)
new_enum_path game_enum_path target = in_buffer (target_path game_enum_path target)

-- What it changes: `game_enum_running`, `game_enum_path`, the list, and the block cache.
pub record Browsing (Sector : Type 0) : Type 0 where
  pub enum_running : Bool
  pub enum_path : List ℕ
  pub games : Games
  pub number_of_lines : ℕ
  pub game_backing_count : ℕ
  pub block_cache : Cache Sector

-- All entries give their buffers back, and the list is empty.
abbrev pub empty_games : Games → Games
empty_games g = record (free_entries g.entry_count 0 g) { entry_count = 0 }

-- `gm_start_thread` from the copy of the path to `game_enum_path` on.
abbrev pub start_on : {Sector : Type 0} → List ℕ → Browsing Sector → Browsing Sector
start_on path b = record {
  enum_running = true;
  enum_path = path;
  games = empty_games b.games;
  number_of_lines = 0;
  game_backing_count = 0;
  block_cache = enable b.block_cache;
}

-- `gm_start_thread`, none when a buffer overflows.
unfoldable pub gm_start_thread :
    {Sector : Type 0} → List ℕ → Browsing Sector → Option (Browsing Sector)
gm_start_thread target b =
    if b.enum_running then some b else elim (new_enum_path b.enum_path target) [
      | none ↦ none
      | some path ↦ some (start_on path b)
    ]

-- The target for a directory of the list: its path, as it was listed, with a slash, if the buffer of
-- the menu holds it.
unfoldable pub folder_target : List ℕ → List ℕ → Option (List ℕ)
folder_target game_enum_path name = in_buffer ((game_enum_path ++ name) ++ (slash ∷ []))

abbrev pub no_slash : List ℕ → Bool
no_slash [] = true
no_slash (c ∷ s) = not (c == slash) && no_slash s

-- A directory: a path that ends in one slash.
abbrev pub IsFolder : List ℕ → Type 0
IsFolder p = (q : List ℕ) × (p ≡ q ++ (slash ∷ [])) × (ends_with slash q ≡ false)

without_last-append : (p : List ℕ) (c : ℕ) → without_last (p ++ (c ∷ [])) ≡ p
unfolding without_last
without_last-append [] c = refl
without_last-append (a ∷ []) c = refl
without_last-append (a ∷ b ∷ p) c = ap (◌∷◌ a) (without_last-append (b ∷ p) c)

pub ends_with-append : (p : List ℕ) (c : ℕ) → ends_with c (p ++ (c ∷ [])) ≡ true
unfolding ends_with
ends_with-append [] c = ground arith
ends_with-append (a ∷ []) c = ground arith
ends_with-append (a ∷ b ∷ p) c = ends_with-append (b ∷ p) c

before_slash-none : (name : List ℕ) → no_slash name ≡ true → before_slash name ≡ none
unfolding before_slash
before_slash-none [] h = refl
before_slash-none (c ∷ s) h =
    let other : (c == slash) ≡ false = ground (arith, h) in
    rw (before_slash-none s (ground (arith, h)), other) refl

before_slash-append :
    (q name : List ℕ) → no_slash name ≡ true → before_slash (q ++ (slash ∷ name)) ≡ some q
unfolding before_slash
before_slash-append [] name h = rw (before_slash-none name h) refl
before_slash-append (c ∷ q) name h = rw (before_slash-append q name h) refl

shown_long : (a b : ℕ) (s : List ℕ) → is_up ((a ∷ b ∷ s) ++ (slash ∷ [])) ≡ false
unfolding is_up
shown_long a b [] = refl
shown_long a b (c ∷ s) = refl

longer_than_up :
    (q name : List ℕ)
    → is_empty name ≡ false
    → is_up (((q ++ (slash ∷ [])) ++ name) ++ (slash ∷ [])) ≡ false
unfolding is_up
longer_than_up [] [] e = ground arith
longer_than_up [] (c ∷ s) e = shown_long slash c s
longer_than_up (a ∷ []) name e = shown_long a slash name
longer_than_up (a ∷ b ∷ q) name e = shown_long a b ((q ++ (slash ∷ [])) ++ name)

pop_lem :
    (q name : List ℕ)
    → no_slash name ≡ true
    → pop_element (((q ++ (slash ∷ [])) ++ name) ++ (slash ∷ []))
      ≡ (if is_empty q then slash ∷ [] else q)
unfolding pop_element
pop_lem q name whole =
    let cut : cut_at_slash (q ++ ((slash ∷ []) ++ name)) ≡ q =
      rw (cut_at_slash, before_slash-append q name whole) refl in
    rw
      (
        without_last-append ((q ++ (slash ∷ [])) ++ name) slash,
        append_assoc q (slash ∷ []) name,
        cut,
      )
      refl

back :
    (q : List ℕ)
    → ends_with slash q ≡ false
    → end_with_slash (if is_empty q then slash ∷ [] else q) ≡ q ++ (slash ∷ [])
unfolding ends_with
back [] h = refl
back (c ∷ q) h = rw h refl

there_and_back :
    (path name : List ℕ)
    → IsFolder path
    → is_empty name ≡ false
    → no_slash name ≡ true
    → (target_path path ((path ++ name) ++ (slash ∷ [])) ≡ (path ++ name) ++ (slash ∷ []))
      × (target_path ((path ++ name) ++ (slash ∷ [])) (0x2E ∷ 0x2E ∷ []) ≡ path)
unfolding target_path is_up
there_and_back path name (q, e, plain) some_name whole = rw e (
    let path' = q ++ (slash ∷ []) in
    let end = ends_with-append (path' ++ name) slash in
    (rw (longer_than_up q name some_name, end) refl, rw (pop_lem q name whole) (back q plain)))

-- The list starts on a directory: it is empty, the thread has its turn, and the block cache is on.
abbrev pub StartsOn : {Sector : Type 0} → List ℕ → Browsing Sector → Type 0
StartsOn path b =
    (b.enum_path ≡ path)
    × (b.enum_running ≡ true)
    × (b.games.entry_count ≡ 0)
    × (b.number_of_lines ≡ 0)
    × (b.game_backing_count ≡ 0)
    × (b.block_cache.disabled ≡ false)

-- That it starts, and on which directory.
abbrev pub Starts : {Sector : Type 0} → List ℕ → Option (Browsing Sector) → Type 0
Starts {Sector = Sector} path o = (b : Browsing Sector) × (o ≡ some b) × StartsOn path b

in_buffer_lem : (s t : List ℕ) → in_buffer s ≡ some t → (s ≡ t) × (ltb (length s) path_size ≡ true)
in_buffer_lem s t e = elim (Bool-cases (ltb (length s) path_size)) [
  | inl h ↦ (some_inj.0 (rw h at e), h)
  | inr h ↦ absurd (cc (rw h at e))
]

starts :
    {Sector : Type 0} (target path : List ℕ) (b : Browsing Sector)
    → b.enum_running ≡ false
    → target_path b.enum_path target ≡ path
    → ltb (length path) path_size ≡ true
    → Starts path (gm_start_thread target b)
unfolding gm_start_thread new_enum_path enable
starts target path b idle e fits =
    rw (idle, e, fits) (start_on path b, refl, (refl, refl, refl, refl, refl, refl))

-- Into a directory of the list, when its path fits the buffer of the menu, and up again, with no
-- thread running: no other buffer overflows, and the list starts on the directory of the name, and
-- then, whatever else the thread has changed before it ended, on the directory that it showed before.
-- Both times it starts empty, and with the block cache on.
pub start_thread_lem :
    {Sector : Type 0} (path name target : List ℕ) (before after : Browsing Sector)
    → IsFolder path
    → is_empty name ≡ false
    → no_slash name ≡ true
    → folder_target path name ≡ some target
    → before.enum_running ≡ false
    → before.enum_path ≡ path
    → after.enum_running ≡ false
    → after.enum_path ≡ target
    → Starts target (gm_start_thread target before)
      × Starts path (gm_start_thread (0x2E ∷ 0x2E ∷ []) after)
unfolding folder_target
start_thread_lem path name target before after folder some_name whole found idle at ended kept =
    let (same, fits) = in_buffer_lem ((path ++ name) ++ (slash ∷ [])) target found in
    let (there, again) = there_and_back path name folder some_name whole in
    let longer = length-append (path ++ name) (slash ∷ []) in
    let long = length-append path name in
    let short : ltb (length path) path_size ≡ true = ground (arith, fits, longer, long) in
    (
      starts target target before idle (rw (at, ← same) there) (rw (← same) fits),
      starts (0x2E ∷ 0x2E ∷ []) path after ended (rw (kept, ← same) again) short,
    )
