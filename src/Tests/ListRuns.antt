-- ===== src/Tests/ListRuns.antt =====
-- The game list: its files, banners, discs and directories.
use cubiboot.Base.{
  ℕ, zero, suc, ◌-◌, ◌*◌, Bool, true, false, none, some, List, [], ◌∷◌, ◌≡◌, ◌≢◌, refl, arith, ◌==◌,
  if◌then◌else◌, span, length, fun_ext, some_inj, ◌&&◌, codes,
}
use cubiboot.Banners.{bnr_size, bnr_cache_size, aram_end}
use cubiboot.Games.{put}
use cubiboot.Games.Discs.{GameDisc, find_discs, same_id}
use cubiboot.Games.Mates.{Mates, find_discs-Mates}
use cubiboot.Games.Opened.{Opens}
use cubiboot.Games.Files.{PathEntry, ends_with, type_game, type_program}
use cubiboot.Games.Info.{Drive}
use cubiboot.Games.Places.{Apart, check_paths-Apart}
use cubiboot.Games.Target.{
  slash, Browsing, Starts, gm_start_thread, folder_target, start_thread_lem,
}
use cubiboot.Games.Warm.{Around, check_paths, assets_start}
use cubiboot.Fdrv.Files.{FileStatus}
use cubiboot.Tests.{blank}
use cubiboot.Tests.GameRuns.{at_boot}

-- A drive with one descriptor, 1: whether it is open, and what the last open came to.
pub record OneFile : Type 0 where
  pub open_now : Bool
  pub last : ℕ

abbrev one_drive : Drive OneFile
one_drive = record {
  open_file = λ path w. (0, record { open_now = true; last = if w.open_now then 1 else 0 });
  file_status =
      λ w. (some (record { result = w.last; fsize = 0; fd = if w.last == 0 then 1 else 2 }), w);
  threaded_read =
      λ n at fd w. (if at == 0 then span (λ k. 1) 0 n else 0x42 ∷ 0x4E ∷ 0x52 ∷ 0x31 ∷ [], w);
  close_file = λ fd w. record w { open_now = if fd == 1 then false else w.open_now };
}

abbrev one_around : Around OneFile
one_around = record {
  path_hash = λ path. length path;
  cache_get = λ key w. (false, w);
  cache_put = λ key bytes w. w;
  try_mutex = λ w. (true, w);
  top_line_of = λ w. 0;
  stage = λ n force at w. (true, w);
}

abbrev is_open : OneFile → ℕ → Bool
is_open w k = w.open_now && k == 1

-- The status after an open, of a file that is open already for true.
abbrev answer : Bool → FileStatus
answer busy = record {
  result = if busy then 1 else 0;
  fsize = 0;
  fd = if (if busy then 1 else 0) == 0 then 1 else 2;
}

open_fails :
    (busy : Bool) (s : FileStatus)
    → some (answer busy) ≡ some s
    → (s.result == 0) ≡ false
    → (◌≡◌ {A = ℕ → Bool} (λ k. k == 1) (λ k. busy && k == 1)) × ((busy && s.fd == 1) ≡ false)
open_fails true s e bad = (refl, rw (← some_inj.0 e) refl)
open_fails false s e bad = cc (rw (← some_inj.0 e) at bad)

open_works :
    (busy : Bool) (s : FileStatus)
    → some (answer busy) ≡ some s
    → (s.result == 0) ≡ true
    → (◌≡◌ {A = ℕ → Bool} (λ k. k == 1) (put (λ k. busy && k == 1) s.fd true))
      × ((busy && s.fd == 1) ≡ false)
open_works true s e good = cc (rw (← some_inj.0 e) at good)
open_works false s e good = (rw (← some_inj.0 e) (fun_ext (λ k. ground arith)), refl)

never_refused : {A : Type 0} → (◌==◌ 0 0) ≡ false → A
never_refused e = cc e

is_answer : (s : FileStatus) → some s ≢ none
is_answer s h = cc h

close_lem :
    (busy : Bool) (fd : ℕ)
    → (◌≡◌ {A = ℕ → Bool}
        (λ k. (if fd == 1 then false else busy) && k == 1)
        (put (λ k. busy && k == 1) fd false))
close_lem busy fd = fun_ext (λ k. ground arith)

abbrev one_opens : Opens one_drive one_around
one_opens = record {
  is_open = is_open;
  refused = λ path w e. never_refused e;
  failed = λ path w s e bad. open_fails w.open_now s e bad;
  unreported = λ path w e none_there. absurd (is_answer _ none_there);
  opened = λ path w s e good. open_works w.open_now s e good;
  closes = λ fd w. close_lem w.open_now fd;
  reads = λ n at fd w. refl;
  gets = λ key w. refl;
  puts = λ key bytes w. refl;
  locks = λ w. refl;
  stages = λ n force at w. refl;
}

abbrev two_paths : List PathEntry
two_paths =
    record { path = codes "/a.iso"; type = type_game }
    ∷ record { path = codes "/b.dol"; type = type_program }
    ∷ []

abbrev closed_drive : OneFile
closed_drive = record { open_now = false; last = 0 }

abbrev no_hash : List ℕ → ℕ
no_hash bytes = 0

abbrev one_offset : List (ℕ × ℕ)
one_offset = (0, 64) ∷ []

abbrev blank_memory : OneFile → ℕ → ℕ
blank_memory w a = 0

check_paths-Apart_example :
    Apart assets_start
      (check_paths one_drive one_around no_hash one_offset blank_memory two_paths 0 assets_start
        closed_drive).0
      (aram_end - bnr_size * bnr_cache_size)
check_paths-Apart_example =
    check_paths-Apart one_drive one_around no_hash one_offset blank_memory two_paths closed_drive
      (omega arith)

-- A game on two discs, and another between them.
abbrev three_discs : ℕ → GameDisc
three_discs zero = record { is_game = true; game_id = 7 ∷ []; disc_num = 0 }
three_discs (suc zero) = record { is_game = true; game_id = 8 ∷ []; disc_num = 0 }
three_discs (suc (suc k)) = record { is_game = true; game_id = 7 ∷ []; disc_num = 1 }

first_two : Mates three_discs 3 0 2
unfolding same_id
first_two = (omega arith, omega arith, refl, refl)

only_second : (g : ℕ) → Mates three_discs 3 0 g → g ≡ 2
unfolding same_id
only_second zero h = cc (h.3)
only_second (suc zero) h = cc (h.3)
only_second (suc (suc zero)) h = refl
only_second (suc (suc (suc g))) h = absurd (omega (arith, h.1))

only_first : (g : ℕ) → Mates three_discs 3 2 g → g ≡ 0
unfolding same_id
only_first zero h = refl
only_first (suc zero) h = cc (h.3)
only_first (suc (suc zero)) h = cc (h.3)
only_first (suc (suc (suc g))) h = absurd (omega (arith, h.1))

find_discs-Mates_example :
    (find_discs three_discs 3 3 0 (λ k. none) 0 ≡ some 2)
    × (find_discs three_discs 3 3 0 (λ k. none) 2 ≡ some 0)
    × ((a b : ℕ) → find_discs three_discs 3 3 0 (λ k. none) a ≡ some b → Mates three_discs 3 a b)
find_discs-Mates_example = find_discs-Mates three_discs 3 0 2 first_two only_second only_first

abbrev root : List ℕ
root = slash ∷ []

abbrev games_dir : List ℕ
games_dir = codes "games"

-- The list shows the root, with one game, whose banner is loaded, while the block cache is off.
abbrev at_root : Browsing ℕ
at_root = record {
  enum_running = false;
  enum_path = root;
  games = record { entry_count = 1; is_game = λ e. true; icons = at_boot; banners = at_boot };
  number_of_lines = 4;
  game_backing_count = 1;
  block_cache = record blank { disabled = true };
}

abbrev games_path : List ℕ
games_path = codes "/games/"

games_target : folder_target root games_dir ≡ some games_path
unfolding folder_target
games_target = refl

abbrev in_games : Browsing ℕ
in_games = record at_root { enum_path = games_path }

start_thread_example :
    Starts games_path (gm_start_thread games_path at_root)
    × Starts root (gm_start_thread (0x2E ∷ 0x2E ∷ []) in_games)
unfolding ends_with
start_thread_example =
    start_thread_lem root games_dir games_path at_root in_games ([], refl, refl) refl refl
      games_target refl refl refl refl
