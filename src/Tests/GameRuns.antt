-- ===== src/Tests/GameRuns.antt =====
-- The assets of a game list, and its lines.
use cubiboot.Base.{ℕ, Bool, false, none, some, List, [], ◌∷◌, zero, suc, ◌+◌, ◌≡◌, refl, inl}
use cubiboot.Games.{Bank, state_none, get_buf, first_free, install, complete}
use cubiboot.Emu.Services.{FileEntry}
use cubiboot.Games.Files.{Folders}
use cubiboot.Games.Lines.{lines_of}
use cubiboot.Games.Requests.{Sound}
use cubiboot.Games.Steps.{Step, Steps, steps-Sound}

abbrev nothing : ℕ → Bool
nothing k = false

abbrev pub at_boot : Bank
at_boot = record {
  used = nothing;
  assets = λ e. record { aram_offset = 0; schedule_free = false; state = state_none; buf = none };
  requests = [];
}

boot-Sound : Sound at_boot
boot-Sound =
    ((λ e k h. absurd (cc h), λ e f k h g. absurd (cc h), λ e. inl refl), λ e c m. absurd m, tt)

first_buffer : (get_buf nothing).0 ≡ some 0
unfolding get_buf first_free
first_buffer = refl

abbrev one_installed : Bank
one_installed = (install 5 0x100000 false at_boot).1

two_steps : Steps at_boot (complete one_installed)
two_steps =
    Steps.then_step at_boot one_installed (complete one_installed)
      (Steps.then_step at_boot at_boot one_installed (Steps.stop at_boot)
        (Step.installs at_boot 5 0x100000 0 false refl first_buffer))
      (Step.answers one_installed)

steps-Sound_example : Sound (complete one_installed)
steps-Sound_example = steps-Sound at_boot (complete one_installed) two_steps boot-Sound

-- A list of 80 games is 10 lines.
ten_lines : lines_of 80 ≡ 10
unfolding lines_of
ten_lines = refl

-- A directory with the files ".a", "b.iso" and "c.txt", read by a count of the reads.
abbrev entries : ℕ → FileEntry
entries zero = record { name = 0x2E ∷ 0x61 ∷ []; type = 0; size = 8; attrib = 0 }
entries (suc zero) = record {
  name = 0x62 ∷ 0x2E ∷ 0x69 ∷ 0x73 ∷ 0x6F ∷ [];
  type = 0;
  size = 9;
  attrib = 0;
}
entries (suc (suc zero)) = record {
  name = 0x63 ∷ 0x2E ∷ 0x74 ∷ 0x78 ∷ 0x74 ∷ [];
  type = 0;
  size = 7;
  attrib = 0;
}
entries (suc (suc (suc n))) = record { name = []; type = 0; size = 0; attrib = 0 }

abbrev one_folder : Folders ℕ
one_folder = record {
  open_folder = λ path n. (0, 0);
  folder_status = λ n. (some (record { result = 0; fsize = 0; fd = 1 }), n);
  next_entry = λ fd n. ((0, entries n), n + 1);
  close_folder = λ fd n. 0;
}

abbrev root_dir : List ℕ
root_dir = 0x2F ∷ []

abbrev three_files : List FileEntry
three_files = entries 0 ∷ entries 1 ∷ entries 2 ∷ []
