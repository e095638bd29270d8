-- ===== src/Tests/BootRuns.antt =====
-- Programs and their arguments.
use cubiboot.Base.{
  ℕ, ◌+◌, ◌%◌, ◌≤◌, List, ◌≡◌, refl, arith, ◌==◌, if◌then◌else◌, span, none, some, Option, true,
  false, ltb, codes,
}
use cubiboot.Dol.{dol_max, sections}
use cubiboot.Boot.{Loader, DolFile, dol_file_of, dol_header_size, load_dol_file, load_image}
use cubiboot.Boot.Arguments.{is_swiss, autoload_arg, arg_list, find_apploader, chainload_swiss_game}
use cubiboot.Boot.Chainload.{HandedOver, chainload_swiss_game_lem}
use cubiboot.Boot.Memory.{Image, load_image-Image}

abbrev bytes_of_file : ℕ → ℕ
bytes_of_file k = k % 251

abbrev plain_loader : Loader ℕ
plain_loader = record {
  cache_disable = λ w. w;
  read_at = λ n from fd w. (span bytes_of_file from n, w + 1);
  open_at = λ flash path w. w;
  status_of = λ w. (none, w);
  close_at = λ fd w. w;
}

-- A DOL with one text section and a BSS.
abbrev small_file : DolFile
small_file = record {
  header = record {
    text_address = λ i. if i == 0 then 0x80003100 else 0;
    data_address = λ i. 0;
    text_length = λ i. if i == 0 then 0x200 else 0;
    data_length = λ i. 0;
    bss_address = 0x80004000;
    bss_length = 0x40;
  };
  text_offset = λ i. 0x100;
  data_offset = λ i. 0;
  entry_point = 0x80003100;
}

abbrev old_memory : ℕ → ℕ
old_memory a = 0xFF

load_image-Image_example :
    Image small_file 0 bytes_of_file old_memory
      (load_image plain_loader 0 1 small_file old_memory 0).0
      0x80003104
load_image-Image_example =
    load_image-Image plain_loader 0 1 bytes_of_file (λ n from w. refl) small_file old_memory 0
      0x80003104

-- The file of such a DOL.
abbrev swiss_file : ℕ → ℕ
swiss_file k =
    if k == 2
    then 1
    else if k == 72
    then 0x80
    else if k == 74
    then 0x31
    else if k == 146
    then 2
    else if k == 216
    then 0x80
    else if k == 218
    then 0x40
    else if k == 223
    then 0x40
    else if k == 224
    then 0x80
    else if k == 226
    then 0x31
    else if ltb k 256
    then 0
    else k % 251

abbrev swiss_loader : Loader ℕ
swiss_loader = record {
  cache_disable = λ w. w;
  read_at = λ n from fd w. (span swiss_file from n, w + 1);
  open_at = λ flash path w. w + 1;
  status_of = λ w. (some (record { result = 0; fsize = 0x300; fd = 1 }), w);
  close_at = λ fd w. w;
}

abbrev swiss_dol : DolFile
swiss_dol = dol_file_of (span swiss_file 0 dol_header_size)

swiss_starts : swiss_dol.entry_point ≡ 0x80003100
unfolding dol_file_of
swiss_starts = refl

swiss_ends : dol_max swiss_dol.header ≡ 0x80004040
unfolding dol_file_of dol_max sections
swiss_ends = refl

swiss_inside : swiss_dol.entry_point + 20 ≤ dol_max swiss_dol.header
swiss_inside = omega (arith, swiss_starts, swiss_ends)

abbrev a_game : Option (List ℕ)
a_game = some (codes "/a.iso")

abbrev sd_device : List ℕ
sd_device = codes "sda"

not_swiss : is_swiss a_game ≡ false
unfolding is_swiss
not_swiss = refl

chainload_swiss_game_example :
    ((chainload_swiss_game 1 2 swiss_loader sd_device a_game false old_memory 0).1
      ≡ swiss_dol.entry_point)
    × HandedOver 1 2 swiss_dol swiss_file old_memory
        (arg_list
          (autoload_arg sd_device a_game false)
          (find_apploader swiss_loader
            (load_dol_file swiss_loader (codes "/swiss-gc.dol") true old_memory 0).2).0)
        (chainload_swiss_game 1 2 swiss_loader sd_device a_game false old_memory 0).0
chainload_swiss_game_example =
    chainload_swiss_game_lem 1 2 swiss_loader swiss_file sd_device a_game false old_memory 0
      (record { result = 0; fsize = 0x300; fd = 1 }) not_swiss refl refl (λ n from v. refl)
      swiss_inside refl
