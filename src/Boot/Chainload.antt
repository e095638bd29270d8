-- ===== src/Boot/Chainload.antt =====
-- Swiss is loaded and run: chainload_swiss_game of cubeboot/source/emu/loader.c, with load_dol_file of
-- patches/source/boot.c.
use cubiboot.Base.{
  ℕ, ◌+◌, ◌≤◌, ◌<◌, Bool, true, false, Option, some, List, [], ◌∷◌, ◌≡◌, refl, ◌⊎◌, ◌==◌, span, ◌∙◌,
  subst, sym, All, codes,
}
use cubiboot.Dol.{dol_max}
use cubiboot.Fdrv.Files.{FileStatus}
use cubiboot.Boot.{Loader, DolFile, DolInfo, dol_file_of, dol_header_size, load_dol, load_dol_file}
use cubiboot.Boot.Arguments.{
  is_swiss, autoload_arg, arg_list, pass_arguments, chainload_swiss_game, find_apploader,
}
use cubiboot.Boot.Handover.{strings_of, no_zero, pass_arguments_lem}
use cubiboot.Boot.Structs.{ArgvStruct, pass_arguments-ArgvStruct}
use cubiboot.Boot.Memory.{Image, load_image-Image}

-- An image is what it is at one address.
Image-same :
    (f : DolFile) (offset : ℕ) (file mem before after : ℕ → ℕ) (a : ℕ)
    → after a ≡ before a
    → Image f offset file mem before a
    → Image f offset file mem after a
Image-same f offset file mem before after a e i = record {
  by_data = λ k small c later. e ∙ i.by_data k small c later;
  by_text = λ k small c later no_data. e ∙ i.by_text k small c later no_data;
  by_none = λ no_text no_data. e ∙ i.by_none no_text no_data;
  beyond = λ fits above. e ∙ i.beyond fits above;
}

args-All :
    (autoload : List ℕ) (apploader : Bool)
    → no_zero autoload ≡ true
    → All (λ s. no_zero s ≡ true) (arg_list autoload apploader)
args-All autoload true h = (refl, (h, (refl, (refl, (refl, (refl, tt))))))
args-All autoload false h = (refl, (h, (refl, (refl, (refl, tt)))))

module _ {World : Type 0} (loader : Loader World) (path : List ℕ) (flash : Bool)
    (file : ℕ → ℕ) where
  -- A file that opens and can be read is loaded, and gives its entry point and its end.
  load_dol_file_lem :
      (mem : ℕ → ℕ) (w : World) (s : FileStatus)
      → (loader.status_of (loader.open_at flash path w)).0 ≡ some s
      → (s.result == 0) ≡ true
      → ((n from : ℕ) (v : World) → (loader.read_at n from s.fd v).0 ≡ span file from n)
      → ((load_dol_file loader path flash mem w).0 ≡ record {
        max_addr = dol_max (dol_file_of (span file 0 dol_header_size)).header;
        entrypoint = (dol_file_of (span file 0 dol_header_size)).entry_point;
      })
        × ((a : ℕ)
            → Image
                (dol_file_of (span file 0 dol_header_size))
                0
                file
                mem
                (load_dol_file loader path flash mem w).1
                a)
  unfolding load_dol_file load_dol
  load_dol_file_lem mem w s opened ok reads =
      let w1 = (loader.status_of (loader.open_at flash path w)).1 in
      let header = reads dol_header_size 0 (loader.cache_disable w1) in
      rw (load_dol_file, opened, ok, load_dol, header)
        (
          refl,
          λ a.
              load_image-Image loader 0 s.fd file reads (dol_file_of (span file 0 dol_header_size))
                mem _ a,
        )

-- What Swiss finds when it is run: its image, beside two structures, and by these in memory behind the
-- image the strings of its arguments and its environment.
pub record HandedOver (argv_magic envp_magic : ℕ) (f : DolFile) (file mem : ℕ → ℕ)
    (args : List (List ℕ)) (final : ℕ → ℕ) : Type 0 where
  pub image :
      (a : ℕ)
      → a < dol_max f.header + 32
      → (a < f.entry_point + 8) ⊎ (f.entry_point + 52 ≤ a)
      → Image f 0 file mem final a
  pub argz_len : ℕ
  pub arguments : strings_of (span final (dol_max f.header + 32) argz_len) ≡ args
  pub environment :
      strings_of (span final (dol_max f.header + 32 + argz_len + 32) 11) ≡ codes "CUBEBOOT=1" ∷ []
  pub argv_struct : ArgvStruct final (f.entry_point + 8) argv_magic (dol_max f.header + 32) argz_len
  pub envp_struct :
      ArgvStruct final (f.entry_point + 40) envp_magic (dol_max f.header + 32 + argz_len + 32) 11

passed-HandedOver :
    (argv_magic envp_magic : ℕ) (f : DolFile) (file mem loaded : ℕ → ℕ) (args : List (List ℕ))
    → f.entry_point + 20 ≤ dol_max f.header
    → All (λ s. no_zero s ≡ true) args
    → ((a : ℕ) → Image f 0 file mem loaded a)
    → HandedOver argv_magic envp_magic f file mem args (
        pass_arguments argv_magic envp_magic
          (record { max_addr = dol_max f.header; entrypoint = f.entry_point })
          args
          loaded)
passed-HandedOver argv_magic envp_magic f file mem loaded args low clean is =
    let info : DolInfo = record { max_addr = dol_max f.header; entrypoint = f.entry_point } in
    let (len, size, found, env, rest) =
      pass_arguments_lem argv_magic envp_magic info args loaded low clean in
    let structs = pass_arguments-ArgvStruct argv_magic envp_magic info args loaded low in
    let final = pass_arguments argv_magic envp_magic info args loaded in
    record {
      image = λ a below beside. Image-same f 0 file mem loaded _ a (rest a below beside) (is a);
      argz_len = len;
      arguments = found;
      environment = env;
      argv_struct =
          subst (λ n. ArgvStruct final (f.entry_point + 8) argv_magic (dol_max f.header + 32) n)
            (sym size) structs.0;
      envp_struct =
          subst
            (λ n.
              ArgvStruct final (f.entry_point + 40) envp_magic (dol_max f.header + 32 + n + 32) 11)
            (sym size) structs.1;
    }

-- Swiss starts from the flash memory, for a game that is not Swiss itself: when its file opens and can
-- be read, its entry point lies in its image, and the path of the game holds no 0, it is run at the entry
-- point of its DOL, and finds its image, and by two structures in it its environment and its arguments:
-- each has its magic number, and the address and the length of the strings. The last argument is there
-- if the apploader is found.
pub chainload_swiss_game_lem :
    {World : Type 0} (argv_magic envp_magic : ℕ) (loader : Loader World) (file : ℕ → ℕ)
    (device : List ℕ) (game_path : Option (List ℕ)) (passthrough : Bool) (mem : ℕ → ℕ) (w : World)
    (s : FileStatus)
    → is_swiss game_path ≡ false
    → (loader.status_of (loader.open_at true (codes "/swiss-gc.dol") w)).0 ≡ some s
    → (s.result == 0) ≡ true
    → ((n from : ℕ) (v : World) → (loader.read_at n from s.fd v).0 ≡ span file from n)
    → (dol_file_of (span file 0 dol_header_size)).entry_point + 20
      ≤ dol_max (dol_file_of (span file 0 dol_header_size)).header
    → no_zero (autoload_arg device game_path passthrough) ≡ true
    → ((chainload_swiss_game argv_magic envp_magic loader device game_path passthrough mem w).1
        ≡ (dol_file_of (span file 0 dol_header_size)).entry_point)
      × HandedOver argv_magic envp_magic
          (dol_file_of (span file 0 dol_header_size))
          file
          mem
          (arg_list
            (autoload_arg device game_path passthrough)
            (find_apploader loader (load_dol_file loader (codes "/swiss-gc.dol") true mem w).2).0)
          (chainload_swiss_game argv_magic envp_magic loader device game_path passthrough mem w).0
unfolding chainload_swiss_game
chainload_swiss_game_lem argv_magic envp_magic loader file device game_path passthrough mem w s
      other opened ok reads low clean =
    let swiss = load_dol_file loader (codes "/swiss-gc.dol") true mem w in
    let (info, is) =
      load_dol_file_lem loader (codes "/swiss-gc.dol") true file mem w s opened ok reads in
    let apploader = (find_apploader loader swiss.2).0 in
    let args = arg_list (autoload_arg device game_path passthrough) apploader in
    rw (other, info)
      (
        refl,
        passed-HandedOver argv_magic envp_magic (dol_file_of (span file 0 dol_header_size)) file mem
            swiss.1 args low (args-All (autoload_arg device game_path passthrough) apploader clean)
            is,
      )
