-- ===== src/Games/Listing.antt =====
-- What is in the listing of a directory: gm_list_files of patches/source/games.c, lines 521 to 603.
use cubiboot.Base.{ℕ, ◌+◌, ◌<◌, true, false, Option, some, List, [], ◌∷◌, ◌++◌, ◌≡◌, length, In}
use cubiboot.Emu.Services.{FileEntry}
use cubiboot.Games.Shown.{Shown}
use cubiboot.Games.Files.{PathEntry, type_of, is_empty, ListEnd, complete, path_size}

module _ {World : Type 0} (readdir : World → (ℕ × FileEntry) × World) (target_dir : List ℕ) where
  -- The entries that the reads of a directory give, up to its end, and the world behind it.
  pub data Entries : World → List FileEntry → World → Type 0 where
    ended :
        (w : World)
        → (readdir w).0.0 ≡ 0
        → is_empty (readdir w).0.1.name ≡ true
        → Entries w [] (readdir w).1
    one_more :
        (w : World) (es : List FileEntry) (v : World)
        → (readdir w).0.0 ≡ 0
        → is_empty (readdir w).0.1.name ≡ false
        → Entries (readdir w).1 es v
        → Entries w ((readdir w).0.1 ∷ es) v

  -- How an entry that is to be seen is listed.
  abbrev pub row : FileEntry → PathEntry
  row ent = record { path = target_dir ++ ent.name; type = type_of ent }

  abbrev pub IsRow : List FileEntry → PathEntry → Type 0
  IsRow es p = (ent : FileEntry) × In ent es × Shown ent × (p ≡ row ent)

  abbrev pub Fit : List FileEntry → Type 0
  Fit es = (ent : FileEntry) → In ent es → length target_dir + length ent.name < path_size

  -- The list is what it was, and behind it a row for each entry to be seen, and no other.
  abbrev Adds :
      List FileEntry → List PathEntry → World → Option (ListEnd × List PathEntry × World) → Type 0
  Adds es acc v o =
      (l : List PathEntry) × (o ≡ some (complete, acc ++ l, v))
      × ((p : PathEntry) → (In p l → IsRow es p) × (IsRow es p → In p l))
