-- ===== src/Games/Discs.antt =====
-- Games of several discs: patches/source/games.c, lines 862 to 884. An entry is known by its index.
use cubiboot.Base.{
  ℕ, zero, suc, ◌+◌, Bool, true, false, not, ◌&&◌, ◌||◌, Option, some, List, [], ◌∷◌, ◌==◌,
  if◌then◌else◌,
}
use cubiboot.Games.{put}

-- What the search reads of an entry: whether it is a game, its `extra.game_id` and its
-- `extra.disc_num`.
pub record GameDisc : Type 0 where
  pub is_game : Bool
  pub game_id : List ℕ
  pub disc_num : ℕ

-- `memcmp` of two of the same length, equal or not.
unfoldable pub same_id : List ℕ → List ℕ → Bool
same_id [] [] = true
same_id [] (d ∷ t) = false
same_id (c ∷ s) [] = false
same_id (c ∷ s) (d ∷ t) = c == d && same_id s t

module _ (discs : ℕ → GameDisc) where
  -- Two discs of one game.
  abbrev pub is_pair : ℕ → ℕ → Bool
  is_pair i j =
      (discs j).is_game
      && (not (j == i)
          && (same_id (discs i).game_id (discs j).game_id
              && not ((discs i).disc_num == (discs j).disc_num)))

  -- One round of the inner loop.
  abbrev pub link : ℕ → ℕ → (ℕ → Option ℕ) → ℕ → Option ℕ
  link i j second = if is_pair i j then put (put second i (some j)) j (some i) else second

  -- The inner loop over all entries, and the outer loop, with `left` to go.
  unfoldable pub link_all : ℕ → ℕ → ℕ → (ℕ → Option ℕ) → ℕ → Option ℕ
  link_all i zero j second = second
  link_all i (suc left) j second = link_all i left (j + 1) (link i j second)

  unfoldable pub find_discs : ℕ → ℕ → ℕ → (ℕ → Option ℕ) → ℕ → Option ℕ
  find_discs count zero i second = second
  find_discs count (suc left) i second = find_discs count left (i + 1) (
      if not (discs i).is_game || (discs i).disc_num == 0
      then second
      else link_all i count 0 second)
