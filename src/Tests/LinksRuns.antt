-- ===== src/Tests/LinksRuns.antt =====
-- The list of the block cache.
use cubiboot.Base.{ℕ, some, [], ◌∷◌, ◌≡◌, refl, arith}
use cubiboot.Cache.Links.{Links, bases, set_base, reset_from, reset, search, promote, evict}
use cubiboot.Cache.Links.Chain.{Ordered, set_base-Ordered}
use cubiboot.Cache.Links.Evict.{Victim, evict-Victim}
use cubiboot.Cache.Links.Promote.{promote-Ordered}
use cubiboot.Cache.Links.Reset.{reset-Ordered}
use cubiboot.Cache.Links.Search.{EmptyTail, Nearest, search-Nearest}
use cubiboot.Tests.{blank_links}

abbrev three : Links
three = reset 3 blank_links

-- Entry 0 holds page 8.
abbrev used : Links
used = set_base three 0 8

used-Ordered : Ordered used (0 ∷ 1 ∷ 2 ∷ [])
used-Ordered = set_base-Ordered three 0 8 (0 ∷ 1 ∷ 2 ∷ []) (reset-Ordered 2 blank_links)

used-EmptyTail : EmptyTail (bases used.entries) (0 ∷ 1 ∷ 2 ∷ [])
unfolding reset reset_from
used-EmptyTail = ((λ e. absurd (omega arith)), ((λ e. (refl, tt)), ((λ e. tt), tt)))

search-Nearest_example : Nearest (bases used.entries) (0 ∷ 1 ∷ 2 ∷ []) 4 (search 3 used 4)
search-Nearest_example =
    search-Nearest 3 used (0 ∷ 1 ∷ 2 ∷ []) 4 used-Ordered used-EmptyTail (omega arith) (omega arith)

promote-Ordered_example : Ordered (promote used 1) (1 ∷ 0 ∷ 2 ∷ [])
promote-Ordered_example = promote-Ordered used (0 ∷ []) 1 (2 ∷ []) used-Ordered

evict-Victim_example : (i : ℕ) × (evict 3 used ≡ some i) × Victim used.entries (0 ∷ 1 ∷ 2 ∷ []) i
evict-Victim_example = evict-Victim 3 used 0 (1 ∷ 2 ∷ []) used-Ordered
