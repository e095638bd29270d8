-- ===== src/Tests/PathRuns.antt =====
-- Suffixes of file names.
use cubiboot.Base.{ℕ, List, [], ◌∷◌, ◌≡◌, refl, ◌⊎◌}
use cubiboot.Paths.{file_suffix, scan}
use cubiboot.Paths.Suffix.{SuffixAt, file_suffix_cases}

-- "a.gc"
abbrev file_name : List ℕ
file_name = 0x61 ∷ 0x2E ∷ 0x67 ∷ 0x63 ∷ []

suffix_runs : file_suffix file_name ≡ 1
unfolding file_suffix scan
suffix_runs = refl

file_suffix_cases_example :
    SuffixAt file_name (file_suffix file_name)
    ⊎ ((file_suffix file_name ≡ 4) × ((r : ℕ) → ¬ SuffixAt file_name r))
file_suffix_cases_example = file_suffix_cases file_name
