-- ===== src/Fat16/Directory/Tests.antt =====
-- The search for a path, applied.
use mo_os.Fat16.Sample.{sample}
use mo_os.Prelude.{ℕ, List, [], ◌∷◌}
use mo_os.Fat16.Directory.{fat16_get_directory_entry}
use mo_os.Fat16.Directory.Search.{fat16_get_directory_entry-SearchOutcome, SearchOutcome}

-- `a.b` names the file `A.B`.
abbrev a_b : List ℕ
a_b = b'a' ∷ 0x2e ∷ b'b' ∷ []

fat16_get_directory_entry-SearchOutcome_example :
    SearchOutcome sample a_b [] (fat16_get_directory_entry a_b [] sample)
fat16_get_directory_entry-SearchOutcome_example =
    fat16_get_directory_entry-SearchOutcome sample a_b []
