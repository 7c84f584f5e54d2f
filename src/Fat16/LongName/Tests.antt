-- ===== src/Fat16/LongName/Tests.antt =====
-- A long name, and the theorem on it applied.
use mo_os.Prelude.{ℕ, ◌≡◌, refl, true, List, [], ◌∷◌, arith}
use mo_os.Fat16.Sample.{sample_item, sample_root}
use mo_os.Fat16.Volume.{Directory}
use mo_os.Fat16.LongName.{fat16_lfn_count, fat16_get_item_name, fat16_valid_long_name}
use mo_os.Fat16.LongName.RoundTrip.{spelled_out, fat16_get_item_name-lfn_entries}

-- `Two long names`, of 14 characters.
abbrev two_entries : List ℕ
two_entries =
    b'T' ∷ b'w' ∷ b'o' ∷ 0x20 ∷ b'l' ∷ b'o' ∷ b'n' ∷ b'g' ∷ 0x20 ∷ b'n' ∷ b'a' ∷ b'm' ∷ b'e' ∷ b's'
    ∷ []

abbrev with_name : Directory
with_name = record sample_root {
  items = spelled_out (sample_item ∷ []) two_entries sample_item [];
  total = 4;
}

valid : fat16_valid_long_name two_entries ≡ true
unfolding fat16_valid_long_name
valid = refl

fat16_get_item_name-lfn_entries_example :
    (fat16_get_item_name with_name 3 64 ≡ two_entries) × (fat16_lfn_count with_name 3 ≡ 2)
fat16_get_item_name-lfn_entries_example =
    fat16_get_item_name-lfn_entries with_name (sample_item ∷ []) [] two_entries sample_item 64 refl
      valid (omega arith)
