-- ===== src/Fat16/ShortName/Tests.antt =====
-- 8.3 names in both directions, and the theorem on them applied.
use mo_os.Prelude.{ℕ, ◌≡◌, refl, List, [], ◌∷◌, ◌++◌}
use mo_os.Prelude.Status.{invalid_path, ok, err}
use mo_os.Fat16.ShortName.{
  fat16_get_short_name, last_dot, case_flags, check_parts, fat16_make_short_name,
}
use mo_os.Fat16.ShortName.RoundTrip.{fat16_get_short_name-fat16_make_short_name}

-- `a1.TXT`.
abbrev mixed : List ℕ
mixed = b'a' ∷ b'1' ∷ 0x2e ∷ b'T' ∷ b'X' ∷ b'T' ∷ []

abbrev padded : List ℕ
padded = b'A' ∷ b'1' ∷ 0x20 ∷ 0x20 ∷ 0x20 ∷ 0x20 ∷ 0x20 ∷ 0x20 ∷ b'T' ∷ b'X' ∷ b'T' ∷ []

make_mixed : fat16_make_short_name mixed ≡ ok (padded, 0x08)
unfolding fat16_make_short_name last_dot check_parts case_flags
make_mixed = refl

-- `aB` needs a long name.
mixed_case : fat16_make_short_name (b'a' ∷ b'B' ∷ []) ≡ err invalid_path
unfolding fat16_make_short_name last_dot check_parts case_flags
mixed_case = refl

fat16_get_short_name-fat16_make_short_name_example :
    fat16_get_short_name (padded ++ (0x20 ∷ 0x08 ∷ [])) ≡ mixed
fat16_get_short_name-fat16_make_short_name_example =
    fat16_get_short_name-fat16_make_short_name mixed padded 0x08 (padded ++ (0x20 ∷ 0x08 ∷ []))
      make_mixed refl refl
