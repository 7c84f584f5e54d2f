-- ===== src/FilePath/Tests.antt =====
-- Runs of `pathparser_resolve`, and the theorems applied to them.
use mo_os.FilePath.Parse.{parts_loop, pathparser_parse}
use mo_os.FilePath.Parts.{pathparser_parse-pathparser_resolve, ParsedPath}
use mo_os.Prelude.{ℕ, ◌≡◌, refl, none, some, List, [], ◌∷◌, arith}
use mo_os.FilePath.{
  skip_slashes, next_part, drop_last_part, reversed, add_part, resolve_loop, join_paths,
  pathparser_resolve,
}
use mo_os.FilePath.Total.{pathparser_resolve_total}
use mo_os.FilePath.Normal.{pathparser_resolve-Resolved, Resolved}

-- `0:/a`, `../b/./c` and `0:/b/c`.
abbrev in_a : List ℕ
in_a = b'0' ∷ b':' ∷ b'/' ∷ b'a' ∷ []

abbrev up_and_down : List ℕ
up_and_down = 0x2e ∷ 0x2e ∷ b'/' ∷ b'b' ∷ b'/' ∷ 0x2e ∷ b'/' ∷ b'c' ∷ []

abbrev in_c : List ℕ
in_c = b'0' ∷ b':' ∷ b'/' ∷ b'b' ∷ b'/' ∷ b'c' ∷ []

run_resolve : pathparser_resolve in_a up_and_down 109 ≡ some in_c
unfolding pathparser_resolve resolve_loop skip_slashes next_part drop_last_part reversed join_paths
    add_part
run_resolve = refl

up_at_root : pathparser_resolve in_a (0x2e ∷ 0x2e ∷ []) 109 ≡ some (b'0' ∷ b':' ∷ b'/' ∷ [])
unfolding pathparser_resolve resolve_loop skip_slashes next_part drop_last_part reversed join_paths
    add_part
up_at_root = refl

too_small : pathparser_resolve in_a (b'b' ∷ []) 6 ≡ none
unfolding pathparser_resolve resolve_loop skip_slashes next_part drop_last_part reversed join_paths
    add_part
too_small = refl

pathparser_resolve-Resolved_example : Resolved (join_paths in_a up_and_down) in_c 109
pathparser_resolve-Resolved_example =
    pathparser_resolve-Resolved in_a up_and_down in_c 109 run_resolve

pathparser_resolve_total_example :
    (result : List ℕ) × (pathparser_resolve in_a up_and_down 109 ≡ some result)
unfolding join_paths
pathparser_resolve_total_example =
    pathparser_resolve_total in_a up_and_down 109 (omega arith) (omega arith) (omega arith) refl
      (omega arith) (omega arith)

pathparser_parse-pathparser_resolve_example : ParsedPath (join_paths in_a up_and_down) in_c
pathparser_parse-pathparser_resolve_example =
    pathparser_parse-pathparser_resolve in_a up_and_down in_c 109 refl (omega arith) run_resolve

run_parse :
    pathparser_parse in_c ≡ some (record { drive_no = 0; parts = (b'b' ∷ []) ∷ (b'c' ∷ []) ∷ [] })
unfolding parts_loop next_part
run_parse = refl
