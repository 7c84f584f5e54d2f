-- ===== src/FilePath/Parse.antt =====
-- `pathparser_parse` of src/file_system/path_parser.c: the drive and the parts of a path.
use mo_os.Prelude.{
  ℕ, zero, suc, ◌-◌, Bool, ◌&&◌, Option, none, some, List, [], ◌∷◌, ltb, leb, ◌==◌, if◌then◌else◌,
  length, get_or, drop,
}
use mo_os.Libc.{isdigit}
use mo_os.FilePath.{max_path_len, slash, next_part}

pub record PathRoot : Type 0 where
  pub drive_no : ℕ
  pub parts : List (List ℕ)

abbrev pub pathparser_path_valid_format : List ℕ → Bool
pathparser_path_valid_format path =
    leb 3 (length path)
    && (isdigit (get_or path 0 0) && ((get_or path 1 0 == b':') && (get_or path 2 0 == slash)))

-- The part before the next slash, and the path behind this slash.
abbrev pub pathparser_get_path_part : List ℕ → List ℕ × List ℕ
pathparser_get_path_part path = let (part, rest) = next_part path in (part, drop 1 rest)

-- The parts up to the first one that is empty. A round takes a byte at least, so the fuel is the length of
-- the path.
unfoldable pub parts_loop : ℕ → List ℕ → List (List ℕ)
parts_loop zero path = []
parts_loop (suc fuel) path =
    let (part, rest) = pathparser_get_path_part path in
    let parts = parts_loop fuel rest in if length part == 0 then [] else part ∷ parts

abbrev pub pathparser_parse : List ℕ → Option PathRoot
pathparser_parse path =
    if ltb max_path_len (length path)
    then none
    else if pathparser_path_valid_format path
    then some
        (record { drive_no = get_or path 0 0 - 48; parts = parts_loop (length path) (drop 3 path) })
    else none
