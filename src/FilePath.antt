-- ===== src/FilePath.antt =====
-- `pathparser_resolve` of src/file_system/path_parser.c. A string is the list of its bytes without the
-- terminator. The part of `out` behind the drive prefix is kept with its last byte first.
pub mod Normal
pub mod Total
pub mod Parse
pub mod Parts
mod Tests
use mo_os.Prelude.{
  ℕ, zero, suc, ◌+◌, Bool, false, not, ◌&&◌, ◌||◌, Option, none, some, List, [], ◌∷◌, ◌++◌, ltb,
  leb, ◌==◌, if◌then◌else◌, length, get_or, take, drop,
}
use mo_os.Libc.{isdigit}

abbrev pub max_path_len : ℕ
max_path_len = 108

abbrev pub slash : ℕ
slash = 0x2f

abbrev pub dot : ℕ
dot = 0x2e

-- `while (*part == '/') part++;`
pub skip_slashes : List ℕ → List ℕ
skip_slashes [] = []
skip_slashes (c ∷ cs) = let rest = skip_slashes cs in if c == slash then rest else c ∷ cs

-- The bytes up to the next slash, and the rest from the slash on.
unfoldable pub next_part : List ℕ → List ℕ × List ℕ
next_part [] = ([], [])
next_part (c ∷ cs) =
    let (part, rest) = next_part cs in if c == slash then ([], c ∷ cs) else (c ∷ part, rest)

-- `while (len > 2 && out[len - 1] != '/') len--;` and the slash too.
pub drop_last_part : List ℕ → List ℕ
drop_last_part [] = []
drop_last_part (c ∷ out) = let rest = drop_last_part out in if c == slash then out else rest

abbrev pub is_dot : List ℕ → Bool
is_dot (c ∷ []) = c == dot
is_dot _ = false

abbrev pub is_dot_dot : List ℕ → Bool
is_dot_dot (c ∷ d ∷ []) = (c == dot) && (d == dot)
is_dot_dot _ = false

-- The bytes of a list in front of another one, last byte first.
pub reversed : List ℕ → List ℕ → List ℕ
reversed [] acc = acc
reversed (c ∷ cs) acc = reversed cs (c ∷ acc)

-- `out[len++] = '/'; memcpy (out + len, part, part_len);` on the reversed bytes.
abbrev pub push_part : List ℕ → List ℕ → List ℕ
push_part part out = reversed part (slash ∷ out)

-- What one part does to the bytes behind the drive; `none` when they do not fit.
pub add_part : ℕ → List ℕ → List ℕ → Option (List ℕ)
add_part max part out =
    let len = 2 + length out + 1 + length part in
    if is_dot part
    then some out
    else if is_dot_dot part
    then some (drop_last_part out)
    else if length part == 0
    then some out
    else if leb max len || ltb max_path_len len
    then none
    else some (push_part part out)

-- The loop over the parts; each round takes a byte at least, so the fuel is the length of the string.
pub resolve_loop : ℕ → ℕ → List ℕ → List ℕ → Option (List ℕ)
resolve_loop fuel max [] out = some out
resolve_loop zero max (c ∷ cs) out = none
resolve_loop (suc fuel) max (c ∷ cs) out =
    let (part, rest) = next_part (skip_slashes (c ∷ cs)) in
    elim (add_part max part out) [ none ↦ none | some out' ↦ resolve_loop fuel max rest out' ]

-- The joined path before it is normalized.
pub join_paths : List ℕ → List ℕ → List ℕ
join_paths cwd path =
    if isdigit (get_or path 0 0) && (get_or path 1 0 == b':')
    then path
    else if get_or path 0 0 == slash
    then take 2 cwd ++ path
    else cwd ++ (slash ∷ path)

abbrev pub or_root : List ℕ → List ℕ
or_root [] = slash ∷ []
or_root (c ∷ out) = reversed (c ∷ out) []

-- `none` is the result 0.
pub pathparser_resolve : List ℕ → List ℕ → ℕ → Option (List ℕ)
pathparser_resolve cwd path max =
    let joined = join_paths cwd path in
    if ltb max_path_len (length cwd) || ltb max_path_len (length path) || ltb (length cwd) 3
    then none
    else if ltb max 4 || not (get_or joined 2 0 == slash)
    then none
    else elim (resolve_loop (length joined) max (drop 2 joined) []) [
      | none ↦ none
      | some out ↦ some (take 2 joined ++ or_root out)
    ]
