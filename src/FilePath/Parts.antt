-- ===== src/FilePath/Parts.antt =====
-- What pathparser_parse makes of a path that pathparser_resolve returns, in src/file_system/path_parser.c.
use mo_os.Libc.{isdigit}
use mathlib.Core.Path.{subst}
use mo_os.Prelude.{
  ℕ, zero, suc, ◌-◌, ◌≤◌, ◌≡◌, refl, sym, ap, ◌∙◌, inl, inr, Bool, true, false, ◌&&◌, some, List,
  [], ◌∷◌, ◌++◌, arith, ltb, leb, ◌==◌, Bool-cases, length, get_or, take, drop, length-append,
}
use mo_os.FilePath.{max_path_len, slash, next_part, join_paths, pathparser_resolve}
use mo_os.FilePath.Normal.{NoSlash, AllPlain, path_of, absolute, pathparser_resolve-Resolved}
use mo_os.FilePath.Parse.{pathparser_path_valid_format, parts_loop, pathparser_parse}

-- Each part behind a slash, the first part first in the list.
abbrev pub spell : List (List ℕ) → List ℕ
spell [] = []
spell (p ∷ ps) = slash ∷ (p ++ spell ps)

abbrev pub spell_path : List (List ℕ) → List ℕ
spell_path [] = slash ∷ []
spell_path (p ∷ ps) = spell (p ∷ ps)

abbrev turned : List (List ℕ) → List (List ℕ) → List (List ℕ)
turned [] acc = acc
turned (p ∷ ps) acc = turned ps (p ∷ acc)

turned-AllPlain : (ps acc : List (List ℕ)) → AllPlain ps → AllPlain acc → AllPlain (turned ps acc)
turned-AllPlain [] acc h h' = h'
turned-AllPlain (p ∷ ps) acc (plain, h) h' = turned-AllPlain ps (p ∷ acc) h (plain, h')

path_of_lem : (ps qs : List (List ℕ)) → path_of ps (spell qs) ≡ spell (turned ps qs)
path_of_lem [] qs = refl
path_of_lem (p ∷ ps) qs = path_of_lem ps (p ∷ qs)

turned_cons :
    (ps qs : List (List ℕ)) (q : List ℕ)
    → spell_path (turned ps (q ∷ qs)) ≡ spell (turned ps (q ∷ qs))
turned_cons [] qs q = refl
turned_cons (p ∷ ps) qs q = turned_cons ps (q ∷ qs) p

absolute_lem : (ps : List (List ℕ)) → absolute ps ≡ spell_path (turned ps [])
absolute_lem [] = refl
absolute_lem (p ∷ ps) = path_of_lem (p ∷ ps) [] ∙ sym (turned_cons ps [] p)

-- The next part ends at a slash or with the path.
next_part-spell :
    (p : List ℕ) (ps : List (List ℕ)) → NoSlash p → next_part (p ++ spell ps) ≡ (p, spell ps)
unfolding next_part
next_part-spell [] [] h = refl
next_part-spell [] (q ∷ qs) h = refl
next_part-spell (c ∷ cs) ps (no_slash, h) = rw (no_slash, next_part-spell cs ps h) refl

parts_loop-spell :
    (fuel : ℕ) (ps : List (List ℕ))
    → AllPlain ps
    → length (spell ps) ≤ fuel
    → parts_loop fuel (drop 1 (spell ps)) ≡ ps
unfolding parts_loop next_part
parts_loop-spell zero [] h le = refl
parts_loop-spell (suc fuel) [] h le = refl
parts_loop-spell zero (p ∷ ps) h le = absurd (omega arith)
parts_loop-spell (suc fuel) (p ∷ ps) (plain, h) le =
    let len = length-append p (spell ps) in
    rw (next_part-spell p ps plain.no_slash, plain.not_empty, parts_loop)
      (ap (λ rest. p ∷ rest) (parts_loop-spell fuel ps h (omega arith)))

-- A path begins with a drive: a digit and a colon.
abbrev pub has_drive : List ℕ → Bool
has_drive path = isdigit (get_or path 0 0) && (get_or path 1 0 == b':')

joined-drive :
    (cwd path : List ℕ)
    → has_drive cwd ≡ true
    → 3 ≤ length cwd
    → has_drive (join_paths cwd path) ≡ true
unfolding join_paths
joined-drive [] path h long = absurd (omega arith)
joined-drive (c ∷ []) path h long = absurd (omega arith)
joined-drive (c ∷ d ∷ cwd) path h long = elim (Bool-cases (has_drive path)) [
  | inl own ↦ rw own own
  | inr other ↦ elim (Bool-cases (get_or path 0 0 == slash)) [
    | inl rooted ↦ rw (other, rooted) h
    | inr relative ↦ rw (other, relative) h
  ]
]

both_true : (a b : Bool) → (a && b) ≡ true → (a ≡ true) × (b ≡ true)
both_true true b h = (refl, h)
both_true false b h = absurd cc

valid_drive :
    (c d : ℕ) (rest : List ℕ)
    → has_drive (c ∷ d ∷ []) ≡ true
    → pathparser_path_valid_format (c ∷ d ∷ slash ∷ rest) ≡ true
valid_drive c d rest h =
    let (digit, colon) = both_true (isdigit c) (d == b':') h in
    let long : leb 3 (length (c ∷ d ∷ slash ∷ rest)) ≡ true = ground arith in
    rw (long, digit, colon) refl

parse_drive :
    (joined : List ℕ) (ps : List (List ℕ))
    → has_drive joined ≡ true
    → AllPlain ps
    → length (take 2 joined ++ spell_path ps) ≤ max_path_len
    → pathparser_parse (take 2 joined ++ spell_path ps)
      ≡ some (record { drive_no = get_or joined 0 0 - 48; parts = ps })
unfolding parts_loop next_part
parse_drive [] ps h plain short = absurd cc
parse_drive (c ∷ []) ps h plain short = absurd (no_colon (both_true (isdigit c) (0 == b':') h).1)
  where
    no_colon : false ≡ true → ⊥
    no_colon e = cc
parse_drive (c ∷ d ∷ joined) [] h plain short = rw (valid_drive c d [] h) refl
parse_drive (c ∷ d ∷ joined) (p ∷ ps) h plain short =
    let path = c ∷ d ∷ spell (p ∷ ps) in
    let fits : ltb max_path_len (length path) ≡ false = ground arith in
    rw (fits, valid_drive c d (p ++ spell ps) h, pathparser_parse)
      (ap (λ parts. some (record { drive_no = c - 48; parts = parts }))
        (parts_loop-spell (length path) (p ∷ ps) plain (omega arith)))

-- The outcome of the two functions: drive and parts, none of them empty, `.` or `..` or with a slash in it,
-- which spell the path.
pub record ParsedPath (joined result : List ℕ) : Type 0 where
  pub parts : List (List ℕ)
  pub found :
      pathparser_parse result ≡ some (record { drive_no = get_or joined 0 0 - 48; parts = parts })
  pub plain : AllPlain parts
  pub spelled : result ≡ take 2 joined ++ spell_path parts

-- If the working directory has at least three bytes and begins with a drive, then what `pathparser_resolve`
-- returns is parsed to the drive of the joined path and to plain parts, and these parts spell the path:
-- `pathparser_parse` drops nothing of it.
pub pathparser_parse-pathparser_resolve :
    (cwd path result : List ℕ) (max : ℕ)
    → has_drive cwd ≡ true
    → 3 ≤ length cwd
    → pathparser_resolve cwd path max ≡ some result
    → ParsedPath (join_paths cwd path) result
pathparser_parse-pathparser_resolve cwd path result max drive long e =
    let r = pathparser_resolve-Resolved cwd path result max e in
    let joined = join_paths cwd path in
    let parts = turned r.parts [] in
    let plain = turned-AllPlain r.parts [] r.plain tt in
    let same = r.spelled ∙ ap (λ o. take 2 joined ++ o) (absolute_lem r.parts) in
    record {
      parts = parts;
      found =
          ap pathparser_parse same
          ∙ parse_drive joined parts (joined-drive cwd path drive long) plain
              (subst (λ o. length o ≤ max_path_len) same r.short);
      plain = plain;
      spelled = same;
    }
