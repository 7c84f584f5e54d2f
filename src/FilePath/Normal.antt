-- ===== src/FilePath/Normal.antt =====
-- Normal paths, for `pathparser_resolve` of src/file_system/path_parser.c.
use mo_os.Prelude.{
  ℕ, zero, suc, ◌+◌, ◌≤◌, ◌<◌, ◌≡◌, refl, ap, ◌∙◌, inl, inr, Bool, false, not, ◌||◌, some, List, [],
  ◌∷◌, ◌++◌, arith, ltb, leb, ◌==◌, Bool-cases, Option-cases, eq_of_some, length, get_or, take,
  drop, length-append, length-take,
}
use mo_os.FilePath.{
  max_path_len, slash, skip_slashes, next_part, drop_last_part, is_dot, is_dot_dot, reversed,
  push_part, add_part, resolve_loop, join_paths, or_root, pathparser_resolve,
}

abbrev pub NoSlash : List ℕ → Type 0
NoSlash [] = Unit {0}
NoSlash (c ∷ cs) = ((c == slash) ≡ false) × NoSlash cs

-- A part of a normal path: not empty, no slash in it, neither `.` nor `..`.
pub record IsPlain (part : List ℕ) : Type 0 where
  pub no_slash : NoSlash part
  pub not_dot : is_dot part ≡ false
  pub not_dot_dot : is_dot_dot part ≡ false
  pub not_empty : (length part == 0) ≡ false

abbrev pub AllPlain : List (List ℕ) → Type 0
AllPlain [] = Unit {0}
AllPlain (p ∷ ps) = IsPlain p × AllPlain ps

-- The reversed bytes of parts, and their bytes in order; the last part stands first in the list.
abbrev stack : List (List ℕ) → List ℕ
stack [] = []
stack (p ∷ ps) = push_part p (stack ps)

abbrev pub path_of : List (List ℕ) → List ℕ → List ℕ
path_of [] acc = acc
path_of (p ∷ ps) acc = path_of ps (slash ∷ (p ++ acc))

reversed-reversed : (p x acc : List ℕ) → reversed (reversed p x) acc ≡ reversed x (p ++ acc)
unfolding reversed
reversed-reversed [] x acc = refl
reversed-reversed (c ∷ p) x acc = reversed-reversed p (c ∷ x) acc

reversed-stack : (ps : List (List ℕ)) (acc : List ℕ) → reversed (stack ps) acc ≡ path_of ps acc
unfolding reversed
reversed-stack [] acc = refl
reversed-stack (p ∷ ps) acc =
    reversed-reversed p (slash ∷ stack ps) acc ∙ reversed-stack ps (slash ∷ (p ++ acc))

pub length-reversed : (p x : List ℕ) → length (reversed p x) ≡ length p + length x
unfolding reversed
length-reversed [] x = omega arith
length-reversed (c ∷ p) x = omega (arith, length-reversed p (c ∷ x))

drop_last_part-reversed :
    (p x : List ℕ) → NoSlash p → drop_last_part (reversed p x) ≡ drop_last_part x
unfolding reversed drop_last_part
drop_last_part-reversed [] x h = refl
drop_last_part-reversed (c ∷ p) x h = drop_last_part-reversed p (c ∷ x) h.1 ∙ rw h.0

drop_last_part-stack :
    (p : List ℕ) (ps : List (List ℕ)) → NoSlash p → drop_last_part (stack (p ∷ ps)) ≡ stack ps
unfolding drop_last_part
drop_last_part-stack p ps h = drop_last_part-reversed p (slash ∷ stack ps) h

next_part-NoSlash : (cs : List ℕ) → NoSlash (next_part cs).0
unfolding next_part
next_part-NoSlash [] = tt
next_part-NoSlash (c ∷ cs) = elim (Bool-cases (c == slash)) [
  | inl h ↦ rw h tt
  | inr h ↦ rw h (h, next_part-NoSlash cs)
]

-- The bytes behind the drive are those of plain parts, and fit.
pub record IsNormal (max : ℕ) (out : List ℕ) : Type 0 where
  pub parts : List (List ℕ)
  pub spelled : out ≡ stack parts
  pub plain : AllPlain parts
  pub fits : 2 + length out < max
  pub short : 2 + length out ≤ max_path_len

drop-IsNormal :
    (max : ℕ) (ps : List (List ℕ))
    → AllPlain ps
    → 2 + length (stack ps) < max
    → 2 + length (stack ps) ≤ max_path_len
    → IsNormal max (drop_last_part (stack ps))
drop-IsNormal max [] all fits short = record {
  parts = [];
  spelled = unfold drop_last_part in refl;
  plain = tt;
  fits = unfold drop_last_part in fits;
  short = unfold drop_last_part in short;
}
drop-IsNormal max (p ∷ ps) all fits short =
    let gone = drop_last_part-stack p ps all.0.no_slash in
    let len = length-reversed p (slash ∷ stack ps) in
    record {
      parts = ps;
      spelled = gone;
      plain = all.1;
      fits = rw gone (omega arith);
      short = rw gone (omega arith);
    }

abbrev pub too_long : ℕ → List ℕ → List ℕ → Bool
too_long max part out =
    let len = 2 + length out + 1 + length part in leb max len || ltb max_path_len len

push-IsNormal :
    (max : ℕ) (part out : List ℕ)
    → IsPlain part
    → IsNormal max out
    → too_long max part out ≡ false
    → IsNormal max (push_part part out)
push-IsNormal max part out p n room =
    let len = length-reversed part (slash ∷ out) in
    record {
      parts = part ∷ n.parts;
      spelled = ap (push_part part) n.spelled;
      plain = (p, n.plain);
      fits = ground arith;
      short = ground arith;
    }

add_part-IsNormal :
    (max : ℕ) (part out out' : List ℕ)
    → NoSlash part
    → IsNormal max out
    → add_part max part out ≡ some out'
    → IsNormal max out'
unfolding add_part
add_part-IsNormal max part out out' clean n e = elim (Bool-cases (is_dot part)) [
  | inl h ↦ let same = eq_of_some out out' (rw h at e) in rw (← same) n
  | inr h ↦ elim (Bool-cases (is_dot_dot part)) [
    | inl g ↦
        let same = eq_of_some (drop_last_part out) out' (rw (h, g) at e) in
        rw (← same, n.spelled)
          (drop-IsNormal max n.parts n.plain (rw (n.spelled) at (n.fits))
            (rw (n.spelled) at (n.short)))
    | inr g ↦ elim (Bool-cases (length part == 0)) [
      | inl z ↦ let same = eq_of_some out out' (rw (h, g, z) at e) in rw (← same) n
      | inr z ↦ elim (Bool-cases (too_long max part out)) [
        | inl over ↦ cc (rw (h, g, z, over) at e)
        | inr room ↦
            let same = eq_of_some (push_part part out) out' (rw (h, g, z, room) at e) in
            rw (← same) (
              push-IsNormal max part out
                (record { no_slash = clean; not_dot = h; not_dot_dot = g; not_empty = z }) n room)
      ]
    ]
  ]
]

resolve_loop-IsNormal :
    (fuel max : ℕ) (cs out out' : List ℕ)
    → IsNormal max out
    → resolve_loop fuel max cs out ≡ some out'
    → IsNormal max out'
unfolding resolve_loop
resolve_loop-IsNormal fuel max [] out out' n e = rw (← eq_of_some out out' e) n
resolve_loop-IsNormal zero max (c ∷ cs) out out' n e = cc
resolve_loop-IsNormal (suc fuel) max (c ∷ cs) out out' n e =
    let part = (next_part (skip_slashes (c ∷ cs))).0 in
    elim (Option-cases (add_part max part out)) [
      | inl fails ↦ cc (rw (fails, resolve_loop) at e)
      | inr (next, added) ↦
          let clean = next_part-NoSlash (skip_slashes (c ∷ cs)) in
          resolve_loop-IsNormal fuel max _ next out'
            (add_part-IsNormal max part out next clean n added) (rw (added, resolve_loop) at e)
    ]

-- A path after its drive: `/`, or each part behind a slash; the last part stands first in the list.
abbrev pub absolute : List (List ℕ) → List ℕ
absolute [] = slash ∷ []
absolute (p ∷ ps) = path_of (p ∷ ps) []

-- The drive of the joined path, and parts that are plain, within `max` with the byte behind them.
pub record Resolved (joined result : List ℕ) (max : ℕ) : Type 0 where
  pub parts : List (List ℕ)
  pub spelled : result ≡ take 2 joined ++ absolute parts
  pub plain : AllPlain parts
  pub fits : length result < max
  pub short : length result ≤ max_path_len

or_root_cons : (out : List ℕ) → 0 < length out → or_root out ≡ reversed out []
or_root_cons [] h = absurd (omega arith)
or_root_cons (c ∷ out) h = refl

or_root-stack : (ps : List (List ℕ)) → or_root (stack ps) ≡ absolute ps
or_root-stack [] = refl
or_root-stack (p ∷ ps) =
    or_root_cons (stack (p ∷ ps)) (let len = length-reversed p (slash ∷ stack ps) in omega arith)
    ∙ reversed-stack (p ∷ ps) []

length-or_root : (out : List ℕ) → length (or_root out) ≤ length out + 1
length-or_root [] = omega arith
length-or_root (c ∷ out) = let len = length-reversed (c ∷ out) [] in omega arith

length-or_root_lt :
    (m : ℕ) (out : List ℕ) → 4 ≤ m → 2 + length out < m → 2 + length (or_root out) < m
length-or_root_lt m [] big lt = omega arith
length-or_root_lt m (c ∷ out) big lt = let len = length-reversed (c ∷ out) [] in omega arith

resolved :
    (joined out : List ℕ) (max : ℕ)
    → 4 ≤ max
    → IsNormal max out
    → Resolved joined (take 2 joined ++ or_root out) max
resolved joined out max big n =
    let front = length-take 2 joined in
    let both = length-append (take 2 joined) (or_root out) in
    let fit = length-or_root_lt max out big n.fits in
    let fit_len = length-or_root_lt 109 out (omega arith) (omega (arith, n.short)) in
    record {
      parts = n.parts;
      spelled = ap (λ o. take 2 joined ++ o) (ap or_root n.spelled ∙ or_root-stack n.parts);
      plain = n.plain;
      fits = omega arith;
      short = omega arith;
    }

-- One of the paths is too long, or the working directory has no drive.
abbrev pub refused : List ℕ → List ℕ → ℕ → Bool
refused cwd path max =
    ltb max_path_len (length cwd) || ltb max_path_len (length path) || ltb (length cwd) 3

-- What `pathparser_resolve` returns is the drive of the joined path, then `/` alone or plain parts, each
-- behind a slash: none of them is empty, `.` or `..` or has a slash in it. The result and its terminator
-- fit in `max` bytes, and it has at most 108 bytes.
pub pathparser_resolve-Resolved :
    (cwd path result : List ℕ) (max : ℕ)
    → pathparser_resolve cwd path max ≡ some result
    → Resolved (join_paths cwd path) result max
unfolding pathparser_resolve
pathparser_resolve-Resolved cwd path result max e = elim (Bool-cases (refused cwd path max)) [
  | inl r ↦ cc (rw r at e)
  | inr r ↦ elim (Bool-cases (ltb max 4 || not (get_or (join_paths cwd path) 2 0 == slash))) [
    | inl r' ↦ cc (rw (r, r') at e)
    | inr r' ↦
        elim (Option-cases
          (resolve_loop (length (join_paths cwd path)) max (drop 2 (join_paths cwd path)) [])) [
            | inl f ↦ cc (rw (r, r', f) at e)
            | inr (out, f) ↦
                let big : 4 ≤ max = ground arith in
                let same =
                  eq_of_some (take 2 (join_paths cwd path) ++ or_root out) result
                    (rw (r, r', f) at e) in
                let start : IsNormal max [] = record {
                  parts = [];
                  spelled = refl;
                  plain = tt;
                  fits = omega arith;
                  short = omega arith;
                } in
                rw (← same) (
                  resolved (join_paths cwd path) out max big
                    (resolve_loop-IsNormal _ max _ [] out start f))
          ]
  ]
]
