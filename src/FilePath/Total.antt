-- ===== src/FilePath/Total.antt =====
-- The progress of the loop of `pathparser_resolve` of src/file_system/path_parser.c.
use mo_os.Prelude.{
  ℕ, zero, suc, ◌+◌, ◌≤◌, ◌<◌, ◌≡◌, refl, inl, inr, true, false, not, ◌||◌, Option, some, List, [],
  ◌∷◌, ◌++◌, arith, ltb, ◌==◌, Bool-cases, length, get_or, take, drop, length-drop,
}
use mo_os.FilePath.{
  max_path_len, slash, skip_slashes, next_part, drop_last_part, is_dot, is_dot_dot, push_part,
  add_part, resolve_loop, join_paths, or_root, pathparser_resolve,
}
use mo_os.FilePath.Normal.{length-reversed, too_long, refused}

length-skip_slashes : (cs : List ℕ) → length (skip_slashes cs) ≤ length cs
unfolding skip_slashes
length-skip_slashes [] = omega arith
length-skip_slashes (c ∷ cs) =
    let less = length-skip_slashes cs in
    elim (Bool-cases (c == slash)) [ inl h ↦ rw h (omega arith) | inr h ↦ rw h (omega arith) ]

length-next_part : (cs : List ℕ) → length (next_part cs).0 + length (next_part cs).1 ≡ length cs
unfolding next_part
length-next_part [] = omega arith
length-next_part (c ∷ cs) =
    let split = length-next_part cs in
    elim (Bool-cases (c == slash)) [ inl h ↦ rw h (omega arith) | inr h ↦ rw h (omega arith) ]

length-drop_last_part : (out : List ℕ) → length (drop_last_part out) ≤ length out
unfolding drop_last_part
length-drop_last_part [] = omega arith
length-drop_last_part (c ∷ out) =
    let less = length-drop_last_part out in
    elim (Bool-cases (c == slash)) [ inl h ↦ rw h (omega arith) | inr h ↦ rw h (omega arith) ]

-- A string that is empty or has a slash in front.
abbrev AtSlash : List ℕ → Type 0
AtSlash [] = Unit {0}
AtSlash (c ∷ cs) = (c == slash) ≡ true

next_part-AtSlash : (cs : List ℕ) → AtSlash (next_part cs).1
unfolding next_part
next_part-AtSlash [] = tt
next_part-AtSlash (c ∷ cs) = elim (Bool-cases (c == slash)) [
  | inl h ↦ rw h h
  | inr h ↦ rw h (next_part-AtSlash cs)
]

-- A part that fits is added, and makes the output longer by a byte more than its own at most.
record Fits (part out : List ℕ) (added : Option (List ℕ)) : Type 0 where
  pub next : List ℕ
  pub done : added ≡ some next
  pub bound : length next ≤ length out + 1 + length part

length-push_part : (part out : List ℕ) → length (push_part part out) ≡ length out + 1 + length part
length-push_part part out = omega (arith, length-reversed part (slash ∷ out))

add_part-Fits :
    (max : ℕ) (part out : List ℕ)
    → 2 + length out + 1 + length part < max
    → 2 + length out + 1 + length part ≤ max_path_len
    → Fits part out (add_part max part out)
unfolding add_part
add_part-Fits max part out lt le = elim (Bool-cases (is_dot part)) [
  | inl h ↦ rw h (record { next = out; done = refl; bound = omega arith })
  | inr h ↦ elim (Bool-cases (is_dot_dot part)) [
    | inl g ↦
        rw (h, g)
          (record {
            next = drop_last_part out;
            done = refl;
            bound = omega (arith, length-drop_last_part out);
          })
    | inr g ↦ elim (Bool-cases (length part == 0)) [
      | inl z ↦ rw (h, g, z) (record { next = out; done = refl; bound = omega arith })
      | inr z ↦
          let room : too_long max part out ≡ false = ground arith in
          rw (h, g, z, room)
            (record {
              next = push_part part out;
              done = refl;
              bound = omega (arith, length-push_part part out);
            })
    ]
  ]
]

skip_slashes_shorter :
    (c : ℕ) (cs : List ℕ) → AtSlash (c ∷ cs) → length (skip_slashes (c ∷ cs)) < length (c ∷ cs)
unfolding skip_slashes
skip_slashes_shorter c cs h = rw h (omega (arith, length-skip_slashes cs))

-- Each round takes a slash and a part, so a fuel of the length is enough.
resolve_loop_total :
    (fuel max : ℕ) (cs out : List ℕ)
    → AtSlash cs
    → length cs ≤ fuel
    → 2 + length out + length cs < max
    → 2 + length out + length cs ≤ max_path_len
    → (out' : List ℕ) × (resolve_loop fuel max cs out ≡ some out')
unfolding resolve_loop
resolve_loop_total fuel max [] out at enough lt le = (out, refl)
resolve_loop_total zero max (c ∷ cs) out at enough lt le = absurd (omega arith)
resolve_loop_total (suc fuel) max (c ∷ cs) out at enough lt le =
    let rest = skip_slashes (c ∷ cs) in
    let shorter = skip_slashes_shorter c cs at in
    let split = length-next_part rest in
    let f = add_part-Fits max (next_part rest).0 out (omega arith) (omega arith) in
    let b = f.bound in
    rw (f.done, resolve_loop)
      (resolve_loop_total fuel max (next_part rest).1 f.next (next_part-AtSlash rest) (omega arith)
        (omega arith) (omega arith))

drop-AtSlash : (n : ℕ) (cs : List ℕ) → get_or cs n 0 ≡ slash → AtSlash (drop n cs)
drop-AtSlash n [] h = absurd (omega arith)
drop-AtSlash zero (c ∷ cs) h = ground arith
drop-AtSlash (suc n) (c ∷ cs) h = drop-AtSlash n cs h

get_or_in_range : (cs : List ℕ) (i : ℕ) → 0 < get_or cs i 0 → i < length cs
get_or_in_range [] i h = absurd (omega arith)
get_or_in_range (c ∷ cs) zero h = omega arith
get_or_in_range (c ∷ cs) (suc i) h = omega (arith, get_or_in_range cs i h)

-- A working directory and a path within the limit, which join to an absolute path that has at most 108
-- bytes and fits in `max` with its terminator, are resolved.
pub pathparser_resolve_total :
    (cwd path : List ℕ) (max : ℕ)
    → 3 ≤ length cwd
    → length cwd ≤ max_path_len
    → length path ≤ max_path_len
    → get_or (join_paths cwd path) 2 0 ≡ slash
    → length (join_paths cwd path) < max
    → length (join_paths cwd path) ≤ max_path_len
    → (result : List ℕ) × (pathparser_resolve cwd path max ≡ some result)
unfolding pathparser_resolve
pathparser_resolve_total cwd path max drive cwd_fits path_fits at lt le =
    let joined = join_paths cwd path in
    let accepted : refused cwd path max ≡ false = ground arith in
    let len = length-drop 2 joined in
    let long : 2 < length joined = get_or_in_range joined 2 (omega arith) in
    let at_slash : (ltb max 4 || not (get_or joined 2 0 == slash)) ≡ false = ground arith in
    let (out, found) =
      resolve_loop_total (length joined) max (drop 2 joined) [] (drop-AtSlash 2 joined at)
        (omega arith) (omega arith) (omega arith) in
    (take 2 joined ++ or_root out, rw (accepted, at_slash, found) refl)
