-- ===== src/User/Shell/Descriptors.antt =====
-- The descriptors that sh_run_pipeline of src/user/sh.c opens.
use mathlib.Core.Path.{subst}
use mo_os.Prelude.{
  ℕ, zero, suc, ◌+◌, ◌≡◌, refl, sym, inl, inr, Bool, true, false, Option, none, some, List, [], ◌∷◌,
  ◌++◌, append-nil, add-one, ◌==◌, if◌then◌else◌, Bool-cases, Option-cases, length,
}
use mo_os.User.Shell.Pipeline.{Word, Pipeline}
use mo_os.User.Shell.Launch.{
  close_fd, close_output, start_last, start_piped, stage_loop, wait_loop, all_found, run_stages,
  with_output, with_input, sh_run_pipeline, Mode, Answers, Event, read_mode, write_mode,
  append_mode, opened, closed, started, waited,
}

abbrev pub Holds : List ℕ → Option ℕ → Type 0
Holds now none = Unit
Holds now (some fd) = (a : List ℕ) × (b : List ℕ) × (now ≡ a ++ fd ∷ b)

-- With these descriptors open, in any order: none is closed that is not open, a program starts with now ones only, and
-- in the end `P` holds of what is open.
abbrev pub Held : (List ℕ → Type 0) → List ℕ → List Event → Type 0
Held P now [] = P now
Held P now (opened fd ∷ events) =
    (a : List ℕ) × (b : List ℕ) × (now ≡ a ++ b) × Held P (a ++ fd ∷ b) events
Held P now (closed fd ∷ events) =
    (a : List ℕ) × (b : List ℕ) × (now ≡ a ++ fd ∷ b) × Held P (a ++ b) events
Held P now (started i input output ∷ events) =
    Holds now input × Holds now output × Held P now events
Held P now (waited i ∷ events) = Held P now events

-- The kernel gives no descriptor to a pipe that a file has.
abbrev pub Fresh : Answers → Type 0
Fresh kernel =
    (name : Word) (mode : Mode) (fd i reader writer : ℕ)
    → kernel.opens name mode ≡ some fd
    → kernel.pipes i ≡ some (reader, writer)
    → (writer == fd) ≡ false

Held-++ :
    (P Q : List ℕ → Type 0) (now : List ℕ) (xs ys : List Event)
    → Held Q now xs
    → ((later : List ℕ) → Q later → Held P later ys)
    → Held P now (xs ++ ys)
Held-++ P Q now [] ys h f = f now h
Held-++ P Q now (opened fd ∷ xs) ys (a, b, e, h) f = (a, b, e, Held-++ P Q (a ++ fd ∷ b) xs ys h f)
Held-++ P Q now (closed fd ∷ xs) ys (a, b, e, h) f = (a, b, e, Held-++ P Q (a ++ b) xs ys h f)
Held-++ P Q now (started i input output ∷ xs) ys (r, w, h) f = (r, w, Held-++ P Q now xs ys h f)
Held-++ P Q now (waited i ∷ xs) ys h f = Held-++ P Q now xs ys h f

-- The descriptors of an optional file.
abbrev held : Option ℕ → List ℕ
held none = []
held (some fd) = fd ∷ []

abbrev pub Nothing : List ℕ → Type 0
Nothing now = now ≡ []

abbrev Only : Option ℕ → List ℕ → Type 0
Only output now = now ≡ held output

-- No pipe takes the descriptor of the output.
abbrev Apart : Answers → Option ℕ → Type 0
Apart kernel output =
    (i reader writer : ℕ)
    → kernel.pipes i ≡ some (reader, writer)
    → close_output output writer ≡ closed writer ∷ []

last-Held :
    (output : Option ℕ) (i : ℕ) (input : Option ℕ)
    → Held (Only output) (held input ++ held output) (start_last output i input)
last-Held none i none = (tt, tt, refl)
last-Held none i (some fd) = (([], [], refl), tt, ([], [], refl, refl))
last-Held (some out) i none = (tt, ([], [], refl), refl)
last-Held (some out) i (some fd) =
    (([], out ∷ [], refl), (fd ∷ [], [], refl), ([], out ∷ [], refl, refl))

abbrev Both : ℕ → Option ℕ → List ℕ → Type 0
Both reader output now = now ≡ reader ∷ held output

piped-Held :
    (output : Option ℕ) (i : ℕ) (input : Option ℕ) (reader writer : ℕ)
    → close_output output writer ≡ closed writer ∷ []
    → Held
        (Both reader output)
        (held input ++ held output)
        (start_piped output i input reader writer)
piped-Held output i none reader writer e = rw e (
  [],
  held output,
  refl,
  (
    [],
    reader ∷ held output,
    refl,
    (tt, ([], reader ∷ held output, refl), ([], reader ∷ held output, refl, refl)),
  ),
)
piped-Held output i (some fd) reader writer e = rw e (
  [],
  fd ∷ held output,
  refl,
  (
    [],
    reader ∷ fd ∷ held output,
    refl,
    (
      (writer ∷ reader ∷ [], held output, refl),
      ([], reader ∷ fd ∷ held output, refl),
      (writer ∷ reader ∷ [], held output, refl, ([], reader ∷ held output, refl, refl)),
    ),
  ),
)

stage_loop-Held :
    (kernel : Answers) (output : Option ℕ) (left i : ℕ) (input : Option ℕ)
    → Apart kernel output
    → Held (Only output) (held input ++ held output) (stage_loop kernel output (suc left) i input)
unfolding stage_loop
stage_loop-Held kernel output zero i input apart = last-Held output i input
stage_loop-Held kernel output (suc left) i input apart = elim (Option-cases (kernel.pipes i)) [
  | inl none_left ↦
      let rest = stage_loop kernel output (suc left) (suc i) none in
      rw (none_left, stage_loop)
        (Held-++ (Only output) (Only output) (held input ++ held output) (start_last output i input)
          rest (last-Held output i input)
          (λ later e.
            subst (λ o. Held (Only output) o rest) (sym e)
              (stage_loop-Held kernel output left (suc i) none apart)))
  | inr ((reader, writer), found) ↦
      let rest = stage_loop kernel output (suc left) (suc i) (some reader) in
      rw (found, stage_loop)
        (Held-++ (Only output) (Both reader output) (held input ++ held output)
          (start_piped output i input reader writer) rest
          (piped-Held output i input reader writer (apart i reader writer found))
          (λ later e.
            subst (λ o. Held (Only output) o rest) (sym e)
              (stage_loop-Held kernel output left (suc i) (some reader) apart)))
]

wait_loop-Held : (kernel : Answers) (left i : ℕ) → Held Nothing [] (wait_loop kernel left i)
wait_loop-Held kernel zero i = refl
wait_loop-Held kernel (suc left) i = elim (Bool-cases (kernel.starts i)) [
  | inl h ↦ rw h (wait_loop-Held kernel left (suc i))
  | inr h ↦ rw h (wait_loop-Held kernel left (suc i))
]

ending-Held :
    (kernel : Answers) (output : Option ℕ) (count : ℕ) (background : Bool)
    → Held Nothing
        (held output)
        (close_fd output ++ (if background then [] else wait_loop kernel count 0))
ending-Held kernel none count true = refl
ending-Held kernel none count false = wait_loop-Held kernel count 0
ending-Held kernel (some fd) count true = ([], [], refl, refl)
ending-Held kernel (some fd) count false = ([], [], refl, wait_loop-Held kernel count 0)

run_stages-Held :
    (kernel : Answers) (input output : Option ℕ) (left : ℕ) (background : Bool)
    → Apart kernel output
    → Held Nothing
        (held input ++ held output)
        (run_stages kernel input output (left + 1) background)
run_stages-Held kernel input output left background apart =
    let ending = close_fd output ++ (if background then [] else wait_loop kernel (suc left) 0) in
    rw (add-one left) (
      Held-++ Nothing (Only output) (held input ++ held output)
        (stage_loop kernel output (suc left) 0 input) ending
        (stage_loop-Held kernel output left 0 input apart)
        (λ later e.
          subst (λ o. Held Nothing o ending) (sym e)
            (ending-Held kernel output (suc left) background)))

close_fd-Held : (input : Option ℕ) → Held Nothing (held input) (close_fd input)
close_fd-Held none = refl
close_fd-Held (some fd) = ([], [], refl, refl)

with_output-Held :
    (kernel : Answers) (input : Option ℕ) (p : Pipeline)
    → Fresh kernel
    → Held Nothing (held input) (with_output kernel input p)
with_output-Held kernel input p fresh = elim (Option-cases p.output) [
  | inl h ↦ rw h (
      subst
        (λ now.
          Held Nothing now (run_stages kernel input none (length p.complete + 1) p.background))
        (append-nil (held input))
        (run_stages-Held kernel input none (length p.complete) p.background (λ i r w e. refl)))
  | inr (name, h) ↦
      let mode = if p.append then append_mode else write_mode in
      elim (Option-cases (kernel.opens name mode)) [
        | inl failed ↦ rw h (rw (failed, with_output) (close_fd-Held input))
        | inr (fd, is_open) ↦ rw h (
            rw (is_open, with_output)
              (
                held input,
                [],
                sym (append-nil (held input)),
                run_stages-Held kernel input (some fd) (length p.complete) p.background
                    (λ i r w e. rw (fresh name mode fd i r w is_open e) refl),
              ))
      ]
]

with_input-Held :
    (kernel : Answers) (p : Pipeline) → Fresh kernel → Held Nothing [] (with_input kernel p)
with_input-Held kernel p fresh = elim (Option-cases p.input) [
  | inl h ↦ rw h (with_output-Held kernel none p fresh)
  | inr (name, h) ↦ elim (Option-cases (kernel.opens name read_mode)) [
    | inl failed ↦ rw h (rw (failed, with_input) refl)
    | inr (fd, is_open) ↦
        rw h (rw (is_open, with_input) ([], [], refl, with_output-Held kernel (some fd) p fresh))
  ]
]

-- If the kernel gives no pipe the descriptor of an open file, then of the descriptors that
-- `sh_run_pipeline` opens each is closed again exactly once, none is closed that is not open, and every
-- program starts with descriptors that are open, whatever fails on the way.
pub sh_run_pipeline-Held :
    (kernel : Answers) (p : Pipeline) → Fresh kernel → Held Nothing [] (sh_run_pipeline kernel p)
sh_run_pipeline-Held kernel p fresh =
    elim (Bool-cases (all_found kernel (p.complete ++ p.stage ∷ []))) [
      | inl h ↦ rw h (with_input-Held kernel p fresh)
      | inr h ↦ rw h refl
    ]
