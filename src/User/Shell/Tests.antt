-- ===== src/User/Shell/Tests.antt =====
-- The theorems on the shell at concrete lines, and some lines run.
use mo_os.Prelude.{
  ℕ, ◌≡◌, refl, sym, ap, inl, true, false, none, some, List, [], ◌∷◌, ◌++◌, arith, eq_of_some,
}
use mo_os.User.Format.Number.{atoi_loop, skip_spaces, atoi}
use mo_os.User.Shell.{read_word, token_loop, sh_tokenize}
use mo_os.User.Shell.Pipeline.{empty_pipeline, parse_loop, sh_parse, Pipeline, invalid_pipe}
use mo_os.User.Shell.Tokens.{sh_tokenize-Stored, Stored}
use mo_os.User.Shell.Parse.{IsPipeline, Sound, sh_parse-IsPipeline}
use mo_os.User.Shell.RoundTrip.{words_of}
use mo_os.User.Shell.Line.{line_of, AllUnquoted}
use mo_os.User.Shell.Execute.{prefix_loop, sh_execute_line, refuse, run_pipeline}
use mo_os.User.Shell.Prefix.{prefix_words, sh_execute_line-line_of, Prefix, Acts, prioritized}
use mo_os.User.Shell.Launch.{
  stage_loop, sh_run_pipeline, Answers, read_mode, write_mode, append_mode, opened, closed, started,
}
use mo_os.User.Shell.Descriptors.{Held, Fresh, Nothing, sh_run_pipeline-Held}

-- a>>b
abbrev no_spaces : List ℕ
no_spaces = b'a' ∷ b'>' ∷ b'>' ∷ b'b' ∷ []

run_no_spaces :
    sh_execute_line no_spaces
    ≡ run_pipeline
        (record empty_pipeline {
          stage = (b'a' ∷ []) ∷ [];
          output = some (b'b' ∷ []);
          append = true;
        })
        10
unfolding token_loop read_word parse_loop prefix_loop
run_no_spaces = refl

-- The quotes are gone when sh_parse sees the word: "|" is a pipe.
run_quoted_bar : sh_execute_line (b'a' ∷ b' ' ∷ b'"' ∷ b'|' ∷ b'"' ∷ []) ≡ refuse invalid_pipe
unfolding token_loop read_word parse_loop prefix_loop
run_quoted_bar = refl

sh_tokenize-Stored_example :
    (token_loop 9 no_spaces 128 ≡ sh_tokenize no_spaces 128)
    × Stored 128 no_spaces (sh_tokenize no_spaces 128)
sh_tokenize-Stored_example = sh_tokenize-Stored 9 no_spaces 128 (omega arith)

sh_parse-IsPipeline_example :
    Sound IsPipeline (sh_parse ((b'a' ∷ []) ∷ (b'|' ∷ []) ∷ (b'b' ∷ []) ∷ []))
sh_parse-IsPipeline_example = sh_parse-IsPipeline ((b'a' ∷ []) ∷ (b'|' ∷ []) ∷ (b'b' ∷ []) ∷ [])

-- ls "a b" < i | wc > o &
abbrev two_stages : Pipeline
two_stages = record {
  complete = ((b'l' ∷ b's' ∷ []) ∷ (b'a' ∷ b' ' ∷ b'b' ∷ []) ∷ []) ∷ [];
  stage = (b'w' ∷ b'c' ∷ []) ∷ [];
  input = some (b'i' ∷ []);
  output = some (b'o' ∷ []);
  append = false;
  background = true;
}

two_stages-IsPipeline : IsPipeline two_stages
two_stages-IsPipeline = (
  (
    omega arith,
    omega arith,
    (refl, tt),
    ((omega arith, omega arith, (refl, (refl, tt))), tt),
    refl,
    refl,
    inl refl,
  ),
  omega arith,
)

abbrev with_priority : Prefix
with_priority = prioritized (b'1' ∷ b'2' ∷ [])

unquoted : AllUnquoted (prefix_words with_priority ++ words_of two_stages)
unquoted = (
  (refl, (refl, (refl, (refl, tt)))),
  (
    (refl, (refl, tt)),
    (
      (refl, tt),
      (
        (refl, tt),
        (
          (refl, (refl, tt)),
          (
            (refl, (refl, (refl, tt))),
            ((refl, tt), ((refl, (refl, tt)), ((refl, tt), ((refl, tt), ((refl, tt), tt))))),
          ),
        ),
      ),
    ),
  ),
)

sh_execute_line-line_of_example :
    Acts two_stages with_priority
      (sh_execute_line (line_of (prefix_words with_priority ++ words_of two_stages)))
unfolding atoi atoi_loop skip_spaces
sh_execute_line-line_of_example =
    sh_execute_line-line_of with_priority two_stages two_stages-IsPipeline unquoted (omega arith)
      refl refl

-- The pipe of the two programs works, and both files are there.
abbrev kernel : Answers
kernel = record {
  finds = λ name. true;
  opens = λ name mode. elim mode [ read_mode ↦ some 3 | _ ↦ some 4 ];
  pipes = λ i. some (5, 6);
  starts = λ i. true;
}

writer_of : {reader writer : ℕ} → kernel.pipes 0 ≡ some (reader, writer) → 6 ≡ writer
writer_of {reader} {writer} e = ap (λ o. elim o [ none ↦ 6 | some p ↦ p.1 ]) e

kernel-Fresh : Fresh kernel
kernel-Fresh name read_mode fd i reader writer e e' =
    rw (sym (eq_of_some 3 fd e), sym (writer_of e')) refl
kernel-Fresh name write_mode fd i reader writer e e' =
    rw (sym (eq_of_some 4 fd e), sym (writer_of e')) refl
kernel-Fresh name append_mode fd i reader writer e e' =
    rw (sym (eq_of_some 4 fd e), sym (writer_of e')) refl

sh_run_pipeline-Held_example : Held Nothing [] (sh_run_pipeline kernel two_stages)
sh_run_pipeline-Held_example = sh_run_pipeline-Held kernel two_stages kernel-Fresh

run_two_stages :
    sh_run_pipeline kernel two_stages
    ≡ opened 3
      ∷ opened 4
      ∷ opened 5
      ∷ opened 6
      ∷ started 0 (some 3) (some 6)
      ∷ closed 3
      ∷ closed 6
      ∷ started 1 (some 5) (some 4)
      ∷ closed 5
      ∷ closed 4
      ∷ []
unfolding stage_loop
run_two_stages = refl

-- With no pipe to be had, the first program writes to the file too.
run_no_pipe :
    sh_run_pipeline (record kernel { pipes = λ i. none }) two_stages
    ≡ opened 3
      ∷ opened 4
      ∷ started 0 (some 3) (some 4)
      ∷ closed 3
      ∷ started 1 none (some 4)
      ∷ closed 4
      ∷ []
unfolding stage_loop
run_no_pipe = refl
