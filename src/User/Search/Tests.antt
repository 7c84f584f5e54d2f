-- ===== src/User/Search/Tests.antt =====
-- A search for 7 in 1, 4, 7, 10 and 13.
use mo_os.Prelude.{ℕ, ◌+◌, ◌*◌, ◌≡◌, refl, none, some, arith, ltb, ◌==◌, if◌then◌else◌}
use mo_os.Libc.{Sign, less, same, greater}
use mo_os.User.Search.{search_loop, bsearch}
use mo_os.User.Search.Ordered.{bsearch-SearchResult, SearchResult, IsOrdered}

abbrev with_key : ℕ → ℕ → Sign
with_key key x = if ltb key x then less else if key == x then same else greater

abbrev in_steps : ℕ → ℕ
in_steps i = 3 * i + 1

in_steps-IsOrdered : IsOrdered (with_key 7) in_steps 5
in_steps-IsOrdered = record {
  below = λ i j le lt e. ground arith;
  above = λ i j le lt e. ground arith;
}

run_bsearch : bsearch (with_key 7) in_steps 5 ≡ some 2
unfolding bsearch search_loop
run_bsearch = refl

run_missing : bsearch (with_key 8) in_steps 5 ≡ none
unfolding bsearch search_loop
run_missing = refl

bsearch-SearchResult_example :
    SearchResult (with_key 7) in_steps 5 (bsearch (with_key 7) in_steps 5)
bsearch-SearchResult_example =
    bsearch-SearchResult (with_key 7) in_steps 5 in_steps-IsOrdered (omega arith)
