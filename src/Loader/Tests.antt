-- ===== src/Loader/Tests.antt =====
-- A program of six bytes in a segment of twenty, and its load.
use mathlib.Core.Path.{subst}
use mo_os.Prelude.{
  ℕ, ◌+◌, ◌≤◌, ◌<◌, ◌≡◌, refl, ap, inl, inr, Bool, true, false, ◌&&◌, some, List, [], ◌∷◌, arith,
  ltb, ltb→lt, Bool-cases, take,
}
use mo_os.Prelude.Status.{invalid_arg, ok, err}
use mo_os.Kernel.{blank}
use mo_os.Task.{user_code_addr, user_heap_limit}
use mo_os.Task.User.{HasHeap}
use mo_os.Loader.{file_window, Copy, segment_loop, elf_load, set_image}
use mo_os.Loader.Safe.{AllBytes, Loaded, elf_load-Fine}
use mo_os.Loader.HeapStart.{elf_load-HasHeap}

abbrev program : List ℕ
program =
    127 ∷ 69 ∷ 76 ∷ 70 ∷ 1 ∷ 1 ∷ 0 ∷ 0 ∷ 0 ∷ 0 ∷ 0 ∷ 0 ∷ 0 ∷ 0 ∷ 0 ∷ 0 ∷ 2 ∷ 0 ∷ 3 ∷ 0 ∷ 1 ∷ 0 ∷ 0
    ∷ 0 ∷ 4 ∷ 0 ∷ 0 ∷ 64 ∷ 52 ∷ 0 ∷ 0 ∷ 0 ∷ 0 ∷ 0 ∷ 0 ∷ 0 ∷ 0 ∷ 0 ∷ 0 ∷ 0 ∷ 52 ∷ 0 ∷ 32 ∷ 0 ∷ 1 ∷ 0
    ∷ 0 ∷ 0 ∷ 0 ∷ 0 ∷ 0 ∷ 0 ∷ 1 ∷ 0 ∷ 0 ∷ 0 ∷ 84 ∷ 0 ∷ 0 ∷ 0 ∷ 0 ∷ 0 ∷ 0 ∷ 64 ∷ 0 ∷ 0 ∷ 0 ∷ 64 ∷ 6
    ∷ 0 ∷ 0 ∷ 0 ∷ 20 ∷ 0 ∷ 0 ∷ 0 ∷ 7 ∷ 0 ∷ 0 ∷ 0 ∷ 0 ∷ 16 ∷ 0 ∷ 0 ∷ 144 ∷ 144 ∷ 144 ∷ 144 ∷ 144
    ∷ 195 ∷ []

abbrev all_below : List ℕ → Bool
all_below [] = true
all_below (b ∷ bs) = ltb b 256 && all_below bs

false_and : (b : Bool) → (false && b) ≡ true → ⊥
false_and b h = cc

all_bytes : (bs : List ℕ) → all_below bs ≡ true → AllBytes bs
all_bytes [] h = tt
all_bytes (b ∷ bs) h = elim (Bool-cases (ltb b 256)) [
  | inl lt ↦ (ltb→lt b 256 lt, all_bytes bs (subst (λ c. (c && all_below bs) ≡ true) lt h))
  | inr ge ↦ absurd (false_and (all_below bs) (subst (λ c. (c && all_below bs) ≡ true) ge h))
]

-- The copies that were asked for, the latest first.
abbrev Copies : Type 0
Copies = List (ℕ × ℕ)

abbrev record_copy : Copy Copies
record_copy vaddr src len writable copies = (ok tt, (vaddr, len) ∷ copies)

abbrev InRange : Copies → Type 0
InRange [] = Unit {0}
InRange ((vaddr, len) ∷ copies) =
    (user_code_addr ≤ vaddr) × (vaddr + len ≤ user_heap_limit) × InRange copies

run_program :
    elf_load record_copy program user_code_addr user_heap_limit []
    ≡ (some (ok (0x40000004, 0x40000014)), (0x40000006, 14) ∷ (0x40000000, 6) ∷ [])
unfolding elf_load segment_loop file_window
run_program = refl

-- A file that ends in its table of program headers is refused.
run_short :
    elf_load record_copy (take 83 program) user_code_addr user_heap_limit []
    ≡ (some (err invalid_arg), [])
unfolding elf_load segment_loop file_window
run_short = refl

elf_load-Fine_example :
    InRange (elf_load record_copy program user_code_addr user_heap_limit []).1
    × Loaded user_code_addr user_heap_limit
        (elf_load record_copy program user_code_addr user_heap_limit []).0
elf_load-Fine_example =
    elf_load-Fine record_copy InRange program user_code_addr user_heap_limit
      (all_bytes program refl) (omega arith) (omega arith) (λ v src len w s a b i p. (a, b, p)) []
      tt (omega arith)

elf_load-HasHeap_example :
    HasHeap (set_image 0x40000014 blank)
    × (0x40000014 ≤ (set_image 0x40000014 blank).brk_start)
    × (0x40000004 < 0x40000014)
elf_load-HasHeap_example =
    elf_load-HasHeap record_copy program [] blank 0x40000004 0x40000014 (all_bytes program refl)
      (omega arith) (ap (λ r. r.0) run_program)
