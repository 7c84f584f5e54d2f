-- ===== src/Pipe/Write.antt =====
-- What a round of `pipe_write` of src/kernel/task/pipe.c adds to the stream.
use mo_os.Prelude.Word.{add32, sub32}
use mo_os.Prelude.{
  ℕ, zero, suc, ◌+◌, ◌-◌, ◌%◌, ◌≤◌, ◌<◌, ◌≡◌, refl, sym, ap, ap₂, ◌∙◌, ◌≢◌, ◌⊎◌, inl, inr, true,
  false, not, ◌&&◌, List, [], ◌∷◌, ◌++◌, append_assoc, append-nil, arith, ltb, ◌==◌, if◌then◌else◌,
  Bool-cases, length, set, take, drop, length-set, snoc-append, take-append-drop, length-drop,
}
use mo_os.Kernel.{Kernel, pipe_channel}
use mo_os.Ring.{window, window-set}
use mo_os.Task.{task_block_on, task_wake_channel}
use mo_os.Pipe.{
  pipe_size, killed_now, write_loop, write_round, Pipe, WriteOutcome, write_waits, write_killed,
  write_broken, write_done, write_on,
}
use mo_os.Pipe.Stream.{contents, IsPipe}

-- What the copy loop of `pipe_write` does with the first `n` bytes.
record Copied (n : ℕ) (bytes : List ℕ) (p : Pipe) (r : List ℕ × Pipe) : Type 0 where
  valid : IsPipe r.1
  rest : r.0 ≡ drop n bytes
  grown : contents r.1 ≡ contents p ++ take n bytes
  counted : r.1.count ≡ p.count + n

write_loop-Copied :
    (n : ℕ) (bytes : List ℕ) (p : Pipe)
    → IsPipe p
    → n + p.count ≤ pipe_size
    → n ≤ length bytes
    → Copied n bytes p (write_loop n bytes p)
unfolding write_loop
write_loop-Copied zero bytes p w room le = record {
  valid = w;
  rest = refl;
  grown = sym (append-nil (contents p));
  counted = omega arith;
}
write_loop-Copied (suc n) [] p w room le = absurd (omega arith)
write_loop-Copied (suc n) (b ∷ bytes) p w room le =
    let i = add32 p.head p.count % pipe_size in
    let one_more : add32 p.count 1 ≡ suc p.count = omega (arith, w.count_in) in
    let q : Pipe = record p { buffer = set p.buffer i b; count = add32 p.count 1 } in
    let added : contents q ≡ contents p ++ (b ∷ []) =
      ap (window pipe_size (set p.buffer i b) p.head) one_more
      ∙ window-set pipe_size p.buffer p.head p.count b i (omega (arith, w.storage)) (omega arith)
          (omega (arith, w.head_in)) in
    let ih =
      write_loop-Copied n bytes q
        (record {
          storage = length-set p.buffer i b ∙ w.storage;
          head_in = w.head_in;
          count_in = omega arith;
        })
        (omega arith) (omega arith) in
    record {
      valid = ih.valid;
      rest = ih.rest;
      grown =
          ih.grown ∙ ap (λ l. l ++ take n bytes) added ∙ snoc-append (contents p) b (take n bytes);
      counted = omega (arith, ih.counted);
    }

-- The outcomes of a round of `pipe_write`.
pub data Write (id : ℕ) (bytes : List ℕ) (p : Pipe) (k : Kernel)
    : WriteOutcome × Pipe × Kernel → Type 0 where
  finished : bytes ≡ [] → Write id bytes p k (write_done, p, k)
  blocks :
      p.count ≡ pipe_size
      → p.readers ≢ 0
      → killed_now k ≡ false
      → Write id bytes p k (write_waits, p, task_block_on (pipe_channel id) k)
  stops : killed_now k ≡ true → Write id bytes p k (write_killed, p, k)
  breaks : p.readers ≡ 0 → killed_now k ≡ false → Write id bytes p k (write_broken, p, k)
  wrote :
      (rest : List ℕ) (q : Pipe)
      → IsPipe q
      → contents q ++ rest ≡ contents p ++ bytes
      → length rest < length bytes
      → (rest ≡ []) ⊎ (q.count ≡ pipe_size)
      → killed_now k ≡ false
      → Write id bytes p k (write_on rest, q, task_wake_channel (pipe_channel id) k)

round_total :
    (left space : ℕ)
    → 0 < left
    → 0 < space
    → let t = if ltb left space then left else space in
      ((t ≤ left) × (t ≤ space)) × (0 < t) × ((t ≡ left) ⊎ (t ≡ space))
round_total left space pl ps = elim (Bool-cases (ltb left space)) [
  | inl h ↦ rw h (((omega arith), (ground arith)), pl, inl refl)
  | inr h ↦ rw h ((ground arith, omega arith), ps, inr refl)
]

drop_end : (t : ℕ) (l : List ℕ) → length l ≤ t → drop t l ≡ []
drop_end zero [] le = refl
drop_end (suc t) [] le = refl
drop_end zero (x ∷ l) le = absurd (omega arith)
drop_end (suc t) (x ∷ l) le = drop_end t l (omega arith)

-- A round of `pipe_write` appends the next bytes in their order, at least one, and stops only when all
-- are written or the pipe is full. It waits only on a full pipe that has readers; it fails when no
-- reader is left, and writes nothing when the task was killed.
pub write_round-Write :
    (id : ℕ) (bytes : List ℕ) (p : Pipe) (k : Kernel)
    → IsPipe p
    → Write id bytes p k (write_round id bytes p k)
unfolding write_round
write_round-Write id [] p k w = finished refl
write_round-Write id (b ∷ bytes) p k w =
    let left = length (b ∷ bytes) in
    let space = sub32 pipe_size p.count in
    let total = if ltb left space then left else space in
    elim (Bool-cases ((p.count == pipe_size) && ltb 0 p.readers && not (killed_now k))) [
      | inl h ↦ rw h (blocks (ground arith) (ground arith) (ground arith))
      | inr h ↦ elim (Bool-cases (killed_now k)) [
        | inl g ↦ rw (h, g) (stops g)
        | inr g ↦ elim (Bool-cases (p.readers == 0)) [
          | inl c ↦ rw (h, g, c) (breaks (ground arith) g)
          | inr c ↦
              let space_is : space ≡ pipe_size - p.count = omega (arith, w.count_in) in
              let room : p.count ≢ pipe_size = ground arith in
              let (fits, some_left, ends) =
                round_total left (pipe_size - p.count) (ground arith) (ground arith) in
              let total_is : total
                  ≡ (if ltb left (pipe_size - p.count) then left else pipe_size - p.count) =
                ap (λ (x : ℕ). if ltb left x then left else x) space_is in
              let done = write_loop-Copied total (b ∷ bytes) p w (omega arith) (omega arith) in
              rw (h, g, c)
                (wrote (write_loop total (b ∷ bytes) p).0 (write_loop total (b ∷ bytes) p).1
                  done.valid
                  (ap₂ (λ l m. l ++ m) done.grown done.rest
                    ∙ append_assoc (contents p) (take total (b ∷ bytes)) (drop total (b ∷ bytes))
                    ∙ ap (λ l. contents p ++ l) (take-append-drop total (b ∷ bytes)))
                  (shorter total (b ∷ bytes) done.rest (omega arith) (omega arith))
                  (all_or_full total (b ∷ bytes) done.rest done.counted ends total_is) g)
        ]
      ]
    ]
  where
    shorter :
        (t : ℕ) (l : List ℕ) {r : List ℕ}
        → r ≡ drop t l
        → 0 < t
        → 0 < length l
        → length r < length l
    shorter t l e pos more = omega (arith, ap length e, length-drop t l)

    all_or_full :
        (t : ℕ) (l : List ℕ) {r : List ℕ} {q : ℕ}
        → r ≡ drop t l
        → q ≡ p.count + t
        → ((if ltb (length l) (pipe_size - p.count) then length l else pipe_size - p.count)
            ≡ length l)
          ⊎ ((if ltb (length l) (pipe_size - p.count) then length l else pipe_size - p.count)
              ≡ pipe_size - p.count)
        → t ≡ (if ltb (length l) (pipe_size - p.count) then length l else pipe_size - p.count)
        → (r ≡ []) ⊎ (q ≡ pipe_size)
    all_or_full t l e f (inl all) g = inl (e ∙ drop_end t l (omega arith))
    all_or_full t l e f (inr full) g = inr (omega (arith, w.count_in))
