-- ===== src/Pipe/Read.antt =====
-- What `pipe_read` of src/kernel/task/pipe.c takes from the stream.
use mo_os.Prelude.Word.{sub32}
use mo_os.Prelude.{
  ℕ, zero, suc, ◌+◌, ◌-◌, ◌%◌, ◌≤◌, ◌<◌, ◌≡◌, refl, sym, ap, ap₂, ◌∙◌, ◌≢◌, ◌⊎◌, inl, inr, true,
  false, not, ◌&&◌, List, [], ◌∷◌, arith, ltb, ◌==◌, if◌then◌else◌, Bool-cases, length, get_or,
  take, drop,
}
use mo_os.Kernel.{Kernel, pipe_channel}
use mo_os.Ring.{window, length-window, window_congruent, window-split}
use mo_os.Task.{task_block_on, task_wake_channel}
use mo_os.Pipe.{
  pipe_size, killed_now, read_loop, pipe_read, Pipe, ReadOutcome, read_waits, read_killed, received,
}
use mo_os.Pipe.Stream.{contents, IsPipe}

read_loop-window :
    (n : ℕ) (buf : List ℕ) (h : ℕ)
    → h < pipe_size
    → ((read_loop n buf h).0 ≡ window pipe_size buf h n)
      × ((read_loop n buf h).1 ≡ (h + n) % pipe_size)
unfolding read_loop window
read_loop-window zero buf h lt = (refl, omega arith)
read_loop-window (suc n) buf h lt =
    let (bytes, end) = read_loop-window n buf ((h + 1) % pipe_size) (omega arith) in
    (
      ap₂ (λ (i : ℕ) l. get_or buf i 0 ∷ l) (omega arith)
          (bytes ∙ window_congruent pipe_size buf ((h + 1) % pipe_size) (h + 1) n (omega arith)),
      omega (arith, end),
    )

-- The outcomes of `pipe_read`, with a request for `len` bytes.
pub data Read (len : ℕ) (p : Pipe) (k : Kernel) (id : ℕ)
    : ReadOutcome × Pipe × Kernel → Type 0 where
  waits :
      contents p ≡ []
      → p.writers ≢ 0
      → killed_now k ≡ false
      → Read len p k id (read_waits, p, task_block_on (pipe_channel id) k)
  gives_up : killed_now k ≡ true → Read len p k id (read_killed, p, k)
  took :
      (q : Pipe)
      → IsPipe q
      → contents q ≡ drop len (contents p)
      → killed_now k ≡ false
      → (p.writers ≡ 0) ⊎ (p.count ≢ 0)
      → (q.readers ≡ p.readers) × (q.writers ≡ p.writers)
      → Read len p k id (received (take len (contents p)), q, task_wake_channel (pipe_channel id) k)

take_all : (t len : ℕ) (l : List ℕ) → length l ≤ t → length l ≤ len → take t l ≡ take len l
take_all t len [] a b = rw (take_none t, take_none len)
  where
    take_none : (n : ℕ) → take {A = ℕ} n [] ≡ []
    take_none zero = refl
    take_none (suc n) = refl
take_all zero len (x ∷ l) a b = absurd (omega arith)
take_all (suc t) zero (x ∷ l) a b = absurd (omega arith)
take_all (suc t) (suc len) (x ∷ l) a b =
    ap (λ m. x ∷ m) (take_all t len l (omega arith) (omega arith))

drop_all : (t len : ℕ) (l : List ℕ) → length l ≤ t → length l ≤ len → drop t l ≡ drop len l
drop_all t len [] a b = rw (drop_none t, drop_none len)
  where
    drop_none : (n : ℕ) → drop {A = ℕ} n [] ≡ []
    drop_none zero = refl
    drop_none (suc n) = refl
drop_all zero len (x ∷ l) a b = absurd (omega arith)
drop_all (suc t) zero (x ∷ l) a b = absurd (omega arith)
drop_all (suc t) (suc len) (x ∷ l) a b = drop_all t len l (omega arith) (omega arith)

-- A request for more than is there takes all there is.
abbrev total_of : ℕ → Pipe → ℕ
total_of len p = if ltb len p.count then len else p.count

total_of_split :
    (len : ℕ) (p : Pipe)
    → (total_of len p ≤ p.count)
      × (take (total_of len p) (contents p) ≡ take len (contents p))
      × (drop (total_of len p) (contents p) ≡ drop len (contents p))
total_of_split len p = elim (Bool-cases (ltb len p.count)) [
  | inl h ↦ rw h (ground arith, refl, refl)
  | inr h ↦
      let size = length-window pipe_size p.buffer p.head p.count in
      let over : p.count ≤ len = ground arith in
      rw h (
        omega arith,
        take_all p.count len (contents p) (omega (arith, size)) (omega (arith, size)),
        drop_all p.count len (contents p) (omega (arith, size)) (omega (arith, size)),
      )
]

-- `pipe_read` takes the first `len` bytes of the stream, or all when there are fewer, and leaves the
-- others in their order. It waits only on an empty pipe that has writers, and takes nothing when the
-- task was killed.
pub pipe_read-Read :
    (id len : ℕ) (p : Pipe) (k : Kernel) → IsPipe p → Read len p k id (pipe_read id len p k)
unfolding pipe_read
pipe_read-Read id len p k w =
    let (le, front, back) = total_of_split len p in
    let (bytes, end) = read_loop-window (total_of len p) p.buffer p.head w.head_in in
    let (window_front, window_back) =
      window-split pipe_size p.buffer p.head (total_of len p) p.count le in
    elim (Bool-cases ((p.count == 0) && ltb 0 p.writers && not (killed_now k))) [
      | inl h ↦
          let none_left : p.count ≡ 0 = ground arith in
          rw h (
            waits (ap (window pipe_size p.buffer p.head) none_left ∙ unfold window in refl)
              (ground arith) (ground arith))
      | inr h ↦ elim (Bool-cases (killed_now k)) [
        | inl g ↦ rw (h, g) (gives_up g)
        | inr g ↦
            let q : Pipe = record p {
              head = (read_loop (total_of len p) p.buffer p.head).1;
              count = sub32 p.count (total_of len p);
            } in
            let left : sub32 p.count (total_of len p) ≡ p.count - total_of len p =
              omega (arith, w.count_in) in
            let kept : contents q ≡ drop len (contents p) =
              ap₂ (window pipe_size p.buffer) end left
              ∙ window_congruent pipe_size p.buffer ((p.head + total_of len p) % pipe_size)
                  (p.head + total_of len p) (p.count - total_of len p) (omega arith)
              ∙ sym window_back
              ∙ back in
            let given : (read_loop (total_of len p) p.buffer p.head).0 ≡ take len (contents p) =
              bytes ∙ sym window_front ∙ front in
            rw (h, g, given)
              (took q
                (record {
                  storage = w.storage;
                  head_in = omega (arith, end);
                  count_in = omega (arith, w.count_in);
                })
                kept g (ground arith) (refl, refl))
      ]
    ]
