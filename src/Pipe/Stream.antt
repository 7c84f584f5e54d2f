-- ===== src/Pipe/Stream.antt =====
-- The pipes of src/kernel/task/pipe.c as streams of bytes.
use mo_os.Prelude.{ℕ, ◌≤◌, ◌<◌, ◌≡◌, List, length}
use mo_os.Ring.{window}
use mo_os.Pipe.{pipe_size, Pipe}

pub record IsPipe (p : Pipe) : Type 0 where
  pub storage : length p.buffer ≡ pipe_size
  pub head_in : p.head < pipe_size
  pub count_in : p.count ≤ pipe_size

-- The bytes that are buffered, oldest first.
abbrev pub contents : Pipe → List ℕ
contents p = window pipe_size p.buffer p.head p.count
