-- ===== src/Pipe/Tests.antt =====
-- A pipe with two bytes in it: the theorems at it.
use mo_os.Prelude.Status.{broken_pipe, err}
use mo_os.Prelude.{
  ℕ, suc, ◌≡◌, refl, ap, false, some, List, [], ◌∷◌, arith, length, replicate, length-replicate,
}
use mo_os.Kernel.{blank, Kernel, round_robin}
use mo_os.Ring.{window}
use mo_os.Pipe.{pipe_read, write_round, pipe_write_result, Pipe}
use mo_os.Pipe.Stream.{contents, IsPipe}
use mo_os.Pipe.Read.{pipe_read-Read, Read}
use mo_os.Pipe.Write.{write_round-Write, Write}

abbrev storage : List ℕ
storage = 0x61 ∷ 0x62 ∷ replicate 4094 0

length-storage : length storage ≡ 4096
length-storage = ap (λ (n : ℕ). suc (suc n)) (length-replicate {A = ℕ} 4094 0)

abbrev two_bytes : Pipe
two_bytes = record { buffer = storage; head = 0; count = 2; readers = 1; writers = 1 }

two_bytes-IsPipe : IsPipe two_bytes
two_bytes-IsPipe = record {
  storage = length-storage;
  head_in = omega arith;
  count_in = omega arith;
}

abbrev machine : Kernel
machine = record {
  tasks = replicate 16 blank;
  current = 1;
  idle = 0;
  init_thread = 1;
  next_pid = 2;
  policy = round_robin;
  need_resched = false;
  ticks = 0;
  locks = [];
}

holds : contents two_bytes ≡ 0x61 ∷ 0x62 ∷ []
unfolding window
holds = refl

pipe_read-Read_example : Read 1 two_bytes machine 7 (pipe_read 7 1 two_bytes machine)
pipe_read-Read_example = pipe_read-Read 7 1 two_bytes machine two_bytes-IsPipe

write_round-Write_example :
    Write 7 (0x63 ∷ []) two_bytes machine (write_round 7 (0x63 ∷ []) two_bytes machine)
write_round-Write_example = write_round-Write 7 (0x63 ∷ []) two_bytes machine two_bytes-IsPipe

-- A pipe that nobody reads takes nothing, and the write fails.
nobody_reads :
    pipe_write_result 0 (write_round 7 (0x63 ∷ []) (record two_bytes { readers = 0 }) machine).0
    ≡ some (err broken_pipe)
unfolding write_round
nobody_reads = refl
