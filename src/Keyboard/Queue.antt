-- ===== src/Keyboard/Queue.antt =====
-- The two rings of src/drivers/keyboard/keyboard.c as queues.
use mo_os.Prelude.{
  ℕ, suc, ◌+◌, ◌-◌, ◌%◌, ◌<◌, ◌≡◌, refl, sym, ap, ap₂, ◌∙◌, inl, inr, true, false, Option, none,
  some, List, [], ◌∷◌, ◌++◌, arith, ltb, ◌==◌, if◌then◌else◌, Bool-cases, length, get_or, set, drop,
  length-set,
}
use mo_os.Ring.{window, length-window, window_congruent, window-set, window-split}
use mo_os.Keyboard.{ring_size, next_slot, buffer_push, event_push, ring_get, KeyRing}

pub record IsRing (r : KeyRing) : Type 0 where
  pub storage : length r.slots ≡ ring_size
  pub head_in : r.head < ring_size
  pub tail_in : r.tail < ring_size

abbrev pub pending : KeyRing → ℕ
pending r = (r.head + ring_size - r.tail) % ring_size

-- What the ring holds, oldest first.
abbrev pub queued : KeyRing → List ℕ
queued r = window ring_size r.slots r.tail (pending r)

-- `buffer_push` appends the character when fewer than 127 are queued, and else drops it.
pub queued-buffer_push :
    (c : ℕ) (r : KeyRing)
    → IsRing r
    → IsRing (buffer_push c r)
      × (queued (buffer_push c r)
          ≡ (if ltb (length (queued r)) 127 then queued r ++ (c ∷ []) else queued r))
unfolding buffer_push
queued-buffer_push c r w =
    let len = length-window ring_size r.slots r.tail (pending r) in
    elim (Bool-cases (next_slot r.head == r.tail)) [
      | inl h ↦
          let full : ltb (length (queued r)) 127 ≡ false = ground arith in rw (h, full) (w, refl)
      | inr h ↦
          let room : ltb (length (queued r)) 127 ≡ true = ground arith in
          let one_more : (next_slot r.head + ring_size - r.tail) % ring_size ≡ suc (pending r) =
            ground arith in
          rw (h, room)
            (
              record {
                storage = length-set r.slots r.head c ∙ w.storage;
                head_in = omega arith;
                tail_in = w.tail_in;
              },
              ap (window ring_size (set r.slots r.head c) r.tail) one_more
                  ∙ window-set ring_size r.slots r.tail (pending r) c r.head
                      (omega (arith, w.storage)) (omega arith)
                      (omega (arith, w.head_in, w.tail_in)),
            )
    ]

-- `event_push` appends the event, and drops the oldest one first when 127 are queued.
pub queued-event_push :
    (e : ℕ) (r : KeyRing)
    → IsRing r
    → IsRing (event_push e r)
      × (queued (event_push e r)
          ≡ (if ltb (length (queued r)) 127 then queued r else drop 1 (queued r)) ++ (e ∷ []))
unfolding event_push
queued-event_push e r w =
    let len = length-window ring_size r.slots r.tail (pending r) in
    let stored : length (set r.slots r.head e) ≡ ring_size =
      length-set r.slots r.head e ∙ w.storage in
    let behind =
      window-set ring_size r.slots r.tail (pending r) e r.head (omega (arith, w.storage))
        (omega arith) (omega (arith, w.head_in, w.tail_in)) in
    elim (Bool-cases (next_slot r.head == r.tail)) [
      | inl h ↦
          let full : ltb (length (queued r)) 127 ≡ false = ground arith in
          let pend : pending r ≡ 127 = ground arith in
          let still : (next_slot r.head + ring_size - next_slot r.tail) % ring_size ≡ 127 =
            ground arith in
          let cut = window-split ring_size r.slots r.tail 1 (pending r) (omega arith) in
          rw (h, full)
            (
              record { storage = stored; head_in = omega arith; tail_in = omega arith },
              ap (window ring_size (set r.slots r.head e) (next_slot r.tail)) still
                  ∙ window-set ring_size r.slots (next_slot r.tail) 126 e r.head
                      (omega (arith, w.storage)) (omega arith)
                      (omega (arith, w.head_in, w.tail_in, pend))
                  ∙ ap (λ l. l ++ (e ∷ []))
                      (sym (
                        cut.1
                        ∙ ap (window ring_size r.slots (r.tail + 1)) (omega (arith, pend))
                        ∙ window_congruent ring_size r.slots (r.tail + 1) (next_slot r.tail) 126
                            (omega arith))),
            )
      | inr h ↦
          let room : ltb (length (queued r)) 127 ≡ true = ground arith in
          let one_more : (next_slot r.head + ring_size - r.tail) % ring_size ≡ suc (pending r) =
            ground arith in
          rw (h, room)
            (
              record { storage = stored; head_in = omega arith; tail_in = w.tail_in },
              ap (window ring_size (set r.slots r.head e) r.tail) one_more ∙ behind,
            )
    ]

-- A read takes the oldest item, or none when nothing is queued.
pub data Got (r : KeyRing) : Option ℕ × KeyRing → Type 0 where
  nothing : queued r ≡ [] → Got r (none, r)
  oldest : (c : ℕ) (s : KeyRing) → IsRing s → queued r ≡ c ∷ queued s → Got r (some c, s)

-- `keyboard_getchar` and `keyboard_get_event` return the oldest item of their ring and leave the others
-- in order; they return -1 exactly when the ring is empty.
pub ring_get-Got : (r : KeyRing) → IsRing r → Got r (ring_get r)
unfolding ring_get
ring_get-Got r w = elim (Bool-cases (r.tail == r.head)) [
  | inl h ↦
      let empty : pending r ≡ 0 = ground arith in
      rw h (nothing (ap (window ring_size r.slots r.tail) empty ∙ unfold window in refl))
  | inr h ↦
      let left : pending r ≡ suc ((r.head + ring_size - next_slot r.tail) % ring_size) =
        ground arith in
      let here : r.tail % ring_size ≡ r.tail = omega (arith, w.tail_in) in
      rw h (
        oldest (get_or r.slots r.tail 0) (record r { tail = next_slot r.tail })
          (record { storage = w.storage; head_in = w.head_in; tail_in = omega arith })
          (ap (window ring_size r.slots r.tail) left
            ∙ unfold window in
              ap₂ (λ (i : ℕ) l. get_or r.slots i 0 ∷ l) here
                (window_congruent ring_size r.slots (r.tail + 1) (next_slot r.tail)
                  ((r.head + ring_size - next_slot r.tail) % ring_size) (omega arith))))
]
