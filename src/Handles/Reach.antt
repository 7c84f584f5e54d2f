-- ===== src/Handles/Reach.antt =====
-- Descriptors that a new task is given, and all that tasks do, in src/kernel/task/handle.c and task.c.
use mathlib.Core.Path.{subst}
use mo_os.Prelude.{
  ℕ, ◌+◌, ◌≤◌, ◌<◌, ◌≡◌, refl, sym, ap, ◌∙◌, inl, inr, false, none, some, arith, ◌==◌, ==_iff,
  ne_of_==, Bool-cases, Option-cases, eq_of_some, length, get_or, set, get_or-set_ne,
}
use mo_os.Prelude.Word.{u32_mod, add32}
use mo_os.Handles.{
  max_fds, handle_ref, table_of, put_fd, task_fd_get, give_fd, task_inherit_fd, step, Handle,
  Handles, Op, open_op, close_op, exit_op, inherit_op,
}
use mo_os.Handles.Count.{
  one, uses, uses-put_fd, Matches, Counted, none_held, set-get_same, not_one, one_self,
  found-Matches, handle_ref-Counted, put_fd-Counted,
}
use mo_os.Handles.Steps.{
  Kept, in_table, has_table, new-Kept, fd_taken, close_fd-Kept, exit-Kept, IsHandles,
}

-- A reference to the terminal changes no other handle.
terminal-Kept :
    (child to : ℕ) (d : Handles)
    → get_or (table_of child d) to none ≡ none
    → to < length (table_of child d)
    → IsHandles d
    → Kept (give_fd child to 0 d)
terminal-Kept child to d empty lt w =
    let (x, t) = w.has_terminal in
    let v = some (record x { refs = add32 x.refs 1 }) in
    rw (t, give_fd)
      (record {
        counted =
            put_fd-Counted child to 0 none_held (record d { handles = set d.handles 0 v })
              (has_table d.tables child to lt) lt empty
              (λ h other.
                let apart : (0 == h) ≡ false = ground arith in
                rw (get_or-set_ne d.handles 0 h v none (ne_of_== 0 h apart)) (
                  subst (Matches (get_or d.handles h none)) (omega (arith, not_one 0 h apart))
                    (w.counted h other)));
        has_terminal = (record x { refs = add32 x.refs 1 }, set-get_same d.handles 0 v x t);
      })

ref_eq :
    (g : ℕ) (d : Handles) (x : Handle)
    → get_or d.handles g none ≡ some x
    → handle_ref g d
      ≡ some (record d { handles = set d.handles g (some (record x { refs = add32 x.refs 1 })) })
ref_eq g d x found = rw (found, handle_ref) refl

give_eq :
    (child to g : ℕ) (d r : Handles)
    → handle_ref g d ≡ some r
    → give_fd child to g d ≡ some (put_fd child to (some g) r)
give_eq child to g d r e = rw (e, give_fd) refl

given-Kept :
    (child to g : ℕ) (d : Handles)
    → get_or (table_of child d) to none ≡ none
    → to < length (table_of child d)
    → (g == 0) ≡ false
    → 1 ≤ uses g d.tables
    → uses g d.tables + 1 < u32_mod
    → IsHandles d
    → Kept (give_fd child to g d)
given-Kept child to g d empty lt other live few w =
    let (t, terminal) = w.has_terminal in
    let (x, (found, bound)) = found-Matches g none_held d other w.counted (omega arith) in
    let (r, (e, c)) =
      handle_ref-Counted g none_held d other (omega arith) (omega arith) w.counted in
    let v = some (record x { refs = add32 x.refs 1 }) in
    let here : handle_ref g d ≡ some (record d { handles = set d.handles g v }) =
      ref_eq g d x found in
    let same = eq_of_some r (record d { handles = set d.handles g v }) (sym e ∙ here) in
    rw (give_eq child to g d (record d { handles = set d.handles g v }) here) (record {
      counted =
          put_fd-Counted child to g none_held (record d { handles = set d.handles g v })
            (has_table d.tables child to lt) lt empty
            (subst (Counted (λ h. one h (some g) + none_held h)) same c);
      has_terminal = (t, get_or-set_ne d.handles g 0 v none (ne_of_== g 0 other) ∙ terminal);
    })

-- A descriptor uses its handle.
fd-uses :
    (task fd g : ℕ) (d : Handles) → get_or (table_of task d) fd none ≡ some g → 1 ≤ uses g d.tables
fd-uses task fd g d taken =
    let lt = in_table (table_of task d) fd g taken in
    omega (
      arith,
      uses-put_fd g task fd none d (has_table d.tables task fd lt) lt,
      ap (one g) taken,
      one_self g,
    )

-- The descriptor of a new task is free, and no handle has 2^32 - 1 references.
abbrev pub Allowed : Op → Handles → Type 0
Allowed (open_op task type) d = Unit {0}
Allowed (close_op task fd) d = Unit {0}
Allowed (exit_op task) d = Unit {0}
Allowed (inherit_op parent from child to) d =
    (get_or (table_of child d) to none ≡ none)
    × (to < length (table_of child d))
    × ((h : ℕ) → uses h d.tables + 1 < u32_mod)

-- With the references counted right, no step reaches a handle that is freed, and they are counted right
-- behind it: each handle but the terminal has as many references as descriptors refer to it, and is freed
-- when there are none. For a step that hands a descriptor on to a task this holds if the task has the
-- descriptor free and no handle has 2^32 - 1 references.
pub step-IsHandles : (op : Op) (d : Handles) → IsHandles d → Allowed op d → Kept (step op d)
unfolding step
step-IsHandles (open_op task type) d w allowed = new-Kept task type d w
step-IsHandles (close_op task fd) d w allowed = close_fd-Kept task fd d w
step-IsHandles (exit_op task) d w allowed = exit-Kept max_fds task 0 d w
step-IsHandles (inherit_op parent from child to) d w (empty, lt, few) =
    elim (Option-cases (task_fd_get parent from d)) [
      | inl none_there ↦ rw (none_there, task_inherit_fd) (terminal-Kept child to d empty lt w)
      | inr (g, found) ↦
          rw (found, task_inherit_fd)
            (elim (Bool-cases (g == 0)) [
              | inl z ↦
                  subst (λ k. Kept (give_fd child to k d)) (sym ((==_iff g 0).0 z))
                    (terminal-Kept child to d empty lt w)
              | inr other ↦
                  given-Kept child to g d empty lt other
                    (fd-uses parent from g d (fd_taken parent from g d found)) (few g) w
            ])
    ]
