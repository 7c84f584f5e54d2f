-- ===== src/Handles/Steps.antt =====
-- No task reaches a handle that is freed, in src/kernel/task/handle.c and task.c.
use mo_os.Prelude.Word.{sub32}
use mathlib.Core.Path.{subst}
use mo_os.Prelude.{
  ℕ, zero, suc, ◌+◌, ◌<◌, ◌≡◌, refl, sym, ap, ◌∙◌, inl, inr, true, false, Option, none, some, List,
  [], ◌∷◌, arith, ltb, ◌==◌, ne_of_==, Bool-cases, Option-cases, eq_of_some, length, get_or,
  get_or-set_ne,
}
use mo_os.Handles.{
  max_fds, handle_new, release_ref, handle_close, table_of, put_fd, free_fd, task_fd_get,
  task_fd_close, open_handle, exit_loop, second, HandleType, Handle, Handles,
}
use mo_os.Handles.Fresh.{get_or-snoc_other, handle_new-Counted}
use mo_os.Handles.Count.{
  one, Counted, none_held, handle_close-Counted, put_fd-Counted, clear_fd-Counted,
}

-- The references are counted right, and the terminal is there.
pub record IsHandles (d : Handles) : Type 0 where
  pub counted : Counted none_held d
  pub has_terminal : (x : Handle) × (get_or d.handles 0 none ≡ some x)

-- The result is there, and right.
abbrev pub Kept : Option Handles → Type 0
Kept none = ⊥
Kept (some d) = IsHandles d

pub in_table {ℓ} :
    {A : Type ℓ} (xs : List (Option A)) (i : ℕ) (x : A) → get_or xs i none ≡ some x → i < length xs
in_table [] i x e = absurd cc
in_table (y ∷ xs) zero x e = omega arith
in_table (y ∷ xs) (suc i) x e = omega (arith, in_table xs i x e)

pub has_table :
    (tables : List (List (Option ℕ))) (t fd : ℕ)
    → fd < length (get_or tables t [])
    → t < length tables
has_table [] t fd lt = absurd (omega arith)
has_table (x ∷ tables) zero fd lt = omega arith
has_table (x ∷ tables) (suc t) fd lt = omega (arith, has_table tables t fd lt)

-- What free_fd finds.
free_fd_lem :
    (fds : List (Option ℕ)) (i fd : ℕ)
    → free_fd fds i ≡ some fd
    → (j : ℕ) × ((fd ≡ i + j) × ((j < length fds) × (get_or fds j none ≡ none)))
free_fd_lem [] i fd e = absurd cc
free_fd_lem (none ∷ fds) i fd e =
    let same = eq_of_some i fd e in (0, (omega arith, (omega arith, refl)))
free_fd_lem (some h ∷ fds) i fd e =
    let (j, (same, (lt, free))) = free_fd_lem fds (suc i) fd e in
    (suc j, (omega arith, (omega arith, free)))

-- What handle_close returns when it returns.
data Close (g : ℕ) (d : Handles) (r : List HandleType × Handles) : Type 0 where
  terminal : (g == 0) ≡ true → ([], d) ≡ r → Close g d r
  dropped :
      (x : Handle)
      → (g == 0) ≡ false
      → get_or d.handles g none ≡ some x
      → release_ref g x d ≡ r
      → Close g d r

close_lem :
    (g : ℕ) (d : Handles) (r : List HandleType × Handles) → handle_close g d ≡ some r → Close g d r
close_lem g d r e = elim (Bool-cases (g == 0)) [
  | inl z ↦ terminal z (eq_of_some ([], d) r (rw z at e))
  | inr z ↦ elim (Option-cases (get_or d.handles g none)) [
    | inl gone ↦ cc (rw (z, gone) at e)
    | inr (x, found) ↦ dropped x z found (eq_of_some (release_ref g x d) r (rw (z, found) at e))
  ]
]

-- A handle that is closed leaves the terminal.
close-terminal :
    (g : ℕ) (d : Handles) (r : List HandleType × Handles) (x : Handle)
    → handle_close g d ≡ some r
    → get_or d.handles 0 none ≡ some x
    → get_or r.1.handles 0 none ≡ some x
close-terminal g d r x e t = elim (close_lem g d r e) [
  | terminal z same ↦ subst (λ o. get_or o.1.handles 0 none ≡ some x) same t
  | dropped y z found same ↦
      subst (λ o. get_or o.1.handles 0 none ≡ some x) same
        (elim (Bool-cases (ltb 0 (sub32 y.refs 1))) [
          | inl more ↦
              rw
                (
                  more,
                  get_or-set_ne d.handles g 0 (some (record y { refs = sub32 y.refs 1 })) none
                      (ne_of_== g 0 z),
                )
                t
          | inr last ↦ rw (last, get_or-set_ne d.handles g 0 none none (ne_of_== g 0 z)) t
        ])
]

-- Closing a handle and clearing a descriptor can change places.
close-put_fd :
    (g task fd : ℕ) (d : Handles) (r : List HandleType × Handles)
    → handle_close g d ≡ some r
    → handle_close g (put_fd task fd none d) ≡ some (r.0, put_fd task fd none r.1)
close-put_fd g task fd d r e = elim (close_lem g d r e) [
  | terminal z same ↦ rw z (ap (λ o. some (o.0, put_fd task fd none o.1)) same)
  | dropped y z found same ↦
      rw (z, found)
        (elim (Bool-cases (ltb 0 (sub32 y.refs 1))) [
          | inl more ↦ rw (more, release_ref) refl
          | inr last ↦ rw (last, release_ref) refl
        ]
          ∙ ap (λ o. some (o.0, put_fd task fd none o.1)) same)
]

close-Kept :
    (g : ℕ) (d : Handles)
    → Counted (λ h. one h (some g) + none_held h) d
    → ((x : Handle) × (get_or d.handles 0 none ≡ some x))
    → (r : List HandleType × Handles) × ((handle_close g d ≡ some r) × IsHandles r.1)
close-Kept g d c (x, t) =
    let (r, (e, c')) = handle_close-Counted g none_held d c in
    (r, (e, record { counted = c'; has_terminal = (x, close-terminal g d r x e t) }))

pub new-Kept :
    (task : ℕ) (type : HandleType) (d : Handles)
    → IsHandles d
    → Kept (second (open_handle task type d))
new-Kept task type d w =
    let (x, t) = w.has_terminal in
    let inside = in_table d.handles 0 x t in
    let new = length d.handles in
    let d' = (handle_new type d).1 in
    let c = handle_new-Counted type none_held d (omega arith) w.counted in
    let t' =
      get_or-snoc_other d.handles (some (record { handle_type = type; refs = 1 })) 0 (ground arith)
      ∙ t in
    elim (Option-cases (free_fd (table_of task d) 0)) [
      | inl full ↦ let (r, (e, kept)) = close-Kept new d' c (x, t') in rw (full, e) kept
      | inr (fd, free) ↦
          let (j, (same, (lt, empty))) = free_fd_lem (table_of task d) 0 fd free in
          let here : fd ≡ j = omega arith in
          rw free (record {
            counted =
                put_fd-Counted task fd new none_held d' (has_table d.tables task j lt) (omega arith)
                  (ap (λ k. get_or (table_of task d) k none) here ∙ empty) c;
            has_terminal = (x, t');
          })
    ]

pub fd_taken :
    (task fd g : ℕ) (d : Handles)
    → task_fd_get task fd d ≡ some g
    → get_or (table_of task d) fd none ≡ some g
fd_taken task fd g d e = elim (Bool-cases (ltb fd max_fds)) [
  | inl inside ↦ rw inside at e
  | inr out ↦ cc (rw out at e)
]

pub close_fd-Kept :
    (task fd : ℕ) (d : Handles) → IsHandles d → Kept (second (task_fd_close task fd d))
close_fd-Kept task fd d w = elim (Option-cases (task_fd_get task fd d)) [
  | inl empty ↦ rw (empty, task_fd_close) w
  | inr (g, found) ↦
      let taken = fd_taken task fd g d found in
      let lt = in_table (table_of task d) fd g taken in
      let c =
        clear_fd-Counted task fd g none_held d (has_table d.tables task fd lt) lt taken w.counted in
      let (r, (e, kept)) = close-Kept g (put_fd task fd none d) c w.has_terminal in
      rw (found, task_fd_close) (rw e kept)
]

-- A handle that cannot be closed is freed, whatever the tables hold.
not_closed :
    (g task fd : ℕ) (d : Handles)
    → handle_close g d ≡ none
    → handle_close g (put_fd task fd none d) ≡ none
not_closed g task fd d e = elim (Bool-cases (g == 0)) [
  | inl z ↦ cc (rw z at e)
  | inr z ↦ elim (Option-cases (get_or d.handles g none)) [
    | inl gone ↦ rw (z, gone) refl
    | inr (x, found) ↦ cc (rw (z, found) at e)
  ]
]

pub exit-Kept : (left task fd : ℕ) (d : Handles) → IsHandles d → Kept (exit_loop left task fd d)
unfolding exit_loop
exit-Kept zero task fd d w = w
exit-Kept (suc left) task fd d w = elim (Option-cases (get_or (table_of task d) fd none)) [
  | inl empty ↦ rw (empty, exit_loop) (exit-Kept left task (fd + 1) d w)
  | inr (g, taken) ↦
      let lt = in_table (table_of task d) fd g taken in
      let c =
        clear_fd-Counted task fd g none_held d (has_table d.tables task fd lt) lt taken w.counted in
      let (r', (e', kept)) = close-Kept g (put_fd task fd none d) c w.has_terminal in
      elim (Option-cases (handle_close g d)) [
        | inl gone ↦ cc (sym e' ∙ not_closed g task fd d gone)
        | inr (r, e) ↦
            let same =
              eq_of_some r' (r.0, put_fd task fd none r.1)
                (sym e' ∙ close-put_fd g task fd d r e) in
            rw (taken, exit_loop)
              (rw (e, exit_loop)
                (exit-Kept left task (fd + 1) (put_fd task fd none r.1)
                  (subst (λ o. IsHandles o.1) same kept)))
      ]
]
