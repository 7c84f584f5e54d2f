-- ===== src/Handles/Count.antt =====
-- The references of src/kernel/task/handle.c are counted right.
use mathlib.Core.Path.{subst}
use mo_os.Prelude.{
  ℕ, zero, suc, ◌+◌, ◌≤◌, ◌<◌, ◌≡◌, refl, sym, ap, ◌∙◌, inl, inr, false, Option, none, some, List,
  [], ◌∷◌, arith, ltb, ◌==◌, if◌then◌else◌, ==_iff, ne_of_==, Bool-cases, Option-cases, ==_refl,
  length, get_or, set, get_or-set_ne,
}
use mo_os.Prelude.Word.{u32_mod, add32, sub32}
use mo_os.Handles.{
  handle_ref, release_ref, handle_close, table_of, put_fd, HandleType, Handle, Handles,
}

abbrev pub one : ℕ → Option ℕ → ℕ
one h none = 0
one h (some g) = if g == h then 1 else 0

abbrev count : ℕ → List (Option ℕ) → ℕ
count h [] = 0
count h (fd ∷ fds) = one h fd + count h fds

-- The descriptors of all tasks that refer to a handle.
abbrev pub uses : ℕ → List (List (Option ℕ)) → ℕ
uses h [] = 0
uses h (fds ∷ tables) = count h fds + uses h tables

count-set :
    (h : ℕ) (fds : List (Option ℕ)) (i : ℕ) (fd : Option ℕ)
    → i < length fds
    → count h (set fds i fd) + one h (get_or fds i none) ≡ count h fds + one h fd
count-set h [] i fd lt = absurd (omega arith)
count-set h (x ∷ fds) zero fd lt = omega arith
count-set h (x ∷ fds) (suc i) fd lt = omega (arith, count-set h fds i fd (omega arith))

uses-set :
    (h : ℕ) (tables : List (List (Option ℕ))) (t : ℕ) (fds : List (Option ℕ))
    → t < length tables
    → uses h (set tables t fds) + count h (get_or tables t []) ≡ uses h tables + count h fds
uses-set h [] t fds lt = absurd (omega arith)
uses-set h (x ∷ tables) zero fds lt = omega arith
uses-set h (x ∷ tables) (suc t) fds lt = omega (arith, uses-set h tables t fds (omega arith))

pub uses-put_fd :
    (h task fd : ℕ) (g : Option ℕ) (d : Handles)
    → task < length d.tables
    → fd < length (table_of task d)
    → uses h (put_fd task fd g d).tables + one h (get_or (table_of task d) fd none)
      ≡ uses h d.tables + one h g
uses-put_fd h task fd g d lt lt' = omega (
  arith,
  uses-set h d.tables task (set (table_of task d) fd g) lt,
  count-set h (table_of task d) fd g lt',
)

abbrev pub Matches : Option Handle → ℕ → Type 0
Matches none n = n ≡ 0
Matches (some x) n = (x.refs ≡ n) × (1 ≤ n) × (n < u32_mod)

-- Each handle but the terminal has as many references as descriptors refer to it, and `held` counts the
-- ones that the code holds besides; a handle to which none refers is freed.
abbrev pub Counted : (ℕ → ℕ) → Handles → Type 0
Counted held d =
    (h : ℕ) → (h == 0) ≡ false → Matches (get_or d.handles h none) (uses h d.tables + held h)

abbrev pub none_held : ℕ → ℕ
none_held h = 0

abbrev pub held_once : ℕ → ℕ → ℕ
held_once g h = one h (some g)

pub set-get_same :
    (xs : List (Option Handle)) (i : ℕ) (v : Option Handle) (x : Handle)
    → get_or xs i none ≡ some x
    → get_or (set xs i v) i none ≡ v
set-get_same [] i v x e = absurd cc
set-get_same (y ∷ xs) zero v x e = refl
set-get_same (y ∷ xs) (suc i) v x e = set-get_same xs i v x e

-- A handle is changed, and nothing is held differently of the others.
set-Counted :
    (g : ℕ) (v : Option Handle) (x : Handle) (held held' : ℕ → ℕ) (d : Handles)
    → get_or d.handles g none ≡ some x
    → ((h : ℕ) → (g == h) ≡ false → held h ≡ held' h)
    → Matches v (uses g d.tables + held' g)
    → Counted held d
    → Counted held' (record d { handles = set d.handles g v })
set-Counted g v x held held' d found elsewhere m c h other = elim (Bool-cases (g == h)) [
  | inl e ↦
      subst (λ k. Matches (get_or (set d.handles g v) k none) (uses k d.tables + held' k))
        ((==_iff g h).0 e)
        (subst (λ o. Matches o (uses g d.tables + held' g))
          (sym (set-get_same d.handles g v x found)) m)
  | inr ne ↦ rw (get_or-set_ne d.handles g h v none (ne_of_== g h ne), ← elsewhere h ne) (c h other)
]

pub not_one : (g h : ℕ) → (g == h) ≡ false → one h (some g) ≡ 0
not_one g h e = rw e refl

pub one_self : (g : ℕ) → one g (some g) ≡ 1
one_self g = rw (==_refl g) refl

-- Of a reference that is held the handle is there.
pub found-Matches :
    (g : ℕ) (held : ℕ → ℕ) (d : Handles)
    → (g == 0) ≡ false
    → Counted held d
    → 1 ≤ uses g d.tables + held g
    → (x : Handle) × ((get_or d.handles g none ≡ some x)
        × ((x.refs ≡ uses g d.tables + held g) × (uses g d.tables + held g < u32_mod)))
found-Matches g held d other c live = elim (Option-cases (get_or d.handles g none)) [
  | inl gone ↦
      let m = subst (λ o. Matches o (uses g d.tables + held g)) gone (c g other) in
      absurd (omega arith)
  | inr (x, found) ↦
      let (refs, some_use, bound) =
        subst (λ o. Matches o (uses g d.tables + held g)) found (c g other) in
      (x, (found, (refs, bound)))
]

release_ref-Counted :
    (g : ℕ) (x : Handle) (held : ℕ → ℕ) (d : Handles)
    → get_or d.handles g none ≡ some x
    → x.refs ≡ uses g d.tables + (1 + held g)
    → uses g d.tables + (1 + held g) < u32_mod
    → Counted (λ h. one h (some g) + held h) d
    → Counted held (release_ref g x d).1
release_ref-Counted g x held d found refs bound c =
    let same : (h : ℕ) → (g == h) ≡ false → one h (some g) + held h ≡ held h =
      λ h ne. omega (arith, not_one g h ne) in
    elim (Bool-cases (ltb 0 (sub32 x.refs 1))) [
      | inl more ↦ rw more (
          set-Counted g (some (record x { refs = sub32 x.refs 1 })) x (λ h. one h (some g) + held h)
            held d found same (ground arith, ground arith, omega arith) c)
      | inr last ↦
          rw last
            (set-Counted g none x (λ h. one h (some g) + held h) held d found same (ground arith) c)
    ]

-- A reference that is held is given up.
pub handle_close-Counted :
    (g : ℕ) (held : ℕ → ℕ) (d : Handles)
    → Counted (λ h. one h (some g) + held h) d
    → (r : List HandleType × Handles) × ((handle_close g d ≡ some r) × Counted held r.1)
handle_close-Counted g held d c = elim (Bool-cases (g == 0)) [
  | inl z ↦ rw z (
    ([], d),
    (
      refl,
      λ h other.
          subst (Matches (get_or d.handles h none)) (omega (arith, not_one g h (ground arith)))
            (c h other),
    ),
  )
  | inr other ↦
      let (x, (found, (refs, bound))) =
        found-Matches g (λ h. one h (some g) + held h) d other c (omega (arith, one_self g)) in
      let refs' = refs ∙ ap (λ n. uses g d.tables + (n + held g)) (one_self g) in
      let bound' : uses g d.tables + (1 + held g) < u32_mod = omega (arith, one_self g) in
      rw (other, found, handle_close)
        (release_ref g x d, (refl, release_ref-Counted g x held d found refs' bound' c))
]

-- A reference more is held.
pub handle_ref-Counted :
    (g : ℕ) (held : ℕ → ℕ) (d : Handles)
    → (g == 0) ≡ false
    → 1 ≤ uses g d.tables + held g
    → uses g d.tables + held g + 1 < u32_mod
    → Counted held d
    → (d' : Handles) × ((handle_ref g d ≡ some d') × Counted (λ h. one h (some g) + held h) d')
handle_ref-Counted g held d other live few c =
    let (x, (found, (refs, bound))) = found-Matches g held d other c live in
    rw (found, handle_ref)
      (
        record d { handles = set d.handles g (some (record x { refs = add32 x.refs 1 })) },
        (
          refl,
          set-Counted g (some (record x { refs = add32 x.refs 1 })) x held
              (λ h. one h (some g) + held h) d found (λ h ne. omega (arith, not_one g h ne))
              (omega (arith, one_self g), omega (arith, one_self g), omega (arith, one_self g)) c,
        ),
      )

-- A descriptor takes over the reference that is held.
pub put_fd-Counted :
    (task fd g : ℕ) (held : ℕ → ℕ) (d : Handles)
    → task < length d.tables
    → fd < length (table_of task d)
    → get_or (table_of task d) fd none ≡ none
    → Counted (λ h. one h (some g) + held h) d
    → Counted held (put_fd task fd (some g) d)
put_fd-Counted task fd g held d lt lt' free c h other =
    subst (Matches (get_or d.handles h none))
      (omega (arith, uses-put_fd h task fd (some g) d lt lt', ap (one h) free)) (c h other)

-- The reference of a descriptor that is cleared is held.
pub clear_fd-Counted :
    (task fd g : ℕ) (held : ℕ → ℕ) (d : Handles)
    → task < length d.tables
    → fd < length (table_of task d)
    → get_or (table_of task d) fd none ≡ some g
    → Counted held d
    → Counted (λ h. one h (some g) + held h) (put_fd task fd none d)
clear_fd-Counted task fd g held d lt lt' taken c h other =
    subst (Matches (get_or d.handles h none))
      (omega (arith, uses-put_fd h task fd none d lt lt', ap (one h) taken)) (c h other)
