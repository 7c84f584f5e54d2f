-- ===== src/Handles/Fresh.antt =====
-- A new handle, handle_new of src/kernel/task/handle.c, keeps the count of the references.
use mathlib.Core.Path.{subst}
use mo_os.Prelude.{
  ℕ, zero, suc, ◌+◌, ◌≤◌, ◌≡◌, refl, sym, inl, inr, false, Option, none, some, List, [], ◌∷◌, ◌++◌,
  arith, ◌==◌, ==_iff, Bool-cases, length, get_or,
}
use mo_os.Handles.{handle_new, HandleType, Handle, Handles}
use mo_os.Handles.Count.{one, uses, Matches, Counted, not_one, one_self}

pub get_or-snoc_other :
    (xs : List (Option Handle)) (y : Option Handle) (h : ℕ)
    → (length xs == h) ≡ false
    → get_or (xs ++ y ∷ []) h none ≡ get_or xs h none
get_or-snoc_other [] y zero e = absurd cc
get_or-snoc_other [] y (suc h) e = refl
get_or-snoc_other (x ∷ xs) y zero e = refl
get_or-snoc_other (x ∷ xs) y (suc h) e = get_or-snoc_other xs y h (ground arith)

get_or-length : (xs : List (Option Handle)) → get_or xs (length xs) none ≡ none
get_or-length [] = refl
get_or-length (x ∷ xs) = get_or-length xs

get_or-snoc_same :
    (xs : List (Option Handle)) (y : Option Handle) → get_or (xs ++ y ∷ []) (length xs) none ≡ y
get_or-snoc_same [] y = refl
get_or-snoc_same (x ∷ xs) y = get_or-snoc_same xs y

-- A new handle has one reference, which is held.
pub handle_new-Counted :
    (type : HandleType) (held : ℕ → ℕ) (d : Handles)
    → 1 ≤ length d.handles
    → Counted held d
    → Counted (λ h. one h (some (handle_new type d).0) + held h) (handle_new type d).1
handle_new-Counted type held d terminal c h other =
    let new = length d.handles in
    elim (Bool-cases (new == h)) [
      | inl e ↦
          let unused =
            subst (λ o. Matches o (uses new d.tables + held new)) (get_or-length d.handles)
              (c new (ground arith)) in
          subst
            (λ k.
              Matches (get_or (handle_new type d).1.handles k none)
                (uses k d.tables + (one k (some new) + held k)))
            ((==_iff new h).0 e)
            (subst (λ o. Matches o (uses new d.tables + (one new (some new) + held new)))
              (sym (get_or-snoc_same d.handles (some (record { handle_type = type; refs = 1 }))))
              (
                omega (arith, one_self new),
                omega (arith, one_self new),
                omega (arith, one_self new),
              ))
      | inr ne ↦
          rw (get_or-snoc_other d.handles (some (record { handle_type = type; refs = 1 })) h ne) (
            subst (Matches (get_or d.handles h none)) (omega (arith, not_one new h ne)) (c h other))
    ]
