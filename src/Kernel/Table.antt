-- ===== src/Kernel/Table.antt =====
-- Reads and writes of the task table.
use mo_os.Prelude.{
  ℕ, zero, suc, ◌+◌, ◌≤◌, ◌<◌, ◌≡◌, refl, ◌∙◌, inl, inr, true, false, ◌&&◌, List, [], ◌∷◌, arith,
  ltb, leb, ◌==◌, if◌then◌else◌, Bool-cases, length, get_or, set, length-set, get_or-set_self,
  get_or-set_ne,
}
use mo_os.Kernel.{max_tasks, blank, task_at, update_task, for_from, for_tasks, Task, Kernel}

module _ {ℓ} {A : Type ℓ} where
  pub get_or-modify :
      (xs : List A) (i j : ℕ) (f : A → A) (d : A)
      → i < length xs
      → get_or (set xs i (f (get_or xs i d))) j d
        ≡ (if i == j then f (get_or xs j d) else get_or xs j d)
  get_or-modify xs i j f d lt = elim (Bool-cases (i == j)) [
    | inl e ↦
        let same : i ≡ j = ground arith in
        rw (e, ← same) (get_or-set_self xs i (f (get_or xs i d)) d lt)
    | inr e ↦ rw e (get_or-set_ne xs i j (f (get_or xs i d)) d (ground arith))
  ]

pub task_at-update_task :
    (k : Kernel) (i j : ℕ) (f : Task → Task)
    → i < length k.tasks
    → task_at (update_task k i f) j ≡ (if i == j then f (task_at k j) else task_at k j)
task_at-update_task k i j f lt = get_or-modify k.tasks i j f blank lt

pub length-update_task :
    (k : Kernel) (i : ℕ) (f : Task → Task) → length (update_task k i f).tasks ≡ length k.tasks
length-update_task k i f = length-set k.tasks i (f (task_at k i))

-- A write that keeps the state of a task keeps the states of the table.
state-set :
    (f : Task → Task) (keeps : (t : Task) → (f t).state ≡ t.state) (xs : List Task) (i j : ℕ)
    → (get_or (set xs i (f (get_or xs i blank))) j blank).state ≡ (get_or xs j blank).state
state-set f keeps [] i j = refl
state-set f keeps (x ∷ xs) zero zero = keeps x
state-set f keeps (x ∷ xs) zero (suc j) = refl
state-set f keeps (x ∷ xs) (suc i) zero = refl
state-set f keeps (x ∷ xs) (suc i) (suc j) = state-set f keeps xs i j

pub state-update_task :
    (f : Task → Task) (keeps : (t : Task) → (f t).state ≡ t.state) (k : Kernel) (i j : ℕ)
    → (task_at (update_task k i f) j).state ≡ (task_at k j).state
state-update_task f keeps k i j = state-set f keeps k.tasks i j

-- A loop whose body changes only its own entry, by `g`, changes every entry by `g`.
module _ (P : Kernel → Type 0) (g : Task → Task) (step : ℕ → Kernel → Kernel)
    (keep : (i : ℕ) (k : Kernel) → P k → i < max_tasks → P (step i k))
    (own : (i j : ℕ) (k : Kernel)
      → P k
      → i < max_tasks
      → task_at (step i k) j ≡ (if i == j then g (task_at k j) else task_at k j)) where
  pub for_from_keep :
      (rounds i : ℕ) (k : Kernel) → i + rounds ≤ max_tasks → P k → P (for_from step rounds i k)
  unfolding for_from
  for_from_keep zero i k le p = p
  for_from_keep (suc rounds) i k le p =
      for_from_keep rounds (i + 1) (step i k) (omega arith) (keep i k p (omega arith))

  for_from_entry :
      (rounds i j : ℕ) (k : Kernel)
      → i + rounds ≤ max_tasks
      → P k
      → task_at (for_from step rounds i k) j
        ≡ (if leb i j && ltb j (i + rounds) then g (task_at k j) else task_at k j)
  unfolding for_from
  for_from_entry zero i j k le p =
      let out : (leb i j && ltb j (i + 0)) ≡ false = ground arith in rw out
  for_from_entry (suc rounds) i j k le p =
      for_from_entry rounds (i + 1) j (step i k) (omega arith) (keep i k p (omega arith))
      ∙ rw (own i j k p (omega arith)) (elim (Bool-cases (i == j)) [
        | inl h ↦
            let same : i ≡ j = ground arith in
            let behind : (leb (i + 1) j && ltb j (i + 1 + rounds)) ≡ false = ground arith in
            let inside : (leb i j && ltb j (i + suc rounds)) ≡ true = ground arith in
            rw (behind, inside, h)
        | inr h ↦
            let shift : (leb (i + 1) j && ltb j (i + 1 + rounds))
                ≡ (leb i j && ltb j (i + suc rounds)) =
              ground arith in
            rw (shift, h)
      ])

  pub for_tasks_entry :
      (j : ℕ) (k : Kernel) → P k → j < max_tasks → task_at (for_tasks step k) j ≡ g (task_at k j)
  for_tasks_entry j k p lt =
      let inside : (leb 0 j && ltb j 16) ≡ true = ground arith in
      for_from_entry max_tasks 0 j k (omega arith) p ∙ rw inside
