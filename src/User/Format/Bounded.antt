-- ===== src/User/Format/Bounded.antt =====
-- What `vsnprintf` of src/user/lib/moos.c leaves in a buffer of `size` bytes.
use mo_os.Prelude.{
  ℕ, zero, suc, ◌+◌, ◌-◌, ◌<◌, ◌≡◌, refl, sym, ap, ap₂, ◌∙◌, inl, inr, true, false, Option, none,
  some, List, [], ◌∷◌, ◌++◌, append-nil, arith, ltb, if◌then◌else◌, Bool-cases, length, take,
  snoc-append, length-snoc, length-take,
}
use mo_os.Prelude.Word.{u32_mod, add32}
use mo_os.User.Format.{format_put, put_all, FormatOut}
use mo_os.User.Format.Parse.{Arg}
use mo_os.User.Format.Text.{format_text, terminated, vsnprintf}

take-snoc :
    (k : ℕ) (xs : List ℕ) (c : ℕ)
    → take k (xs ++ (c ∷ [])) ≡ (if ltb (length xs) k then take k xs ++ (c ∷ []) else take k xs)
take-snoc zero xs c = let none_fits : ltb (length xs) 0 ≡ false = ground arith in rw none_fits refl
take-snoc (suc k) [] c =
    let fits : ltb 0 (suc k) ≡ true = ground arith in rw fits (ap (λ l. c ∷ l) (take_nil k))
  where
    take_nil : (n : ℕ) → take {A = ℕ} n [] ≡ []
    take_nil zero = refl
    take_nil (suc n) = refl
take-snoc (suc k) (x ∷ xs) c = elim (Bool-cases (ltb (length xs) k)) [
  | inl h ↦
      let fits : ltb (suc (length xs)) (suc k) ≡ true = ground arith in
      rw fits (ap (λ l. x ∷ l) (take-snoc k xs c ∙ rw h refl))
  | inr h ↦
      let past : ltb (suc (length xs)) (suc k) ≡ false = ground arith in
      rw past (ap (λ l. x ∷ l) (take-snoc k xs c ∙ rw h refl))
]

abbrev holding : ℕ → List ℕ → FormatOut
holding size text = record { size = size; stored = take (size - 1) text; len = length text }

format_put-holding :
    (size c : ℕ) (text : List ℕ)
    → length text + 1 < u32_mod
    → format_put c (holding size text) ≡ holding size (text ++ (c ∷ []))
unfolding format_put
format_put-holding size c text small =
    let no_wrap : add32 (length text) 1 ≡ length text + 1 = omega arith in
    let test : ltb (length text + 1) size ≡ ltb (length text) (size - 1) = ground arith in
    let more : length text + 1 ≡ length (text ++ (c ∷ [])) = omega (arith, length-snoc text c) in
    rw (no_wrap, test)
      (ap₂ (λ (l : List ℕ) (n : ℕ). record { size = size; stored = l; len = n })
        (sym (take-snoc (size - 1) text c)) more)

put_all-holding :
    (size : ℕ) (text more : List ℕ)
    → length text + length more + 1 < u32_mod
    → put_all more (holding size text) ≡ holding size (text ++ more)
unfolding put_all
put_all-holding size text [] small = ap (holding size) (sym (append-nil text))
put_all-holding size text (c ∷ more) small =
    ap (put_all more) (format_put-holding size c text (omega arith))
    ∙ put_all-holding size (text ++ (c ∷ [])) more (omega (arith, length-snoc text c))
    ∙ ap (holding size) (snoc-append text c more)

terminator_place :
    (size : ℕ) (text : List ℕ)
    → (terminated (holding size text)).terminator
      ≡ (if ltb 0 size then some (length (take (size - 1) text)) else none)
terminator_place size text =
    let stored = length-take (size - 1) text in
    elim (Bool-cases (ltb 0 size)) [
      | inr h ↦ rw h refl
      | inl h ↦ rw h (
          ap some (elim (Bool-cases (ltb (length text) size)) [
            | inl short ↦ rw short (ground arith)
            | inr long ↦ rw long (ground arith)
          ]))
    ]

-- If no argument is missing and no number overruns the arrays of the code, and the text has less than
-- 2^32 - 1 characters, then `vsnprintf` stores the first `size - 1` of them, all of them if they are fewer,
-- with the terminator directly behind them, and nothing in a buffer of no bytes. It returns how many
-- characters there are, stored or not.
pub vsnprintf_lem :
    (size : ℕ) (fmt : List ℕ) (args : List Arg) (text : List ℕ)
    → format_text fmt args ≡ some text
    → length text + 1 < u32_mod
    → vsnprintf size fmt args
      ≡ some (record {
        out = record { size = size; stored = take (size - 1) text; len = length text };
        terminator = (if ltb 0 size then some (length (take (size - 1) text)) else none);
      })
vsnprintf_lem size fmt args text e small =
    let empty : take {A = ℕ} (size - 1) [] ≡ [] = take_nil (size - 1) in
    rw (e, vsnprintf)
      (ap
          (λ (l : List ℕ).
            some (terminated (put_all text (record { size = size; stored = l; len = 0 }))))
          (sym empty)
        ∙ ap (λ (o : FormatOut). some (terminated o)) (put_all-holding size [] text (omega arith))
        ∙ ap (λ (t : Option ℕ). some (record { out = holding size text; terminator = t }))
            (terminator_place size text))
  where
    take_nil : (n : ℕ) → take {A = ℕ} n [] ≡ []
    take_nil zero = refl
    take_nil (suc n) = refl
