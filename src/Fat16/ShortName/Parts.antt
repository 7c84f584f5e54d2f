-- ===== src/Fat16/ShortName/Parts.antt =====
-- The padded parts of 8.3 names in src/file_system/fat/fat16.c.
use mo_os.Prelude.{
  ℕ, zero, suc, ◌-◌, ◌≤◌, ◌<◌, ◌≡◌, refl, sym, ap, ◌∙◌, ◌≢◌, inl, inr, true, false, List, [], ◌∷◌,
  ◌++◌, map, arith, ◌==◌, ==_iff, Bool-cases, length, get_or, drop, replicate, length-append,
  length-replicate,
}
use mo_os.Libc.{toupper}
use mo_os.Fat16.ShortName.{
  space, dot, fat16_to_proper_string, fat16_get_full_relative_filename, is_short_char,
  all_short_chars, pad,
}

short_char : (c : ℕ) → is_short_char c ≡ true → (space < c) × (c ≢ dot)
short_char c h = (ground arith, λ e. ground arith)

-- A byte that ends neither a name nor its base.
abbrev pub Plain : ℕ → Type 0
Plain c = ((c == 0x00) ≡ false) × ((c == space) ≡ false) × ((c == dot) ≡ false)

toupper-Plain : (c : ℕ) → is_short_char c ≡ true → Plain (toupper c)
toupper-Plain c h =
    let (above, other) = short_char c h in
    let ne = λ (e : c ≡ dot). other e in
    elim (Bool-cases (c == dot)) [
      | inl is_dot ↦ absurd (other ((==_iff c dot).0 is_dot))
      | inr is_other ↦ (ground arith, ground arith, ground arith)
    ]

abbrev pub AllPlain : List ℕ → Type 0
AllPlain [] = Unit {0}
AllPlain (c ∷ cs) = Plain c × AllPlain cs

pub map-toupper-AllPlain : (cs : List ℕ) → all_short_chars cs ≡ true → AllPlain (map toupper cs)
map-toupper-AllPlain [] h = tt
map-toupper-AllPlain (c ∷ cs) h =
    (toupper-Plain c (ground arith), map-toupper-AllPlain cs (ground arith))

pub length-map : (f : ℕ → ℕ) (cs : List ℕ) → length (map f cs) ≡ length cs
length-map f [] = refl
length-map f (c ∷ cs) = ap suc (length-map f cs)

-- A padded part is read up to its padding.
proper_string-spaces :
    (n : ℕ) (rest : List ℕ) → fat16_to_proper_string n (replicate n space ++ rest) ≡ []
unfolding fat16_to_proper_string
proper_string-spaces zero rest = refl
proper_string-spaces (suc n) rest = refl

proper_string-pad :
    (n : ℕ) (cs rest : List ℕ)
    → AllPlain cs
    → length cs ≤ n
    → fat16_to_proper_string n (pad n cs ++ rest) ≡ cs
unfolding fat16_to_proper_string
proper_string-pad n [] rest plain fits =
    let all : n - 0 ≡ n = omega arith in rw all (proper_string-spaces n rest)
proper_string-pad zero (c ∷ cs) rest plain fits = absurd (omega arith)
proper_string-pad (suc n) (c ∷ cs) rest ((not_zero, not_space, not_dot), plain) fits =
    let less : suc n - suc (length cs) ≡ n - length cs = omega arith in
    rw (not_zero, not_space, less)
      (ap (λ l. c ∷ l) (proper_string-pad n cs rest plain (omega arith)))

length-pad : (n : ℕ) (cs : List ℕ) → length cs ≤ n → length (pad n cs) ≡ n
length-pad n cs fits = omega (
  arith,
  length-append cs (replicate (n - length cs) space),
  length-replicate (n - length cs) space,
)

drop-append : (xs ys : List ℕ) → drop (length xs) (xs ++ ys) ≡ ys
drop-append [] ys = refl
drop-append (x ∷ xs) ys = drop-append xs ys

get_or-length : (xs ys : List ℕ) → get_or (xs ++ ys) (length xs) 0 ≡ get_or ys 0 0
get_or-length [] ys = refl
get_or-length (x ∷ xs) ys = get_or-length xs ys

-- How the extension is shown.
abbrev pub shown_ext : List ℕ → List ℕ
shown_ext [] = []
shown_ext (c ∷ cs) = dot ∷ c ∷ cs

full_name_of :
    (item base ext rest : List ℕ)
    → fat16_to_proper_string 8 item ≡ base
    → get_or item 8 0 ≡ get_or (pad 3 ext ++ rest) 0 0
    → drop 8 item ≡ pad 3 ext ++ rest
    → AllPlain ext
    → length ext ≤ 3
    → fat16_get_full_relative_filename item ≡ base ++ shown_ext ext
unfolding fat16_get_full_relative_filename
full_name_of item base [] rest first eighth behind plain fits = rw (first, eighth) refl
full_name_of item base (c ∷ cs) rest first eighth behind plain fits =
    rw (first, eighth, plain.0.0, plain.0.1, behind)
      (ap (λ l. base ++ (dot ∷ l)) (proper_string-pad 3 (c ∷ cs) rest plain fits))

-- The bytes of both parts, with whatever follows them.
pub full_name :
    (base ext rest : List ℕ)
    → AllPlain base
    → AllPlain ext
    → length base ≤ 8
    → length ext ≤ 3
    → fat16_get_full_relative_filename (pad 8 base ++ (pad 3 ext ++ rest)) ≡ base ++ shown_ext ext
full_name base ext rest plain_base plain_ext fits_base fits_ext =
    let len = length-pad 8 base fits_base in
    full_name_of (pad 8 base ++ (pad 3 ext ++ rest)) base ext rest
      (proper_string-pad 8 base (pad 3 ext ++ rest) plain_base fits_base)
      (ap (λ (n : ℕ). get_or (pad 8 base ++ (pad 3 ext ++ rest)) n 0) (sym len)
        ∙ get_or-length (pad 8 base) (pad 3 ext ++ rest))
      (ap (λ (n : ℕ). drop n (pad 8 base ++ (pad 3 ext ++ rest))) (sym len)
        ∙ drop-append (pad 8 base) (pad 3 ext ++ rest))
      plain_ext fits_ext
