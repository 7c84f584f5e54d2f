-- ===== src/Fat16/ShortName/Case.antt =====
-- The case of 8.3 names in src/file_system/fat/fat16.c.
use mo_os.Prelude.{
  ℕ, ◌+◌, bit_and, bit_or, ◌≡◌, refl, sym, ap, ap₂, ◌∙◌, inl, inr, Bool, true, false, not, ◌&&◌,
  ◌||◌, List, [], ◌∷◌, ◌++◌, map, append-nil, arith, ◌==◌, if◌then◌else◌, Bool-cases,
}
use mo_os.Libc.{isupper, islower, tolower, toupper}
use mo_os.Fat16.ShortName.{dot, apply_case, case_flags}
use mo_os.Fat16.ShortName.Parts.{AllPlain, shown_ext}

-- Some byte is a small letter; some byte is a capital.
has_lower : List ℕ → Bool
has_lower [] = false
has_lower (c ∷ cs) = islower c || has_lower cs

has_upper : List ℕ → Bool
has_upper [] = false
has_upper (c ∷ cs) = (not (islower c) && isupper c) || has_upper cs

abbrev flags : Bool → Bool → ℕ
flags lower upper = (if lower then 1 else 0) + (if upper then 2 else 0)

or_flags :
    (l u lower upper : Bool)
    → bit_or (if l then 1 else if u then 2 else 0) (flags lower upper)
      ≡ flags (l || lower) ((not l && u) || upper)
or_flags true u true true = refl
or_flags true u true false = refl
or_flags true u false true = refl
or_flags true u false false = refl
or_flags false true true true = refl
or_flags false true true false = refl
or_flags false true false true = refl
or_flags false true false false = refl
or_flags false false true true = refl
or_flags false false true false = refl
or_flags false false false true = refl
or_flags false false false false = refl

case_flags_lem : (cs : List ℕ) → case_flags cs ≡ flags (has_lower cs) (has_upper cs)
unfolding case_flags has_lower has_upper
case_flags_lem [] = refl
case_flags_lem (c ∷ cs) =
    rw (case_flags_lem cs) (or_flags (islower c) (isupper c) (has_lower cs) (has_upper cs))

-- Without capitals the small letters come back; without small letters nothing changes.
abbrev pub shown : Bool → List ℕ → List ℕ
shown lower cs = map (λ c. if lower then tolower (toupper c) else toupper c) cs

shown_lower : (cs : List ℕ) → has_upper cs ≡ false → shown true cs ≡ cs
unfolding has_upper
shown_lower [] h = refl
shown_lower (c ∷ cs) h =
    ap₂ (λ (x : ℕ) (l : List ℕ). x ∷ l) (ground arith) (shown_lower cs (ground arith))

shown_upper : (cs : List ℕ) → has_lower cs ≡ false → shown false cs ≡ cs
unfolding has_lower
shown_upper [] h = refl
shown_upper (c ∷ cs) h =
    ap₂ (λ (x : ℕ) (l : List ℕ). x ∷ l) (ground arith) (shown_upper cs (ground arith))

other_flags : (upper : Bool) → (flags false upper == 1) ≡ false
other_flags true = refl
other_flags false = refl

pub shown_lem : (cs : List ℕ) → (case_flags cs == 3) ≡ false → shown (case_flags cs == 1) cs ≡ cs
shown_lem cs h =
    let known = case_flags_lem cs in
    elim (Bool-cases (has_lower cs)) [
      | inr none_lower ↦
          let other : (case_flags cs == 1) ≡ false =
            rw (known, none_lower) (other_flags (has_upper cs)) in
          rw other (shown_upper cs none_lower)
      | inl some_lower ↦ elim (Bool-cases (has_upper cs)) [
        | inl some_upper ↦ cc (rw (known, some_lower, some_upper) at h)
        | inr none_upper ↦
            let lower : (case_flags cs == 1) ≡ true = rw (known, some_lower, none_upper) refl in
            rw lower (shown_lower cs none_upper)
      ]
    ]

pub apply_case-append :
    (lower lower_ext : Bool) (cs rest : List ℕ)
    → AllPlain (map toupper cs)
    → apply_case lower lower_ext (map toupper cs ++ rest)
      ≡ shown lower cs ++ apply_case lower lower_ext rest
unfolding apply_case
apply_case-append lower lower_ext [] rest plain = refl
apply_case-append lower lower_ext (c ∷ cs) rest plain = rw (plain.0.2) (
    ap (λ l. (if lower then tolower (toupper c) else toupper c) ∷ l)
      (apply_case-append lower lower_ext cs rest plain.1))

pub apply_case-shown_ext :
    (lower lower_ext : Bool) (ext : List ℕ)
    → AllPlain (map toupper ext)
    → apply_case lower lower_ext (shown_ext (map toupper ext)) ≡ shown_ext (shown lower_ext ext)
unfolding apply_case
apply_case-shown_ext lower lower_ext [] plain = refl
apply_case-shown_ext lower lower_ext (c ∷ cs) plain = rw (plain.0.2) (
    ap (λ l. dot ∷ (if lower_ext then tolower (toupper c) else toupper c) ∷ l)
      (ap (apply_case lower_ext lower_ext) (sym (append-nil (map toupper cs)))
        ∙ apply_case-append lower_ext lower_ext cs [] plain.1
        ∙ append-nil (shown lower_ext cs)))

-- The bits of `reserved` tell the two cases.
pub bits_lem :
    (x y : Bool)
    → (not (bit_and (bit_or (if x then 0x08 else 0) (if y then 0x10 else 0)) 0x08 == 0) ≡ x)
      × (not (bit_and (bit_or (if x then 0x08 else 0) (if y then 0x10 else 0)) 0x10 == 0) ≡ y)
bits_lem true true = (refl, refl)
bits_lem true false = (refl, refl)
bits_lem false true = (refl, refl)
bits_lem false false = (refl, refl)
