-- ===== src/Libc/Ctype.antt =====
-- How the classes of src/libc/ctype/ctype.c stand to each other.
use mo_os.Prelude.{ℕ, ◌+◌, ◌≡◌, Bool, true, false, List, [], ◌∷◌, arith, leb, ◌==◌, if◌then◌else◌}
use mo_os.Libc.{isdigit, isupper, islower, isalpha, iscntrl, ispunct, tolower, toupper}

-- How many of the conditions hold.
abbrev pub count_true : List Bool → ℕ
count_true [] = 0
count_true (b ∷ bs) = (if b then 1 else 0) + count_true bs

-- A character is in exactly one of the classes of control characters, digits, capitals, small letters
-- and punctuation, or it is the space, up to 127; above that it is in none.
pub one_class :
    (c : ℕ)
    → count_true (iscntrl c ∷ isdigit c ∷ isupper c ∷ islower c ∷ ispunct c ∷ (c == 0x20) ∷ [])
      ≡ (if leb c 127 then 1 else 0)
one_class c = ground arith

-- `tolower` and `toupper` undo each other on letters, and change nothing but letters.
pub toupper-tolower :
    (c : ℕ)
    → (isupper c ≡ true → toupper (tolower c) ≡ c)
      × (islower c ≡ true → tolower (toupper c) ≡ c)
      × (isalpha c ≡ false → (tolower c ≡ c) × (toupper c ≡ c))
toupper-tolower c = ((λ h. ground arith), (λ h. ground arith), λ h. (ground arith, ground arith))
