-- ===== src/Fat16/ShortName/RoundTrip.antt =====
-- 8.3 names of src/file_system/fat/fat16.c: what is made of a name, read again.
use mo_os.Prelude.{
  ℕ, ◌≤◌, ◌≡◌, refl, sym, ap, ap₂, ◌∙◌, ◌≢◌, inl, inr, Bool, true, false, not, ◌&&◌, ◌||◌, some,
  List, [], ◌∷◌, ◌++◌, map, append_assoc, append-nil, arith, ◌==◌, ==_iff, Bool-cases, Option-cases,
  eq_of_some, length, take, drop, take-append-drop,
}
use mo_os.Prelude.Status.{eq_of_ok, ok}
use mo_os.Libc.{toupper}
use mo_os.Fat16.Volume.{Item}
use mo_os.Fat16.ShortName.{
  dot, fat16_get_full_relative_filename, reserved, fat16_get_short_name, all_short_chars, last_dot,
  pad, case_flags, short_name, case_bits, bad_lengths, check_parts, fat16_make_short_name,
}
use mo_os.Fat16.ShortName.Parts.{map-toupper-AllPlain, length-map, shown_ext, full_name}
use mo_os.Fat16.ShortName.Case.{shown_lem, apply_case-append, apply_case-shown_ext, bits_lem}

-- What `check_parts` accepts.
record Checked (base ext bytes : List ℕ) (bits : ℕ) : Type 0 where
  pub bytes_are : short_name base ext ≡ bytes
  pub bits_are : case_bits base ext ≡ bits
  pub fits_base : length base ≤ 8
  pub fits_ext : length ext ≤ 3
  pub chars_base : all_short_chars base ≡ true
  pub chars_ext : all_short_chars ext ≡ true
  pub cases_base : (case_flags base == 3) ≡ false
  pub cases_ext : (case_flags ext == 3) ≡ false

check_parts-Checked :
    (base ext bytes : List ℕ) (bits : ℕ) (dotted : Bool)
    → check_parts base ext dotted ≡ ok (bytes, bits)
    → Checked base ext bytes bits
unfolding check_parts
check_parts-Checked base ext bytes bits dotted e = elim (Bool-cases (bad_lengths base ext dotted)) [
  | inl bad ↦ cc (rw bad at e)
  | inr fits ↦ elim (Bool-cases (not (all_short_chars base && all_short_chars ext))) [
    | inl bad ↦ cc (rw (fits, bad) at e)
    | inr chars ↦ elim (Bool-cases ((case_flags base == 3) || (case_flags ext == 3))) [
      | inl bad ↦ cc (rw (fits, chars, bad) at e)
      | inr cases ↦
          let made =
            eq_of_ok (short_name base ext, case_bits base ext) (bytes, bits)
              (rw (fits, chars, cases) at e) in
          record {
            bytes_are = ap (λ p. p.0) made;
            bits_are = ap (λ p. p.1) made;
            fits_base = ground arith;
            fits_ext = ground arith;
            chars_base = ground arith;
            chars_ext = ground arith;
            cases_base = ground arith;
            cases_ext = ground arith;
          }
    ]
  ]
]

-- The name of an item that stores both parts.
Checked-name :
    (base ext bytes : List ℕ) (bits : ℕ) (item : Item)
    → Checked base ext bytes bits
    → take 11 item ≡ bytes
    → reserved item ≡ bits
    → fat16_get_short_name item ≡ base ++ shown_ext ext
unfolding fat16_get_short_name
Checked-name base ext bytes bits item k name_at bits_at =
    let plain_base = map-toupper-AllPlain base k.chars_base in
    let plain_ext = map-toupper-AllPlain ext k.chars_ext in
    let len_base = length-map toupper base in
    let len_ext = length-map toupper ext in
    let (lower, lower_ext) = bits_lem (case_flags base == 1) (case_flags ext == 1) in
    let whole : item ≡ pad 8 (map toupper base) ++ (pad 3 (map toupper ext) ++ drop 11 item) =
      sym (take-append-drop 11 item)
      ∙ ap (λ l. l ++ drop 11 item) (name_at ∙ sym k.bytes_are)
      ∙ append_assoc (pad 8 (map toupper base)) (pad 3 (map toupper ext)) (drop 11 item) in
    let full : fat16_get_full_relative_filename item
        ≡ map toupper base ++ shown_ext (map toupper ext) =
      ap fat16_get_full_relative_filename whole
      ∙ full_name (map toupper base) (map toupper ext) (drop 11 item) plain_base plain_ext
          (let f = k.fits_base in omega arith) (let f = k.fits_ext in omega arith) in
    rw (bits_at, ← k.bits_are, lower, lower_ext, full)
      (apply_case-append (case_flags base == 1) (case_flags ext == 1) base
          (shown_ext (map toupper ext)) plain_base
        ∙ ap₂ (λ (x y : List ℕ). x ++ y) (shown_lem base k.cases_base)
            (apply_case-shown_ext (case_flags base == 1) (case_flags ext == 1) ext plain_ext
              ∙ ap shown_ext (shown_lem ext k.cases_ext)))

-- The parts of a name.
last_dot-some :
    (name base ext : List ℕ) → last_dot name ≡ some (base, ext) → name ≡ base ++ (dot ∷ ext)
unfolding last_dot
last_dot-some [] base ext e = cc
last_dot-some (c ∷ cs) base ext e = elim (Option-cases (last_dot cs)) [
  | inl whole ↦ elim (Bool-cases (c == dot)) [
    | inl here ↦
        let parts = eq_of_some ([], cs) (base, ext) (rw (whole, last_dot, here) at e) in
        rw ((==_iff c dot).0 here)
          (ap₂ (λ (x y : List ℕ). x ++ (dot ∷ y)) (ap (λ p. p.0) parts) (ap (λ p. p.1) parts))
    | inr other ↦ cc (rw (whole, last_dot, other) at e)
  ]
  | inr ((base', ext'), later) ↦
      let parts = eq_of_some (c ∷ base', ext') (base, ext) (rw (later, last_dot) at e) in
      ap (λ l. c ∷ l) (last_dot-some cs base' ext' later)
      ∙ ap₂ (λ (x y : List ℕ). x ++ (dot ∷ y)) (ap (λ p. p.0) parts) (ap (λ p. p.1) parts)
]

check_parts-ext : (base bytes : List ℕ) (bits : ℕ) → check_parts base [] true ≢ ok (bytes, bits)
unfolding check_parts
check_parts-ext base bytes bits e = elim (Bool-cases (bad_lengths base [] true)) [
  | inl bad ↦ cc (rw bad at e)
  | inr fits ↦ ground arith
]

shown_parts :
    (base ext bytes : List ℕ) (bits : ℕ)
    → check_parts base ext true ≡ ok (bytes, bits)
    → shown_ext ext ≡ dot ∷ ext
shown_parts base [] bytes bits e = absurd (check_parts-ext base bytes bits e)
shown_parts base (c ∷ cs) bytes bits e = refl

-- A name for which `fat16_make_short_name` finds 8.3 bytes comes back from an item that stores these bytes
-- and the case bits: no letter, no case and no dot of it is lost.
pub fat16_get_short_name-fat16_make_short_name :
    (name bytes : List ℕ) (bits : ℕ) (item : Item)
    → fat16_make_short_name name ≡ ok (bytes, bits)
    → take 11 item ≡ bytes
    → reserved item ≡ bits
    → fat16_get_short_name item ≡ name
unfolding fat16_make_short_name
fat16_get_short_name-fat16_make_short_name name bytes bits item e name_at bits_at =
    elim (Option-cases (last_dot name)) [
      | inl whole ↦
          let k =
            check_parts-Checked name [] bytes bits false (rw (whole, fat16_make_short_name) at e) in
          Checked-name name [] bytes bits item k name_at bits_at ∙ append-nil name
      | inr ((base, ext), split) ↦
          let e' = rw (split, fat16_make_short_name) at e in
          let k = check_parts-Checked base ext bytes bits true e' in
          Checked-name base ext bytes bits item k name_at bits_at
          ∙ ap (λ l. base ++ l) (shown_parts base ext bytes bits e')
          ∙ sym (last_dot-some name base ext split)
    ]
