-- ===== src/Fat16/LongName/Entries.antt =====
-- The fields of a long name entry in src/file_system/fat/fat16.c.
use mo_os.Prelude.{
  ℕ, zero, suc, ◌+◌, ◌-◌, ◌*◌, ◌≤◌, ◌<◌, bit_and, bit_or, ◌≡◌, refl, ◌∙◌, inl, inr, true, false,
  not, List, [], ◌∷◌, arith, ◌==◌, Bool-cases, ==_refl, length, get_or, drop,
}
use mo_os.Fat16.Volume.{u16_at, u16_bytes}
use mo_os.Fat16.LongName.{
  entry_deleted, lfn_last, lfn_seq_mask, lfn_chars, first_byte, fat16_lfn_char, wrong_entry,
  name_unit, lfn_entry,
}

abbrev pub AllAscii : List ℕ → Type 0
AllAscii [] = Unit {0}
AllAscii (c ∷ cs) = (0 < c) × (c < 0x80) × AllAscii cs

-- The sequence number and the mark of the last entry share a byte.
seq_last :
    (n : ℕ)
    → 0 < n
    → n ≤ 5
    → (bit_and (bit_or n lfn_last) lfn_seq_mask ≡ n)
      × ((bit_and (bit_or n lfn_last) lfn_last == 0) ≡ false)
      × ((bit_or n lfn_last == entry_deleted) ≡ false)
seq_last zero pos le = absurd (omega arith)
seq_last (suc zero) pos le = (refl, refl, refl)
seq_last (suc (suc zero)) pos le = (refl, refl, refl)
seq_last (suc (suc (suc zero))) pos le = (refl, refl, refl)
seq_last (suc (suc (suc (suc zero)))) pos le = (refl, refl, refl)
seq_last (suc (suc (suc (suc (suc zero))))) pos le = (refl, refl, refl)
seq_last (suc (suc (suc (suc (suc (suc n)))))) pos le = absurd (omega arith)

seq_more :
    (n : ℕ)
    → 0 < n
    → n ≤ 5
    → (bit_and (bit_or n 0) lfn_seq_mask ≡ n)
      × ((bit_and (bit_or n 0) lfn_last == 0) ≡ true)
      × ((bit_or n 0 == entry_deleted) ≡ false)
seq_more zero pos le = absurd (omega arith)
seq_more (suc zero) pos le = (refl, refl, refl)
seq_more (suc (suc zero)) pos le = (refl, refl, refl)
seq_more (suc (suc (suc zero))) pos le = (refl, refl, refl)
seq_more (suc (suc (suc (suc zero)))) pos le = (refl, refl, refl)
seq_more (suc (suc (suc (suc (suc zero))))) pos le = (refl, refl, refl)
seq_more (suc (suc (suc (suc (suc (suc n)))))) pos le = absurd (omega arith)

pub get_or-AllAscii : (name : List ℕ) (at : ℕ) → AllAscii name → get_or name at 0 < 0x80
get_or-AllAscii [] at ascii = omega arith
get_or-AllAscii (c ∷ cs) zero ascii = ascii.1
get_or-AllAscii (c ∷ cs) (suc at) ascii = get_or-AllAscii cs at ascii.2

pub get_or_pos : (name : List ℕ) (at : ℕ) → AllAscii name → at < length name → 0 < get_or name at 0
get_or_pos [] at ascii lt = absurd (omega arith)
get_or_pos (c ∷ cs) zero ascii lt = ascii.0
get_or_pos (c ∷ cs) (suc at) ascii lt = get_or_pos cs at ascii.2 (omega arith)

name_unit_bound : (name : List ℕ) (at : ℕ) → AllAscii name → name_unit name at < 0x10000
name_unit_bound name at ascii = ground (arith, get_or-AllAscii name at ascii)

u16_lem : (c : ℕ) → c < 0x10000 → u16_at (u16_bytes c) 0 ≡ c
u16_lem c lt = omega arith

-- Each of the 13 units of an entry is read where it was written.
pub fat16_lfn_char-lfn_entry :
    (n count checksum : ℕ) (name : List ℕ) (i : ℕ)
    → AllAscii name
    → i < 13
    → fat16_lfn_char (lfn_entry n count checksum name) i ≡ name_unit name ((n - 1) * lfn_chars + i)
unfolding fat16_lfn_char lfn_entry
fat16_lfn_char-lfn_entry n count checksum name zero ascii lt =
    u16_lem _ (name_unit_bound name _ ascii)
fat16_lfn_char-lfn_entry n count checksum name (suc zero) ascii lt =
    u16_lem _ (name_unit_bound name _ ascii)
fat16_lfn_char-lfn_entry n count checksum name (suc (suc zero)) ascii lt =
    u16_lem _ (name_unit_bound name _ ascii)
fat16_lfn_char-lfn_entry n count checksum name (suc (suc (suc zero))) ascii lt =
    u16_lem _ (name_unit_bound name _ ascii)
fat16_lfn_char-lfn_entry n count checksum name (suc (suc (suc (suc zero)))) ascii lt =
    u16_lem _ (name_unit_bound name _ ascii)
fat16_lfn_char-lfn_entry n count checksum name (suc (suc (suc (suc (suc zero))))) ascii lt =
    u16_lem _ (name_unit_bound name _ ascii)
fat16_lfn_char-lfn_entry n count checksum name (suc (suc (suc (suc (suc (suc zero)))))) ascii lt =
    u16_lem _ (name_unit_bound name _ ascii)
fat16_lfn_char-lfn_entry n count checksum name (suc (suc (suc (suc (suc (suc (suc zero))))))) ascii
      lt =
    u16_lem _ (name_unit_bound name _ ascii)
fat16_lfn_char-lfn_entry n count checksum name (suc (suc (suc (suc (suc (suc (suc (suc zero))))))))
      ascii lt =
    u16_lem _ (name_unit_bound name _ ascii)
fat16_lfn_char-lfn_entry n count checksum name
      (suc (suc (suc (suc (suc (suc (suc (suc (suc zero))))))))) ascii lt =
    u16_lem _ (name_unit_bound name _ ascii)
fat16_lfn_char-lfn_entry n count checksum name
      (suc (suc (suc (suc (suc (suc (suc (suc (suc (suc zero)))))))))) ascii lt =
    u16_lem _ (name_unit_bound name _ ascii)
fat16_lfn_char-lfn_entry n count checksum name
      (suc (suc (suc (suc (suc (suc (suc (suc (suc (suc (suc zero))))))))))) ascii lt =
    u16_lem _ (name_unit_bound name _ ascii)
fat16_lfn_char-lfn_entry n count checksum name
      (suc (suc (suc (suc (suc (suc (suc (suc (suc (suc (suc (suc zero)))))))))))) ascii lt =
    u16_lem _ (name_unit_bound name _ ascii)
fat16_lfn_char-lfn_entry n count checksum name
      (suc (suc (suc (suc (suc (suc (suc (suc (suc (suc (suc (suc (suc i))))))))))))) ascii lt =
    absurd (omega arith)

pub drop_all : (xs : List ℕ) (n : ℕ) → length xs ≤ n → drop n xs ≡ []
drop_all [] zero le = refl
drop_all [] (suc n) le = refl
drop_all (x ∷ xs) zero le = absurd (omega arith)
drop_all (x ∷ xs) (suc n) le = drop_all xs n (omega arith)

pub drop_next : (xs : List ℕ) (n : ℕ) → n < length xs → drop n xs ≡ get_or xs n 0 ∷ drop (n + 1) xs
drop_next [] n lt = absurd (omega arith)
drop_next (x ∷ xs) zero lt = refl
drop_next (x ∷ xs) (suc n) lt =
    let count : suc n + 1 ≡ suc (n + 1) = omega arith in
    drop_next xs n (omega arith) ∙ rw count refl

-- The entry is accepted, and only the last one is marked.
pub right_entry :
    (n count checksum : ℕ) (name : List ℕ)
    → 0 < n
    → n ≤ 5
    → (wrong_entry (lfn_entry n count checksum name) n checksum ≡ false)
      × ((bit_and (first_byte (lfn_entry n count checksum name)) lfn_last == 0) ≡ not (n == count))
unfolding lfn_entry
right_entry n count checksum name pos le = elim (Bool-cases (n == count)) [
  | inl h ↦
      let (number, marked, present) = seq_last n pos le in
      rw (h, present, number, ==_refl n, ==_refl checksum) (refl, marked)
  | inr h ↦
      let (number, marked, present) = seq_more n pos le in
      rw (h, present, number, ==_refl n, ==_refl checksum) (refl, marked)
]
