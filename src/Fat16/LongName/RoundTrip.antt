-- ===== src/Fat16/LongName/RoundTrip.antt =====
-- Long names of src/file_system/fat/fat16.c: the entries that are made of a name, read again.
use mo_os.Prelude.{
  ℕ, zero, suc, ◌+◌, ◌-◌, ◌*◌, ◌/◌, ◌%◌, ◌≤◌, ◌<◌, ◌≡◌, refl, sym, ap, ap₂, ◌∙◌, inl, inr, true,
  false, ◌||◌, List, [], ◌∷◌, ◌++◌, arith, ltb, leb, ◌==◌, lt→ltb, ==_iff, Bool-cases, length,
  get_or, drop,
}
use mo_os.Fat16.Volume.{Item, Directory}
use mo_os.Fat16.ShortName.{fat16_short_name_checksum}
use mo_os.Fat16.LongName.{
  lfn_chars, lfn_max, item_at, fat16_lfn_char, count_loop, fat16_lfn_count, name_loop,
  fat16_get_item_name, all_long_chars, fat16_valid_long_name, name_unit, lfn_entry, lfn_count_of,
  lfn_entries,
}
use mo_os.Fat16.LongName.Entries.{
  AllAscii, get_or-AllAscii, get_or_pos, fat16_lfn_char-lfn_entry, drop_all, drop_next, right_entry,
}

-- In front of item `idx` stand the entries of the name, the one with its start next to the item.
pub record Spells (directory : Directory) (idx : ℕ) (name : List ℕ) : Type 0 where
  pub ascii : AllAscii name
  pub some_chars : 0 < length name
  pub few_chars : length name ≤ lfn_max
  pub room : lfn_count_of name ≤ idx
  pub entries :
      (n : ℕ)
      → 0 < n
      → n ≤ lfn_count_of name
      → item_at directory (idx - n)
        ≡ lfn_entry n (lfn_count_of name) (fat16_short_name_checksum (item_at directory idx)) name

module _ (directory : Directory) (idx : ℕ) (name : List ℕ)
    (spells : Spells directory idx name) where
  count_loop-Spells :
      (rounds n : ℕ)
      → 0 < n
      → n ≤ lfn_count_of name
      → rounds + n ≡ 32
      → count_loop rounds n directory idx (fat16_short_name_checksum (item_at directory idx))
        ≡ lfn_count_of name
  unfolding count_loop
  count_loop-Spells zero n pos le all = absurd (let few = spells.few_chars in omega arith)
  count_loop-Spells (suc rounds) n pos le all =
      let few = spells.few_chars in
      let room = spells.room in
      let checksum = fat16_short_name_checksum (item_at directory idx) in
      let (right, mark) = right_entry n (lfn_count_of name) checksum name pos (omega arith) in
      let near : leb n idx ≡ true = ground arith in
      rw (spells.entries n pos le, count_loop)
        (rw (near, right, spells.entries n pos le, mark)
          (elim (Bool-cases (n == lfn_count_of name)) [
            | inl h ↦ rw h ((==_iff n (lfn_count_of name)).0 h)
            | inr h ↦
                rw h (count_loop-Spells rounds (n + 1) (omega arith) (ground arith) (omega arith))
          ]))

  count_loop_pos : 0 < lfn_count_of name
  count_loop_pos = let some_chars = spells.some_chars in omega arith

  fat16_lfn_count-Spells : fat16_lfn_count directory idx ≡ lfn_count_of name
  unfolding fat16_lfn_count
  fat16_lfn_count-Spells = count_loop-Spells 31 1 (omega arith) count_loop_pos (omega arith)

  -- The unit in place `at` of the name is read from its entry.
  unit_at :
      (at : ℕ)
      → at < lfn_count_of name * lfn_chars
      → fat16_lfn_char (item_at directory (idx - (at / lfn_chars + 1))) (at % lfn_chars)
        ≡ name_unit name at
  unit_at at lt =
      let n = at / lfn_chars + 1 in
      let place : (n - 1) * lfn_chars + at % lfn_chars ≡ at = omega arith in
      rw (spells.entries n (omega arith) (omega arith)) (
        fat16_lfn_char-lfn_entry n (lfn_count_of name)
          (fat16_short_name_checksum (item_at directory idx)) name (at % lfn_chars) spells.ascii
          (omega arith)
        ∙ ap (λ (x : ℕ). name_unit name x) place)

  name_loop-Spells :
      (rounds at max_len : ℕ)
      → rounds + at ≡ lfn_count_of name * lfn_chars
      → at ≤ length name
      → length name < max_len
      → name_loop rounds at directory idx max_len ≡ drop at name
  unfolding name_loop
  name_loop-Spells zero at max_len all le fits =
      let len : at ≡ length name = omega arith in sym (drop_all name at (omega arith))
  name_loop-Spells (suc rounds) at max_len all le fits = elim (Bool-cases (at == length name)) [
    | inl h ↦
        let e = (==_iff at (length name)).0 h in
        let ended : (name_unit name at == 0) ≡ true = ground arith in
        rw (unit_at at (omega arith), name_loop) (rw ended (sym (drop_all name at (omega arith))))
    | inr h ↦
        let lt : at < length name = ground arith in
        let above = get_or_pos name at spells.ascii lt in
        let below = get_or-AllAscii name at spells.ascii in
        let unit : name_unit name at ≡ get_or name at 0 = ground arith in
        let go_on : ((get_or name at 0 == 0) || (get_or name at 0 == 0xffff) || (at == max_len - 1))
            ≡ false =
          ground arith in
        let plain : ltb (get_or name at 0) 0x80 ≡ true = lt→ltb (get_or name at 0) 0x80 below in
        rw (unit_at at (omega arith) ∙ unit, name_loop)
          (rw (go_on, plain)
            (ap (λ l. get_or name at 0 ∷ l)
                (name_loop-Spells rounds (at + 1) max_len (omega arith) (omega arith) fits)
              ∙ sym (drop_next name at lt)))
  ]

  pub fat16_get_item_name-Spells :
      (max_len : ℕ)
      → length name < max_len
      → (fat16_get_item_name directory idx max_len ≡ name)
        × (fat16_lfn_count directory idx ≡ lfn_count_of name)
  unfolding fat16_get_item_name
  fat16_get_item_name-Spells max_len fits =
      let some_entries : (lfn_count_of name == 0) ≡ false =
        let pos = count_loop_pos in ground arith in
      (
        rw (fat16_lfn_count-Spells, some_entries)
            (name_loop-Spells (lfn_count_of name * lfn_chars) 0 max_len (omega arith) (omega arith)
              fits),
        fat16_lfn_count-Spells,
      )

valid-AllAscii : (name : List ℕ) → all_long_chars name ≡ true → AllAscii name
valid-AllAscii [] h = tt
valid-AllAscii (c ∷ cs) h = (ground arith, ground arith, valid-AllAscii cs (ground arith))

get_or-append_left :
    (xs ys : List Item) (i : ℕ) → get_or (xs ++ ys) (length xs + i) [] ≡ get_or ys i []
get_or-append_left [] ys i = ap (λ (k : ℕ). get_or ys k []) (omega arith)
get_or-append_left (x ∷ xs) ys i =
    let next : suc (length xs) + i ≡ suc (length xs + i) = omega arith in
    rw next (get_or-append_left xs ys i)

-- The entries count down to 1, next to the item.
get_or-lfn_entries :
    (n i count checksum : ℕ) (name : List ℕ) (rest : List Item)
    → i < n
    → get_or (lfn_entries n count checksum name ++ rest) i []
      ≡ lfn_entry (n - i) count checksum name
unfolding lfn_entries
get_or-lfn_entries zero i count checksum name rest lt = absurd (omega arith)
get_or-lfn_entries (suc n) zero count checksum name rest lt =
    ap (λ (k : ℕ). lfn_entry k count checksum name) (omega arith)
get_or-lfn_entries (suc n) (suc i) count checksum name rest lt =
    get_or-lfn_entries n i count checksum name rest (omega arith)
    ∙ ap (λ (k : ℕ). lfn_entry k count checksum name) (omega arith)

length-lfn_entries :
    (n count checksum : ℕ) (name : List ℕ) → length (lfn_entries n count checksum name) ≡ n
unfolding lfn_entries
length-lfn_entries zero count checksum name = refl
length-lfn_entries (suc n) count checksum name = ap suc (length-lfn_entries n count checksum name)

-- A directory that has the entries of the name, and then the item.
abbrev pub spelled_out : List Item → List ℕ → Item → List Item → List Item
spelled_out before name item after =
    before
    ++ (lfn_entries (lfn_count_of name) (lfn_count_of name) (fat16_short_name_checksum item) name
        ++ (item ∷ after))

spelled_out-item :
    (before after : List Item) (name : List ℕ) (item : Item)
    → get_or (spelled_out before name item after) (length before + lfn_count_of name) [] ≡ item
spelled_out-item before after name item =
    let count = lfn_count_of name in
    let entries = lfn_entries count count (fat16_short_name_checksum item) name in
    let len = length-lfn_entries count count (fat16_short_name_checksum item) name in
    get_or-append_left before (entries ++ (item ∷ after)) count
    ∙ ap (λ (k : ℕ). get_or (entries ++ (item ∷ after)) k []) (omega arith)
    ∙ get_or-append_left entries (item ∷ after) 0

spelled_out-Spells :
    (directory : Directory) (before after : List Item) (name : List ℕ) (item : Item)
    → directory.items ≡ spelled_out before name item after
    → fat16_valid_long_name name ≡ true
    → Spells directory (length before + lfn_count_of name) name
unfolding fat16_valid_long_name
spelled_out-Spells directory before after name item items valid =
    let count = lfn_count_of name in
    let checksum = fat16_short_name_checksum item in
    let here =
      ap (λ l. get_or l (length before + count) []) items
      ∙ spelled_out-item before after name item in
    record {
      ascii = valid-AllAscii name (ground arith);
      some_chars = ground arith;
      few_chars = ground arith;
      room = omega arith;
      entries = λ n pos le.
          let place : length before + count - n ≡ length before + (count - n) = omega arith in
          let back : count - (count - n) ≡ n = omega arith in
          ap₂ (λ l (k : ℕ). get_or l k []) items place
          ∙ get_or-append_left before _ (count - n)
          ∙ get_or-lfn_entries count (count - n) count checksum name (item ∷ after) (omega arith)
          ∙ ap₂ (λ (k : ℕ) (i : Item). lfn_entry k count (fat16_short_name_checksum i) name) back
              (sym here);
    }

-- A directory with the entries that are made of a valid long name, and then any item, gives the name back
-- for this item, into a buffer with room for the name and its end; `fat16_lfn_count` finds just these
-- entries, whatever stands before them.
pub fat16_get_item_name-lfn_entries :
    (directory : Directory) (before after : List Item) (name : List ℕ) (item : Item) (max_len : ℕ)
    → directory.items ≡ spelled_out before name item after
    → fat16_valid_long_name name ≡ true
    → length name < max_len
    → (fat16_get_item_name directory (length before + lfn_count_of name) max_len ≡ name)
      × (fat16_lfn_count directory (length before + lfn_count_of name) ≡ lfn_count_of name)
fat16_get_item_name-lfn_entries directory before after name item max_len items valid fits =
    fat16_get_item_name-Spells directory (length before + lfn_count_of name) name
      (spelled_out-Spells directory before after name item items valid) max_len fits
