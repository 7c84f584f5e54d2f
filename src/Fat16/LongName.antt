-- ===== src/Fat16/LongName.antt =====
-- The long names of src/file_system/fat/fat16.c: the entries in front of an item that spell its name, and
-- the 8.3 alias of such a name.
pub mod Entries
pub mod RoundTrip
mod Tests
use mo_os.Prelude.{
  ℕ, zero, suc, ◌+◌, ◌-◌, ◌*◌, ◌/◌, ◌%◌, bit_and, bit_or, Bool, true, false, not, ◌&&◌, ◌||◌, none,
  some, List, [], ◌∷◌, ◌++◌, ltb, leb, ◌==◌, if◌then◌else◌, length, get_or, take,
}
use mo_os.Prelude.Status.{Result, file_exists, ok, err}
use mo_os.Libc.{toupper}
use mo_os.Fat16.Volume.{Item, u16_at, u16_bytes, Directory}
use mo_os.Fat16.ShortName.{
  space, dot, fat16_get_short_name, contains, is_short_char, last_dot, pad,
  fat16_short_name_checksum,
}

abbrev pub entry_deleted : ℕ
entry_deleted = 0xe5

abbrev pub file_long_name : ℕ
file_long_name = 0x0f

abbrev pub lfn_last : ℕ
lfn_last = 0x40

abbrev pub lfn_seq_mask : ℕ
lfn_seq_mask = 0x1f

abbrev pub lfn_chars : ℕ
lfn_chars = 13

abbrev pub lfn_max : ℕ
lfn_max = 63

abbrev pub first_byte : Item → ℕ
first_byte item = get_or item 0 0

abbrev pub attribute : Item → ℕ
attribute item = get_or item 11 0

abbrev pub item_at : Directory → ℕ → Item
item_at directory i = get_or directory.items i []

-- The fields of `struct fat_lfn_entry` in the bytes of an item.
abbrev pub entry_checksum : Item → ℕ
entry_checksum entry = get_or entry 13 0

abbrev pub lfn_offset : ℕ → ℕ
lfn_offset i =
    if ltb i 5 then 1 + 2 * i else if ltb i 11 then 14 + 2 * (i - 5) else 28 + 2 * (i - 11)

pub fat16_lfn_char : Item → ℕ → ℕ
fat16_lfn_char entry i = u16_at entry (lfn_offset i)

abbrev pub wrong_entry : Item → ℕ → ℕ → Bool
wrong_entry entry n checksum =
    not (attribute entry == file_long_name)
    || (first_byte entry == entry_deleted)
    || not (bit_and (first_byte entry) lfn_seq_mask == n)
    || not (entry_checksum entry == checksum)

-- The loop of `fat16_lfn_count` from `n` on, with the rounds that are left.
pub count_loop : ℕ → ℕ → Directory → ℕ → ℕ → ℕ
count_loop zero n directory idx checksum = 0
count_loop (suc rounds) n directory idx checksum =
    let entry = item_at directory (idx - n) in
    elim (leb n idx && not (wrong_entry entry n checksum)) [
      | false ↦ 0
      | true ↦ elim (bit_and (first_byte entry) lfn_last == 0) [
        | false ↦ n
        | true ↦ count_loop rounds (n + 1) directory idx checksum
      ]
    ]

pub fat16_lfn_count : Directory → ℕ → ℕ
fat16_lfn_count directory idx =
    count_loop lfn_seq_mask 1 directory idx (fat16_short_name_checksum (item_at directory idx))

-- The two loops of `fat16_get_item_name` as one, over the place `at` in the name.
pub name_loop : ℕ → ℕ → Directory → ℕ → ℕ → List ℕ
name_loop zero at directory idx max_len = []
name_loop (suc rounds) at directory idx max_len =
    let c = fat16_lfn_char (item_at directory (idx - (at / lfn_chars + 1))) (at % lfn_chars) in
    let rest = name_loop rounds (at + 1) directory idx max_len in
    if (c == 0) || (c == 0xffff) || (at == max_len - 1)
    then []
    else (if ltb c 0x80 then c else b'?') ∷ rest

pub fat16_get_item_name : Directory → ℕ → ℕ → List ℕ
fat16_get_item_name directory idx max_len =
    let count = fat16_lfn_count directory idx in
    if count == 0
    then fat16_get_short_name (item_at directory idx)
    else name_loop (count * lfn_chars) 0 directory idx max_len

-- `"\"*/:<>?\\|"`.
abbrev pub forbidden : List ℕ
forbidden = 0x22 ∷ b'*' ∷ b'/' ∷ b':' ∷ b'<' ∷ b'>' ∷ b'?' ∷ 0x5c ∷ b'|' ∷ []

abbrev pub is_long_char : ℕ → Bool
is_long_char c = not (ltb c 0x20 || ltb 0x7e c || contains forbidden c)

abbrev pub all_long_chars : List ℕ → Bool
all_long_chars [] = true
all_long_chars (c ∷ cs) = is_long_char c && all_long_chars cs

pub fat16_valid_long_name : List ℕ → Bool
fat16_valid_long_name name =
    let len = length name in
    let last = get_or name (len - 1) 0 in
    not ((len == 0) || ltb lfn_max len || (last == dot) || (last == space)) && all_long_chars name

-- The unit of the name in place `at`: a byte, the end, or what fills the rest.
abbrev pub name_unit : List ℕ → ℕ → ℕ
name_unit name at =
    if ltb at (length name) then get_or name at 0 else if at == length name then 0x0000 else 0xffff

-- Entry `n` of `count`, as `fat16_create_item` fills it.
pub lfn_entry : ℕ → ℕ → ℕ → List ℕ → Item
lfn_entry n count checksum name =
    let unit = λ (i : ℕ). u16_bytes (name_unit name ((n - 1) * lfn_chars + i)) in
    bit_or n (if n == count then lfn_last else 0)
    ∷ (unit 0
        ++ (unit 1
            ++ (unit 2
                ++ (unit 3
                    ++ (unit 4
                        ++ (file_long_name
                            ∷ 0
                            ∷ checksum
                            ∷ (unit 5
                                ++ (unit 6
                                    ++ (unit 7
                                        ++ (unit 8
                                            ++ (unit 9
                                                ++ (unit 10
                                                    ++ (0 ∷ 0 ∷ (unit 11 ++ unit 12))))))))))))))

abbrev pub lfn_count_of : List ℕ → ℕ
lfn_count_of name = (length name + lfn_chars - 1) / lfn_chars

-- The entries in the order of the disk: the one with the end of the name first.
pub lfn_entries : ℕ → ℕ → ℕ → List ℕ → List Item
lfn_entries zero count checksum name = []
lfn_entries (suc n) count checksum name =
    lfn_entry (suc n) count checksum name ∷ lfn_entries n count checksum name

-- `memcmp` of two names is 0.
pub same_bytes : List ℕ → List ℕ → Bool
same_bytes [] [] = true
same_bytes (a ∷ as') (b ∷ bs) = let rest = same_bytes as' bs in if a == b then rest else false
same_bytes _ _ = false

-- `fat16_short_name_taken`.
abbrev pub has_short_name : List ℕ → Item → Bool
has_short_name short item =
    not (first_byte item == entry_deleted)
    && not (attribute item == file_long_name)
    && same_bytes (take 11 item) short

pub taken_loop : ℕ → ℕ → Directory → List ℕ → Bool
taken_loop zero i directory short = false
taken_loop (suc rounds) i directory short =
    let rest = taken_loop rounds (i + 1) directory short in
    if has_short_name short (item_at directory i) then true else rest

pub fat16_short_name_taken : Directory → List ℕ → Bool
fat16_short_name_taken directory short = taken_loop directory.total 0 directory short

-- The loops of `fat16_make_alias` over the base and the extension, with the room that is left.
abbrev pub alias_char : ℕ → ℕ
alias_char c = if is_short_char c then toupper c else b'_'

pub alias_part : Bool → ℕ → List ℕ → List ℕ
alias_part skip_dots room [] = []
alias_part skip_dots zero (c ∷ cs) = []
alias_part skip_dots (suc room) (c ∷ cs) =
    let skipped = alias_part skip_dots (suc room) cs in
    let kept = alias_part skip_dots room cs in
    if (c == space) || (skip_dots && (c == dot)) then skipped else alias_char c ∷ kept

-- A leading dot is not that of an extension.
abbrev pub alias_split : List ℕ → List ℕ × List ℕ
alias_split name = elim (last_dot name) [
  | none ↦ (name, [])
  | some (base, ext) ↦ if length base == 0 then (name, []) else (base, ext)
]

abbrev pub or_underscore : List ℕ → List ℕ
or_underscore [] = b'_' ∷ []
or_underscore (c ∷ cs) = c ∷ cs

pub alias_suffix : ℕ → List ℕ
alias_suffix n =
    b'~'
    ∷ ((if leb 100 n then (b'0' + n / 100) ∷ [] else [])
        ++ ((if leb 10 n then (b'0' + n / 10 % 10) ∷ [] else []) ++ ((b'0' + n % 10) ∷ [])))

pub alias_bytes : List ℕ → List ℕ → ℕ → List ℕ
alias_bytes base ext n =
    let suffix = alias_suffix n in pad 8 (take (8 - length suffix) base ++ suffix) ++ pad 3 ext

pub alias_loop : ℕ → ℕ → Directory → List ℕ → List ℕ → Result (List ℕ)
alias_loop zero n directory base ext = err file_exists
alias_loop (suc rounds) n directory base ext =
    let rest = alias_loop rounds (n + 1) directory base ext in
    if fat16_short_name_taken directory (alias_bytes base ext n)
    then rest
    else ok (alias_bytes base ext n)

pub fat16_make_alias : Directory → List ℕ → Result (List ℕ)
fat16_make_alias directory name =
    let (base, ext) = alias_split name in
    alias_loop 999 1 directory (or_underscore (alias_part true 8 base)) (alias_part false 3 ext)
