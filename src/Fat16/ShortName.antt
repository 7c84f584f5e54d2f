-- ===== src/Fat16/ShortName.antt =====
-- The 8.3 names of src/file_system/fat/fat16.c. A string is the list of its bytes without the terminator;
-- an 8.3 name is 11 bytes, padded by spaces.
pub mod Parts
pub mod Case
pub mod RoundTrip
mod Tests
use mo_os.Prelude.{
  ℕ, zero, suc, ◌+◌, ◌-◌, ◌*◌, ◌/◌, ◌%◌, bit_and, bit_or, Bool, true, false, not, ◌&&◌, ◌||◌,
  Option, none, some, List, [], ◌∷◌, ◌++◌, map, ltb, ◌==◌, if◌then◌else◌, length, get_or, take,
  drop, replicate,
}
use mo_os.Prelude.Status.{Result, invalid_path, ok, err}
use mo_os.Libc.{isupper, islower, isalnum, tolower, toupper}
use mo_os.Fat16.Volume.{Item}

abbrev pub name_lower_base : ℕ
name_lower_base = 0x08

abbrev pub name_lower_ext : ℕ
name_lower_ext = 0x10

abbrev pub space : ℕ
space = 0x20

abbrev pub dot : ℕ
dot = 0x2e

-- `fat16_to_proper_string`: up to a zero or a space, and at most `size` bytes.
pub fat16_to_proper_string : ℕ → List ℕ → List ℕ
fat16_to_proper_string zero bytes = []
fat16_to_proper_string (suc size) [] = []
fat16_to_proper_string (suc size) (c ∷ cs) =
    let rest = fat16_to_proper_string size cs in
    if not (c == 0x00) && not (c == space) then c ∷ rest else []

-- The name of an item, of which the first 8 bytes are `filename` and the next 3 are `ext`.
pub fat16_get_full_relative_filename : Item → List ℕ
fat16_get_full_relative_filename item =
    let first = get_or item 8 0 in
    fat16_to_proper_string 8 item
    ++ (if not (first == 0x00) && not (first == space)
        then dot ∷ fat16_to_proper_string 3 (drop 8 item)
        else [])

abbrev pub reserved : Item → ℕ
reserved item = get_or item 12 0

-- The loop of `fat16_get_short_name`: a dot switches to the case of the extension.
pub apply_case : Bool → Bool → List ℕ → List ℕ
apply_case lower lower_ext [] = []
apply_case lower lower_ext (c ∷ cs) =
    let rest = apply_case (if c == dot then lower_ext else lower) lower_ext cs in
    (if c == dot then c else if lower then tolower c else c) ∷ rest

pub fat16_get_short_name : Item → List ℕ
fat16_get_short_name item =
    apply_case (not (bit_and (reserved item) name_lower_base == 0))
      (not (bit_and (reserved item) name_lower_ext == 0)) (fat16_get_full_relative_filename item)

-- `"!#$%&'()-@^_`{}~"`.
abbrev pub allowed : List ℕ
allowed =
    b'!' ∷ b'#' ∷ b'$' ∷ b'%' ∷ b'&' ∷ 0x27 ∷ 0x28 ∷ 0x29 ∷ b'-' ∷ 0x40 ∷ b'^' ∷ b'_' ∷ 0x60 ∷ 0x7b
    ∷ 0x7d ∷ b'~' ∷ []

-- `strchr (s, c)` as a test.
abbrev pub contains : List ℕ → ℕ → Bool
contains [] c = false
contains (a ∷ as') c = (a == c) || contains as' c

abbrev pub is_short_char : ℕ → Bool
is_short_char c = isalnum c || contains allowed c

abbrev pub all_short_chars : List ℕ → Bool
all_short_chars [] = true
all_short_chars (c ∷ cs) = is_short_char c && all_short_chars cs

-- The name split at its last dot.
pub last_dot : List ℕ → Option (List ℕ × List ℕ)
last_dot [] = none
last_dot (c ∷ cs) = elim (last_dot cs) [
  | some (base, ext) ↦ some (c ∷ base, ext)
  | none ↦ if c == dot then some ([], cs) else none
]

abbrev pub pad : ℕ → List ℕ → List ℕ
pad n cs = cs ++ replicate (n - length cs) space

-- 1 for a small letter and 2 for a capital, in any place.
pub case_flags : List ℕ → ℕ
case_flags [] = 0
case_flags (c ∷ cs) = bit_or (if islower c then 1 else if isupper c then 2 else 0) (case_flags cs)

-- `fat16_make_short_name` for a base and an extension: the bytes, and the bits of `reserved`.
abbrev pub short_name : List ℕ → List ℕ → List ℕ
short_name base ext = pad 8 (map toupper base) ++ pad 3 (map toupper ext)

abbrev pub case_bits : List ℕ → List ℕ → ℕ
case_bits base ext =
    bit_or (if case_flags base == 1 then name_lower_base else 0)
      (if case_flags ext == 1 then name_lower_ext else 0)

abbrev pub bad_lengths : List ℕ → List ℕ → Bool → Bool
bad_lengths base ext dotted =
    (length base == 0) || ltb 8 (length base) || ltb 3 (length ext) || (dotted && (length ext == 0))

pub check_parts : List ℕ → List ℕ → Bool → Result (List ℕ × ℕ)
check_parts base ext dotted =
    if bad_lengths base ext dotted
    then err invalid_path
    else if not (all_short_chars base && all_short_chars ext)
    then err invalid_path
    else if (case_flags base == 3) || (case_flags ext == 3)
    then err invalid_path
    else ok (short_name base ext, case_bits base ext)

pub fat16_make_short_name : List ℕ → Result (List ℕ × ℕ)
fat16_make_short_name name = elim (last_dot name) [
  | none ↦ check_parts name [] false
  | some (base, ext) ↦ check_parts base ext true
]

pub checksum_from : ℕ → List ℕ → ℕ
checksum_from sum [] = sum
checksum_from sum (c ∷ cs) = checksum_from ((sum % 2 * 128 + sum / 2 + c) % 256) cs

pub fat16_short_name_checksum : List ℕ → ℕ
fat16_short_name_checksum name = checksum_from 0 (take 11 name)
