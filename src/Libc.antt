-- ===== src/Libc.antt =====
-- src/libc/ctype/ctype.c and the memory functions of src/libc/string/string.c. A character is an int32_t
-- as its bit pattern; memory is a function from addresses to bytes.
pub mod Memory
pub mod Ctype
mod Tests
use mo_os.Prelude.{
  ℕ, zero, suc, ◌+◌, ◌-◌, ◌%◌, Bool, not, ◌&&◌, ◌||◌, Option, none, some, ltb, leb, ◌==◌,
  if◌then◌else◌,
}

abbrev pub isdigit : ℕ → Bool
isdigit c = leb b'0' c && leb c b'9'

abbrev pub isupper : ℕ → Bool
isupper c = leb b'A' c && leb c b'Z'

abbrev pub islower : ℕ → Bool
islower c = leb b'a' c && leb c b'z'

abbrev pub isalpha : ℕ → Bool
isalpha c = isupper c || islower c

abbrev pub isalnum : ℕ → Bool
isalnum c = isdigit c || isalpha c

abbrev pub iscntrl : ℕ → Bool
iscntrl c = leb c 31 || (c == 127)

abbrev pub isgraph : ℕ → Bool
isgraph c = leb 33 c && leb c 126

abbrev pub isprint : ℕ → Bool
isprint c = leb 32 c && leb c 126

abbrev pub ispunct : ℕ → Bool
ispunct c = isgraph c && not (isalnum c)

abbrev pub isspace : ℕ → Bool
isspace c = (c == 0x20) || leb 9 c && leb c 13

abbrev pub isxdigit : ℕ → Bool
isxdigit c = isdigit c || leb b'a' c && leb c b'f' || leb b'A' c && leb c b'F'

abbrev pub tolower : ℕ → ℕ
tolower c = if isupper c then c + 32 else c

abbrev pub toupper : ℕ → ℕ
toupper c = if islower c then c - 32 else c

abbrev pub Bytes : Type 0
Bytes = ℕ → ℕ

abbrev pub store : ℕ → ℕ → Bytes → Bytes
store a v m b = if b == a then v else m b

-- The loop of `memcpy`, and the one of `memmove` upwards, from byte `i` on.
pub copy_up : ℕ → ℕ → ℕ → ℕ → Bytes → Bytes
copy_up zero i dest src m = m
copy_up (suc rounds) i dest src m =
    copy_up rounds (i + 1) dest src (store (dest + i) (m (src + i)) m)

-- The loop of `memmove` downwards.
pub copy_down : ℕ → ℕ → ℕ → Bytes → Bytes
copy_down zero dest src m = m
copy_down (suc i) dest src m = copy_down i dest src (store (dest + i) (m (src + i)) m)

pub memcpy : ℕ → ℕ → ℕ → Bytes → Bytes
memcpy dest src n m = copy_up n 0 dest src m

pub memmove : ℕ → ℕ → ℕ → Bytes → Bytes
memmove dest src n m = if ltb dest src then copy_up n 0 dest src m else copy_down n dest src m

pub set_loop : ℕ → ℕ → ℕ → ℕ → Bytes → Bytes
set_loop zero i p c m = m
set_loop (suc rounds) i p c m = set_loop rounds (i + 1) p c (store (p + i) (c % 256) m)

pub memset : ℕ → ℕ → ℕ → Bytes → Bytes
memset p c n m = set_loop n 0 p c m

-- The result of `memcmp`; `less` is -1.
pub data Sign : Type 0 where
  less same greater : Sign

pub compare_loop : ℕ → ℕ → ℕ → Bytes → Sign
compare_loop zero p q m = same
compare_loop (suc n) p q m =
    let rest = compare_loop n (p + 1) (q + 1) m in
    if not (m p == m q) then if ltb (m q) (m p) then greater else less else rest

pub memcmp : ℕ → ℕ → ℕ → Bytes → Sign
memcmp p q n m = if p == q then same else compare_loop n p q m

-- `none` is a null pointer.
pub find_byte : ℕ → ℕ → ℕ → Bytes → Option ℕ
find_byte zero p c m = none
find_byte (suc n) p c m =
    let rest = find_byte n (p + 1) c m in if m p == c % 256 then some p else rest

pub memchr : ℕ → ℕ → ℕ → Bytes → Option ℕ
memchr p c n m = if p == 0 then none else find_byte n p c m
