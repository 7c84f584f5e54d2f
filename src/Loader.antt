-- ===== src/Loader.antt =====
-- The loader of programs, src/kernel/task/elf.c. The file is the list of its bytes, and a read outside of
-- it has no value. The callback `copy` and what it changes are arguments.
pub mod Safe
pub mod HeapStart
mod Tests
use mo_os.Prelude.{
  ℕ, zero, suc, ◌+◌, ◌-◌, ◌*◌, ◌/◌, Bool, true, false, not, ◌&&◌, ◌||◌, Option, none, some, List,
  ltb, leb, ◌==◌, if◌then◌else◌, length, get_or, take, drop,
}
use mo_os.Prelude.Status.{Result, invalid_arg, ok, err}
use mo_os.Prelude.Word.{add32, sub32, mul32}
use mo_os.Disk.{u32_at}
use mo_os.Fat16.Volume.{u16_at}
use mo_os.Heap.{tests_bit}
use mo_os.Kernel.{Task}

pub record ElfHeader : Type 0 where
  pub ident : List ℕ
  pub type : ℕ
  pub machine : ℕ
  pub entry : ℕ
  pub phoff : ℕ
  pub phentsize : ℕ
  pub phnum : ℕ

pub record ProgramHeader : Type 0 where
  pub segment_type : ℕ
  pub offset : ℕ
  pub vaddr : ℕ
  pub filesz : ℕ
  pub memsz : ℕ
  pub segment_flags : ℕ

abbrev pub elf_header_size : ℕ
elf_header_size = 52

abbrev pub program_header_size : ℕ
program_header_size = 32

-- The bytes of a range of the file, where they are in it.
unfoldable pub file_window : List ℕ → ℕ → ℕ → Option (List ℕ)
file_window buf offset len =
    if leb (offset + len) (length buf) then some (take len (drop offset buf)) else none

abbrev pub elf_header_of : List ℕ → ElfHeader
elf_header_of bytes = record {
  ident = take 16 bytes;
  type = u16_at bytes 16;
  machine = u16_at bytes 18;
  entry = u32_at bytes 24;
  phoff = u32_at bytes 28;
  phentsize = u16_at bytes 42;
  phnum = u16_at bytes 44;
}

abbrev pub program_header_of : List ℕ → ProgramHeader
program_header_of bytes = record {
  segment_type = u32_at bytes 0;
  offset = u32_at bytes 4;
  vaddr = u32_at bytes 8;
  filesz = u32_at bytes 16;
  memsz = u32_at bytes 20;
  segment_flags = u32_at bytes 24;
}

-- "\x7fELF", ELF_CLASS_32 and ELF_DATA_LSB.
abbrev pub is_elf32 : List ℕ → Bool
is_elf32 ident =
    (get_or ident 0 0 == 0x7f)
    && (get_or ident 1 0 == b'E')
    && (get_or ident 2 0 == b'L')
    && (get_or ident 3 0 == b'F')
    && (get_or ident 4 0 == 1)
    && (get_or ident 5 0 == 1)

abbrev pub is_executable : ElfHeader → Bool
is_executable h =
    is_elf32 h.ident && (h.type == 2) && (h.machine == 3) && (h.phentsize == program_header_size)

abbrev pub table_end : ElfHeader → ℕ
table_end h = add32 h.phoff (mul32 h.phnum program_header_size)

-- `none` is a read outside of the file.
abbrev pub validate : ℕ → ElfHeader → Result ElfHeader
validate size h =
    if not (is_executable h) || (ltb (table_end h) h.phoff || ltb size (table_end h))
    then err invalid_arg
    else ok h

abbrev pub elf_validate_header : List ℕ → Option (Result ElfHeader)
elf_validate_header buf =
    if ltb (length buf) elf_header_size
    then some (err invalid_arg)
    else elim (file_window buf 0 elf_header_size) [
      | none ↦ none
      | some bytes ↦ some (validate (length buf) (elf_header_of bytes))
    ]

abbrev pub is_skipped : ProgramHeader → Bool
is_skipped ph = not (ph.segment_type == 1) || (ph.memsz == 0)

abbrev pub segment_end : ProgramHeader → ℕ
segment_end ph = add32 ph.vaddr ph.memsz

abbrev pub is_outside : ℕ → ℕ → ℕ → ProgramHeader → Bool
is_outside size min_addr max_addr ph =
    let file_end = add32 ph.offset ph.filesz in
    ltb ph.vaddr min_addr
    || (ltb max_addr (segment_end ph)
        || (ltb (segment_end ph) ph.vaddr
            || (ltb ph.memsz ph.filesz || (ltb size file_end || ltb file_end ph.offset))))

abbrev pub is_writable : ProgramHeader → Bool
is_writable ph = tests_bit ph.segment_flags 2

-- Does the segment hold the entry?
abbrev pub has_entry : ℕ → ProgramHeader → Bool
has_entry entry ph = leb ph.vaddr entry && ltb entry (segment_end ph)

-- The end of the image, and whether the entry was loaded.
abbrev pub Image : Type 0
Image = ℕ × Bool

abbrev pub with_segment : ℕ → ProgramHeader → Image → Image
with_segment entry ph (end, entry_loaded) =
    ((if ltb end (segment_end ph) then segment_end ph else end), has_entry entry ph || entry_loaded)

-- The entry and the end of a whole image.
abbrev pub image_of : ℕ → Image → Result (ℕ × ℕ)
image_of entry (end, entry_loaded) = if entry_loaded then ok (entry, end) else err invalid_arg

-- `copy vaddr src len writable`, where `src` is an offset in the file or none.
abbrev pub Copy {ℓ} : Type ℓ → Type ℓ
Copy S = ℕ → Option ℕ → ℕ → Bool → S → Result (Unit {0}) × S

module _ {ℓ} {S : Type ℓ} (copy : Copy S) where
  abbrev pub copy_rest : ProgramHeader → Result (Unit {0}) × S → Result (Unit {0}) × S
  copy_rest ph (err e, s) = (err e, s)
  copy_rest ph (ok tt, s) =
      if ltb ph.filesz ph.memsz
      then copy (add32 ph.vaddr ph.filesz) none (sub32 ph.memsz ph.filesz) (is_writable ph) s
      else (ok tt, s)

  abbrev pub copy_segment : ProgramHeader → S → Result (Unit {0}) × S
  copy_segment ph s = copy_rest ph (copy ph.vaddr (some ph.offset) ph.filesz (is_writable ph) s)

  abbrev pub if_copied :
      Result (Unit {0}) × S → (S → Option (Result (ℕ × ℕ)) × S) → Option (Result (ℕ × ℕ)) × S
  if_copied (err e, s) f = (some (err e), s)
  if_copied (ok tt, s) f = f s

  -- The rounds over the program headers, `left` of them from `offset` on.
  unfoldable pub segment_loop : ℕ → List ℕ → ℕ → ℕ → ℕ → ℕ → Image → S → Option (Result (ℕ × ℕ)) × S
  segment_loop zero buf min_addr max_addr entry offset image s = (some (image_of entry image), s)
  segment_loop (suc left) buf min_addr max_addr entry offset image s =
      elim (file_window buf offset program_header_size) [
        | none ↦ (none, s)
        | some bytes ↦
            let ph = program_header_of bytes in
            let next = add32 offset program_header_size in
            elim (is_skipped ph) [
              | true ↦ segment_loop left buf min_addr max_addr entry next image s
              | false ↦ elim (is_outside (length buf) min_addr max_addr ph) [
                | true ↦ (some (err invalid_arg), s)
                | false ↦ if_copied (copy_segment ph s) (
                    segment_loop left buf min_addr max_addr entry next
                      (with_segment entry ph image))
              ]
            ]
      ]

  unfoldable pub elf_load : List ℕ → ℕ → ℕ → S → Option (Result (ℕ × ℕ)) × S
  elf_load buf min_addr max_addr s = elim (elf_validate_header buf) [
    | none ↦ (none, s)
    | some (err e) ↦ (some (err e), s)
    | some (ok h) ↦ segment_loop h.phnum buf min_addr max_addr h.entry h.phoff (min_addr, false) s
  ]

-- In task_load, the break behind the image.
abbrev pub page_size : ℕ
page_size = 4096

abbrev pub set_image : ℕ → Task → Task
set_image image_end t =
    let start = add32 image_end (page_size - 1) / page_size * page_size in
    record t { brk_start = start; brk = start }
